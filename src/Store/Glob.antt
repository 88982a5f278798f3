-- ===== src/Store/Glob.antt =====
-- src/pkg/store/glob.go: globs, which are translated to regular expressions.
pub mod Regexp
pub mod Meaning
pub mod Translation
pub mod Correct
use doozer.Common.{
  ℕ, ◌==◌, Bool, true, false, ◌&&◌, ◌||◌, not, Bytes, codes, List, [], ◌∷◌, ◌++◌, Option, none,
  some, if◌then◌else◌, ◌≡◌, refl,
}
use doozer.Store.Error.{Error, glob_error}
use doozer.Store.Path.{is_path_char, slash}
use doozer.Store.Glob.Regexp.{Item, compile, match}

abbrev pub is_glob_char : ℕ → Bool
is_glob_char c = is_path_char c || (c == b'*' || c == b'?')

-- As for paths, with the characters of globs.
mutual
  in_part : Bytes → Bool
  in_part [] = true
  in_part (c ∷ s) =
      let more = in_part s in
      let next = at_part s in if c == slash then next else is_glob_char c && more

  at_part : Bytes → Bool
  at_part [] = false
  at_part (c ∷ s) = let more = in_part s in is_glob_char c && more

-- The match of `globRe`.
unfoldable pub is_glob : Bytes → Bool
unfolding in_part at_part
is_glob [] = false
is_glob (c ∷ []) = c == slash
is_glob (c ∷ s) = c == slash && at_part s

abbrev pub is_escaped : ℕ → Bool
is_escaped c =
    c == b'.'
    || (c == b'+'
        || (c == b'-'
            || (c == b'^'
                || (c == b'$' || (c == b'[' || (c == b']' || (c == b'(' || c == b')')))))))

-- `outs[i-1] = s`, where the last of `outs` comes first.
abbrev pub set_last : Bytes → List Bytes → List Bytes
set_last s [] = []
set_last s (o ∷ outs) = s ∷ outs

-- The body of the loop: `outs[0:i]` with its last part first, and `double`.
unfoldable pub translate_char : ℕ → List Bytes × Bool → List Bytes × Bool
translate_char c (outs, double) =
    if c == b'*'
    then (if double then [] ∷ set_last (codes ".*") outs else codes "[^/]*" ∷ outs, not double)
    else if c == b'?'
    then (codes "[^/]" ∷ outs, false)
    else if is_escaped c
    then ((b'\\' ∷ c ∷ []) ∷ outs, false)
    else ((c ∷ []) ∷ outs, false)

unfoldable pub translate_from : List Bytes × Bool → Bytes → List Bytes
unfolding translate_char
translate_from st [] = st.0
translate_from st (c ∷ s) = translate_from (translate_char c st) s

-- `strings.Join(outs, "")`, of the parts in reverse.
unfoldable pub join_back : List Bytes → Bytes
join_back [] = []
join_back (o ∷ outs) = join_back outs ++ o

unfoldable pub translate_glob : Bytes → Option Bytes
unfolding is_glob translate_from join_back
translate_glob pat =
    if not (is_glob pat)
    then none
    else some (b'^' ∷ (join_back (translate_from ([], false) pat) ++ codes "$"))

pub record Glob : Type 0 where
  pub pattern : Bytes
  pub s : Bytes
  pub r : List Item

abbrev pub compiled : Bytes → Bytes → Option (List Item) → Option Glob
compiled pat s none = none
compiled pat s (some r) = some (record { pattern = pat; s = s; r = r })

-- `none` is an error: the pattern is bad, or the regular expression is.
unfoldable pub compile_glob : Bytes → Option Glob
unfolding translate_glob compile
compile_glob pat = elim (translate_glob pat) [ none ↦ none | some s ↦ compiled pat s (compile s) ]

unfoldable pub match_glob : Glob → Bytes → Bool
unfolding match
match_glob g path = match g.r path

runs :
    (translate_glob (codes "/a/**/b-*?.x") ≡ some (codes "^/a/.*/b\\-[^/]*[^/]\\.x$"))
    × (translate_glob (codes "/a/***") ≡ some (codes "^/a/.*[^/]*$"))
    × (translate_glob (codes "a") ≡ none)
unfolding translate_glob
runs = (refl, refl, refl)
