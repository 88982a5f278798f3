-- ===== src/Store/Path.antt =====
-- Paths: `checkPath`, `split` and `join` of src/pkg/store/store.go.
pub mod Chars
use doozer.Common.{
  ℕ, suc, ◌≤◌, leb, ◌==◌, Bool, true, false, ◌&&◌, ◌||◌, not, Bytes, codes, List, [], ◌∷◌, ◌++◌,
  Option, none, some, if◌then◌else◌, ◌≡◌, refl, arith,
}
use doozer.Store.Error.{Error, bad_path}

-- One character of `charPat`.
abbrev pub is_path_char : ℕ → Bool
is_path_char c =
    (leb b'a' c && leb c b'z')
    || ((leb b'A' c && leb c b'Z') || ((leb b'0' c && leb c b'9') || (c == b'.' || c == b'-')))

abbrev pub slash : ℕ
slash = b'/'

-- Whether the rest of a text is `p*(/p+)*`, after at least one character of a component; at the
-- start of a component the first character is wanted.
mutual
  in_component : Bytes → Bool
  in_component [] = true
  in_component (c ∷ s) =
      let more = in_component s in
      let next = at_component s in if c == slash then next else is_path_char c && more

  at_component : Bytes → Bool
  at_component [] = false
  at_component (c ∷ s) = let more = in_component s in is_path_char c && more

-- The match of `^/$|^(/p+)+$`.
unfoldable pub is_path : Bytes → Bool
unfolding in_component at_component
is_path [] = false
is_path (c ∷ []) = c == slash
is_path (c ∷ s) = c == slash && at_component s

unfoldable pub check_path : Bytes → Option Error
unfolding is_path
check_path k = if not (is_path k) then some (bad_path k) else none

-- A character at the front of the first piece.
abbrev pub into : ℕ → List Bytes → List Bytes
into c [] = (c ∷ []) ∷ []
into c (p ∷ ps) = (c ∷ p) ∷ ps

-- `strings.Split(s, "/", -1)`: the pieces between the slashes, always one or more.
unfoldable pub split_slash : Bytes → List Bytes
split_slash [] = [] ∷ []
split_slash (c ∷ s) = let rest = split_slash s in if c == slash then [] ∷ rest else into c rest

-- `path[1:]` is split. The slice panics at the empty text, which is no path; every caller has checked
-- its path before.
unfoldable pub split : Bytes → List Bytes
unfolding split_slash
split [] = []
split (c ∷ []) = if c == slash then [] else split_slash []
split (c ∷ s) = split_slash s

-- `strings.Join(parts, "/")`.
unfoldable pub join_slash : List Bytes → Bytes
join_slash [] = []
join_slash (p ∷ []) = p
join_slash (p ∷ ps) = p ++ slash ∷ join_slash ps

unfoldable pub join : List Bytes → Bytes
unfolding join_slash
join parts = slash ∷ join_slash parts
