-- ===== src/Store/Glob/Correct.antt =====
-- `CompileGlob` and `Match` of src/pkg/store/glob.go against what globs mean.
use doozer.Common.{
  ℕ, ==_iff, Bool, true, false, ◌||◌, ◌&&◌, Bool-cases, inl, inr, Bytes, codes, List, [], ◌∷◌, ◌++◌,
  none, some, ◌≡◌, refl, sym, ap, ◌∙◌, ◌↔◌, ◌⊎◌, subst, arith,
}
use doozer.Store.Glob.Regexp.{Atom, Item, many, other_than, any, scan, compile, accepts, match}
use doozer.Store.Glob.Meaning.{
  Token, char, ask, star, double, tokens, Denotes, empty, itself, asked, star_over, star_char,
  double_over, double_char,
}
use doozer.Store.Glob.Translation.{
  items, texts, scan-texts, tokens-WellFormed, is_glob-Glyph, translate_from-texts,
}
use doozer.Store.Glob.{is_glob, join_back, translate_glob, Glob, compiled, compile_glob, match_glob}

-- What a pattern that passes the check compiles to.
abbrev glob_of : Bytes → Glob
glob_of pat = record {
  pattern = pat;
  s = b'^' ∷ (texts (tokens pat) ++ codes "$");
  r = items (tokens pat);
}

translated :
    (pat : Bytes)
    → is_glob pat ≡ true
    → translate_glob pat ≡ some (b'^' ∷ (texts (tokens pat) ++ codes "$"))
unfolding translate_glob join_back
translated pat h = rw (h, translate_from-texts [] pat)

compile-texts :
    (pat : Bytes)
    → is_glob pat ≡ true
    → compile (b'^' ∷ (texts (tokens pat) ++ codes "$")) ≡ some (items (tokens pat))
unfolding compile scan
compile-texts pat h = scan-texts (tokens pat) (tokens-WellFormed pat (is_glob-Glyph pat h))

compile-some :
    (pat s : Bytes) → translate_glob pat ≡ some s → compile_glob pat ≡ compiled pat s (compile s)
unfolding compile_glob
compile-some pat s h = rw (compile_glob, h)

compile_glob-glob_of : (pat : Bytes) → is_glob pat ≡ true → compile_glob pat ≡ some (glob_of pat)
compile_glob-glob_of pat h =
    let s : Bytes = b'^' ∷ (texts (tokens pat) ++ codes "$") in
    compile-some pat s (translated pat h) ∙ ap (compiled pat s) (compile-texts pat h)

compile_glob-bad : (pat : Bytes) → is_glob pat ≡ false → compile_glob pat ≡ none
unfolding compile_glob translate_glob
compile_glob-bad pat h = rw (compile_glob, translate_glob, h)

match-Denotes : (ts : List Token) (s : Bytes) → match (items ts) s ≡ true → Denotes ts s
unfolding match accepts
match-Denotes [] [] h = empty
match-Denotes [] (c ∷ s) h = cc
match-Denotes (char c ∷ ts) [] h = cc
match-Denotes (char c ∷ ts) (d ∷ s) h =
    let e : d ≡ c = ground (arith, ==_iff d c) in
    subst (λ x. Denotes (char c ∷ ts) (x ∷ s)) (sym e) (itself (match-Denotes ts s (ground arith)))
match-Denotes (ask ∷ ts) [] h = cc
match-Denotes (ask ∷ ts) (d ∷ s) h = asked (ground arith) (match-Denotes ts s (ground arith))
match-Denotes (star ∷ ts) [] h = star_over (match-Denotes ts [] h)
match-Denotes (star ∷ ts) (d ∷ s) h = elim (Bool-cases (match (items ts) (d ∷ s))) [
  | inl e ↦ star_over (match-Denotes ts (d ∷ s) e)
  | inr e ↦ star_char (ground arith) (match-Denotes (star ∷ ts) s (ground arith))
]
match-Denotes (double ∷ ts) [] h = double_over (match-Denotes ts [] h)
match-Denotes (double ∷ ts) (d ∷ s) h = elim (Bool-cases (match (items ts) (d ∷ s))) [
  | inl e ↦ double_over (match-Denotes ts (d ∷ s) e)
  | inr e ↦ double_char (match-Denotes (double ∷ ts) s (ground arith))
]

or_left : (a b : Bool) → a ≡ true → (a || b) ≡ true
or_left a b h = ground arith

or_right : (a b : Bool) → b ≡ true → (a || b) ≡ true
or_right a b h = ground arith

over : (a : Atom) (p : List Item) (s : Bytes) → match p s ≡ true → match (many a ∷ p) s ≡ true
unfolding match
over a p [] h = h
over a p (c ∷ s) h = or_left _ _ h

more :
    (a : Atom) (p : List Item) (c : ℕ) (s : Bytes)
    → accepts a c ≡ true
    → match (many a ∷ p) s ≡ true
    → match (many a ∷ p) (c ∷ s) ≡ true
unfolding match
more a p c s e h = or_right (match p (c ∷ s)) (accepts a c && match (many a ∷ p) s) (rw (e, h))

Denotes-match : {ts : List Token} {s : Bytes} → Denotes ts s → match (items ts) s ≡ true
unfolding match accepts
Denotes-match empty = refl
Denotes-match (itself {c} d) = rw ((==_iff c c).1 refl, Denotes-match d)
Denotes-match (asked e d) = rw (e, Denotes-match d)
Denotes-match {ts = star ∷ ts} {s} (star_over d) =
    over (other_than b'/') (items ts) s (Denotes-match d)
Denotes-match (star_char {c} {ts} {s} e d) =
    more (other_than b'/') (items ts) c s (rw e refl) (Denotes-match d)
Denotes-match {ts = double ∷ ts} {s} (double_over d) = over any (items ts) s (Denotes-match d)
Denotes-match (double_char {c} {ts} {s} d) = more any (items ts) c s refl (Denotes-match d)

-- A pattern that fails the check does not compile; any other compiles, and its glob matches exactly
-- the paths that the pattern denotes.
pub compile_glob-Denotes :
    (pat path : Bytes)
    → ((is_glob pat ≡ false) × (compile_glob pat ≡ none))
      ⊎ ((g : Glob) × (compile_glob pat ≡ some g)
          × ((match_glob g path ≡ true) ↔ Denotes (tokens pat) path))
unfolding match_glob
compile_glob-Denotes pat path = elim (Bool-cases (is_glob pat)) [
  | inl h ↦
      inr
        (glob_of pat, compile_glob-glob_of pat h, (match-Denotes (tokens pat) path, Denotes-match))
  | inr h ↦ inl (h, compile_glob-bad pat h)
]
