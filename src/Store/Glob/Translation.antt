-- ===== src/Store/Glob/Translation.antt =====
-- The translation of a glob, read by the regular expression compiler, is the glob's meaning.
use doozer.Common.{
  ℕ, ◌==◌, ==_iff, Bool, true, false, ◌&&◌, ◌||◌, Bytes, codes, List, [], ◌∷◌, ◌++◌, append_assoc,
  All, some, if◌then◌else◌, if_cases, Bool-cases, inl, inr, ◌≡◌, refl, sym, ap, ◌∙◌, arith,
}
use mathlib.Core.List.{append-nil}
use doozer.Store.Path.{is_path_char, slash}
use doozer.Store.Glob.Regexp.{
  Atom, lit, other_than, any, Item, one, many, fresh, failed, after, begin, next, emit, scan,
  is_punctuation,
}
use doozer.Store.Glob.Meaning.{Token, char, ask, star, double, single, tokens}
use doozer.Store.Glob.{
  is_glob_char, is_glob, in_part, at_part, is_escaped, translate_char, translate_from, join_back,
}

abbrev pub item : Token → Item
item (char c) = one (lit c)
item ask = one (other_than b'/')
item star = many (other_than b'/')
item double = many any

abbrev pub items : List Token → List Item
items [] = []
items (t ∷ ts) = item t ∷ items ts

-- A token's regular expression, and that of a pattern with the end of the text.
abbrev pub text : Token → Bytes
text (char c) = if is_escaped c then b'\\' ∷ c ∷ [] else c ∷ []
text ask = codes "[^/]"
text star = codes "[^/]*"
text double = codes ".*"

abbrev pub texts : List Token → Bytes
texts [] = []
texts (t ∷ ts) = text t ++ texts ts

module _ (c : ℕ) (outs : List Bytes) where
  translate_char-star :
      (c == b'*') ≡ true → translate_char c (outs, false) ≡ (codes "[^/]*" ∷ outs, true)
  unfolding translate_char
  translate_char-star h = rw h

  translate_char-double :
      (o : Bytes)
      → (c == b'*') ≡ true
      → translate_char c (o ∷ outs, true) ≡ ([] ∷ codes ".*" ∷ outs, false)
  unfolding translate_char
  translate_char-double o h = rw h

  translate_char-other :
      (b : Bool)
      → (c == b'*') ≡ false
      → translate_char c (outs, b) ≡ (text (single c) ∷ outs, false)
  unfolding translate_char
  translate_char-other b h = elim (Bool-cases (c == b'?')) [
    | inl e ↦ rw (h, e)
    | inr e ↦ rw (h, e) (ground arith)
  ]

tokens-other : (c : ℕ) (s : Bytes) → (c == b'*') ≡ false → tokens (c ∷ s) ≡ single c ∷ tokens s
unfolding tokens
tokens-other c [] h = refl
tokens-other c (d ∷ s) h = rw h

tokens-double : (c : ℕ) (s : Bytes) → (c == b'*') ≡ true → tokens (b'*' ∷ c ∷ s) ≡ double ∷ tokens s
unfolding tokens
tokens-double c s h = rw h

tokens-star :
    (c : ℕ) (s : Bytes) → (c == b'*') ≡ false → tokens (b'*' ∷ c ∷ s) ≡ star ∷ tokens (c ∷ s)
unfolding tokens
tokens-star c s h = rw h

-- After a star the last part is its text, and it may still become that of two stars.
mutual
  unfolding translate_from join_back tokens

  pub translate_from-texts :
      (outs : List Bytes) (s : Bytes)
      → join_back (translate_from (outs, false) s) ≡ join_back outs ++ texts (tokens s)
  translate_from-texts outs [] = sym (append-nil (join_back outs))
  translate_from-texts outs (c ∷ s) = elim (Bool-cases (c == b'*')) [
    | inl e ↦
        ap (λ st. join_back (translate_from st s)) (translate_char-star c outs e)
        ∙ (translate_star-texts outs s
            ∙ ap (λ d. join_back outs ++ texts (tokens (d ∷ s))) (sym ((==_iff c b'*').0 e)))
    | inr e ↦
        ap (λ st. join_back (translate_from st s)) (translate_char-other c outs false e)
        ∙ (translate_from-texts (text (single c) ∷ outs) s
            ∙ (append_assoc (join_back outs) (text (single c)) (texts (tokens s))
                ∙ ap (λ ts. join_back outs ++ texts ts) (sym (tokens-other c s e))))
  ]

  translate_star-texts :
      (outs : List Bytes) (s : Bytes)
      → join_back (translate_from (codes "[^/]*" ∷ outs, true) s)
        ≡ join_back outs ++ texts (tokens (b'*' ∷ s))
  translate_star-texts outs [] = refl
  translate_star-texts outs (c ∷ s) = elim (Bool-cases (c == b'*')) [
    | inl e ↦
        ap (λ st. join_back (translate_from st s)) (translate_char-double c outs (codes "[^/]*") e)
        ∙ (translate_from-texts ([] ∷ codes ".*" ∷ outs) s
            ∙ (ap (λ p. p ++ texts (tokens s)) (append-nil (join_back outs ++ codes ".*"))
                ∙ (append_assoc (join_back outs) (codes ".*") (texts (tokens s))
                    ∙ ap (λ ts. join_back outs ++ texts ts) (sym (tokens-double c s e)))))
    | inr e ↦
        ap (λ st. join_back (translate_from st s))
          (translate_char-other c (codes "[^/]*" ∷ outs) true e)
        ∙ (translate_from-texts (text (single c) ∷ codes "[^/]*" ∷ outs) s
            ∙ (append_assoc (join_back outs ++ codes "[^/]*") (text (single c)) (texts (tokens s))
                ∙ (append_assoc (join_back outs) (codes "[^/]*")
                      (text (single c) ++ texts (tokens s))
                    ∙ (ap (λ ts. join_back outs ++ (codes "[^/]*" ++ texts ts))
                          (sym (tokens-other c s e))
                        ∙ ap (λ ts. join_back outs ++ texts ts) (sym (tokens-star c s e))))))
  ]

-- The characters of a glob that are not stars or question marks.
abbrev pub IsPlain : ℕ → Type 0
IsPlain c = (is_path_char c || c == slash) ≡ true

abbrev pub WellFormed : Token → Type 0
WellFormed (char c) = IsPlain c
WellFormed _ = Unit

-- A byte other than a star completes the atom before it.
scan-after :
    (a : Atom) (c : ℕ) (s : Bytes)
    → (c == b'*') ≡ false
    → scan (after a) (c ∷ s) ≡ emit (one a ∷ []) (scan fresh (c ∷ s))
unfolding scan next
scan-after a c s h = rw h

data Unstarred : Bytes → Type 0 where
  unstarred : (c : ℕ) (s : Bytes) → (c == b'*') ≡ false → Unstarred (c ∷ s)

plain_star : (c : ℕ) → IsPlain c → (c == b'*') ≡ false
plain_star c h = ground arith

texts-Unstarred : (ts : List Token) → All WellFormed ts → Unstarred (texts ts ++ codes "$")
texts-Unstarred [] h = unstarred b'$' [] refl
texts-Unstarred (char c ∷ ts) (h, hs) = elim (Bool-cases (is_escaped c)) [
  | inl e ↦ rw e (unstarred _ _ refl)
  | inr e ↦ rw e (unstarred c _ (plain_star c h))
]
texts-Unstarred (ask ∷ ts) h = unstarred _ _ refl
texts-Unstarred (star ∷ ts) h = unstarred _ _ refl
texts-Unstarred (double ∷ ts) h = unstarred _ _ refl

after-Unstarred :
    (a : Atom) (s : Bytes) → Unstarred s → scan (after a) s ≡ emit (one a ∷ []) (scan fresh s)
after-Unstarred a _ (unstarred c s h) = scan-after a c s h

escaped-is_punctuation : (c : ℕ) → is_escaped c ≡ true → is_punctuation c ≡ true
escaped-is_punctuation c h = ground arith

begin-plain : (c : ℕ) → IsPlain c → is_escaped c ≡ false → begin c ≡ after (lit c)
begin-plain c h e = ground arith

scan-char :
    (c : ℕ) (s : Bytes) → IsPlain c → scan fresh (text (char c) ++ s) ≡ scan (after (lit c)) s
unfolding scan next
scan-char c s h = elim (Bool-cases (is_escaped c)) [
  | inl e ↦
      ap (λ b. scan fresh ((if b then b'\\' ∷ c ∷ [] else c ∷ []) ++ s)) e
      ∙ ap (λ b. scan (if b then after (lit c) else failed) s) (escaped-is_punctuation c e)
  | inr e ↦
      ap (λ b. scan fresh ((if b then b'\\' ∷ c ∷ [] else c ∷ []) ++ s)) e
      ∙ ap (λ st. scan st s) (begin-plain c h e)
]

scan-ask : (s : Bytes) → scan fresh (text ask ++ s) ≡ scan (after (other_than b'/')) s
unfolding scan next
scan-ask s = refl

scan-star :
    (s : Bytes) → scan fresh (text star ++ s) ≡ emit (many (other_than b'/') ∷ []) (scan fresh s)
unfolding scan next
scan-star s = refl

scan-double : (s : Bytes) → scan fresh (text double ++ s) ≡ emit (many any ∷ []) (scan fresh s)
unfolding scan next
scan-double s = refl

-- The compiler reads the items of the tokens.
pub scan-texts :
    (ts : List Token) → All WellFormed ts → scan fresh (texts ts ++ codes "$") ≡ some (items ts)
scan-texts [] h = unfold scan in refl
scan-texts (char c ∷ ts) (h, hs) =
    ap (scan fresh) (append_assoc (text (char c)) (texts ts) (codes "$"))
    ∙ (scan-char c (texts ts ++ codes "$") h
        ∙ (after-Unstarred (lit c) (texts ts ++ codes "$") (texts-Unstarred ts hs)
            ∙ ap (emit (one (lit c) ∷ [])) (scan-texts ts hs)))
scan-texts (ask ∷ ts) (h, hs) =
    scan-ask (texts ts ++ codes "$")
    ∙ (after-Unstarred (other_than b'/') (texts ts ++ codes "$") (texts-Unstarred ts hs)
        ∙ ap (emit (one (other_than b'/') ∷ [])) (scan-texts ts hs))
scan-texts (star ∷ ts) (h, hs) =
    scan-star (texts ts ++ codes "$") ∙ ap (emit (many (other_than b'/') ∷ [])) (scan-texts ts hs)
scan-texts (double ∷ ts) (h, hs) =
    scan-double (texts ts ++ codes "$") ∙ ap (emit (many any ∷ [])) (scan-texts ts hs)

-- The characters of a pattern that passes the check.
abbrev pub Glyph : ℕ → Type 0
Glyph c = (is_glob_char c || c == slash) ≡ true

at-in_part : (s : Bytes) → at_part s ≡ true → in_part s ≡ true
unfolding in_part at_part
at-in_part [] h = cc
at-in_part (c ∷ s) h = ground arith

in_part-Glyph : (s : Bytes) → in_part s ≡ true → All Glyph s
unfolding in_part at_part
in_part-Glyph [] h = tt
in_part-Glyph (c ∷ s) h = elim (Bool-cases (c == slash)) [
  | inl e ↦ (ground arith, in_part-Glyph s (at-in_part s (ground arith)))
  | inr e ↦ (ground arith, in_part-Glyph s (ground arith))
]

pub is_glob-Glyph : (s : Bytes) → is_glob s ≡ true → All Glyph s
unfolding is_glob
is_glob-Glyph [] h = tt
is_glob-Glyph (c ∷ []) h = (ground arith, tt)
is_glob-Glyph (c ∷ d ∷ s) h =
    (ground arith, in_part-Glyph (d ∷ s) (at-in_part (d ∷ s) (ground arith)))

single-WellFormed : (c : ℕ) → Glyph c → WellFormed (single c)
single-WellFormed c h =
    if_cases WellFormed (c == b'*') (λ e. tt)
      λ e. if_cases WellFormed (c == b'?') (λ f. tt) (λ f. ground arith)

pub tokens-WellFormed : (s : Bytes) → All Glyph s → All WellFormed (tokens s)
unfolding tokens
tokens-WellFormed [] h = tt
tokens-WellFormed (c ∷ []) (h, hs) = (single-WellFormed c h, tt)
tokens-WellFormed (c ∷ d ∷ s) (h, (k, hs)) =
    if_cases (All WellFormed) (c == b'*' && d == b'*') (λ e. (tt, tokens-WellFormed s hs))
      (λ e. (single-WellFormed c h, tokens-WellFormed (d ∷ s) (k, hs)))
