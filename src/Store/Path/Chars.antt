-- ===== src/Store/Path/Chars.antt =====
-- The characters of a text that is a path.
use doozer.Common.{
  ℕ, ◌==◌, true, false, Bytes, [], ◌∷◌, All, false≢true, Bool-cases, ◌≡◌, refl, sym, ◌∙◌, inl, inr,
  arith,
}
use doozer.Store.Path.{is_path_char, slash, in_component, at_component, is_path}

-- Not the byte that separates a path from a body.
abbrev pub NoEquals : ℕ → Type 0
NoEquals c = (c == b'=') ≡ false

char-NoEquals : (c : ℕ) → is_path_char c ≡ true → NoEquals c
char-NoEquals c h = ground arith

slash-NoEquals : (c : ℕ) → (c == slash) ≡ true → NoEquals c
slash-NoEquals c h = ground arith

at-in_component : (s : Bytes) → at_component s ≡ true → in_component s ≡ true
unfolding in_component at_component
at-in_component [] h = absurd (false≢true h)
at-in_component (c ∷ s) h = ground arith

in_component-cons :
    (c : ℕ) (s : Bytes) → in_component (c ∷ s) ≡ true → NoEquals c × (in_component s ≡ true)
unfolding in_component
in_component-cons c s h = elim (Bool-cases (c == slash)) [
  | inl e ↦ (slash-NoEquals c e, at-in_component s (sym (rw e refl) ∙ h))
  | inr e ↦ (ground (arith, char-NoEquals c), ground arith)
]

in_component-NoEquals : (s : Bytes) → in_component s ≡ true → All NoEquals s
in_component-NoEquals [] h = tt
in_component-NoEquals (c ∷ s) h =
    let (first, rest) = in_component-cons c s h in (first, in_component-NoEquals s rest)

path-first : (c : ℕ) (s : Bytes) → is_path (c ∷ s) ≡ true → (c == slash) ≡ true
unfolding is_path
path-first c [] h = h
path-first c (d ∷ s) h = ground arith

path-rest : (c d : ℕ) (s : Bytes) → is_path (c ∷ d ∷ s) ≡ true → at_component (d ∷ s) ≡ true
unfolding is_path
path-rest c d s h = ground arith

pub path-NoEquals : (s : Bytes) → is_path s ≡ true → All NoEquals s
path-NoEquals [] h = tt
path-NoEquals (c ∷ []) h = (slash-NoEquals c (path-first c [] h), tt)
path-NoEquals (c ∷ d ∷ s) h = (
  slash-NoEquals c (path-first c (d ∷ s) h),
  in_component-NoEquals (d ∷ s) (at-in_component (d ∷ s) (path-rest c d s h)),
)
