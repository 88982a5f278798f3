-- ===== src/Common/Lists.antt =====
-- Lists measured by native numbers, membership as a Boolean free relation, and predicates on lists.
use Prim.Native.Nat.{ℕ, zero, suc, ◌+◌}
use Prim.Native.Char.{code}
use Prim.Native.String.{String}
use mathlib.Core.Path.{◌≡◌, refl}
use mathlib.Core.Logic.{◌⊎◌, inl, inr}
use mathlib.Core.List.{List, [], ◌∷◌, ◌++◌, map}
use mathlib.Core.Option.{Option, none, some}
use native.Mathlib.Omega.{arith}

-- A Go string, or a slice of bytes.
abbrev pub Bytes : Type 0
Bytes = List ℕ

-- The bytes of a text that is ASCII.
abbrev pub codes : String → Bytes
codes String.[] = []
codes (String.◌∷◌ c s) = code c ∷ codes s

abbrev pub to_list {ℓ} : {A : Type ℓ} → Option A → List A
to_list none = []
to_list (some a) = a ∷ []

module _ {ℓ} {A : Type ℓ} where
  abbrev pub length : List A → ℕ
  length [] = 0
  length (x ∷ xs) = suc (length xs)

  abbrev pub get_elem? : List A → ℕ → Option A
  get_elem? [] i = none
  get_elem? (x ∷ xs) zero = some x
  get_elem? (x ∷ xs) (suc i) = get_elem? xs i

  pub length-append : (xs ys : List A) → length (xs ++ ys) ≡ length xs + length ys
  length-append [] ys = omega arith
  length-append (x ∷ xs) ys = omega (arith, length-append xs ys)

  -- Membership with its position kept, so that it can be matched in any proof.
  pub data In (a : A) : List A → Type ℓ where
    here : {xs : List A} → In a (a ∷ xs)
    there : {b : A} {xs : List A} → In a xs → In a (b ∷ xs)

  pub In-cons : {a b : A} {xs : List A} → In a (b ∷ xs) → (a ≡ b) ⊎ In a xs
  In-cons here = inl refl
  In-cons (there i) = inr i

  pub In-append_left : {a : A} {xs : List A} (ys : List A) → In a xs → In a (xs ++ ys)
  In-append_left ys here = here
  In-append_left ys (there i) = there (In-append_left ys i)

  pub In-append_right : {a : A} (xs : List A) {ys : List A} → In a ys → In a (xs ++ ys)
  In-append_right [] i = i
  In-append_right (x ∷ xs) i = there (In-append_right xs i)

  pub In-append : {a : A} (xs : List A) {ys : List A} → In a (xs ++ ys) → In a xs ⊎ In a ys
  In-append [] i = inr i
  In-append (x ∷ xs) here = inl here
  In-append (x ∷ xs) (there i) = elim (In-append xs i) [ inl l ↦ inl (there l) | inr r ↦ inr r ]

  pub get_elem?-In : (xs : List A) (i : ℕ) {a : A} → get_elem? xs i ≡ some a → In a xs
  get_elem?-In [] i h = cc
  get_elem?-In (x ∷ xs) zero h = rw (some-inj h) here
    where
      some-inj : {a : A} → some x ≡ some a → a ≡ x
      some-inj e = cc
  get_elem?-In (x ∷ xs) (suc i) h = there (get_elem?-In xs i h)

module _ {ℓ κ} {A : Type ℓ} (P : A → Type κ) where
  abbrev pub All : List A → Type κ
  All [] = Unit
  All (x ∷ xs) = P x × All xs

  pub All-In : {a : A} {xs : List A} → All xs → In a xs → P a
  All-In h here = h.0
  All-In h (there i) = All-In h.1 i

module _ {ℓ κ} {A : Type ℓ} {B : Type κ} (f : A → B) where
  pub In-map : {a : A} {xs : List A} → In a xs → In (f a) (map f xs)
  unfolding map
  In-map here = here
  In-map (there i) = there (In-map i)

  pub In-map_inv : {b : B} (xs : List A) → In b (map f xs) → (a : A) × In a xs × (b ≡ f a)
  unfolding map
  In-map_inv [] i = elim i [ ]
  In-map_inv (x ∷ xs) i = elim (In-cons i) [
    | inl e ↦ (x, here, e)
    | inr j ↦ let (a, k, e) = In-map_inv xs j in (a, there k, e)
  ]
