-- ===== src/Common/Words.antt =====
-- Equality of byte strings as a test.
use mathlib.Core.Path.{◌≡◌, refl, sym, ◌∙◌}
use mathlib.Core.Logic.{◌↔◌, inl, inr}
use mathlib.Core.Bool.{Bool, true, false, false≢true, ◌&&◌}
use mathlib.Core.List.{List, [], ◌∷◌}
use native.Mathlib.Omega.{arith}
use doozer.Common.Tests.{◌==◌, Bool-cases}
use doozer.Common.Lists.{Bytes, In, here, there, In-cons}

unfoldable pub bytes_eq : Bytes → Bytes → Bool
bytes_eq [] [] = true
bytes_eq (a ∷ s) (b ∷ t) = a == b && bytes_eq s t
bytes_eq _ _ = false

pub bytes_eq_sound : (s t : Bytes) → bytes_eq s t ≡ true → s ≡ t
unfolding bytes_eq
bytes_eq_sound [] [] h = refl
bytes_eq_sound [] (b ∷ t) h = cc
bytes_eq_sound (a ∷ s) [] h = cc
bytes_eq_sound (a ∷ s) (b ∷ t) h = ground (arith, bytes_eq_sound s t)

pub bytes_eq_refl : (s : Bytes) → bytes_eq s s ≡ true
unfolding bytes_eq
bytes_eq_refl [] = refl
bytes_eq_refl (a ∷ s) = ground (arith, bytes_eq_refl s)

pub bytes_eq_iff : (s t : Bytes) → (bytes_eq s t ≡ true) ↔ (s ≡ t)
bytes_eq_iff s t = (bytes_eq_sound s t, λ e. rw e (bytes_eq_refl t))

bytes_dec : (a b : Bytes) → Dec (a ≡ b)
unfolding bytes_eq Bool-cases
bytes_dec a b = elim (Bool-cases (bytes_eq a b)) [
  | inl e ↦ yes ((bytes_eq_iff a b).0 e)
  | inr n ↦ no (λ p. false≢true (sym n ∙ (bytes_eq_iff a b).1 p))
]

unfoldable pub dec_in : (a : Bytes) (xs : List Bytes) → Dec (In a xs)
unfolding bytes_dec
dec_in a [] = no (λ i. elim i [ ])
dec_in a (x ∷ xs) = elim (bytes_dec a x) [
  | yes e ↦ yes (rw e here)
  | no n ↦ elim (dec_in a xs) [
    | yes i ↦ yes (there i)
    | no m ↦ no (λ i. elim (In-cons i) [ inl e ↦ n e | inr j ↦ m j ])
  ]
]
