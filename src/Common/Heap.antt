-- ===== src/Common/Heap.antt =====
-- A heap of package container/heap, as the list of its elements in the order of their keys. Which of
-- two elements with equal keys comes first is open there; here it is the later one.

use mathlib.Core.Path.{◌≡◌}
use mathlib.Core.Logic.{◌⊎◌, inl, inr}
use mathlib.Core.List.{List, [], ◌∷◌}
use native.Mathlib.Omega.{arith}
use doozer.Common.Tests.{if◌then◌else◌, if_cases}
use doozer.Common.Lists.{All, In, here, there, In-cons}
use doozer.Common.Int.{ℤ, ltb_ℤ, ◌≤ℤ◌}

module _ {ℓ} {A : Type ℓ} (key : A → ℤ) where
  -- `heap.Push`.
  unfoldable pub push : A → List A → List A
  push o [] = o ∷ []
  push o (p ∷ os) = let rest = push o os in if ltb_ℤ (key p) (key o) then p ∷ rest else o ∷ p ∷ os

  abbrev pub IsSorted : List A → Type ℓ
  IsSorted [] = Unit
  IsSorted (o ∷ os) = All (λ p. key o ≤ℤ key p) os × IsSorted os

  pub push-In : (o : A) (os : List A) → In o (push o os)
  unfolding push
  push-In o [] = here
  push-In o (p ∷ os) =
      if_cases (In o) (ltb_ℤ (key p) (key o)) (λ e. there (push-In o os)) (λ e. here)

  pub push-In_old : (q o : A) (os : List A) → In q os → In q (push o os)
  unfolding push
  push-In_old q o [] i = elim i [ ]
  push-In_old q o (p ∷ os) here =
      if_cases (In p) (ltb_ℤ (key p) (key o)) (λ e. here) (λ e. there here)
  push-In_old q o (p ∷ os) (there i) =
      if_cases (In q) (ltb_ℤ (key p) (key o)) (λ e. there (push-In_old q o os i))
        (λ e. there (there i))

  pub push-In_inv : (q o : A) (os : List A) → In q (push o os) → (q ≡ o) ⊎ In q os
  unfolding push
  push-In_inv q o [] = λ i. In-cons i
  push-In_inv q o (p ∷ os) =
      if_cases (λ l. In q l → (q ≡ o) ⊎ In q (p ∷ os)) (ltb_ℤ (key p) (key o))
        (λ e i. elim (In-cons i) [
          | inl f ↦ inr (rw f here)
          | inr j ↦ elim (push-In_inv q o os j) [ inl f ↦ inl f | inr k ↦ inr (there k) ]
        ])
        (λ e i. In-cons i)

  module _ {κ} (P : A → Type κ) where
    pub All-push : (o : A) (os : List A) → P o → All P os → All P (push o os)
    unfolding push
    All-push o [] h hs = (h, tt)
    All-push o (p ∷ os) h (k, ks) =
        if_cases (All P) (ltb_ℤ (key p) (key o)) (λ e. (k, All-push o os h ks)) (λ e. (h, (k, ks)))

  All-above :
      (n : ℤ) (o : A) (os : List A)
      → n ≤ℤ key o
      → All (λ p. key o ≤ℤ key p) os
      → All (λ p. n ≤ℤ key p) os
  All-above n o [] h hs = tt
  All-above n o (p ∷ os) h (k, ks) = (omega (arith, h, k), All-above n o os h ks)

  pub IsSorted-above :
      (n : ℤ) (o : A) (os : List A)
      → n ≤ℤ key o
      → IsSorted (o ∷ os)
      → All (λ p. n ≤ℤ key p) (o ∷ os)
  IsSorted-above n o os h (k, ks) = (h, All-above n o os h k)

  pub push-IsSorted : (o : A) (os : List A) → IsSorted os → IsSorted (push o os)
  unfolding push
  push-IsSorted o [] q = (tt, tt)
  push-IsSorted o (p ∷ os) (q, qs) =
      if_cases IsSorted (ltb_ℤ (key p) (key o))
        (λ e. (All-push (λ r. key p ≤ℤ key r) o os (ground arith) q, push-IsSorted o os qs))
        (λ e.
          let le : key o ≤ℤ key p = ground arith in ((le, All-above (key o) p os le q), (q, qs)))
