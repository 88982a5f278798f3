-- ===== src/Common/Distinct.antt =====
-- Lists without repetition, and the pigeonhole that makes two majorities meet.
use doozer.Common.Lists.{In, here, there, In-append, length, length-append}
use Prim.Native.Nat.{suc, ◌+◌, ◌≤◌, ◌<◌}
use mathlib.Core.Path.{◌≡◌, refl}
use mathlib.Core.Logic.{◌⊎◌, inl, inr}
use mathlib.Core.List.{List, [], ◌∷◌, ◌++◌}
use native.Mathlib.Omega.{arith}

module _ {ℓ} {A : Type ℓ} where
  abbrev pub IsDistinct : List A → Type ℓ
  IsDistinct [] = Unit
  IsDistinct (x ∷ xs) = ¬ In x xs × IsDistinct xs

  -- The list without the one place.
  without : {a : A} {xs : List A} → In a xs → List A
  without (here {xs = r}) = r
  without (there {b = b} i) = b ∷ without i

  length-without : {a : A} {xs : List A} (i : In a xs) → length xs ≡ suc (length (without i))
  unfolding without
  length-without here = refl
  length-without (there i) = omega (arith, length-without i)

  In-without : {a b : A} {xs : List A} (i : In a xs) → In b xs → (b ≡ a) ⊎ In b (without i)
  unfolding without
  In-without here here = inl refl
  In-without here (there j) = inr j
  In-without (there i) here = inr here
  In-without (there i) (there j) = elim (In-without i j) [ inl e ↦ inl e | inr k ↦ inr (there k) ]

  pub length-le-of_subset :
      (xs us : List A) → IsDistinct xs → ((a : A) → In a xs → In a us) → length xs ≤ length us
  length-le-of_subset [] us d h = omega arith
  length-le-of_subset (x ∷ xs) us d h =
      let i = h x here in
      omega (arith, length-without i, length-le-of_subset xs (without i) d.1 (λ a j. step i a j))
    where
      step : (i : In x us) (a : A) → In a xs → In a (without i)
      step i a j = elim (In-without i (h a (there j))) [
        | inl e ↦ absurd (d.0 (rw (← e) j))
        | inr k ↦ k
      ]

  IsDistinct-append :
      (xs ys : List A)
      → IsDistinct xs
      → IsDistinct ys
      → ((a : A) → In a xs → ¬ In a ys)
      → IsDistinct (xs ++ ys)
  IsDistinct-append [] ys dx dy h = dy
  IsDistinct-append (x ∷ xs) ys dx dy h = (
    λ i. elim (In-append xs i) [ inl j ↦ dx.0 j | inr j ↦ h x here j ],
    IsDistinct-append xs ys dx.1 dy (λ a j. h a (there j)),
  )

  module _ (dec : (a : A) (xs : List A) → Dec (In a xs)) where
    shared_or_apart :
        (xs ys : List A) → ((a : A) × In a xs × In a ys) ⊎ ((a : A) → In a xs → ¬ In a ys)
    shared_or_apart [] ys = inr (λ a i. elim i [ ])
    shared_or_apart (x ∷ xs) ys = elim (dec x ys) [
      | yes j ↦ inl (x, here, j)
      | no n ↦ elim (shared_or_apart xs ys) [
        | inl (a, i, j) ↦ inl (a, there i, j)
        | inr h ↦ inr (apart n h)
      ]
    ]
      where
        apart : ¬ In x ys → ((a : A) → In a xs → ¬ In a ys) → (a : A) → In a (x ∷ xs) → ¬ In a ys
        apart n h a here = n
        apart n h a (there i) = h a i

    -- Two lists of different members of `us` that are together longer than `us` share a member.
    pub quorums_meet :
        (us xs ys : List A)
        → IsDistinct xs
        → IsDistinct ys
        → ((a : A) → In a xs → In a us)
        → ((a : A) → In a ys → In a us)
        → length us < length xs + length ys
        → (a : A) × In a xs × In a ys
    quorums_meet us xs ys dx dy sx sy h = elim (shared_or_apart xs ys) [
      | inl w ↦ w
      | inr n ↦ absurd (
          omega (
            arith,
            length-append xs ys,
            length-le-of_subset (xs ++ ys) us (IsDistinct-append xs ys dx dy n)
                (λ a i. elim (In-append xs i) [ inl j ↦ sx a j | inr j ↦ sy a j ]),
          ))
    ]
