-- ===== src/Common/Assoc.antt =====
-- Go maps as association lists. A key is compared by the test of an instance.
use Prim.Native.Nat.{suc, ◌≤◌}
use mathlib.Core.Path.{◌≡◌, refl, sym, ◌∙◌}
use mathlib.Core.Logic.{◌↔◌, ◌⊎◌, inl, inr}
use mathlib.Core.Bool.{Bool, true, false≢true}
use mathlib.Core.Option.{Option, none, some}
use mathlib.Core.List.{List, [], ◌∷◌}
use native.Mathlib.Omega.{arith}
use doozer.Common.Tests.{if◌then◌else◌, if_cases}
use doozer.Common.Lists.{Bytes, length, In, here, there, In-cons}
use doozer.Common.Distinct.{IsDistinct}
use doozer.Common.Int.{ℤ, eqb_ℤ, eqb_ℤ_iff}
use doozer.Common.Words.{bytes_eq, bytes_eq_iff}

pub record Eq {ℓ} (K : Type ℓ) : Type ℓ where
  pub beq : K → K → Bool
  pub beq_iff : (a b : K) → (beq a b ≡ true) ↔ (a ≡ b)

instance abbrev pub bytes_key : Eq Bytes
bytes_key = record { beq = bytes_eq; beq_iff = bytes_eq_iff }

instance abbrev pub int_key : Eq ℤ
int_key = record { beq = eqb_ℤ; beq_iff = eqb_ℤ_iff }

module _ {ℓ κ} {K : Type ℓ} {V : Type κ} ⦃e : Eq K⦄ where
  unfoldable pub lookup : K → List (K × V) → Option V
  lookup k [] = none
  lookup k ((j, v) ∷ m) = if e.beq j k then some v else lookup k m

  -- `m[k] = v`
  unfoldable pub insert : K → V → List (K × V) → List (K × V)
  insert k v [] = (k, v) ∷ []
  insert k v ((j, w) ∷ m) = if e.beq j k then (k, v) ∷ m else (j, w) ∷ insert k v m

  -- `m[k] = v, false`
  unfoldable pub erase : K → List (K × V) → List (K × V)
  erase k [] = []
  erase k ((j, v) ∷ m) = let rest = erase k m in if e.beq j k then rest else (j, v) ∷ rest

  pub lookup-insert :
      (k j : K) (v : V) (m : List (K × V))
      → lookup j (insert k v m) ≡ (if e.beq k j then some v else lookup j m)
  unfolding lookup insert
  lookup-insert k j v [] = refl
  lookup-insert k j v ((i, w) ∷ m) =
      ground (arith, e.beq_iff k j, e.beq_iff i k, e.beq_iff i j, lookup-insert k j v m)

  pub lookup-inserted : (k : K) (v : V) (m : List (K × V)) → lookup k (insert k v m) ≡ some v
  lookup-inserted k v m = lookup-insert k k v m ∙ rw ((e.beq_iff k k).1 refl) refl

  pub lookup-erase :
      (k j : K) (m : List (K × V)) → lookup j (erase k m) ≡ (if e.beq k j then none else lookup j m)
  unfolding lookup erase
  lookup-erase k j [] = ground arith
  lookup-erase k j ((i, v) ∷ m) =
      ground (arith, e.beq_iff k j, e.beq_iff i k, e.beq_iff i j, lookup-erase k j m)

  -- The keys, in the order of the list.
  abbrev pub keys : List (K × V) → List K
  keys [] = []
  keys ((j, v) ∷ m) = j ∷ keys m

  pub length-keys : (m : List (K × V)) → length (keys m) ≡ length m
  length-keys [] = refl
  length-keys ((j, v) ∷ m) = omega (arith, length-keys m)

  pub In-keys-insert :
      (k j : K) (v : V) (m : List (K × V)) → In j (keys (insert k v m)) → (j ≡ k) ⊎ In j (keys m)
  unfolding insert
  In-keys-insert k j v [] here = inl refl
  In-keys-insert k j v [] (there i) = elim i [ ]
  In-keys-insert k j v ((i, w) ∷ m) h =
      if_cases (λ (l : List (K × V)). In j (keys l) → (j ≡ k) ⊎ In j (i ∷ keys m)) (e.beq i k)
        (λ s h. elim (In-cons h) [ inl p ↦ inl p | inr h' ↦ inr (there h') ])
        (λ _ h. elim (In-cons h) [
          | inl p ↦ inr (rw p here)
          | inr h' ↦ elim (In-keys-insert k j v m h') [ inl p ↦ inl p | inr q ↦ inr (there q) ]
        ])
        h

  pub IsDistinct-keys-insert :
      (k : K) (v : V) (m : List (K × V)) → IsDistinct (keys m) → IsDistinct (keys (insert k v m))
  unfolding insert
  IsDistinct-keys-insert k v [] d = (λ i. elim i [ ], tt)
  IsDistinct-keys-insert k v ((i, w) ∷ m) d =
      if_cases (λ (l : List (K × V)). IsDistinct (keys l)) (e.beq i k)
        (λ s. rw (← (e.beq_iff i k).0 s) d)
        (λ n. (
          λ h. elim (In-keys-insert k i v m h) [
            | inl p ↦ absurd (false≢true (sym n ∙ (e.beq_iff i k).1 p))
            | inr q ↦ d.0 q
          ],
          IsDistinct-keys-insert k v m d.1,
        ))

  pub length-insert : (k : K) (v : V) (m : List (K × V)) → length (insert k v m) ≤ suc (length m)
  unfolding insert
  length-insert k v [] = omega arith
  length-insert k v ((i, w) ∷ m) =
      if_cases (λ (l : List (K × V)). length l ≤ suc (suc (length m))) (e.beq i k)
        (λ s. omega arith) (λ s. omega (arith, length-insert k v m))

  pub length-erase : (k : K) (m : List (K × V)) → length (erase k m) ≤ length m
  unfolding erase
  length-erase k [] = omega arith
  length-erase k ((i, w) ∷ m) =
      if_cases (λ (l : List (K × V)). length l ≤ suc (length m)) (e.beq i k)
        (λ s. omega (arith, length-erase k m)) (λ s. omega (arith, length-erase k m))
