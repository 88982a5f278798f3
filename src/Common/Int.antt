-- ===== src/Common/Int.antt =====
-- Signed integers over the native numbers, and the int64 of the source: an integer that wraps.
use Prim.Native.Nat.{ℕ, suc, ◌+◌, ◌-◌, ◌%◌, ◌^◌, ◌≤◌, ◌<◌}
use mathlib.Core.Path.{◌≡◌, refl, ap}
use mathlib.Core.Logic.{◌↔◌, ◌⊎◌, inl, inr}
use mathlib.Core.Bool.{Bool, true}
use native.Mathlib.Omega.{arith}
use doozer.Common.Tests.{ltb, leb, ◌==◌, if◌then◌else◌}

-- `negsuc n` is -(n + 1).
pub data ℤ : Type 0 where
  pos : ℕ → ℤ
  negsuc : ℕ → ℤ

abbrev pub pos_part : ℤ → ℕ
pos_part (pos n) = n
pos_part (negsuc n) = 0

abbrev pub neg_part : ℤ → ℕ
neg_part (pos n) = 0
neg_part (negsuc n) = suc n

-- a - b, as an integer.
abbrev pub sub_ℕ : ℕ → ℕ → ℤ
sub_ℕ a b = if leb b a then pos (a - b) else negsuc (b - a - 1)

infixl 65 ◌+ℤ◌ ◌-ℤ◌
infix 50 ◌≤ℤ◌ ◌<ℤ◌
unfoldable pub ◌+ℤ◌ : ℤ → ℤ → ℤ
a +ℤ b = sub_ℕ (pos_part a + pos_part b) (neg_part a + neg_part b)

unfoldable pub ◌-ℤ◌ : ℤ → ℤ → ℤ
a -ℤ b = sub_ℕ (pos_part a + neg_part b) (neg_part a + pos_part b)

abbrev pub ◌≤ℤ◌ : ℤ → ℤ → Type 0
a ≤ℤ b = pos_part a + neg_part b ≤ pos_part b + neg_part a

abbrev pub ◌<ℤ◌ : ℤ → ℤ → Type 0
a <ℤ b = pos_part a + neg_part b < pos_part b + neg_part a

abbrev pub ltb_ℤ : ℤ → ℤ → Bool
ltb_ℤ a b = ltb (pos_part a + neg_part b) (pos_part b + neg_part a)

abbrev pub leb_ℤ : ℤ → ℤ → Bool
leb_ℤ a b = leb (pos_part a + neg_part b) (pos_part b + neg_part a)

abbrev pub eqb_ℤ : ℤ → ℤ → Bool
eqb_ℤ a b = pos_part a + neg_part b == pos_part b + neg_part a

pub +ℤ_parts :
    (a b : ℤ)
    → pos_part (a +ℤ b) + neg_part a + neg_part b ≡ neg_part (a +ℤ b) + pos_part a + pos_part b
unfolding ◌+ℤ◌
+ℤ_parts a b = ground arith

pub -ℤ_parts :
    (a b : ℤ)
    → pos_part (a -ℤ b) + neg_part a + pos_part b ≡ neg_part (a -ℤ b) + pos_part a + neg_part b
unfolding ◌-ℤ◌
-ℤ_parts a b = ground arith

pub eq_of_parts : (a b : ℤ) → pos_part a + neg_part b ≡ pos_part b + neg_part a → a ≡ b
eq_of_parts a b h = ground arith

-- An equation of integers, in the form that `omega` reads.
pub parts_of_eq : {a b : ℤ} → a ≡ b → (pos_part a ≡ pos_part b) × (neg_part a ≡ neg_part b)
parts_of_eq e = (ap pos_part e, ap neg_part e)

pub one_part : (a : ℤ) → (pos_part a ≡ 0) ⊎ (neg_part a ≡ 0)
one_part (pos n) = inr refl
one_part (negsuc n) = inl refl

pub ruleset int_laws = (arith, +ℤ_parts, -ℤ_parts, eq_of_parts)

pub eqb_ℤ_iff : (a b : ℤ) → (eqb_ℤ a b ≡ true) ↔ (a ≡ b)
eqb_ℤ_iff a b = ground arith

-- The int64 with the bit pattern of `a`.
unfoldable pub wrap64 : ℤ → ℤ
wrap64 (pos n) = let u = n % 2 ^ 64 in if ltb u (2 ^ 63) then pos u else negsuc (2 ^ 64 - 1 - u)
wrap64 (negsuc n) = let u = n % 2 ^ 64 in if ltb u (2 ^ 63) then negsuc u else pos (2 ^ 64 - 1 - u)

-- `a + b` and `a - b` on int64.
infixl 65 ◌+₆₄◌ ◌-₆₄◌
unfoldable pub ◌+₆₄◌ : ℤ → ℤ → ℤ
unfolding wrap64 ◌+ℤ◌
a +₆₄ b = wrap64 (a +ℤ b)

unfoldable pub ◌-₆₄◌ : ℤ → ℤ → ℤ
unfolding wrap64 ◌-ℤ◌
a -₆₄ b = wrap64 (a -ℤ b)

abbrev pub InInt64 : ℤ → Type 0
InInt64 a = (pos_part a < 2 ^ 63) × (neg_part a ≤ 2 ^ 63)

pub wrap64_lem : (a : ℤ) → InInt64 a → wrap64 a ≡ a
unfolding wrap64
wrap64_lem (pos n) h = ground arith
wrap64_lem (negsuc n) h = ground arith

pub wrap64-InInt64 : (a : ℤ) → InInt64 (wrap64 a)
unfolding wrap64
wrap64-InInt64 (pos n) = ground arith
wrap64-InInt64 (negsuc n) = ground arith

pub +₆₄-eq-+ℤ : (a b : ℤ) → InInt64 (a +ℤ b) → a +₆₄ b ≡ a +ℤ b
unfolding ◌+₆₄◌
+₆₄-eq-+ℤ a b h = wrap64_lem (a +ℤ b) h

-- The int32 with the bit pattern of `a`, and `a + b` on int32.
unfoldable pub wrap32 : ℤ → ℤ
wrap32 (pos n) = let u = n % 2 ^ 32 in if ltb u (2 ^ 31) then pos u else negsuc (2 ^ 32 - 1 - u)
wrap32 (negsuc n) = let u = n % 2 ^ 32 in if ltb u (2 ^ 31) then negsuc u else pos (2 ^ 32 - 1 - u)

infixl 65 ◌+₃₂◌
unfoldable pub ◌+₃₂◌ : ℤ → ℤ → ℤ
unfolding wrap32 ◌+ℤ◌
a +₃₂ b = wrap32 (a +ℤ b)

abbrev pub InInt32 : ℤ → Type 0
InInt32 a = (pos_part a < 2 ^ 31) × (neg_part a ≤ 2 ^ 31)

pub wrap32-InInt32 : (a : ℤ) → InInt32 (wrap32 a)
unfolding wrap32
wrap32-InInt32 (pos n) = ground arith
wrap32-InInt32 (negsuc n) = ground arith

wraps : pos (2 ^ 63 - 1) +₆₄ pos 1 ≡ negsuc (2 ^ 63 - 1)
unfolding ◌+₆₄◌
wraps = refl
