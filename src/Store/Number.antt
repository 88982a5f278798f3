-- ===== src/Store/Number.antt =====
-- `Itoa64` and `Atoi64` of package strconv: decimal texts of an int64.
pub mod RoundTrip
use doozer.Common.{
  ℕ, zero, suc, ℤ, pos, negsuc, ◌+◌, ◌-◌, ◌*◌, ◌/◌, ◌%◌, ◌^◌, ◌≤◌, ◌<◌, ltb, leb, ◌==◌, Bool, true,
  false, ◌&&◌, not, Bytes, codes, List, [], ◌∷◌, ◌++◌, Option, none, some, if◌then◌else◌,
  Bool-cases, if_cases, ◌≡◌, refl, ◌∙◌, inl, inr, arith,
}
use native.Mathlib.Nat.{pow-suc}

-- The digits of a number before `rest`. Twenty rounds are enough for an int64.
unfoldable pub digits : ℕ → ℕ → Bytes → Bytes
digits zero n rest = rest
digits (suc f) n rest =
    let more = digits f (n / 10) ((n % 10 + b'0') ∷ rest) in
    if ltb n 10 then (n + b'0') ∷ rest else more

unfoldable pub itoa64 : ℤ → Bytes
unfolding digits
itoa64 (pos n) = digits 20 n []
itoa64 (negsuc n) = b'-' ∷ digits 20 (n + 1) []

-- `Atoui64`: the value and whether it is an error; out of range, the value is the largest.
pub data Parsed : Type 0 where
  ok : ℕ → Parsed
  invalid : Parsed
  out_of_range : Parsed

unfoldable pub digits_value : ℕ → Bytes → Parsed
digits_value n [] = ok n
digits_value n (c ∷ s) =
    let more = digits_value (n * 10 + (c - b'0')) s in
    if not (leb b'0' c && leb c b'9')
    then invalid
    else if leb (2 ^ 64) (n * 10 + (c - b'0'))
    then out_of_range
    else more

unfoldable pub atoui64 : Bytes → Parsed
unfolding digits_value
atoui64 [] = invalid
atoui64 (c ∷ s) = digits_value 0 (c ∷ s)

-- The number and whether the text is in error. Out of range the number is the nearest int64.
abbrev pub signed : Bool → Parsed → ℤ × Bool
signed neg invalid = (pos 0, true)
signed true out_of_range = (negsuc (2 ^ 63 - 1), true)
signed false out_of_range = (pos (2 ^ 63 - 1), true)
signed true (ok zero) = (pos 0, false)
signed true (ok (suc n)) =
    if ltb (2 ^ 63) (suc n) then (negsuc (2 ^ 63 - 1), true) else (negsuc n, false)
signed false (ok n) = if leb (2 ^ 63) n then (pos (2 ^ 63 - 1), true) else (pos n, false)

unfoldable pub atoi64 : Bytes → ℤ × Bool
unfolding atoui64
atoi64 [] = (pos 0, true)
atoi64 (c ∷ s) =
    if c == b'+'
    then signed false (atoui64 s)
    else if c == b'-'
    then signed true (atoui64 s)
    else signed false (atoui64 (c ∷ s))

-- Reading back what `digits` writes, in front of more digits.
pub digits_value-digits :
    (f n : ℕ) (rest : Bytes)
    → n < 10 ^ f
    → n < 2 ^ 64
    → digits_value 0 (digits f n rest) ≡ digits_value n rest
unfolding digits_value digits
digits_value-digits zero n rest h k = let e : n ≡ 0 = omega arith in rw e
digits_value-digits (suc f) n rest h k = elim (Bool-cases (ltb n 10)) [
  | inl small ↦ rw small (let e : 0 + (n + 48 - 48) ≡ n = omega arith in rw e (ground arith))
  | inr large ↦ rw large (
      let shorter : n / 10 < 10 ^ f = omega (arith, pow-suc 10 f) in
      let whole : n / 10 * 10 + (n % 10 + 48 - 48) ≡ n = omega arith in
      digits_value-digits f (n / 10) ((n % 10 + 48) ∷ rest) shorter (omega arith)
      ∙ rw whole (ground arith))
]

runs :
    (itoa64 (negsuc 11) ≡ codes "-12")
    × (atoi64 (codes "-9223372036854775808") ≡ (negsuc (2 ^ 63 - 1), false))
    × (atoi64 (codes "99999999999999999999") ≡ (pos (2 ^ 63 - 1), true))
unfolding itoa64 atoi64
runs = (refl, refl, refl)
