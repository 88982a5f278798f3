-- ===== src/Store/Number/RoundTrip.antt =====
-- `Atoi64` reads what `Itoa64` writes.
use doozer.Common.{
  ℕ, zero, suc, ℤ, pos, negsuc, InInt64, ◌+◌, ◌/◌, ◌%◌, ◌^◌, ◌≤◌, ◌<◌, ltb, ◌==◌, true, false,
  Bytes, [], ◌∷◌, All, Bool-cases, ◌≡◌, ap, ◌∙◌, inl, inr, arith,
}
use doozer.Store.Number.{
  digits, digits_value, itoa64, atoui64, atoi64, ok, signed, digits_value-digits,
}

abbrev pub IsDigit : ℕ → Type 0
IsDigit c = (48 ≤ c) × (c < 58)

-- A text of digits that begins with one.
pub data Starts : Bytes → Type 0 where
  starts : (c : ℕ) (s : Bytes) → IsDigit c → All IsDigit s → Starts (c ∷ s)

digits-front :
    (f n c : ℕ) (rest : Bytes) → IsDigit c → All IsDigit rest → Starts (digits f n (c ∷ rest))
unfolding digits
digits-front zero n c rest h k = starts c rest h k
digits-front (suc f) n c rest h k = elim (Bool-cases (ltb n 10)) [
  | inl small ↦
      let lt : n < 10 = ground arith in
      rw small (starts (n + 48) (c ∷ rest) (omega arith, omega arith) (h, k))
  | inr large ↦
      rw large (digits-front f (n / 10) (n % 10 + 48) (c ∷ rest) (omega arith, omega arith) (h, k))
]

pub digits-Starts : (f n : ℕ) → Starts (digits (suc f) n [])
unfolding digits
digits-Starts f n = elim (Bool-cases (ltb n 10)) [
  | inl small ↦
      let lt : n < 10 = ground arith in rw small (starts (n + 48) [] (omega arith, omega arith) tt)
  | inr large ↦ rw large (digits-front f (n / 10) (n % 10 + 48) [] (omega arith, omega arith) tt)
]

read_back : (n : ℕ) → n < 2 ^ 64 → digits_value 0 (digits 20 n []) ≡ ok n
unfolding digits_value
read_back n h = digits_value-digits 20 n [] (omega arith) h

atoui64-digits : (s : Bytes) {n : ℕ} → Starts s → digits_value 0 s ≡ ok n → atoui64 s ≡ ok n
unfolding atoui64
atoui64-digits _ (starts c s d ds) h = h

atoi64-unsigned : (s : Bytes) {n : ℕ} → Starts s → atoui64 s ≡ ok n → atoi64 s ≡ signed false (ok n)
unfolding atoi64
atoi64-unsigned _ (starts c s d ds) h =
    let no_plus : (c == 43) ≡ false = ground arith in
    let no_minus : (c == 45) ≡ false = ground arith in rw (no_plus, no_minus) (ap (signed false) h)

atoi64-minus : (s : Bytes) {n : ℕ} → atoui64 s ≡ ok n → atoi64 (b'-' ∷ s) ≡ signed true (ok n)
unfolding atoi64
atoi64-minus s h = ap (signed true) h

-- Every int64 is read back from its text, without an error.
pub atoi64-itoa64 : (a : ℤ) → InInt64 a → atoi64 (itoa64 a) ≡ (a, false)
unfolding itoa64
atoi64-itoa64 (pos n) h =
    let u = atoui64-digits (digits 20 n []) (digits-Starts 19 n) (read_back n (omega arith)) in
    atoi64-unsigned (digits 20 n []) (digits-Starts 19 n) u ∙ ground arith
atoi64-itoa64 (negsuc n) h =
    let u =
      atoui64-digits (digits 20 (n + 1) []) (digits-Starts 19 (n + 1))
        (read_back (n + 1) (omega arith)) in
    atoi64-minus (digits 20 (n + 1) []) u ∙ ground arith
