-- ===== src/Libc/Decimal.antt =====
-- strtoull reads back the decimal print of every uint64_t.
use native.Mathlib.Nat.{pow-suc}
use gbin.Prelude.{
  ℕ, zero, suc, ◌+◌, ◌-◌, ◌*◌, ◌/◌, ◌%◌, ◌^◌, ◌≤◌, ◌<◌, ◌≡◌, refl, ap, ◌∙◌, arith, false, [], ◌∷◌,
  some, Bytes, ltb, All, Bool-cases, inl, inr, ltb→lt, ltb→le, le→ltb,
}
use gbin.Word.{IsU64}
use gbin.Json.Text.{skip_ws, isspace, is_hex, hex_val}
use gbin.Libc.{
  digit_value, scan_digits, in_range, skip_prefix, convert, signed, strtoull, digits, decimal,
  ullong_max,
}

abbrev pub IsDigit : ℕ → Type 0
IsDigit c = (b'0' ≤ c) × (c ≤ b'9')

digit_value_ten : (c : ℕ) → IsDigit c → digit_value 10 c ≡ some (c - b'0')
unfolding digit_value is_hex hex_val
digit_value_ten c h = ground arith

scan_digit :
    (acc c : ℕ) (s : Bytes)
    → IsDigit c
    → scan_digits 10 acc (c ∷ s) ≡ scan_digits 10 (acc * 10 + (c - b'0')) s
unfolding scan_digits
scan_digit acc c s h = rw (digit_value_ten c h)

-- Reading a print from 0 is reading what follows it from its number.
scan_digits-digits :
    (f n : ℕ) (out : Bytes)
    → n < 10 ^ f
    → 0 < f
    → scan_digits 10 0 (digits f n out) ≡ scan_digits 10 n out
unfolding digits
scan_digits-digits zero n out h pos = absurd (omega arith)
scan_digits-digits (suc f) n out h pos = elim (Bool-cases (ltb n 10)) [
  | inl small ↦ rw small (
      scan_digit 0 (b'0' + n) out (omega (arith, ltb→lt n 10 small))
      ∙ ap (λ t. scan_digits 10 t out) (omega arith))
  | inr big ↦
      let room : n / 10 < 10 ^ f = omega (arith, pow-suc 10 f) in
      rw big (
        scan_digits-digits f (n / 10) ((b'0' + n % 10) ∷ out) room
          (more_digits f n (ltb→le n 10 big) h)
        ∙ scan_digit (n / 10) (b'0' + n % 10) out (omega arith)
        ∙ ap (λ t. scan_digits 10 t out) (omega arith))
]
  where
    more_digits : (g m : ℕ) → 10 ≤ m → m < 10 ^ suc g → 0 < g
    more_digits zero m lo hi = absurd (omega arith)
    more_digits (suc g) m lo hi = omega arith

digits-All : (f n : ℕ) (out : Bytes) → All IsDigit out → All IsDigit (digits f n out)
unfolding digits
digits-All zero n out h = h
digits-All (suc f) n out h = elim (Bool-cases (ltb n 10)) [
  | inl small ↦ rw small ((omega (arith, ltb→lt n 10 small)), h)
  | inr big ↦ rw big (digits-All f (n / 10) ((b'0' + n % 10) ∷ out) ((omega arith), h))
]

-- A print is digits only, and has a first one.
pub decimal-All : (n : ℕ) → All IsDigit (decimal n)
unfolding decimal
decimal-All n = digits-All 20 n [] tt

digits_cons : (f n c : ℕ) (out : Bytes) → (d : ℕ) × (s : Bytes) × (digits f n (c ∷ out) ≡ d ∷ s)
unfolding digits
digits_cons zero n c out = (c, out, refl)
digits_cons (suc f) n c out = elim (Bool-cases (ltb n 10)) [
  | inl small ↦ (b'0' + n, c ∷ out, rw small)
  | inr big ↦ let (d, s, e) = digits_cons f (n / 10) (b'0' + n % 10) (c ∷ out) in (d, s, rw big e)
]

pub decimal_cons : (n : ℕ) → (d : ℕ) × (s : Bytes) × (decimal n ≡ d ∷ s)
unfolding decimal digits
decimal_cons n = elim (Bool-cases (ltb n 10)) [
  | inl small ↦ (b'0' + n, [], rw small)
  | inr big ↦ let (d, s, e) = digits_cons 19 (n / 10) (b'0' + n % 10) [] in (d, s, rw big e)
]

skip_ws_digit : (c : ℕ) (s : Bytes) → IsDigit c → skip_ws (c ∷ s) ≡ c ∷ s
unfolding skip_ws isspace
skip_ws_digit c s h = ground arith

signed_digit : (c : ℕ) (s : Bytes) → IsDigit c → signed 10 (c ∷ s) ≡ convert 10 false (c ∷ s)
unfolding signed
signed_digit c s h = ground arith

skip_prefix_ten : (s : Bytes) → skip_prefix 10 s ≡ s
unfolding skip_prefix
skip_prefix_ten [] = refl
skip_prefix_ten (a ∷ []) = refl
skip_prefix_ten (a ∷ b ∷ s) = refl

strtoull_digits :
    (c : ℕ) (s : Bytes)
    → IsDigit c
    → strtoull 10 (c ∷ s) ≡ in_range false (scan_digits 10 0 (c ∷ s))
unfolding strtoull convert
strtoull_digits c s h =
    rw (skip_ws_digit c s h)
      (signed_digit c s h ∙ ap (λ t. in_range false (scan_digits 10 0 t)) (skip_prefix_ten (c ∷ s)))

scan_decimal : (n : ℕ) → IsU64 n → scan_digits 10 0 (decimal n) ≡ n
unfolding decimal
scan_decimal n h =
    scan_digits-digits 20 n [] (omega arith) (omega arith) ∙ (unfold scan_digits in refl)

pub strtoull-decimal : (n : ℕ) → IsU64 n → strtoull 10 (decimal n) ≡ some n
strtoull-decimal n h =
    let (d, s, e) = decimal_cons n in
    let first : IsDigit d = first_digit n d s e in
    rw e (strtoull_digits d s first ∙ rw (← e, scan_decimal n h) (fits n h))
  where
    first_digit : (m d : ℕ) (s : Bytes) → decimal m ≡ d ∷ s → IsDigit d
    first_digit m d s e = (rw e at (decimal-All m)).0

    fits : (m : ℕ) → IsU64 m → in_range false m ≡ some m
    fits m h = unfold in_range in rw (le→ltb ullong_max m (omega arith))
