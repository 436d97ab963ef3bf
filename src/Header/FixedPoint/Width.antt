-- ===== src/Header/FixedPoint/Width.antt =====
-- How many digits a number prints: the width grows with the number, by one at most up to ten times
-- the number.
use gbin.Prelude.{
  ℕ, zero, suc, ◌+◌, ◌*◌, ◌/◌, ◌%◌, ◌≤◌, ◌≡◌, refl, arith, false, [], ◌∷◌, Bytes, length, ltb,
  if◌then◌else◌, Bool-cases, inl, inr, ltb→le, le→ltb,
}
use gbin.Libc.{digits, decimal}

abbrev width : ℕ → ℕ → ℕ
width zero n = 0
width (suc f) n = let more = width f (n / 10) in if ltb n 10 then 1 else suc more

length-digits : (f n : ℕ) (out : Bytes) → length (digits f n out) ≡ width f n + length out
unfolding digits
length-digits zero n out = omega arith
length-digits (suc f) n out = elim (Bool-cases (ltb n 10)) [
  | inl small ↦ rw small (omega arith)
  | inr big ↦ rw big (omega (arith, length-digits f (n / 10) ((b'0' + n % 10) ∷ out)))
]

width_pos : (f n : ℕ) → 1 ≤ width (suc f) n
width_pos f n = elim (Bool-cases (ltb n 10)) [
  | inl small ↦ rw small (omega arith)
  | inr big ↦ rw big (omega arith)
]

width_mono : (f a b : ℕ) → a ≤ b → width f a ≤ width f b
width_mono zero a b h = omega arith
width_mono (suc f) a b h = elim (Bool-cases (ltb a 10)) [
  | inl small ↦ rw small (width_pos f b)
  | inr big ↦
      let big_b : ltb b 10 ≡ false = le→ltb b 10 (omega (arith, ltb→le a 10 big)) in
      rw (big, big_b) (omega (arith, width_mono f (a / 10) (b / 10) (omega arith)))
]

width_more : (f n : ℕ) → width f n ≤ width (suc f) n
width_more zero n = omega arith
width_more (suc f) n = elim (Bool-cases (ltb n 10)) [
  | inl small ↦ rw small (omega arith)
  | inr big ↦ rw big (omega (arith, width_more f (n / 10)))
]

width_ten : (f a b : ℕ) → b ≤ 10 * a → width f b ≤ suc (width f a)
width_ten zero a b h = omega arith
width_ten (suc f) a b h = elim (Bool-cases (ltb b 10)) [
  | inl small ↦ rw small (omega arith)
  | inr big ↦
      let step : width f (b / 10) ≤ width f a = width_mono f (b / 10) a (omega arith) in
      let up : width f a ≤ width (suc f) a = width_more f a in rw big (omega arith)
]

width_le : (f n : ℕ) → width f n ≤ f
width_le zero n = omega arith
width_le (suc f) n = elim (Bool-cases (ltb n 10)) [
  | inl small ↦ rw small (omega arith)
  | inr big ↦ rw big (omega (arith, width_le f (n / 10)))
]

length-decimal : (n : ℕ) → length (decimal n) ≡ width 20 n
unfolding decimal
length-decimal n = omega (arith, length-digits 20 n [])

pub length-decimal_zero : length (decimal 0) ≡ 1
unfolding decimal digits
length-decimal_zero = refl

pub length-decimal_le : (n : ℕ) → length (decimal n) ≤ 20
length-decimal_le n = omega (arith, length-decimal n, width_le 20 n)

pub length-decimal_mono : (a b : ℕ) → a ≤ b → length (decimal a) ≤ length (decimal b)
length-decimal_mono a b h = omega (arith, length-decimal a, length-decimal b, width_mono 20 a b h)

pub length-decimal_ten : (a b : ℕ) → b ≤ 10 * a → length (decimal b) ≤ suc (length (decimal a))
length-decimal_ten a b h = omega (arith, length-decimal a, length-decimal b, width_ten 20 a b h)
