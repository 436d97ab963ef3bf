-- ===== src/Word/Bits.antt =====
-- `|` of two fields that do not overlap is their sum.
use Prim.Native.Nat.{max, digits, bit_or-bitwise}
use native.Mathlib.Nat.{pow-suc}
use gbin.Prelude.{
  ◌∙◌, ◌-◌, ℕ, zero, suc, ◌+◌, ◌*◌, ◌/◌, ◌%◌, ◌^◌, ◌≤◌, ◌<◌, bit_or, ◌≡◌, refl, ap, arith,
}

-- The definition of the native operation: a recursion on binary digits with fuel.
abbrev or_digits : ℕ → ℕ → ℕ → ℕ
or_digits n a b = digits (λ y. y) max n a b

-- A step of fuel that is not used.
one_more : (fuel a b : ℕ) → a ≤ fuel → or_digits (suc fuel) a b ≡ or_digits fuel a b
one_more zero (suc a) b h = absurd (omega arith)
one_more zero zero b h = refl
one_more (suc fuel) zero b h = refl
one_more (suc fuel) (suc a) b h = omega (arith, one_more fuel (suc a / 2) (b / 2) (omega arith))

many_more : (k fuel a b : ℕ) → a ≤ fuel → or_digits (k + fuel) a b ≡ or_digits fuel a b
many_more zero fuel a b h = ap (λ t. or_digits t a b) (omega arith)
many_more (suc k) fuel a b h =
    let shift : suc k + fuel ≡ suc (k + fuel) = omega arith in
    rw shift (one_more (k + fuel) a b (omega arith) ∙ many_more k fuel a b h)

least_fuel : (fuel a b : ℕ) → a ≤ fuel → or_digits fuel a b ≡ or_digits a a b
least_fuel fuel a b h =
    let shift : fuel ≡ (fuel - a) + a = omega arith in
    ap (λ t. or_digits t a b) shift ∙ many_more (fuel - a) a a b (omega arith)

zero-bit_or : (b : ℕ) → bit_or 0 b ≡ b
zero-bit_or b = bit_or-bitwise 0 b

-- One equation for the lowest digit.
bit_or_digit : (a b : ℕ) → bit_or a b ≡ bit_or (a / 2) (b / 2) * 2 + max (a % 2) (b % 2)
bit_or_digit zero b = omega (arith, zero-bit_or b, zero-bit_or (b / 2))
bit_or_digit (suc a) b = omega (
  arith,
  bit_or-bitwise (suc a) b,
  bit_or-bitwise (suc a / 2) (b / 2),
  least_fuel a (suc a / 2) (b / 2) (omega arith),
)

bit_or-zero_fuel : (n a : ℕ) → a ≤ n → bit_or a 0 ≡ a
bit_or-zero_fuel n zero h = refl
bit_or-zero_fuel zero (suc a) h = absurd (omega arith)
bit_or-zero_fuel (suc n) (suc a) h =
    omega (arith, bit_or_digit (suc a) 0, bit_or-zero_fuel n (suc a / 2) (omega arith))

twice_pow : (q k : ℕ) → q * 2 ^ suc k ≡ 2 * (q * 2 ^ k)
twice_pow q k = omega (arith, ap (λ (t : ℕ). q * t) (pow-suc 2 k))

-- `low | (high << k)` where `low` has at most k bits.
pub bit_or_low_high :
    (k low high : ℕ) → low < 2 ^ k → bit_or low (high * 2 ^ k) ≡ low + high * 2 ^ k
bit_or_low_high zero low high h =
    let none_low : low ≡ 0 = omega arith in
    omega (arith, ap (λ (t : ℕ). bit_or t (high * 1)) none_low, zero-bit_or (high * 1))
bit_or_low_high (suc k) low high h = ground (
  arith,
  bit_or_digit low (high * 2 ^ suc k),
  twice_pow high k,
  pow-suc 2 k,
  bit_or_low_high k (low / 2) high,
)

-- `(high << k) | low`
pub bit_or_high_low :
    (k high low : ℕ) → low < 2 ^ k → bit_or (high * 2 ^ k) low ≡ high * 2 ^ k + low
bit_or_high_low zero high low h = ground (arith, bit_or-zero_fuel (high * 1) (high * 1))
bit_or_high_low (suc k) high low h = ground (
  arith,
  bit_or_digit (high * 2 ^ suc k) low,
  twice_pow high k,
  pow-suc 2 k,
  bit_or_high_low k high (low / 2),
)
