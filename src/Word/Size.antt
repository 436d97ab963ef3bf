-- ===== src/Word/Size.antt =====
-- gbf_checked_mul_size of C/src/gbf_util.c answers exactly when the product fits a size_t.
use native.Mathlib.Nat.{le-div_iff_mul-le, div-lt_iff_lt-mul, zero-mul, mul-zero}
use gbin.Prelude.{
  ℕ, zero, suc, ◌*◌, ◌/◌, ◌≤◌, ◌<◌, ◌≡◌, refl, arith, none, some, leb, ltb, if◌then◌else◌,
  Bool-cases, ltb→le, ltb→lt, le→leb, inl, inr, false, ◌⊎◌, ◌∙◌, leb→le,
}
use gbin.Word.{size_max, mul64, checked_mul_size}

lt→leb_false : (a b : ℕ) → b < a → leb a b ≡ false
lt→leb_false a b h = ground arith

mul64_exact : (a b : ℕ) → a * b ≤ size_max → mul64 a b ≡ a * b
mul64_exact a b h = omega arith

div_bound : (a b : ℕ) → 0 < b → a ≤ size_max / b → a * b ≤ size_max
div_bound a b pos h = (le-div_iff_mul-le pos).0 h

-- The checked product is the exact product where that fits a size_t, and a refusal elsewhere.
pub checked_mul_size_lem :
    (a b : ℕ) → checked_mul_size a b ≡ (if leb (a * b) size_max then some (a * b) else none)
unfolding checked_mul_size
checked_mul_size_lem zero b = rw (zero-mul b) refl
checked_mul_size_lem (suc a) zero = rw (mul-zero (suc a)) (ground arith)
checked_mul_size_lem (suc a) (suc b) = elim (Bool-cases (ltb (size_max / suc b) (suc a))) [
  | inl over ↦
      rw (over, lt→leb_false _ size_max ((div-lt_iff_lt-mul (omega arith)).0 (ltb→lt _ _ over)))
        (ground arith)
  | inr fits ↦
      let bound = div_bound (suc a) (suc b) (omega arith) (ltb→le _ _ fits) in
      rw (fits, le→leb _ _ bound, mul64_exact (suc a) (suc b) bound) (ground arith)
]

pub checked_mul_size_cases :
    (a b : ℕ)
    → ((checked_mul_size a b ≡ none) × (size_max < a * b))
      ⊎ ((checked_mul_size a b ≡ some (a * b)) × (a * b ≤ size_max))
checked_mul_size_cases a b = elim (Bool-cases (leb (a * b) size_max)) [
  | inl fits ↦ inr (checked_mul_size_lem a b ∙ rw fits, leb→le _ _ fits)
  | inr over ↦ inl (checked_mul_size_lem a b ∙ rw over, ground arith)
]
