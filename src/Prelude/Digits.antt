-- ===== src/Prelude/Digits.antt =====
-- A number in two digits of a mixed radix: the higher one, and one below the base `b`.
use native.Mathlib.Nat.{mul-le-mul_right, suc-mul, mul-add-div_right, div-eq_of_lt}
use Prim.Native.Nat.{ℕ, suc, ◌+◌, ◌*◌, ◌/◌, ◌<◌}
use mathlib.Core.Path.{◌≡◌, sym, ap, ◌∙◌}
use native.Mathlib.Omega.{arith}

pub digit_lt : (q b i r : ℕ) → i < q → r < b → i * b + r < q * b
digit_lt q b i r hi hr =
    omega (arith, mul-le-mul_right {m = suc i} {n = q} b (omega arith), suc-mul i b)

quotient : (b i r : ℕ) → r < b → (i * b + r) / b ≡ i
quotient b i r h = mul-add-div_right {m = b} (omega arith) i r ∙ rw (div-eq_of_lt h) (omega arith)

pub digit_eq : (b i r j s : ℕ) → r < b → s < b → i * b + r ≡ j * b + s → (i ≡ j) × (r ≡ s)
digit_eq b i r j s hr hs e =
    let same = sym (quotient b i r hr) ∙ ap (λ n. n / b) e ∙ quotient b j s hs in
    (same, omega (arith, e, ap (λ k. k * b) same))
