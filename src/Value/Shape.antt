-- ===== src/Value/Shape.antt =====
-- shape_numel and the copies of shapes of C/src/gbf.c.
use native.Mathlib.Nat.{mul-le-mul_left, mul-one, one-mul, mul_assoc}
use gbin.Prelude.{
  ℕ, ◌*◌, ◌≤◌, ◌<◌, ◌≡◌, refl, arith, List, [], ◌∷◌, Option, none, some, All, ltb, le→ltb,
  if◌then◌else◌, inl, inr, ap, ◌∙◌, sym,
}
use mathlib.Core.Option
use mathlib.Core.Option.{none-ne-some}
use gbin.Word.{size_max, checked_mul_size}
use gbin.Word.Size.{checked_mul_size_cases}
use mathlib.Core.Option.{some-ne-none}

-- The loop over the dimensions, from the product `n` of those before.
abbrev numel_next : (ℕ → Option ℕ) → Option ℕ → Option ℕ
numel_next rest none = none
numel_next rest (some tmp) = rest tmp

unfoldable pub numel_loop : ℕ → List ℕ → Option ℕ
numel_loop n [] = some n
numel_loop n (d ∷ shape) = numel_next (λ t. numel_loop t shape) (checked_mul_size n d)

unfoldable pub shape_numel : List ℕ → Option ℕ
shape_numel [] = some 0
shape_numel (d ∷ shape) = numel_loop 1 (d ∷ shape)

-- `none` where a dimension does not fit a size_t.
unfoldable pub copy_shape_u64_to_size : List ℕ → Option (List ℕ)
copy_shape_u64_to_size [] = some []
copy_shape_u64_to_size (d ∷ shape) =
    let rest = copy_shape_u64_to_size shape in
    if ltb size_max d then none else Option.map (λ xs. d ∷ xs) rest

unfoldable pub copy_shape_size_to_u64 : List ℕ → List ℕ
copy_shape_size_to_u64 shape = shape

unfoldable pub product : List ℕ → ℕ
product [] = 1
product (d ∷ shape) = d * product shape

pub numel_loop_sound :
    (n : ℕ) (shape : List ℕ) {m : ℕ}
    → n ≤ size_max
    → numel_loop n shape ≡ some m
    → (m ≡ n * product shape) × (m ≤ size_max)
unfolding product numel_loop
numel_loop_sound n [] b h = ground (arith, mul-one n)
numel_loop_sound n (d ∷ shape) b h = elim (checked_mul_size_cases n d) [
  | inl (over, _) ↦ absurd (none-ne-some _ (rw over at h))
  | inr (exact, fits) ↦
      omega
        (arith, numel_loop_sound (n * d) shape fits (rw exact at h), mul_assoc n d (product shape))
]

-- Where the element count of a shape with at least one dimension is computed, it is the product of
-- the dimensions and fits in a size_t, so nothing has wrapped around.
pub shape_numel_sound :
    (d : ℕ) (shape : List ℕ) {m : ℕ}
    → shape_numel (d ∷ shape) ≡ some m
    → (m ≡ product (d ∷ shape)) × (m ≤ size_max)
unfolding shape_numel
shape_numel_sound d shape h = omega (arith, numel_loop_sound 1 (d ∷ shape) (omega arith) h)

pub product_pos : (shape : List ℕ) → All (λ d. 0 < d) shape → 0 < product shape
unfolding product
product_pos [] h = omega arith
product_pos (d ∷ shape) h = grind (arith, product_pos shape h.1)

pub le_mul_pos : (x k : ℕ) → 0 < k → x ≤ x * k
le_mul_pos x k pos = omega (arith, mul-le-mul_left {m = 1} {n = k} x pos, mul-one x)

pub numel_loop_complete :
    (n : ℕ) (shape : List ℕ)
    → All (λ d. 0 < d) shape
    → n * product shape ≤ size_max
    → numel_loop n shape ≡ some (n * product shape)
unfolding product numel_loop
numel_loop_complete n [] pos h = ap some (sym (mul-one n))
numel_loop_complete n (d ∷ shape) pos h = elim (checked_mul_size_cases n d) [
  | inl (_, over) ↦ absurd (
      omega (
        arith,
        mul_assoc n d (product shape),
        le_mul_pos (n * d) (product shape) (product_pos shape pos.1),
      ))
  | inr (exact, fits) ↦ rw exact (
      numel_loop_complete (n * d) shape pos.1 (omega (arith, mul_assoc n d (product shape)))
      ∙ ap some (mul_assoc n d (product shape)))
]

-- For at least one dimension, all positive, whose product fits in a size_t, the count is computed and
-- is that product.
pub shape_numel_complete :
    (d : ℕ) (shape : List ℕ)
    → All (λ k. 0 < k) (d ∷ shape)
    → product (d ∷ shape) ≤ size_max
    → shape_numel (d ∷ shape) ≡ some (product (d ∷ shape))
unfolding shape_numel
shape_numel_complete d shape pos h =
    numel_loop_complete 1 (d ∷ shape) pos (omega (arith, one-mul (product (d ∷ shape))))
    ∙ ap some (one-mul (product (d ∷ shape)))

pub copy_shape_u64_to_size-fits :
    (shape : List ℕ) → All (λ d. d ≤ size_max) shape → copy_shape_u64_to_size shape ≡ some shape
unfolding copy_shape_u64_to_size
copy_shape_u64_to_size-fits [] h = refl
copy_shape_u64_to_size-fits (d ∷ shape) h =
    rw (le→ltb size_max d h.0, copy_shape_u64_to_size-fits shape h.1)
