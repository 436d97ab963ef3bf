-- ===== src/Easy/Order/Strides.antt =====
-- The strides of to_col_major_bytes of C/src/gbf_easy.c, where the bytes of the array fit a size_t.
use native.Mathlib.Nat.{mul_comm, mul_assoc, mul-add}
use gbin.Prelude.{
  ℕ, ◌+◌, ◌*◌, ◌≤◌, ◌<◌, ◌≡◌, refl, ap, ◌∙◌, arith, List, [], ◌∷◌, some, All, le→leb,
}
use gbin.Word.{size_max, checked_mul_size, add64, mul64}
use gbin.Word.Size.{checked_mul_size_lem}
use gbin.Value.Shape.{product, product_pos, le_mul_pos}
use gbin.Easy.Order.{row_strides, col_strides, offset_loop}
use gbin.Easy.Order.Offsets.{row_offset, col_offset}

unfoldable pub row_steps : List ℕ → List ℕ
unfolding product
row_steps [] = []
row_steps (d ∷ shape) = product shape ∷ row_steps shape

unfoldable pub col_steps : ℕ → List ℕ → List ℕ
col_steps c [] = []
col_steps c (d ∷ shape) = c ∷ col_steps (c * d) shape

pub exact_mul : (a b : ℕ) → a * b ≤ size_max → checked_mul_size a b ≡ some (a * b)
exact_mul a b h = checked_mul_size_lem a b ∙ rw (le→leb (a * b) size_max h) refl

product_rest : (d : ℕ) (shape : List ℕ) → 0 < d → product shape ≤ product (d ∷ shape)
unfolding product
product_rest d shape pos =
    omega (arith, le_mul_pos (product shape) d pos, mul_comm d (product shape))

pub row_strides-row_steps :
    (shape : List ℕ)
    → All (λ d. 0 < d) shape
    → product shape ≤ size_max
    → row_strides shape ≡ some (row_steps shape)
unfolding row_strides row_steps product
row_strides-row_steps [] pos h = refl
row_strides-row_steps (d ∷ []) pos h = refl
row_strides-row_steps (d ∷ e ∷ shape) pos h =
    let fits : product (e ∷ shape) ≤ size_max =
      omega (arith, product_rest d (e ∷ shape) pos.0, h) in
    rw
      (
        row_strides-row_steps (e ∷ shape) pos.1 fits,
        exact_mul (product shape) e (omega (arith, fits, mul_comm e (product shape))),
        mul_comm (product shape) e,
      )
      refl

pub col_strides-col_steps :
    (c : ℕ) (shape : List ℕ)
    → All (λ d. 0 < d) shape
    → c * product shape ≤ size_max
    → col_strides c shape ≡ some (col_steps c shape)
unfolding col_strides col_steps product
col_strides-col_steps c [] pos h = refl
col_strides-col_steps c (d ∷ []) pos h = refl
col_strides-col_steps c (d ∷ e ∷ shape) pos h =
    let fits : c * d * product (e ∷ shape) ≤ size_max =
      omega (arith, mul_assoc c d (product (e ∷ shape)), h) in
    let first : c * d ≤ size_max =
      omega
        (arith, le_mul_pos (c * d) (product (e ∷ shape)) (product_pos (e ∷ shape) pos.1), fits) in
    rw (exact_mul c d first, col_strides-col_steps (c * d) (e ∷ shape) pos.1 fits) refl

-- The sum with the row strides is the number in the row-major order, as long as it fits.
pub offset_loop-row_steps :
    (off : ℕ) (shape idx : List ℕ)
    → off + row_offset shape idx ≤ size_max
    → offset_loop off idx (row_steps shape) ≡ off + row_offset shape idx
unfolding offset_loop row_steps row_offset
offset_loop-row_steps off [] [] h = omega arith
offset_loop-row_steps off [] (i ∷ idx) h = omega arith
offset_loop-row_steps off (d ∷ shape) [] h = omega arith
offset_loop-row_steps off (d ∷ shape) (i ∷ idx) h =
    let step : add64 off (mul64 i (product shape)) ≡ off + i * product shape = omega (arith, h) in
    rw (step, offset_loop-row_steps (off + i * product shape) shape idx (omega (arith, h)))
      (omega arith)

col_cons : (c k d i : ℕ) → c * (k * d + i) ≡ i * c + c * d * k
col_cons c k d i =
    omega
      (arith, mul-add c (k * d) i, mul_comm i c, mul_assoc c d k, ap (λ t. c * t) (mul_comm k d))

-- The sum with the column strides is the number in the column-major order, as long as it fits.
pub offset_loop-col_steps :
    (off c : ℕ) (shape idx : List ℕ)
    → off + c * col_offset shape idx ≤ size_max
    → offset_loop off idx (col_steps c shape) ≡ off + c * col_offset shape idx
unfolding offset_loop col_steps col_offset
offset_loop-col_steps off c [] [] h = omega arith
offset_loop-col_steps off c [] (i ∷ idx) h = omega arith
offset_loop-col_steps off c (d ∷ shape) [] h = omega arith
offset_loop-col_steps off c (d ∷ shape) (i ∷ idx) h =
    let split = col_cons c (col_offset shape idx) d i in
    let step : add64 off (mul64 i c) ≡ off + i * c = omega (arith, h, split) in
    rw (step, offset_loop-col_steps (off + i * c) (c * d) shape idx (omega (arith, h, split)))
      (omega (arith, split))
