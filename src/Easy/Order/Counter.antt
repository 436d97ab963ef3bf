-- ===== src/Easy/Order/Counter.antt =====
-- The mixed-radix counter of to_col_major_bytes of C/src/gbf_easy.c counts in the row-major order.
use native.Mathlib.Nat.{suc-mul, zero-mul}
use gbin.Prelude.{
  ℕ, suc, ◌+◌, ◌*◌, ◌<◌, ◌≡◌, refl, ap, arith, Bool, true, false, List, [], ◌∷◌, All, ltb, length,
  replicate, Bool-cases, inl, inr, ltb→lt, ltb→le,
}
use gbin.Value.Shape.{product}
use gbin.Easy.Order.{next_index}
use gbin.Easy.Order.Offsets.{IsIndex, row_offset}

-- What a turn makes of an index with the number `old`: one with the next number, or, after the last
-- one, the index of zeros.
pub data Next (shape : List ℕ) (old : ℕ) : List ℕ × Bool → Type 0 where
  more :
      (idx : List ℕ)
      → IsIndex shape idx
      → row_offset shape idx ≡ suc old
      → Next shape old (idx, false)
  wrapped :
      (idx : List ℕ)
      → IsIndex shape idx
      → row_offset shape idx ≡ 0
      → suc old ≡ product shape
      → Next shape old (idx, true)

carried-Next :
    (d i : ℕ) (shape : List ℕ) (old : ℕ) (next : List ℕ × Bool)
    → i < d
    → Next shape old next
    → Next (d ∷ shape) (i * product shape + old) (gbin.Easy.Order.carried d i next)
unfolding row_offset product
carried-Next d i shape old _ h (more idx k e) = more (i ∷ idx) (h, k) (omega (arith, e))
carried-Next d i shape old _ h (wrapped idx k e last) = elim (Bool-cases (ltb (suc i) d)) [
  | inl below ↦
      rw below (
        more (suc i ∷ idx) (ltb→lt _ _ below, k)
          (omega (arith, e, last, suc-mul i (product shape))))
  | inr top ↦
      let d_is : d ≡ suc i = omega (arith, ltb→le _ _ top, h) in
      rw top (
        wrapped (0 ∷ idx) (omega (arith, h), k) (omega (arith, e, zero-mul (product shape)))
          (omega (arith, last, suc-mul i (product shape), ap (λ n. n * product shape) d_is)))
]

pub next_index-Next :
    (shape idx : List ℕ)
    → IsIndex shape idx
    → Next shape (row_offset shape idx) (next_index shape idx)
unfolding next_index row_offset product
next_index-Next [] [] h = wrapped [] tt refl refl
next_index-Next [] (i ∷ idx) h = absurd h
next_index-Next (d ∷ shape) [] h = absurd h
next_index-Next (d ∷ shape) (i ∷ idx) h =
    carried-Next d i shape (row_offset shape idx) (next_index shape idx) h.0
      (next_index-Next shape idx h.1)

pub zeros-IsIndex :
    (shape : List ℕ) → All (λ d. 0 < d) shape → IsIndex shape (replicate (length shape) 0)
zeros-IsIndex [] pos = tt
zeros-IsIndex (d ∷ shape) pos = (pos.0, zeros-IsIndex shape pos.1)

pub row_offset-zeros : (shape : List ℕ) → row_offset shape (replicate (length shape) 0) ≡ 0
unfolding row_offset
row_offset-zeros [] = refl
row_offset-zeros (d ∷ shape) = omega (arith, row_offset-zeros shape, zero-mul (product shape))
