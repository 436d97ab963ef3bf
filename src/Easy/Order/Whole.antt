-- ===== src/Easy/Order/Whole.antt =====
-- to_col_major_bytes of C/src/gbf_easy.c on either host and in either layout.
use native.Mathlib.Nat.{one-mul, mul-one, zero-mul, mul-le-mul_right, suc-mul}
use gbin.Prelude.{
  ℕ, suc, ◌*◌, ◌≤◌, ◌<◌, ◌≡◌, refl, sym, ap, ◌∙◌, arith, Bool, true, List, [], ◌∷◌, Bytes, All,
  length, replicate, length-replicate, take, inr, Result, ok, ne→==, ◌>>=◌,
}
use gbin.Word.{size_max}
use gbin.Value.Shape.{product, le_mul_pos}
use gbin.Easy.{EasyError, Layout, row_major, col_major}
use gbin.Easy.Shape.{shape_total_bytes_checked_complete}
use gbin.Easy.Order.{to_col_major_bytes, normalised, rows_to_cols, copy_loop, bytes_at, to_little}
use gbin.Easy.Order.Offsets.{IsIndex, row_offset, col_offset, col_offset_lt}
use gbin.Easy.Order.Strides.{row_steps, col_steps, row_strides-row_steps, col_strides-col_steps}
use gbin.Easy.Order.Counter.{zeros-IsIndex, row_offset-zeros}
use gbin.Memory.{bytes_at-take, length-take_le}
use gbin.Easy.Order.Elements.{as_little, length-to_little, to_little-elements}
use gbin.Easy.Order.Places.{copy_loop-IsPlaced, length-copy_loop}

-- The number of an element in the layout of the source.
unfoldable pub source_offset : Layout → List ℕ → List ℕ → ℕ
source_offset col_major shape idx = col_offset shape idx
source_offset row_major shape idx = row_offset shape idx

-- A buffer of the size of the array, whose element at an index, at its number in the column-major
-- order, holds the little-endian bytes of the source's element at that index.
pub data Stored (little : Bool) (layout : Layout) (shape : List ℕ) (size : ℕ) (src : Bytes)
    : Result EasyError Bytes → Type 0 where
  stored :
      (dst : Bytes)
      → length dst ≡ product shape * size
      → ((idx : List ℕ)
          → IsIndex shape idx
          → bytes_at (col_offset shape idx * size) size dst
            ≡ as_little little (bytes_at (source_offset layout shape idx * size) size src))
      → Stored little layout shape size src (ok dst)

module _ (size : ℕ) (src : Bytes) (size_pos : 0 < size) where
  rows_to_cols-Stored :
      (shape : List ℕ)
      → All (λ d. 0 < d) shape
      → product shape * size ≤ size_max
      → product shape * size ≤ length src
      → Stored true row_major shape size src
          (rows_to_cols src size shape (product shape) (product shape * size))
  unfolding rows_to_cols source_offset as_little
  rows_to_cols-Stored shape pos total enough =
      let fits : product shape ≤ size_max =
        omega (arith, le_mul_pos (product shape) size size_pos, total) in
      let start = zeros-IsIndex shape pos in
      let blank : length (replicate (product shape * size) 0) ≡ product shape * size =
        length-replicate (product shape * size) 0 in
      rw
        (
          row_strides-row_steps shape pos fits,
          col_strides-col_steps 1 shape pos (omega (arith, one-mul (product shape), fits)),
        )
        (stored
          (copy_loop shape (row_steps shape) (col_steps 1 shape) size src (product shape)
            (replicate (length shape) 0) (replicate (product shape * size) 0))
          (length-copy_loop shape size src total enough size_pos (product shape)
            (replicate (length shape) 0) (replicate (product shape * size) 0) start blank)
          λ y k.
            copy_loop-IsPlaced shape size src total enough size_pos y k (product shape)
              (replicate (length shape) 0) (replicate (product shape * size) 0) start
              (inr (omega (arith, row_offset-zeros shape))) blank λ h. absurd (omega arith))

  -- The copy of the source, which serves where its layout is the column-major one.
  copied-Stored :
      (layout : Layout) (shape : List ℕ)
      → ((idx : List ℕ) → IsIndex shape idx → source_offset layout shape idx ≡ col_offset shape idx)
      → product shape * size ≤ length src
      → Stored true layout shape size src (ok (take (product shape * size) src))
  unfolding as_little
  copied-Stored layout shape same enough =
      stored (take (product shape * size) src) (length-take_le (product shape * size) src enough)
        λ idx h.
          bytes_at-take (col_offset shape idx * size) size (product shape * size) src
            (omega (
              arith,
              mul-le-mul_right {m = suc (col_offset shape idx)} {n = product shape} size
                  (col_offset_lt shape idx h),
              suc-mul (col_offset shape idx) size,
            ))
            enough
          ∙ ap (λ k. bytes_at (k * size) size src) (sym (same idx h))

  one_order :
      (d : ℕ) (idx : List ℕ)
      → IsIndex (d ∷ []) idx
      → row_offset (d ∷ []) idx ≡ col_offset (d ∷ []) idx
  unfolding row_offset col_offset product
  one_order d [] h = absurd h
  one_order d (i ∷ []) h = omega (arith, mul-one i, zero-mul d)
  one_order d (i ∷ j ∷ idx) h = absurd h.1

  normalised-Stored :
      (layout : Layout) (d : ℕ) (shape : List ℕ)
      → All (λ k. 0 < k) (d ∷ shape)
      → product (d ∷ shape) * size ≤ size_max
      → product (d ∷ shape) * size ≤ length src
      → Stored true layout (d ∷ shape) size src (
          normalised layout src size (d ∷ shape) (product (d ∷ shape)) (product (d ∷ shape) * size))
  unfolding normalised source_offset
  normalised-Stored col_major d shape pos total enough =
      copied-Stored col_major (d ∷ shape) (λ idx h. refl) enough
  normalised-Stored row_major d [] pos total enough =
      copied-Stored row_major (d ∷ []) (one_order d) enough
  normalised-Stored row_major d (e ∷ shape) pos total enough =
      rows_to_cols-Stored (d ∷ e ∷ shape) pos total enough

  finished :
      (little : Bool) (layout : Layout) (shape : List ℕ) (r : Result EasyError Bytes)
      → Stored true layout shape size src r
      → Stored little layout shape size src
          (do dst ← r; ok (to_little little size (product shape) dst))
  unfolding as_little
  finished little layout shape _ (stored dst room placed) =
      stored (to_little little size (product shape) dst)
        (length-to_little little size (product shape) dst size_pos room)
        λ idx h.
          to_little-elements little size (product shape) dst (col_offset shape idx) size_pos room
            (col_offset_lt shape idx h)
          ∙ ap (as_little little) (placed idx h)

-- Where no dimension is zero, an element has at least one byte, the bytes of all elements are at
-- most SIZE_MAX and the source has them, to_col_major_bytes succeeds on a shape with at least one
-- dimension: the buffer has the size of the array, and its element at any index, at the number of
-- the index in the column-major order, is the source's element at that index in the source's
-- layout, with its bytes in the host's order on a little-endian host and reversed on another.
pub to_col_major_bytes-Stored :
    (little : Bool) (layout : Layout) (size : ℕ) (src : Bytes) (d : ℕ) (shape : List ℕ)
    → 0 < size
    → All (λ k. 0 < k) (d ∷ shape)
    → product (d ∷ shape) * size ≤ size_max
    → product (d ∷ shape) * size ≤ length src
    → Stored little layout
        (d ∷ shape)
        size
        src
        (to_col_major_bytes little src size (d ∷ shape) layout)
unfolding to_col_major_bytes
to_col_major_bytes-Stored little layout size src d shape size_pos pos total enough =
    rw
      (
        ne→== size 0 (omega (arith, size_pos)),
        shape_total_bytes_checked_complete d shape size pos size_pos total,
      )
      (finished size src size_pos little layout (d ∷ shape)
        (normalised layout src size (d ∷ shape) (product (d ∷ shape)) (product (d ∷ shape) * size))
        (normalised-Stored size src size_pos layout d shape pos total enough))
