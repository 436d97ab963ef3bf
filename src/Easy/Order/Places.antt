-- ===== src/Easy/Order/Places.antt =====
-- to_col_major_bytes of C/src/gbf_easy.c puts every element of a row-major array at its place.
use gbin.Prelude.{
  ℕ, zero, suc, ◌+◌, ◌*◌, ◌≤◌, ◌<◌, ◌≡◌, sym, ap, ◌∙◌, arith, List, Bytes, Bool, length, inl, inr,
  ◌⊎◌, ◌==◌, ==→eq, Bool-cases, ==→ne,
}
use gbin.Word.{size_max, mul64}
use gbin.Value.Shape.{product, le_mul_pos}
use gbin.Easy.Order.{copy_loop, bytes_at, put_bytes, next_index, offset_loop}
use gbin.Easy.Order.Offsets.{
  IsIndex, row_offset, col_offset, row_offset_lt, col_offset_lt, row_offset_injective,
  col_offset_injective,
}
use gbin.Easy.Order.Strides.{row_steps, col_steps, offset_loop-row_steps, offset_loop-col_steps}
use gbin.Easy.Order.Counter.{Next, more, wrapped, next_index-Next}
use gbin.Memory.{
  element_fits, elements_apart, length-bytes_at, length-put_bytes, bytes_at-put_self,
  bytes_at-put_other,
}

-- The bytes of an element at its number in the column-major order are those of the source at its
-- number in the row-major order.
abbrev pub IsPlaced : List ℕ → ℕ → Bytes → Bytes → List ℕ → Type 0
IsPlaced shape size src dst idx =
    bytes_at (col_offset shape idx * size) size dst
    ≡ bytes_at (row_offset shape idx * size) size src

Next-IsIndex :
    {shape : List ℕ} {old : ℕ} {next : List ℕ × Bool} → Next shape old next → IsIndex shape next.0
Next-IsIndex (more idx h e) = h
Next-IsIndex (wrapped idx h e last) = h

Next-count :
    {shape : List ℕ} {old : ℕ} {next : List ℕ × Bool} (n : ℕ)
    → old + suc n ≡ product shape
    → Next shape old next
    → (n ≡ 0) ⊎ (row_offset shape next.0 + n ≡ product shape)
Next-count n count (more idx h e) = inr (omega (arith, e, count))
Next-count n count (wrapped idx h e last) = inl (omega (arith, last, count))

module _ (shape : List ℕ) (size : ℕ) (src : Bytes) (total : product shape * size ≤ size_max)
    (enough : product shape * size ≤ length src) (size_pos : 0 < size) where
  product_fits : product shape ≤ size_max
  product_fits = omega (arith, le_mul_pos (product shape) size size_pos, total)

  from :
      (idx : List ℕ)
      → IsIndex shape idx
      → mul64 (offset_loop 0 idx (row_steps shape)) size ≡ row_offset shape idx * size
  from idx h =
      let below = row_offset_lt shape idx h in
      let off = offset_loop-row_steps 0 shape idx (omega (arith, below, product_fits)) in
      rw off (omega (arith, element_fits (row_offset shape idx) (product shape) size below, total))

  to :
      (idx : List ℕ)
      → IsIndex shape idx
      → mul64 (offset_loop 0 idx (col_steps 1 shape)) size ≡ col_offset shape idx * size
  to idx h =
      let below = col_offset_lt shape idx h in
      let off = offset_loop-col_steps 0 1 shape idx (omega (arith, below, product_fits)) in
      rw off (omega (arith, element_fits (col_offset shape idx) (product shape) size below, total))

  -- One turn of the loop.
  turn : List ℕ → Bytes → Bytes
  turn idx dst =
      put_bytes (col_offset shape idx * size) (bytes_at (row_offset shape idx * size) size src) dst

  module _ (idx : List ℕ) (dst : Bytes) (h : IsIndex shape idx)
      (room : length dst ≡ product shape * size) where
    length-element : length (bytes_at (row_offset shape idx * size) size src) ≡ size
    length-element = length-bytes_at (row_offset shape idx * size) size src (
        omega (
          arith,
          element_fits (row_offset shape idx) (product shape) size (row_offset_lt shape idx h),
          enough,
        ))

    element_room :
        col_offset shape idx * size + length (bytes_at (row_offset shape idx * size) size src)
        ≤ length dst
    element_room = omega (
      arith,
      length-element,
      element_fits (col_offset shape idx) (product shape) size (col_offset_lt shape idx h),
      room,
    )

    length-turn : length (turn idx dst) ≡ product shape * size
    unfolding turn
    length-turn =
        length-put_bytes (col_offset shape idx * size)
          (bytes_at (row_offset shape idx * size) size src) dst element_room
        ∙ room

    turn-IsPlaced : IsPlaced shape size src (turn idx dst) idx
    unfolding turn
    turn-IsPlaced =
        ap (λ k. bytes_at (col_offset shape idx * size) k (turn idx dst)) (sym length-element)
        ∙ bytes_at-put_self (col_offset shape idx * size)
            (bytes_at (row_offset shape idx * size) size src) dst element_room

    turn-other :
        (y : List ℕ)
        → ¬ (col_offset shape y ≡ col_offset shape idx)
        → IsPlaced shape size src dst y
        → IsPlaced shape size src (turn idx dst) y
    unfolding turn
    turn-other y ne placed =
        let away = elements_apart (col_offset shape y) (col_offset shape idx) size ne in
        bytes_at-put_other (col_offset shape idx * size)
          (bytes_at (row_offset shape idx * size) size src) dst element_room
          (col_offset shape y * size) size (rw length-element away)
        ∙ placed

    -- A turn keeps what is placed, and places the element of its index.
    turn-keeps :
        (y : List ℕ)
        → IsIndex shape y
        → (n : ℕ) → row_offset shape idx + suc n ≡ product shape
        → (row_offset shape y + suc n < product shape → IsPlaced shape size src dst y)
        → row_offset shape y + n < product shape
        → IsPlaced shape size src (turn idx dst) y
    turn-keeps y k n count before reached =
        elim (Bool-cases (row_offset shape y == row_offset shape idx)) [
          | inl same ↦
              let y_is = row_offset_injective shape y idx k h (==→eq _ _ same) in
              rw y_is turn-IsPlaced
          | inr other ↦
              turn-other y
                (λ e. absurd (
                  ==→ne _ _ other (ap (row_offset shape) (col_offset_injective shape y idx k h e))))
                (before (omega (arith, ==→ne _ _ other, count, reached)))
        ]

  -- The loop over the elements from the index `idx` on, where those before are in place.
  pub copy_loop-IsPlaced :
      (y : List ℕ)
      → IsIndex shape y
      → (n : ℕ) (idx : List ℕ) (dst : Bytes) → IsIndex shape idx
      → (n ≡ 0) ⊎ (row_offset shape idx + n ≡ product shape)
      → length dst ≡ product shape * size
      → (row_offset shape y + n < product shape → IsPlaced shape size src dst y)
      → IsPlaced shape size src
          (copy_loop shape (row_steps shape) (col_steps 1 shape) size src n idx dst)
          y
  unfolding copy_loop turn
  copy_loop-IsPlaced y k zero idx dst h count room before =
      before (omega (arith, row_offset_lt shape y k))
  copy_loop-IsPlaced y k (suc n) idx dst h (inl count) room before = absurd (omega arith)
  copy_loop-IsPlaced y k (suc n) idx dst h (inr count) room before =
      rw (to idx h, from idx h)
        (copy_loop-IsPlaced y k n (next_index shape idx).0 (turn idx dst)
          (Next-IsIndex (next_index-Next shape idx h))
          (Next-count n count (next_index-Next shape idx h)) (length-turn idx dst h room)
          (turn-keeps idx dst h room y k n count before))

  pub length-copy_loop :
      (n : ℕ) (idx : List ℕ) (dst : Bytes)
      → IsIndex shape idx
      → length dst ≡ product shape * size
      → length (copy_loop shape (row_steps shape) (col_steps 1 shape) size src n idx dst)
        ≡ product shape * size
  unfolding copy_loop turn
  length-copy_loop zero idx dst h room = room
  length-copy_loop (suc n) idx dst h room =
      rw (to idx h, from idx h)
        (length-copy_loop n (next_index shape idx).0 (turn idx dst)
          (Next-IsIndex (next_index-Next shape idx h)) (length-turn idx dst h room))
