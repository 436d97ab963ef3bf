-- ===== src/Easy/Order.antt =====
-- to_col_major_bytes and gbf_easy_bswap_inplace of C/src/gbf_easy.c. `little` tells whether the host is
-- little-endian. The buffers are lists of bytes, and the bytes of a new buffer are 0 until written.
pub mod Offsets
pub mod Strides
pub mod Counter
pub mod Places
pub mod Swap
pub mod Elements
pub mod Whole
pub use gbin.Memory.{put_bytes, bytes_at}
use gbin.Prelude.{
  ℕ, zero, suc, ◌+◌, ◌-◌, Bool, true, false, List, [], ◌∷◌, ◌++◌, Option, none, some, Bytes, ltb,
  leb, ◌==◌, length, get_or, set, take, drop, replicate, if◌then◌else◌, Result, ok, err, ◌>>=◌,
  guard, ◌>>◌, not,
}
use gbin.Word.{add64, mul64, checked_mul_size}
use gbin.Easy.{
  EasyError, invalid_arguments, bad_shape, stride_overflow, Layout, col_major, row_major,
}
use gbin.Easy.Shape.{shape_total_bytes_checked}

-- The loop over a and b in one element. Each turn narrows the range, so that the size of the element
-- is enough fuel.
unfoldable pub swap_loop : ℕ → ℕ → ℕ → Bytes → Bytes
swap_loop zero a b p = p
swap_loop (suc fuel) a b p =
    let rest = swap_loop fuel (suc a) (b - 1) (set (set p a (get_or p b 0)) b (get_or p a 0)) in
    if ltb a b then rest else p

-- The loop over the elements that are left in the buffer.
unfoldable pub swap_elements : ℕ → ℕ → Bytes → Bytes
unfolding swap_loop
swap_elements zero size buf = buf
swap_elements (suc n) size buf =
    swap_loop size 0 (size - 1) (take size buf) ++ swap_elements n size (drop size buf)

unfoldable pub bswap_inplace : Bytes → ℕ → ℕ → Bytes
unfolding swap_elements
bswap_inplace buf size n = if leb size 1 then buf else swap_elements n size buf

-- What the conversion does last.
unfoldable pub to_little : Bool → ℕ → ℕ → Bytes → Bytes
unfolding bswap_inplace
to_little little size n dst = if little then dst else bswap_inplace dst size n

abbrev stride_before : ℕ → List ℕ → Option ℕ
stride_before d [] = some 1
stride_before d (r ∷ rs) = checked_mul_size r d

abbrev push_stride : List ℕ → Option ℕ → Option (List ℕ)
push_stride rs none = none
push_stride rs (some r) = some (r ∷ rs)

abbrev row_strides_next : ℕ → Option (List ℕ) → Option (List ℕ)
row_strides_next e none = none
row_strides_next e (some rs) = push_stride rs (stride_before e rs)

-- The stride of the last dimension is 1, and of another the product of the next stride and dimension.
unfoldable pub row_strides : List ℕ → Option (List ℕ)
row_strides [] = some []
row_strides (d ∷ []) = some (1 ∷ [])
row_strides (d ∷ e ∷ shape) = row_strides_next e (row_strides (e ∷ shape))

abbrev col_strides_next : ℕ → (ℕ → Option (List ℕ)) → Option ℕ → Option (List ℕ)
col_strides_next c rest none = none
col_strides_next c rest (some c') = push_stride' c (rest c')
  where
    push_stride' : ℕ → Option (List ℕ) → Option (List ℕ)
    push_stride' c none = none
    push_stride' c (some cs) = some (c ∷ cs)

-- From the stride `c` of the first dimension.
unfoldable pub col_strides : ℕ → List ℕ → Option (List ℕ)
col_strides c [] = some []
col_strides c (d ∷ []) = some (c ∷ [])
col_strides c (d ∷ e ∷ shape) =
    col_strides_next c (λ c'. col_strides c' (e ∷ shape)) (checked_mul_size c d)

-- The sum over k of `idx[k] * stride[k]`, from the sum of those before.
unfoldable pub offset_loop : ℕ → List ℕ → List ℕ → ℕ
offset_loop off (i ∷ idx) (s ∷ strides) = offset_loop (add64 off (mul64 i s)) idx strides
offset_loop off _ _ = off

abbrev carried : ℕ → ℕ → List ℕ × Bool → List ℕ × Bool
carried d i (idx, false) = (i ∷ idx, false)
carried d i (idx, true) = if ltb (suc i) d then (suc i ∷ idx, false) else (0 ∷ idx, true)

-- The counter after a turn, and whether the loop from the last index on went past the first.
unfoldable pub next_index : List ℕ → List ℕ → List ℕ × Bool
next_index (d ∷ shape) (i ∷ idx) = carried d i (next_index shape idx)
next_index _ _ = ([], true)

-- The loop over the `n` elements that are left, with the counter `idx`.
unfoldable pub copy_loop : List ℕ → List ℕ → List ℕ → ℕ → Bytes → ℕ → List ℕ → Bytes → Bytes
unfolding put_bytes
copy_loop shape rs cs size src zero idx dst = dst
copy_loop shape rs cs size src (suc n) idx dst =
    copy_loop shape rs cs size src n (next_index shape idx).0 (
      put_bytes (mul64 (offset_loop 0 idx cs) size)
        (bytes_at (mul64 (offset_loop 0 idx rs) size) size src) dst)

abbrev or_overflow : {A : Type 0} → Option A → Result EasyError A
or_overflow none = err stride_overflow
or_overflow (some a) = ok a

abbrev pub or_bad_shape : Option (ℕ × ℕ) → Result EasyError (ℕ × ℕ)
or_bad_shape none = err bad_shape
or_bad_shape (some p) = ok p

-- The conversion for two dimensions and more.
unfoldable pub rows_to_cols : Bytes → ℕ → List ℕ → ℕ → ℕ → Result EasyError Bytes
unfolding row_strides col_strides copy_loop
rows_to_cols src size shape n total = do
  rs ← or_overflow (row_strides shape)
  cs ← or_overflow (col_strides 1 shape)
  ok (copy_loop shape rs cs size src n (replicate (length shape) 0) (replicate total 0))

unfoldable pub normalised : Layout → Bytes → ℕ → List ℕ → ℕ → ℕ → Result EasyError Bytes
unfolding rows_to_cols
normalised col_major src size shape n total = ok (take total src)
normalised row_major src size [] n total = ok (take total src)
normalised row_major src size (d ∷ []) n total = ok (take total src)
normalised row_major src size (d ∷ e ∷ shape) n total =
    rows_to_cols src size (d ∷ e ∷ shape) n total

-- The source buffer holds at least the bytes of the shape.
unfoldable pub to_col_major_bytes : Bool → Bytes → ℕ → List ℕ → Layout → Result EasyError Bytes
unfolding shape_total_bytes_checked normalised to_little
to_col_major_bytes little src size [] layout = err invalid_arguments
to_col_major_bytes little src size (d ∷ shape) layout = do
  guard (not (size == 0)) invalid_arguments
  (n, total) ← or_bad_shape (shape_total_bytes_checked (d ∷ shape) size)
  dst ← normalised layout src size (d ∷ shape) n total
  ok (to_little little size n dst)
