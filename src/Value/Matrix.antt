-- ===== src/Value/Matrix.antt =====
-- gbf_value_new_f64_matrix_rowmajor of C/src/gbf.c. A double is its 64 bits; the array behind `data` holds
-- at least the elements that are read, and an element out of it is 0. gbf_xmalloc gives a block of
-- the size that it is asked for (of one byte for 0), whose bytes are 0 until written; a write past
-- the block is the outcome `overrun`.
pub mod Transposed
pub mod Whole
use gbin.Prelude.{
  err, ℕ, zero, suc, ◌+◌, false, List, [], ◌∷◌, Option, none, some, Bytes, length, get_or,
  replicate, leb, ◌==◌, if◌then◌else◌, Result,
}
use gbin.Error.{data_null, Error}
use gbin.Word.{add64, mul64, store_le_u64}
use gbin.Memory.{put_bytes}
use gbin.Value.{Value, double}
use gbin.Value.Make.{new_numeric_from_bytes}

pub data Outcome : Type 0 where
  finished : Result Error Value → Outcome
  overrun : Outcome

-- `gbf_store_le_u64(real + idx * 8, bits)`, where it stays in the block.
unfoldable pub store_element : Bytes → ℕ → ℕ → Option Bytes
store_element real idx bits =
    if leb (mul64 idx 8 + 8) (length real)
    then some (put_bytes (mul64 idx 8) (store_le_u64 bits) real)
    else none

abbrev pub and_then : Option Bytes → (Bytes → Option Bytes) → Option Bytes
and_then none rest = none
and_then (some real) rest = rest real

-- The loop over the columns that are left from c on, in the row r.
unfoldable pub fill_cols : List ℕ → ℕ → ℕ → ℕ → ℕ → ℕ → Bytes → Option Bytes
unfolding store_element
fill_cols numbers rows cols r zero c real = some real
fill_cols numbers rows cols r (suc left) c real =
    and_then
      (store_element real (add64 r (mul64 c rows)) (get_or numbers (add64 (mul64 r cols) c) 0))
      λ real'. fill_cols numbers rows cols r left (suc c) real'

-- The loop over the rows that are left from r on.
unfoldable pub fill_rows : List ℕ → ℕ → ℕ → ℕ → ℕ → Bytes → Option Bytes
unfolding fill_cols
fill_rows numbers rows cols zero r real = some real
fill_rows numbers rows cols (suc left) r real =
    and_then (fill_cols numbers rows cols r cols 0 real)
      λ real'. fill_rows numbers rows cols left (suc r) real'

-- The block that gbf_xmalloc gives for real_len.
unfoldable pub new_block : ℕ → Bytes
new_block n = replicate (if n == 0 then 1 else n) 0

abbrev pub take_bytes : ℕ → ℕ → ℕ → Option Bytes → Outcome
take_bytes rows cols real_len none = overrun
take_bytes rows cols real_len (some real) =
    finished (
      new_numeric_from_bytes double (rows ∷ cols ∷ []) false (gbin.Prelude.take real_len real) none)

-- From a pointer that may be NULL.
unfoldable pub new_f64_matrix_rowmajor : Option (List ℕ) → ℕ → ℕ → Outcome
unfolding fill_rows new_block new_numeric_from_bytes
new_f64_matrix_rowmajor none rows cols = finished (err data_null)
new_f64_matrix_rowmajor (some numbers) rows cols =
    let real_len = mul64 (mul64 rows cols) 8 in
    take_bytes rows cols real_len (fill_rows numbers rows cols rows 0 (new_block real_len))
