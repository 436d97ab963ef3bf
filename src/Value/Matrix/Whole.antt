-- ===== src/Value/Matrix/Whole.antt =====
-- What gbf_value_new_f64_matrix_rowmajor of C/src/gbf.c returns, and where it writes past its block.
use native.Mathlib.Nat.{mul-one, mul-pos}
use gbin.Prelude.{
  some, ℕ, zero, suc, ◌+◌, ◌*◌, ◌≤◌, ◌<◌, ◌≡◌, refl, ap, arith, false, List, [], ◌∷◌, Option, none,
  Bytes, length, take_all, replicate, length-replicate, leb, eq→==, ne→==, inr, ok,
}
use gbin.Word.{size_max, add64, mul64}
use gbin.Value.{numeric, double}
use gbin.Value.Class.{bytes_per_elem}
use gbin.Value.Shape.{product, shape_numel_complete}
use gbin.Value.Make.{new_numeric_from_bytes, with_numel, numeric_of}
use gbin.Value.Matrix.{
  Outcome, finished, overrun, store_element, fill_cols, fill_rows, new_block, take_bytes,
  new_f64_matrix_rowmajor,
}
use gbin.Value.Matrix.Transposed.{IsTransposed, Filled, filled, fill_rows-Filled}

-- A real matrix of doubles in the column-major order, made of the rows of `numbers`.
pub data Transposes (numbers : List ℕ) (rows cols : ℕ) : Outcome → Type 0 where
  transposes :
      (real : Bytes)
      → length real ≡ rows * cols * 8
      → ((i j : ℕ) → i < rows → j < cols → IsTransposed numbers rows cols real i j)
      → Transposes numbers rows cols (
          finished (
            ok (
              numeric (record {
                class_id = double;
                shape = rows ∷ cols ∷ [];
                complex = false;
                real_le = real;
                imag_le = [];
              }))))

module _ (numbers : List ℕ) (rows cols : ℕ) (rows_pos : 0 < rows) (cols_pos : 0 < cols)
    (total : rows * cols * 8 ≤ size_max) where
  made_matrix :
      (real : Bytes)
      → length real ≡ rows * cols * 8
      → new_numeric_from_bytes double (rows ∷ cols ∷ []) false real none
        ≡ ok (
            numeric (record {
              class_id = double;
              shape = rows ∷ cols ∷ [];
              complex = false;
              real_le = real;
              imag_le = [];
            }))
  unfolding new_numeric_from_bytes with_numel numeric_of bytes_per_elem product
  made_matrix real room =
      let count : rows * (cols * 1) ≡ rows * cols = ap (λ k. rows * k) (mul-one cols) in
      let numel =
        shape_numel_complete rows (cols ∷ []) (rows_pos, (cols_pos, tt))
          (omega (arith, count, total)) in
      let exact : mul64 (rows * (cols * 1)) 8 ≡ rows * cols * 8 = omega (arith, count, total) in
      rw (numel, exact, eq→== (length real) (rows * cols * 8) room) refl

  taken :
      (before : Bytes) (o : Option Bytes)
      → Filled numbers rows cols total before (λ i j. 0 ≤ i) o
      → Transposes numbers rows cols (take_bytes rows cols (rows * cols * 8) o)
  taken before _ (filled real room placed) =
      rw (take_all (rows * cols * 8) real (omega (arith, room)), made_matrix real room)
        (transposes real room λ i j hi hj. placed i j hi hj (inr (omega arith)))

-- Of data that is not NULL, for a positive number of rows and of columns and a byte count of at most SIZE_MAX,
-- gbf_value_new_f64_matrix_rowmajor writes past no block and returns a real matrix of doubles with
-- that shape: at the number j * rows + i it holds the little-endian bytes of the element i * cols + j
-- of the source, for each row i and column j.
pub new_f64_matrix_rowmajor-Transposes :
    (numbers : List ℕ) (rows cols : ℕ)
    → 0 < rows
    → 0 < cols
    → rows * cols * 8 ≤ size_max
    → Transposes numbers rows cols (new_f64_matrix_rowmajor (some numbers) rows cols)
unfolding new_f64_matrix_rowmajor new_block
new_f64_matrix_rowmajor-Transposes numbers rows cols rows_pos cols_pos total =
    let real_len : mul64 (mul64 rows cols) 8 ≡ rows * cols * 8 = omega (arith, total) in
    let some_bytes = ne→== (rows * cols * 8) 0 (omega (arith, mul-pos rows_pos cols_pos)) in
    rw (real_len, some_bytes)
      (taken numbers rows cols rows_pos cols_pos total (replicate (rows * cols * 8) 0)
        (fill_rows numbers rows cols rows 0 (replicate (rows * cols * 8) 0))
        (fill_rows-Filled numbers rows cols total rows 0 (replicate (rows * cols * 8) 0)
          (omega arith) (length-replicate (rows * cols * 8) 0)))

past : (k : ℕ) → leb (k + 8) (length (new_block 0)) ≡ false
unfolding new_block
past k = ground arith

-- Of data that is not NULL, for a positive number of rows and of columns whose product times 8 is a multiple of 2^64,
-- gbf_value_new_f64_matrix_rowmajor writes past the block that it has allocated.
pub new_f64_matrix_rowmajor_overruns :
    (numbers : List ℕ) (rows cols : ℕ)
    → 0 < rows
    → 0 < cols
    → mul64 (mul64 rows cols) 8 ≡ 0
    → new_f64_matrix_rowmajor (some numbers) rows cols ≡ overrun
unfolding new_f64_matrix_rowmajor fill_rows fill_cols store_element
new_f64_matrix_rowmajor_overruns numbers zero cols rows_pos cols_pos wraps = absurd (omega arith)
new_f64_matrix_rowmajor_overruns numbers (suc rows) zero rows_pos cols_pos wraps =
    absurd (omega arith)
new_f64_matrix_rowmajor_overruns numbers (suc rows) (suc cols) rows_pos cols_pos wraps =
    rw (wraps, past (mul64 (add64 0 (mul64 0 (suc rows))) 8)) refl
