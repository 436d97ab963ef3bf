-- ===== src/Value/Matrix/Transposed.antt =====
-- The matrix that gbf_value_new_f64_matrix_rowmajor of C/src/gbf.c makes of its rows, and the writes past
-- its block.
use native.Mathlib.Nat.{mul_comm}
use gbin.Prelude.{
  ℕ, zero, suc, ◌+◌, ◌*◌, ◌≤◌, ◌<◌, ◌≡◌, refl, ◌∙◌, arith, List, Option, some, Bytes, length,
  get_or, le→leb, ◌==◌, inl, inr, ◌⊎◌, Bool-cases, ==→eq, ==→ne, digit_lt, digit_eq,
}
use gbin.Word.{size_max, add64, mul64, store_le_u64}
use gbin.Memory.{
  put_bytes, bytes_at, length-put_bytes, bytes_at-put_self, bytes_at-put_other, elements_apart,
}
use gbin.Value.Matrix.{and_then, store_element, fill_cols, fill_rows}

length-store_le_u64 : (v : ℕ) → length (store_le_u64 v) ≡ 8
unfolding store_le_u64
length-store_le_u64 v = refl

-- The element of the row i and the column j stands at its place in the column-major order.
abbrev pub IsTransposed : List ℕ → ℕ → ℕ → Bytes → ℕ → ℕ → Type 0
IsTransposed numbers rows cols real i j =
    bytes_at ((j * rows + i) * 8) 8 real ≡ store_le_u64 (get_or numbers (i * cols + j) 0)

module _ (numbers : List ℕ) (rows cols : ℕ) (total : rows * cols * 8 ≤ size_max) where
  -- A block in which the elements that were in place in `before` are in place, and the new ones, too.
  pub data Filled (before : Bytes) (new : ℕ → ℕ → Type 0) : Option Bytes → Type 0 where
    filled :
        (real : Bytes)
        → length real ≡ rows * cols * 8
        → ((i j : ℕ)
            → i < rows
            → j < cols
            → IsTransposed numbers rows cols before i j ⊎ new i j
            → IsTransposed numbers rows cols real i j)
        → Filled before new (some real)

  place_lt : (i j : ℕ) → i < rows → j < cols → j * rows + i < rows * cols
  place_lt i j hi hj = omega (arith, digit_lt cols rows j i hj hi, mul_comm rows cols)

  source_lt : (i j : ℕ) → i < rows → j < cols → i * cols + j < rows * cols
  source_lt i j hi hj = digit_lt rows cols i j hi hj

  module _ (r c : ℕ) (hr : r < rows) (hc : c < cols) (real : Bytes)
      (room : length real ≡ rows * cols * 8) where
    after : Bytes
    after = put_bytes ((c * rows + r) * 8) (store_le_u64 (get_or numbers (r * cols + c) 0)) real

    inside :
        (c * rows + r) * 8 + length (store_le_u64 (get_or numbers (r * cols + c) 0)) ≤ length real
    inside =
        omega
          (arith, length-store_le_u64 (get_or numbers (r * cols + c) 0), place_lt r c hr hc, room)

    stored :
        store_element real (add64 r (mul64 c rows)) (get_or numbers (add64 (mul64 r cols) c) 0)
        ≡ some after
    unfolding store_element after
    stored =
        let to : add64 r (mul64 c rows) ≡ c * rows + r = omega (arith, place_lt r c hr hc, total) in
        let from : add64 (mul64 r cols) c ≡ r * cols + c =
          omega (arith, source_lt r c hr hc, total) in
        let at : mul64 (c * rows + r) 8 ≡ (c * rows + r) * 8 =
          omega (arith, place_lt r c hr hc, total) in
        rw
          (
            to,
            from,
            at,
            le→leb ((c * rows + r) * 8 + 8) (length real) (omega (arith, place_lt r c hr hc, room)),
          )
          refl

    length-after : length after ≡ rows * cols * 8
    unfolding after
    length-after =
        length-put_bytes ((c * rows + r) * 8) (store_le_u64 (get_or numbers (r * cols + c) 0)) real
          inside
        ∙ room

    after_self : IsTransposed numbers rows cols after r c
    unfolding after store_le_u64
    after_self =
        bytes_at-put_self ((c * rows + r) * 8) (store_le_u64 (get_or numbers (r * cols + c) 0)) real
          inside

    after_other :
        (i j : ℕ)
        → i < rows
        → ¬ (j * rows + i ≡ c * rows + r)
        → IsTransposed numbers rows cols real i j
        → IsTransposed numbers rows cols after i j
    unfolding after store_le_u64
    after_other i j hi ne h =
        bytes_at-put_other ((c * rows + r) * 8) (store_le_u64 (get_or numbers (r * cols + c) 0))
          real inside ((j * rows + i) * 8) 8 (elements_apart (j * rows + i) (c * rows + r) 8 ne)
        ∙ h

    -- The store keeps what is in place, and puts its own element there.
    after_keeps :
        (i j : ℕ)
        → i < rows
        → IsTransposed numbers rows cols real i j ⊎ ((i ≡ r) × (j ≡ c))
        → IsTransposed numbers rows cols after i j
    after_keeps i j hi (inr (same_row, same_col)) = rw (same_row, same_col) after_self
    after_keeps i j hi (inl h) = elim (Bool-cases (j * rows + i == c * rows + r)) [
      | inr other ↦ after_other i j hi (==→ne (j * rows + i) (c * rows + r) other) h
      | inl same ↦
          let (col, row) = digit_eq rows j i c r hi hr (==→eq (j * rows + i) (c * rows + r) same) in
          rw (row, col) after_self
    ]

  -- A step, and what fills the block that it leaves.
  from_step :
      (before next : Bytes) (early late : ℕ → ℕ → Type 0) (o : Option Bytes)
      → ((i j : ℕ)
          → i < rows
          → j < cols
          → IsTransposed numbers rows cols before i j ⊎ early i j
          → IsTransposed numbers rows cols next i j ⊎ late i j)
      → Filled next late o
      → Filled before early o
  from_step before next early late _ h (filled real room placed) =
      filled real room λ i j hi hj k. placed i j hi hj (h i j hi hj k)

  fill_cols-Filled :
      (r left c : ℕ) (real : Bytes)
      → r < rows
      → c + left ≡ cols
      → length real ≡ rows * cols * 8
      → Filled real (λ i j. (i ≡ r) × (c ≤ j)) (fill_cols numbers rows cols r left c real)
  unfolding fill_cols
  fill_cols-Filled r zero c real hr e room =
      filled real room
        (λ i j hi hj k. elim k [ inl there ↦ there | inr (row, col) ↦ absurd (omega arith) ])
  fill_cols-Filled r (suc left) c real hr e room =
      let hc : c < cols = omega arith in
      let next = after r c hr hc real room in
      rw (stored r c hr hc real room) (
        from_step real next (λ i j. (i ≡ r) × (c ≤ j)) (λ i j. (i ≡ r) × (suc c ≤ j))
          (fill_cols numbers rows cols r left (suc c) next)
          (λ i j hi hj k. elim k [
            | inl there ↦ inl (after_keeps r c hr hc real room i j hi (inl there))
            | inr (row, col) ↦ elim (Bool-cases (j == c)) [
              | inl now ↦ inl (after_keeps r c hr hc real room i j hi (inr (row, ==→eq j c now)))
              | inr later ↦ inr (row, omega (arith, col, ==→ne j c later))
            ]
          ])
          (fill_cols-Filled r left (suc c) next hr (omega arith)
            (length-after r c hr hc real room)))

  row_then :
      (before : Bytes) (early late new : ℕ → ℕ → Type 0) (o : Option Bytes)
      (rest : Bytes → Option Bytes)
      → Filled before early o
      → ((i j : ℕ) → new i j → early i j ⊎ late i j)
      → ((real : Bytes) → length real ≡ rows * cols * 8 → Filled real late (rest real))
      → Filled before new (and_then o rest)
  row_then before early late new _ rest (filled real room placed) split h =
      from_step before real new late (rest real)
        (λ i j hi hj k. elim k [
          | inl there ↦ inl (placed i j hi hj (inl there))
          | inr fresh ↦ elim (split i j fresh) [
            | inl now ↦ inl (placed i j hi hj (inr now))
            | inr later ↦ inr later
          ]
        ])
        (h real room)

  pub fill_rows-Filled :
      (left r : ℕ) (real : Bytes)
      → r + left ≡ rows
      → length real ≡ rows * cols * 8
      → Filled real (λ i j. r ≤ i) (fill_rows numbers rows cols left r real)
  unfolding fill_rows
  fill_rows-Filled zero r real e room =
      filled real room
        (λ i j hi hj k. elim k [ inl there ↦ there | inr below ↦ absurd (omega arith) ])
  fill_rows-Filled (suc left) r real e room =
      row_then real (λ i j. (i ≡ r) × (0 ≤ j)) (λ i j. suc r ≤ i) (λ i j. r ≤ i)
        (fill_cols numbers rows cols r cols 0 real)
        (λ next. fill_rows numbers rows cols left (suc r) next)
        (fill_cols-Filled r cols 0 real (omega arith) (omega arith) room)
        (λ i j k. elim (Bool-cases (i == r)) [
          | inl now ↦ inl (==→eq i r now, omega arith)
          | inr later ↦ inr (omega (arith, k, ==→ne i r later))
        ])
        (λ next next_room. fill_rows-Filled left (suc r) next (omega arith) next_room)
