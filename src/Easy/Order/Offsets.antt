-- ===== src/Easy/Order/Offsets.antt =====
-- The offset of an element in the two orders of an array, and the sums that to_col_major_bytes of
-- C/src/gbf_easy.c computes with its strides.
use native.Mathlib.Nat.{mul_comm}
use gbin.Prelude.{ℕ, ◌+◌, ◌*◌, ◌<◌, ◌≡◌, refl, arith, List, [], ◌∷◌, digit_eq, digit_lt}
use gbin.Value.Shape.{product}

-- An index of an array: one number for a dimension, below it.
abbrev pub IsIndex : List ℕ → List ℕ → Type 0
IsIndex [] [] = Unit
IsIndex [] (i ∷ idx) = ⊥
IsIndex (d ∷ shape) [] = ⊥
IsIndex (d ∷ shape) (i ∷ idx) = (i < d) × IsIndex shape idx

-- The number of the element in row-major order: the last index runs fastest.
unfoldable pub row_offset : List ℕ → List ℕ → ℕ
unfolding product
row_offset (d ∷ shape) (i ∷ idx) = i * product shape + row_offset shape idx
row_offset _ _ = 0

-- The number of the element in column-major order: the first index runs fastest.
unfoldable pub col_offset : List ℕ → List ℕ → ℕ
col_offset (d ∷ shape) (i ∷ idx) = col_offset shape idx * d + i
col_offset _ _ = 0

pub row_offset_lt : (shape idx : List ℕ) → IsIndex shape idx → row_offset shape idx < product shape
unfolding row_offset product
row_offset_lt [] [] h = omega arith
row_offset_lt [] (i ∷ idx) h = absurd h
row_offset_lt (d ∷ shape) [] h = absurd h
row_offset_lt (d ∷ shape) (i ∷ idx) h =
    digit_lt d (product shape) i (row_offset shape idx) h.0 (row_offset_lt shape idx h.1)

pub col_offset_lt : (shape idx : List ℕ) → IsIndex shape idx → col_offset shape idx < product shape
unfolding col_offset product
col_offset_lt [] [] h = omega arith
col_offset_lt [] (i ∷ idx) h = absurd h
col_offset_lt (d ∷ shape) [] h = absurd h
col_offset_lt (d ∷ shape) (i ∷ idx) h =
    rw (mul_comm d (product shape))
      (digit_lt (product shape) d (col_offset shape idx) i (col_offset_lt shape idx h.1) h.0)

-- An element has one number in the row-major order.
pub row_offset_injective :
    (shape x y : List ℕ)
    → IsIndex shape x
    → IsIndex shape y
    → row_offset shape x ≡ row_offset shape y
    → x ≡ y
unfolding row_offset
row_offset_injective [] [] [] h k e = refl
row_offset_injective [] [] (j ∷ y) h k e = absurd k
row_offset_injective [] (i ∷ x) y h k e = absurd h
row_offset_injective (d ∷ shape) [] y h k e = absurd h
row_offset_injective (d ∷ shape) (i ∷ x) [] h k e = absurd k
row_offset_injective (d ∷ shape) (i ∷ x) (j ∷ y) h k e =
    let (head, tail) =
      digit_eq (product shape) i (row_offset shape x) j (row_offset shape y)
        (row_offset_lt shape x h.1) (row_offset_lt shape y k.1) e in
    let rest = row_offset_injective shape x y h.1 k.1 tail in rw (head, rest) refl

-- An element has one number in the column-major order.
pub col_offset_injective :
    (shape x y : List ℕ)
    → IsIndex shape x
    → IsIndex shape y
    → col_offset shape x ≡ col_offset shape y
    → x ≡ y
unfolding col_offset
col_offset_injective [] [] [] h k e = refl
col_offset_injective [] [] (j ∷ y) h k e = absurd k
col_offset_injective [] (i ∷ x) y h k e = absurd h
col_offset_injective (d ∷ shape) [] y h k e = absurd h
col_offset_injective (d ∷ shape) (i ∷ x) [] h k e = absurd k
col_offset_injective (d ∷ shape) (i ∷ x) (j ∷ y) h k e =
    let (tail, head) = digit_eq d (col_offset shape x) i (col_offset shape y) j h.0 k.0 e in
    let rest = col_offset_injective shape x y h.1 k.1 tail in rw (head, rest) refl
