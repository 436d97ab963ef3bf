-- ===== src/Tests/Making.antt =====
-- The theorems on the constructors, applied at concrete inputs.
use gbin.Prelude.{refl, arith, [], ◌∷◌, some, true}
use gbin.Word.{checked_mul_size}
use gbin.Value.{int16, numeric, char}
use gbin.Value.Class.{bytes_per_elem}
use gbin.Value.Shape.{shape_numel, numel_loop}
use gbin.Value.Make.{new_numeric_from_bytes, numeric_of, new_char_from_utf16, with_numel}
use gbin.Codec.RoundTrip.Whole.{IsLeaf}
use gbin.Codec.RoundTrip.Made.{new_numeric_from_bytes-IsLeaf, new_char_from_utf16-IsLeaf}

new_numeric_from_bytes-IsLeaf_example : IsLeaf (
    numeric (record {
      class_id = int16;
      shape = 1 ∷ 1 ∷ [];
      complex = true;
      real_le = 1 ∷ 2 ∷ [];
      imag_le = 3 ∷ 4 ∷ [];
    }))
unfolding new_numeric_from_bytes numeric_of with_numel shape_numel numel_loop checked_mul_size
    bytes_per_elem
new_numeric_from_bytes-IsLeaf_example =
    new_numeric_from_bytes-IsLeaf int16 (1 ∷ 1 ∷ []) true (1 ∷ 2 ∷ []) (some (3 ∷ 4 ∷ [])) 1
      (numeric (record {
        class_id = int16;
        shape = 1 ∷ 1 ∷ [];
        complex = true;
        real_le = 1 ∷ 2 ∷ [];
        imag_le = 3 ∷ 4 ∷ [];
      }))
      (omega arith, (omega arith, tt)) refl (omega arith) refl

new_char_from_utf16-IsLeaf_example :
    IsLeaf (char (record { shape = 1 ∷ 2 ∷ []; units = 55357 ∷ 56832 ∷ [] }))
unfolding new_char_from_utf16 with_numel shape_numel numel_loop checked_mul_size
new_char_from_utf16-IsLeaf_example =
    new_char_from_utf16-IsLeaf (55357 ∷ 56832 ∷ []) (1 ∷ 2 ∷ [])
      (char (record { shape = 1 ∷ 2 ∷ []; units = 55357 ∷ 56832 ∷ [] }))
      (omega arith, (omega arith, tt)) (omega arith, (omega arith, tt)) (omega arith) refl
