-- ===== src/Value/Make.antt =====
-- The constructors of numeric, logical, string and char values of C/src/gbf.c. An array that is passed
-- with its length is a list; a shape that is NULL is the empty list. Memory suffices.
use Prim.Native.String.{String}
use gbin.Prelude.{
  ℕ, Bool, true, not, List, [], ◌∷◌, Option, none, some, Bytes, length, ◌==◌, if◌then◌else◌, Result,
  ok, err, or_default,
}
use gbin.Error.{
  Error, shape_required, shape_too_large, len_mismatch, imag_len_mismatch, imag_not_complex,
}
use gbin.Word.{mul64}
use gbin.Value.{Value, NumericClass, numeric, logical, string, char}
use gbin.Value.Class.{bytes_per_elem}
use gbin.Value.Shape.{shape_numel}

abbrev on_numel : String → Option ℕ → (ℕ → Result Error Value) → Result Error Value
on_numel kind none make = err (shape_too_large kind)
on_numel kind (some numel) make = make numel

-- The checks of the shape that the constructors start with.
unfoldable pub with_numel : String → List ℕ → (ℕ → Result Error Value) → Result Error Value
with_numel kind [] make = err (shape_required kind)
with_numel kind (d ∷ shape) make = on_numel kind (shape_numel (d ∷ shape)) make

-- `imag_len != expected || !imag_le`
abbrev imag_differs : Option Bytes → ℕ → Bool
imag_differs none expected = true
imag_differs (some imag_le) expected = not (length imag_le == expected)

unfoldable pub numeric_of :
    NumericClass → List ℕ → Bool → Bytes → Option Bytes → ℕ → Result Error Value
numeric_of class_id shape complex real_le imag_le expected =
    let made = ok (
      numeric (record {
        class_id = class_id;
        shape = shape;
        complex = complex;
        real_le = real_le;
        imag_le = if complex then or_default imag_le [] else [];
      })) in
    if not (length real_le == expected)
    then err (len_mismatch "numeric" (length real_le) expected)
    else if complex
    then (if imag_differs imag_le expected then err imag_len_mismatch else made)
    else if not (length (or_default imag_le []) == 0)
    then err imag_not_complex
    else made

-- An imag_le that is NULL is `none`, with the length 0.
unfoldable pub new_numeric_from_bytes :
    NumericClass → List ℕ → Bool → Bytes → Option Bytes → Result Error Value
unfolding with_numel numeric_of
new_numeric_from_bytes class_id shape complex real_le imag_le = with_numel "numeric" shape λ numel.
    numeric_of class_id shape complex real_le imag_le (mul64 numel (bytes_per_elem class_id))

unfoldable pub new_logical_from_u8 : Bytes → List ℕ → Result Error Value
unfolding with_numel
new_logical_from_u8 bits shape = with_numel "logical" shape λ numel.
    if not (length bits == numel)
    then err (len_mismatch "logical" (length bits) numel)
    else ok (logical (record { shape = shape; bits = bits }))

unfoldable pub new_string_array : List (Option Bytes) → List ℕ → Result Error Value
unfolding with_numel
new_string_array elements shape = with_numel "string" shape λ numel.
    if not (length elements == numel)
    then err (len_mismatch "string" (length elements) numel)
    else ok (string (record { shape = shape; elements = elements }))

unfoldable pub new_char_from_utf16 : List ℕ → List ℕ → Result Error Value
unfolding with_numel
new_char_from_utf16 units shape = with_numel "char" shape λ numel.
    if not (length units == numel)
    then err (len_mismatch "char" (length units) numel)
    else ok (char (record { shape = shape; units = units }))
