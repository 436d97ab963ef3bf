-- ===== src/Easy/Make.antt =====
-- The constructors of entries of C/src/gbf_easy.c. The data of a typed constructor holds the bytes of the
-- numbers as the host stores them, at least as many as the shape needs; `units` is not NULL. The
-- copies of the strings are the strings.
pub mod Accepts
pub mod Typed
use Prim.Native.String.{String}
use gbin.Prelude.{
  ℕ, Bool, true, false, not, ◌&&◌, List, [], ◌∷◌, Option, none, some, Bytes, length, take,
  replicate, ◌==◌, Result, ok, err, or_default, ◌>>=◌, ◌>>◌, guard, is_empty,
}
use gbin.Value.{
  Value, NumericClass, struct, no_entries, numeric, logical, string, char, opaque, double, single,
  int32, uint64,
}
use gbin.Easy.{
  Entry, EasyError, Ownership, copied, taken, Layout, col_major, invalid_args, invalid_class,
  bad_shape, real_len_mismatch, imag_len_mismatch, imag_required, imag_not_allowed,
  string_n_mismatch, char_n_mismatch, elem_size,
}
use gbin.Easy.Shape.{shape_numel_checked, shape_total_bytes_checked}
use gbin.Easy.Order.{to_col_major_bytes, or_bad_shape}

-- An entry, and the message in err after the call, if the call sets one.
abbrev pub Made : Type 0
Made = Entry × Option EasyError

-- The entry of a constructor: without a value where an error is reported.
abbrev pub made : Option Bytes → Result EasyError Value → Made
made name (ok v) = (record { name = name; value = some v }, none)
made name (err e) = (record { name = name; value = none }, some e)

abbrev pub given : {A : Type 0} → Option A → Bool
given none = false
given (some a) = true

abbrev pub has_dims : List ℕ → Bool
has_dims [] = false
has_dims (d ∷ shape) = true

abbrev counted_or_fail : Option ℕ → Result EasyError ℕ
counted_or_fail none = err bad_shape
counted_or_fail (some n) = ok n

-- The checks of the imaginary part. `some []` is a pointer with the length 0.
unfoldable pub check_imag : Bool → Option Bytes → ℕ → Result EasyError Unit
check_imag true none expected = err imag_required
check_imag true (some []) expected = err imag_required
check_imag true (some (b ∷ bs)) expected =
    guard (length (b ∷ bs) == expected) (imag_len_mismatch (length (b ∷ bs)) expected)
check_imag false none expected = ok tt
check_imag false (some imag_le) expected = err imag_not_allowed

-- The buffer of the imaginary part, which a copy leaves out of a real array.
unfoldable pub imag_kept : Ownership → Bool → Option Bytes → Bytes
imag_kept taken complex imag_le = or_default imag_le []
imag_kept copied true imag_le = or_default imag_le []
imag_kept copied false imag_le = []

-- Behind the check of the arguments.
unfoldable pub numeric_bytes :
    NumericClass → List ℕ → Bool → Bytes → Option Bytes → Ownership → Result EasyError Value
unfolding elem_size shape_total_bytes_checked check_imag imag_kept
numeric_bytes class_id shape complex real_le imag_le ownership = do
  guard (not (elem_size class_id == 0)) invalid_class
  (n, expected) ← or_bad_shape (shape_total_bytes_checked shape (elem_size class_id))
  guard (length real_le == expected) (real_len_mismatch (length real_le) expected)
  check_imag complex imag_le expected
  ok (
      numeric (record {
        class_id = class_id;
        shape = shape;
        complex = complex;
        real_le = real_le;
        imag_le = imag_kept ownership complex imag_le;
      }))

unfoldable pub numeric_bytes_nd :
    Option Bytes → NumericClass → List ℕ → Bool → Bytes → Option Bytes → Ownership → Made
unfolding numeric_bytes
numeric_bytes_nd name class_id shape complex real_le imag_le ownership = made name (
    guard (given name && has_dims shape && not (is_empty real_le)) (invalid_args "numeric bytes")
    >> numeric_bytes class_id shape complex real_le imag_le ownership)

-- The conversion, and the entry of the buffer that it makes.
unfoldable pub converted :
    Bool → NumericClass → Option Bytes → Bytes → List ℕ → Layout → Result EasyError Bytes → Made
unfolding numeric_bytes_nd
converted little class_id name numbers shape layout (err e) = made name (err e)
converted little class_id name numbers shape layout (ok bytes) =
    numeric_bytes_nd name class_id shape false bytes none taken

-- f32_nd, i32_nd and u64_nd, and what f64_nd does where it has to convert: they differ in the class,
-- the size of its elements and the word in the message.
unfoldable pub typed_nd :
    String → Bool → NumericClass → ℕ → Option Bytes → Option Bytes → List ℕ → Layout → Made
unfolding converted to_col_major_bytes
typed_nd word little class_id size (some name) (some numbers) (d ∷ shape) layout =
    converted little class_id (some name) numbers (d ∷ shape) layout
      (to_col_major_bytes little numbers size (d ∷ shape) layout)
typed_nd word little class_id size name _ _ layout = made name (err (invalid_args word))

unfoldable pub f32_nd : Bool → Option Bytes → Option Bytes → List ℕ → Layout → Made
unfolding typed_nd
f32_nd little = typed_nd "f32" little single 4

unfoldable pub i32_nd : Bool → Option Bytes → Option Bytes → List ℕ → Layout → Made
unfolding typed_nd
i32_nd little = typed_nd "i32" little int32 4

unfoldable pub u64_nd : Bool → Option Bytes → Option Bytes → List ℕ → Layout → Made
unfolding typed_nd
u64_nd little = typed_nd "u64" little uint64 8

-- The route of f64_nd without a conversion buffer.
unfoldable pub f64_taken : Bytes → Bytes → List ℕ → Option (ℕ × ℕ) → Made
unfolding numeric_bytes_nd
f64_taken name numbers shape none = made (some name) (err bad_shape)
f64_taken name numbers shape (some (n, bytes_len)) =
    numeric_bytes_nd (some name) double shape false (take bytes_len numbers) none taken

unfoldable pub f64_nd : Bool → Option Bytes → Option Bytes → List ℕ → Layout → Ownership → Made
unfolding typed_nd f64_taken shape_total_bytes_checked
f64_nd true (some name) (some numbers) (d ∷ shape) col_major taken =
    f64_taken name numbers (d ∷ shape) (shape_total_bytes_checked (d ∷ shape) 8)
f64_nd little name numbers shape layout ownership =
    typed_nd "f64" little double 8 name numbers shape layout

unfoldable pub f64_matrix : Bool → Option Bytes → Option Bytes → ℕ → ℕ → Layout → Made
unfolding f64_nd
f64_matrix little name numbers rows cols layout =
    f64_nd little name numbers (rows ∷ cols ∷ []) layout copied

unfoldable pub logical_nd : Option Bytes → Option Bytes → List ℕ → Made
unfolding shape_numel_checked
logical_nd (some name) (some bits) (d ∷ shape) = made (some name) (do
  n ← counted_or_fail (shape_numel_checked (d ∷ shape))
  ok (logical (record { shape = d ∷ shape; bits = take n bits })))
logical_nd name _ _ = made name (err (invalid_args "logical"))

-- Without an array of pointers, all `n` strings are missing.
unfoldable pub strings_of : Option (List (Option Bytes)) → ℕ → List (Option Bytes)
strings_of none n = replicate n none
strings_of (some utf8_or_null) n = take n utf8_or_null

unfoldable pub string_nd : Option Bytes → Option (List (Option Bytes)) → ℕ → List ℕ → Made
unfolding shape_numel_checked strings_of
string_nd (some name) utf8_or_null n (d ∷ shape) = made (some name) (do
  expected_n ← counted_or_fail (shape_numel_checked (d ∷ shape))
  guard (n == expected_n) (string_n_mismatch n expected_n)
  ok (string (record { shape = d ∷ shape; elements = strings_of utf8_or_null n })))
string_nd name _ n _ = made name (err (invalid_args "string"))

unfoldable pub char_utf16_nd : Option Bytes → List ℕ → List ℕ → Made
unfolding shape_numel_checked
char_utf16_nd (some name) units (d ∷ shape) = made (some name) (do
  expected_n ← counted_or_fail (shape_numel_checked (d ∷ shape))
  guard (length units == expected_n) (char_n_mismatch (length units) expected_n)
  ok (char (record { shape = d ∷ shape; units = units })))
char_utf16_nd name units _ = made name (err (invalid_args "char"))

unfoldable pub opaque_bytes_nd :
    Option Bytes → Option Bytes → Option Bytes → List ℕ → Bool → Option Bytes → Option Bytes → Made
opaque_bytes_nd (some name) kind class_name shape complex encoding (some bytes) = made (some name) (
    ok (
      opaque (record {
        kind = kind;
        class_name = class_name;
        shape = shape;
        complex = complex;
        encoding = encoding;
        bytes = bytes;
      })))
opaque_bytes_nd name kind class_name shape complex encoding _ =
    made name (err (invalid_args "opaque"))

unfoldable pub empty_struct_leaf : Option Bytes → Made
empty_struct_leaf name = made name (ok (struct no_entries))
