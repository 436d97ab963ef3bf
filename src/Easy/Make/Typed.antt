-- ===== src/Easy/Make/Typed.antt =====
-- What the typed constructors of C/src/gbf_easy.c store.
use Prim.Native.String.{String}
use gbin.Prelude.{
  ℕ, ◌*◌, ◌≤◌, ◌<◌, Bool, true, false, List, [], ◌∷◌, Option, none, some, Option-cases, Bytes,
  length, eq→==, ne→==, Result, ok, ◌≡◌, refl, arith, inl, inr, All,
}
use gbin.Word.{size_max}
use gbin.Value.{NumericClass, numeric, double}
use gbin.Value.Shape.{product, product_pos, le_mul_pos}
use gbin.Easy.{EasyError, Ownership, copied, taken, Layout, col_major, elem_size}
use gbin.Easy.Shape.{shape_total_bytes_checked, shape_total_bytes_checked_complete}
use gbin.Easy.Order.{to_col_major_bytes, normalised, to_little, bytes_at}
use gbin.Easy.Order.Offsets.{IsIndex, col_offset}
use gbin.Easy.Order.Whole.{Stored, stored, source_offset, to_col_major_bytes-Stored}
use gbin.Easy.Order.Elements.{as_little}
use gbin.Easy.Make.{
  Made, made, numeric_bytes, numeric_bytes_nd, converted, typed_nd, f64_nd, f64_taken, check_imag,
  imag_kept,
}
use gbin.Easy.Make.Accepts.{elem_size_pos}

-- The entry of an array of numbers: its class, its shape, and the elements in the column-major order,
-- each in little-endian bytes.
pub data HoldsNumbers (little : Bool) (layout : Layout) (c : NumericClass) (name : Bytes)
    (shape : List ℕ) (src : Bytes) : Made → Type 0 where
  holds_numbers :
      (dst : Bytes)
      → length dst ≡ product shape * elem_size c
      → ((idx : List ℕ)
          → IsIndex shape idx
          → bytes_at (col_offset shape idx * elem_size c) (elem_size c) dst
            ≡ as_little little
                (bytes_at (source_offset layout shape idx * elem_size c) (elem_size c) src))
      → HoldsNumbers little layout c name shape src (
          made (some name) (
            ok (
              numeric (record {
                class_id = c;
                shape = shape;
                complex = false;
                real_le = dst;
                imag_le = [];
              }))))

numeric_bytes_nd-real :
    (name : Bytes) (c : NumericClass) (d : ℕ) (shape : List ℕ) (real : Bytes)
    → All (λ k. 0 < k) (d ∷ shape)
    → product (d ∷ shape) * elem_size c ≤ size_max
    → length real ≡ product (d ∷ shape) * elem_size c
    → numeric_bytes_nd (some name) c (d ∷ shape) false real none taken
      ≡ made (some name) (
          ok (
            numeric (record {
              class_id = c;
              shape = d ∷ shape;
              complex = false;
              real_le = real;
              imag_le = [];
            })))
unfolding numeric_bytes_nd numeric_bytes check_imag imag_kept
numeric_bytes_nd-real name c d shape [] pos total room = absurd (
    omega (
      arith,
      le_mul_pos (product (d ∷ shape)) (elem_size c) (elem_size_pos c),
      product_pos (d ∷ shape) pos,
      room,
    ))
numeric_bytes_nd-real name c d shape (b ∷ real) pos total room =
    rw
      (
        ne→== (elem_size c) 0 (omega (arith, elem_size_pos c)),
        shape_total_bytes_checked_complete d shape (elem_size c) pos (elem_size_pos c) total,
        eq→== (length (b ∷ real)) (product (d ∷ shape) * elem_size c) room,
      )
      refl

converted-HoldsNumbers :
    (little : Bool) (layout : Layout) (c : NumericClass) (name : Bytes) (d : ℕ) (shape : List ℕ)
    (src : Bytes) (r : Result EasyError Bytes)
    → All (λ k. 0 < k) (d ∷ shape)
    → product (d ∷ shape) * elem_size c ≤ size_max
    → Stored little layout (d ∷ shape) (elem_size c) src r
    → HoldsNumbers little layout c name
        (d ∷ shape)
        src
        (converted little c (some name) src (d ∷ shape) layout r)
unfolding converted
converted-HoldsNumbers little layout c name d shape src _ pos total (stored dst room placed) =
    rw (numeric_bytes_nd-real name c d shape dst pos total room) (holds_numbers dst room placed)

typed_nd-HoldsNumbers :
    (word : String) (little : Bool) (layout : Layout) (c : NumericClass) (name : Bytes) (d : ℕ)
    (shape : List ℕ) (src : Bytes)
    → All (λ k. 0 < k) (d ∷ shape)
    → product (d ∷ shape) * elem_size c ≤ size_max
    → product (d ∷ shape) * elem_size c ≤ length src
    → HoldsNumbers little layout c name
        (d ∷ shape)
        src
        (typed_nd word little c (elem_size c) (some name) (some src) (d ∷ shape) layout)
unfolding typed_nd
typed_nd-HoldsNumbers word little layout c name d shape src pos total enough =
    converted-HoldsNumbers little layout c name d shape src
      (to_col_major_bytes little src (elem_size c) (d ∷ shape) layout) pos total
      (to_col_major_bytes-Stored little layout (elem_size c) src d shape (elem_size_pos c) pos total
        enough)

-- The two ownerships of gbf_easy_f64_nd make the same entry and report the same error, also where
-- the taken buffer of a little-endian host is stored as it is, without a conversion.
pub f64_nd-Ownership :
    (little : Bool) (name numbers : Option Bytes) (shape : List ℕ) (layout : Layout)
    → f64_nd little name numbers shape layout taken ≡ f64_nd little name numbers shape layout copied
unfolding f64_nd f64_taken typed_nd converted to_col_major_bytes normalised to_little
f64_nd-Ownership true (some name) (some numbers) (d ∷ shape) col_major =
    elim (Option-cases (shape_total_bytes_checked (d ∷ shape) 8)) [
      | inl refused ↦ rw refused refl
      | inr ((n, total), e) ↦ rw e refl
    ]
f64_nd-Ownership little name numbers shape layout = refl

f64_nd-copied :
    (little : Bool) (name numbers : Option Bytes) (shape : List ℕ) (layout : Layout)
    → f64_nd little name numbers shape layout copied
      ≡ typed_nd "f64" little double 8 name numbers shape layout
unfolding f64_nd
f64_nd-copied true (some name) (some numbers) (d ∷ shape) col_major = refl
f64_nd-copied little name numbers shape layout = refl

-- Where no dimension is zero, the bytes of the doubles are at most SIZE_MAX and the buffer has them,
-- gbf_easy_f64_nd makes, whatever the host, the layout and the ownership are, a real array of
-- doubles of the shape, whose elements stand in the column-major order, in little-endian bytes.
pub f64_nd-HoldsNumbers :
    (little : Bool) (layout : Layout) (own : Ownership) (name : Bytes) (d : ℕ) (shape : List ℕ)
    (src : Bytes)
    → All (λ k. 0 < k) (d ∷ shape)
    → product (d ∷ shape) * elem_size double ≤ size_max
    → product (d ∷ shape) * elem_size double ≤ length src
    → HoldsNumbers little layout double name
        (d ∷ shape)
        src
        (f64_nd little (some name) (some src) (d ∷ shape) layout own)
unfolding elem_size
f64_nd-HoldsNumbers little layout copied name d shape src pos total enough =
    rw (f64_nd-copied little (some name) (some src) (d ∷ shape) layout)
      (typed_nd-HoldsNumbers "f64" little layout double name d shape src pos total enough)
f64_nd-HoldsNumbers little layout taken name d shape src pos total enough =
    rw
      (
        f64_nd-Ownership little (some name) (some src) (d ∷ shape) layout,
        f64_nd-copied little (some name) (some src) (d ∷ shape) layout,
      )
      (typed_nd-HoldsNumbers "f64" little layout double name d shape src pos total enough)
