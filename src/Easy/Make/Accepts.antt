-- ===== src/Easy/Make/Accepts.antt =====
-- What the numeric constructors of C/src/gbf_easy.c accept, against the constructor of C/src/gbf.c.
use gbin.Prelude.{
  ℕ, ◌*◌, ◌≤◌, ◌<◌, Bool, true, false, List, [], ◌∷◌, Option, none, some, Option-cases, Bool-cases,
  Bytes, length, ◌==◌, ==→eq, eq→==, Result, ok, err, ◌≡◌, refl, sym, ◌∙◌, arith, ◌⊎◌, inl, inr,
}
use mathlib.Core.Option.{none-ne-some}
use gbin.Word.{size_max, mul64}
use gbin.Value.{Value, NumericClass, numeric, double}
use gbin.Value.Shape.{product, shape_numel_complete, le_mul_pos}
use gbin.Value.Make.{new_numeric_from_bytes, numeric_of, with_numel}
use gbin.Easy.{EasyError, Ownership, copied, taken, elem_size, elem_size-bytes_per_elem}
use gbin.Easy.Shape.{shape_total_bytes_checked, IsCounted, shape_total_bytes_checked-IsCounted}
use gbin.Easy.Make.{made, numeric_bytes, numeric_bytes_nd, check_imag, imag_kept}

-- The value of a result.
abbrev pub value_of : Result EasyError Value → Option Value
value_of (ok v) = some v
value_of (err e) = none

made_value : (name : Option Bytes) (r : Result EasyError Value) → (made name r).0.value ≡ value_of r
made_value name (ok v) = refl
made_value name (err e) = refl

-- What numeric_bytes has checked where it makes a value.
pub data Checked (c : NumericClass) (shape : List ℕ) (complex : Bool) (real : Bytes)
    (imag : Option Bytes) (own : Ownership) (v : Value) : Type 0 where
  checked :
      (n expected : ℕ)
      → IsCounted shape (elem_size c) n expected
      → length real ≡ expected
      → check_imag complex imag expected ≡ ok tt
      → v
        ≡ numeric (record {
          class_id = c;
          shape = shape;
          complex = complex;
          real_le = real;
          imag_le = imag_kept own complex imag;
        })
      → Checked c shape complex real imag own v

check-cases : (r : Result EasyError Unit) → (r ≡ ok tt) ⊎ ((e : EasyError) × (r ≡ err e))
check-cases (ok tt) = inl refl
check-cases (err e) = inr (e, refl)

no_ok : {e : EasyError} → Path (Result EasyError Unit) (err e) (ok tt) → ⊥
no_ok h = cc

pub elem_size_pos : (c : NumericClass) → 0 < elem_size c
unfolding elem_size
elem_size_pos double = omega arith
elem_size_pos _ = omega arith

some_eq : {v w : Value} → some v ≡ some w → v ≡ w
some_eq h = cc

numeric_bytes-Checked :
    (c : NumericClass) (shape : List ℕ) (complex : Bool) (real : Bytes) (imag : Option Bytes)
    (own : Ownership) (v : Value)
    → value_of (numeric_bytes c shape complex real imag own) ≡ some v
    → Checked c shape complex real imag own v
unfolding numeric_bytes
numeric_bytes-Checked c shape complex real imag own v h = elim (Bool-cases (elem_size c == 0)) [
  | inl zero ↦ absurd (none-ne-some _ (rw zero at h))
  | inr some_size ↦ elim (Option-cases (shape_total_bytes_checked shape (elem_size c))) [
    | inl refused ↦ absurd (none-ne-some _ (rw (some_size, refused) at h))
    | inr ((n, expected), counted) ↦ elim (Bool-cases (length real == expected)) [
      | inr differs ↦ absurd (none-ne-some _ (rw (some_size, counted, differs) at h))
      | inl same ↦ elim (check-cases (check_imag complex imag expected)) [
        | inr (e, refused) ↦ absurd (none-ne-some _ (rw (some_size, counted, same, refused) at h))
        | inl fine ↦
            checked n expected
              (shape_total_bytes_checked-IsCounted shape (elem_size c) n expected counted)
              (==→eq (length real) expected same) fine
              (sym (some_eq (rw (some_size, counted, same, fine) at h)))
      ]
    ]
  ]
]

-- The checks of the imaginary part in gbf.c pass where those of gbf_easy.c do.
numeric_of-checked :
    (c : NumericClass) (shape : List ℕ) (complex : Bool) (real : Bytes) (imag : Option Bytes)
    (own : Ownership) (expected : ℕ)
    → length real ≡ expected
    → check_imag complex imag expected ≡ ok tt
    → numeric_of c shape complex real imag expected
      ≡ ok (
          numeric (record {
            class_id = c;
            shape = shape;
            complex = complex;
            real_le = real;
            imag_le = imag_kept own complex imag;
          }))
unfolding numeric_of check_imag imag_kept
numeric_of-checked c shape true real none own expected same fine = cc
numeric_of-checked c shape true real (some []) own expected same fine = cc
numeric_of-checked c shape true real (some (b ∷ bs)) copied expected same fine =
    elim (Bool-cases (length (b ∷ bs) == expected)) [
      | inl equal ↦ rw (eq→== (length real) expected same, equal) refl
      | inr differs ↦ absurd (no_ok (rw differs at fine))
    ]
numeric_of-checked c shape true real (some (b ∷ bs)) taken expected same fine =
    elim (Bool-cases (length (b ∷ bs) == expected)) [
      | inl equal ↦ rw (eq→== (length real) expected same, equal) refl
      | inr differs ↦ absurd (no_ok (rw differs at fine))
    ]
numeric_of-checked c shape false real none copied expected same fine =
    rw (eq→== (length real) expected same) refl
numeric_of-checked c shape false real none taken expected same fine =
    rw (eq→== (length real) expected same) refl
numeric_of-checked c shape false real (some imag) own expected same fine = cc

new_numeric-Checked :
    (c : NumericClass) (d : ℕ) (shape : List ℕ) (complex : Bool) (real : Bytes)
    (imag : Option Bytes) (own : Ownership) (v : Value)
    → Checked c (d ∷ shape) complex real imag own v
    → new_numeric_from_bytes c (d ∷ shape) complex real imag ≡ ok v
unfolding new_numeric_from_bytes with_numel
new_numeric-Checked c d shape complex real imag own v (checked n expected counts same fine v_is) =
    let p = product (d ∷ shape) in
    let size_is = (elem_size-bytes_per_elem c).0 in
    let fits : p * elem_size c ≤ size_max = omega (arith, counts.bytes, counts.fits) in
    let p_fits : p ≤ size_max = omega (arith, le_mul_pos p (elem_size c) (elem_size_pos c), fits) in
    let exact : mul64 p (elem_size c) ≡ expected = omega (arith, counts.bytes, fits) in
    rw
      (
        shape_numel_complete d shape counts.dims p_fits,
        ← size_is,
        exact,
        numeric_of-checked c (d ∷ shape) complex real imag own expected same fine,
        v_is,
      )
      refl

-- Whatever the ownership is, a value that gbf_easy_numeric_bytes_nd makes is the one that
-- gbf_value_new_numeric_from_bytes of gbf.c makes of the same class, shape and buffers.
pub numeric_bytes_nd-new_numeric :
    (name : Option Bytes) (c : NumericClass) (shape : List ℕ) (complex : Bool) (real : Bytes)
    (imag : Option Bytes) (own : Ownership) (v : Value)
    → (numeric_bytes_nd name c shape complex real imag own).0.value ≡ some v
    → new_numeric_from_bytes c shape complex real imag ≡ ok v
unfolding numeric_bytes_nd
numeric_bytes_nd-new_numeric none c shape complex real imag own v h = cc
numeric_bytes_nd-new_numeric (some name) c [] complex real imag own v h = cc
numeric_bytes_nd-new_numeric (some name) c (d ∷ shape) complex [] imag own v h = cc
numeric_bytes_nd-new_numeric (some name) c (d ∷ shape) complex (b ∷ real) imag own v h =
    new_numeric-Checked c d shape complex (b ∷ real) imag own v (
      numeric_bytes-Checked c (d ∷ shape) complex (b ∷ real) imag own v (
        sym (made_value (some name) (numeric_bytes c (d ∷ shape) complex (b ∷ real) imag own)) ∙ h))
