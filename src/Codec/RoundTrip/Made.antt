-- ===== src/Codec/RoundTrip/Made.antt =====
-- What the constructors of Value/Make accept can be stored.
use Prim.Native.String.{String}
use gbin.Prelude.{
  ℕ, ◌*◌, ◌≤◌, ◌≡◌, refl, sym, ap, ◌∙◌, arith, Bool, true, false, List, [], ◌∷◌, Option, none, some,
  Bytes, length, All, ◌==◌, Bool-cases, Option-cases, inl, inr, ==→eq, eq→==, Result, ok, err,
  or_default,
}
use gbin.Error.{Error}
use gbin.Word.{size_max, mul64}
use gbin.Value.{Value, NumericClass, numeric}
use gbin.Value.Class.{bytes_per_elem}
use gbin.Value.Shape.{shape_numel}
use gbin.Value.Make.{with_numel, numeric_of, new_numeric_from_bytes, new_char_from_utf16}
use gbin.Codec.RoundTrip.Shaped.{IsShaped, mul64_small}
use gbin.Codec.RoundTrip.Numeric.{IsU16}
use gbin.Codec.RoundTrip.Whole.{IsLeaf}

no_value : {e : Error} {v : Value} → Path (Result Error Value) (err e) (ok v) → ⊥
no_value h = cc

value_or : Value → Result Error Value → Value
value_or d (ok v) = v
value_or d (err e) = d

same_value : {u v : Value} → Path (Result Error Value) (ok u) (ok v) → u ≡ v
unfolding value_or
same_value {u} h = ap (value_or u) h

with_numel-ok :
    (kind : String) (shape : List ℕ) (make : ℕ → Result Error Value) (v : Value)
    → with_numel kind shape make ≡ ok v
    → (n : ℕ) × (shape_numel shape ≡ some n) × (make n ≡ ok v)
unfolding with_numel
with_numel-ok kind [] make v h = absurd (no_value h)
with_numel-ok kind (d ∷ shape) make v h = elim (Option-cases (shape_numel (d ∷ shape))) [
  | inl large ↦ absurd (no_value (rw large at h))
  | inr (n, e) ↦ (n, e, rw e at h)
]

-- Every char value that gbf_value_new_char_from_utf16 accepts, of 16-bit units, dimensions that fit
-- in a size_t and a size in bytes that fits in one, is a storable leaf.
pub new_char_from_utf16-IsLeaf :
    (units shape : List ℕ) (v : Value)
    → All IsU16 units
    → All (λ d. d ≤ size_max) shape
    → length units * 2 ≤ size_max
    → new_char_from_utf16 units shape ≡ ok v
    → IsLeaf v
unfolding new_char_from_utf16
new_char_from_utf16-IsLeaf units shape v fit dims small h =
    let (n, e, made) = with_numel-ok "char" shape _ v h in
    elim (Bool-cases (length units == n)) [
      | inr differs ↦ absurd (no_value (rw differs at made))
      | inl same ↦
          let count : n ≡ length units = sym (==→eq (length units) n same) in
          rw (← same_value (rw same at made)) (
            n,
            record {
              shaped = record { dims_fit = dims; numel = e };
              count = count;
              size_fits = omega arith;
              units_fit = fit;
            },
          )
    ]

-- A numeric value with the record's fields is a leaf.
numeric-IsLeaf :
    (c : NumericClass) (shape : List ℕ) (complex : Bool) (re im : Bytes) (n : ℕ)
    → IsShaped shape n
    → n * bytes_per_elem c * 2 ≤ size_max
    → length re ≡ n * bytes_per_elem c
    → (complex ≡ true → length im ≡ n * bytes_per_elem c)
    → (complex ≡ false → im ≡ [])
    → IsLeaf (
        numeric
          (record { class_id = c; shape = shape; complex = complex; real_le = re; imag_le = im }))
numeric-IsLeaf c shape complex re im n shaped small size present absent_im = (
  n,
  record {
    shaped = shaped;
    size_fits = small;
    real_size = size;
    imag_size = present;
    imag_absent = absent_im;
  },
)

-- The checks on the lengths, of an array whose byte count is n times the element size.
numeric_of-IsLeaf :
    (c : NumericClass) (shape : List ℕ) (complex : Bool) (re : Bytes) (im : Option Bytes) (n : ℕ)
    (v : Value)
    → IsShaped shape n
    → n * bytes_per_elem c * 2 ≤ size_max
    → length re ≡ n * bytes_per_elem c
    → numeric_of c shape complex re im (n * bytes_per_elem c) ≡ ok v
    → IsLeaf v
unfolding numeric_of
numeric_of-IsLeaf c shape true re none n v shaped small size h =
    absurd (no_value (rw (eq→== (length re) _ size) at h))
numeric_of-IsLeaf c shape true re (some im) n v shaped small size h =
    elim (Bool-cases (length im == n * bytes_per_elem c)) [
      | inr differs ↦ absurd (no_value (rw (eq→== (length re) _ size, differs) at h))
      | inl same ↦ rw (← same_value (rw (eq→== (length re) _ size, same) at h)) (
          numeric-IsLeaf c shape true re im n shaped small size
            (λ e. ==→eq (length im) (n * bytes_per_elem c) same) (λ e. cc))
    ]
numeric_of-IsLeaf c shape false re im n v shaped small size h =
    elim (Bool-cases (length (or_default im []) == 0)) [
      | inr differs ↦ absurd (no_value (rw (eq→== (length re) _ size, differs) at h))
      | inl same ↦
          rw (← same_value (rw (eq→== (length re) _ size, same) at h))
            (numeric-IsLeaf c shape false re [] n shaped small size (λ e. cc) (λ e. refl))
    ]

length_checked :
    (c : NumericClass) (shape : List ℕ) (complex : Bool) (re : Bytes) (im : Option Bytes) (e : ℕ)
    (v : Value)
    → numeric_of c shape complex re im e ≡ ok v
    → length re ≡ e
unfolding numeric_of
length_checked c shape complex re im e v h = elim (Bool-cases (length re == e)) [
  | inr differs ↦ absurd (no_value (rw differs at h))
  | inl same ↦ ==→eq (length re) e same
]

-- Every numeric value that gbf_value_new_numeric_from_bytes accepts is a storable leaf, where the
-- dimensions fit in a size_t and twice the element count times the element size does.
pub new_numeric_from_bytes-IsLeaf :
    (c : NumericClass) (shape : List ℕ) (complex : Bool) (re : Bytes) (im : Option Bytes) (n : ℕ)
    (v : Value)
    → All (λ d. d ≤ size_max) shape
    → shape_numel shape ≡ some n
    → n * bytes_per_elem c * 2 ≤ size_max
    → new_numeric_from_bytes c shape complex re im ≡ ok v
    → IsLeaf v
unfolding new_numeric_from_bytes
new_numeric_from_bytes-IsLeaf c shape complex re im n v dims e small h =
    let (m, e', made) = with_numel-ok "numeric" shape _ v h in
    let same : m ≡ n = some_eq m n (sym e' ∙ e) in
    let exact : mul64 m (bytes_per_elem c) ≡ n * bytes_per_elem c =
      rw same (mul64_small n (bytes_per_elem c) (omega arith)) in
    let given = rw exact at made in
    numeric_of-IsLeaf c shape complex re im n v (record { dims_fit = dims; numel = e }) small
      (length_checked c shape complex re im _ v given) given
  where
    some_eq : (a b : ℕ) → some a ≡ some b → a ≡ b
    some_eq a b e = cc
