-- ===== src/Codec/RoundTrip/Shaped.antt =====
-- The size conditions under which a leaf is encoded, and the start of decode_field_value.
use gbin.Prelude.{ℕ, ◌*◌, ◌≤◌, ◌≡◌, arith, Bytes, List, [], some, true, false, length, All}
use gbin.Word.{size_max, mul64}
use gbin.Value.{NumericArray}
use gbin.Value.Class.{bytes_per_elem}
use gbin.Value.Shape.{shape_numel, copy_shape_u64_to_size-fits}
use gbin.Header.{FieldMeta}
use gbin.Codec.Decode

-- The dimensions fit a size_t, and their product is n.
pub record IsShaped (shape : List ℕ) (n : ℕ) : Type 0 where
  pub dims_fit : All (λ d. d ≤ size_max) shape
  pub numel : shape_numel shape ≡ some n

abbrev pub payload_size : NumericArray → ℕ → ℕ
payload_size a n = n * bytes_per_elem a.class_id

pub record IsNumeric (a : NumericArray) (n : ℕ) : Type 0 where
  pub shaped : IsShaped a.shape n
  pub size_fits : payload_size a n * 2 ≤ size_max
  pub real_size : length a.real_le ≡ payload_size a n
  pub imag_size : a.complex ≡ true → length a.imag_le ≡ payload_size a n
  pub imag_absent : a.complex ≡ false → a.imag_le ≡ []

pub mul64_small : (a b : ℕ) → a * b ≤ size_max → mul64 a b ≡ a * b
mul64_small a b h = omega arith

pub decode_field_value-shaped :
    (meta : FieldMeta) (bytes : Bytes) (n : ℕ)
    → IsShaped meta.shape n
    → Decode.decode_field_value meta bytes ≡ Decode.decode_kind meta meta.shape n bytes
unfolding Decode.decode_field_value
decode_field_value-shaped meta bytes n h =
    rw (copy_shape_u64_to_size-fits meta.shape h.dims_fit, h.numel)
