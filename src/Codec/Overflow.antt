-- ===== src/Codec/Overflow.antt =====
-- The byte counts of decode_field_value are computed in size_t with no check.
use gbin.Prelude.{ℕ, ◌*◌, ◌%◌, ◌^◌, ◌≡◌, arith, Bytes, List, [], some, false, length, le→ltb, ok}
use gbin.Value.{NumericClass, numeric}
use gbin.Value.Class.{bytes_per_elem, parse_numeric_class}
use gbin.Header.{FieldMeta}
use gbin.Codec.Decode.{decode_numeric}

-- A real numeric field of a known class whose element count times its element size is a multiple
-- of 2^64 is accepted with any payload, also an empty one, and its value holds no data at all.
pub decode_numeric_wraps :
    (meta : FieldMeta) (shape : List ℕ) (numel : ℕ) (bytes : Bytes) (cls : NumericClass)
    → parse_numeric_class meta.class_name ≡ some cls
    → meta.complex ≡ false
    → (numel * bytes_per_elem cls) % 2 ^ 64 ≡ 0
    → decode_numeric meta shape numel bytes
      ≡ ok (
          numeric
            (record { class_id = cls; shape = shape; complex = false; real_le = []; imag_le = [] }))
unfolding decode_numeric
decode_numeric_wraps meta shape numel bytes cls class real wraps =
    rw (class, real, wraps, le→ltb (length bytes) 0 (omega arith))
