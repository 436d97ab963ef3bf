-- ===== src/Codec/RoundTrip/Numeric.antt =====
-- Numeric, logical and char arrays read back from their bytes.
use gbin.Prelude.{
  ◌+◌, ℕ, ◌*◌, ◌/◌, ◌%◌, ◌^◌, ◌≤◌, ◌<◌, ◌≡◌, refl, sym, ◌∙◌, arith, Bytes, List, [], ◌∷◌, ◌++◌,
  true, false, length, length-append, le→ltb, All, append_assoc, append-nil, take-append_eq,
  drop-append_eq, take_all, ok, bit_or,
}
use gbin.Word.{size_max, bit_or_low_high}
use gbin.Value.{NumericArray, LogicalArray, CharArray, numeric, logical, char}
use gbin.Value.Class.{bytes_per_elem, parse_numeric_class-numeric_class_name}
use gbin.Value.Shape.{copy_shape_size_to_u64}
use gbin.Header.{FieldMeta}
use gbin.Codec.Encode
use gbin.Codec.Decode
use gbin.Codec.Describe.{describe, described}
use gbin.Codec.Elements
use gbin.Codec.RoundTrip.Shaped.{IsShaped, IsNumeric, payload_size, mul64_small}

abbrev pub IsU16 : ℕ → Type 0
IsU16 u = u < 2 ^ 16

abbrev unit_bytes : ℕ → Bytes
unit_bytes u = u % 2 ^ 8 ∷ u / 2 ^ 8 % 2 ^ 8 ∷ []

encode_units-append :
    (sb : Bytes) (us : List ℕ) → Encode.encode_units sb us ≡ sb ++ Elements.print_all unit_bytes us
unfolding Encode.encode_units
encode_units-append sb [] = sym (append-nil sb)
encode_units-append sb (u ∷ us) =
    encode_units-append (sb ++ unit_bytes u) us
    ∙ append_assoc sb (unit_bytes u) (Elements.print_all unit_bytes us)

unit_value : (u : ℕ) → IsU16 u → bit_or (u % 2 ^ 8) (u / 2 ^ 8 % 2 ^ 8 * 2 ^ 8) ≡ u
unit_value u h = bit_or_low_high 8 (u % 256) (u / 256 % 256) (omega arith) ∙ omega arith

decode_units-print_all :
    (us : List ℕ)
    → All IsU16 us
    → Decode.decode_units (length us) (Elements.print_all unit_bytes us) ≡ us
unfolding Decode.decode_units
decode_units-print_all [] h = refl
decode_units-print_all (u ∷ us) h = rw (unit_value u h.0, decode_units-print_all us h.1)

length-units : (us : List ℕ) → length (Elements.print_all unit_bytes us) ≡ length us * 2
length-units [] = refl
length-units (u ∷ us) = omega (arith, length-units us)

pub record IsCharArray (a : CharArray) (n : ℕ) : Type 0 where
  pub shaped : IsShaped a.shape n
  pub count : n ≡ length a.units
  pub size_fits : n * 2 ≤ size_max
  pub units_fit : All IsU16 a.units

pub record IsLogical (a : LogicalArray) (n : ℕ) : Type 0 where
  pub shaped : IsShaped a.shape n
  pub count : n ≡ length a.bits

pub char_back :
    (a : CharArray) (n : ℕ)
    → IsCharArray a n
    → Decode.decode_char a.shape n (Encode.encode_units [] a.units) ≡ ok (char a)
unfolding Decode.decode_char
char_back a n h = rw (
  encode_units-append [] a.units,
  mul64_small n 2 h.size_fits,
  le→ltb (length (Elements.print_all unit_bytes a.units)) (n * 2)
      (omega (arith, length-units a.units, h.count)),
  le→ltb size_max (n * 2) h.size_fits,
  h.count,
  decode_units-print_all a.units h.units_fit,
)

pub logical_back :
    (a : LogicalArray) (n : ℕ)
    → IsLogical a n
    → Decode.decode_logical a.shape n a.bits ≡ ok (logical a)
unfolding Decode.decode_logical
logical_back a n h =
    rw (
      le→ltb (length a.bits) n (omega (arith, h.count)),
      take_all n a.bits (omega (arith, h.count)),
    )

module _ (m : FieldMeta) (n : ℕ) where
  pub numeric_real :
      (a : NumericArray)
      → IsNumeric a n
      → a.complex ≡ false
      → Decode.decode_numeric
          (described (describe (numeric a)) m)
          a.shape
          n
          (Encode.encode_numeric a)
        ≡ ok (numeric a)
  unfolding Decode.decode_numeric describe copy_shape_size_to_u64 Encode.encode_numeric
  numeric_real a h real =
      rw
        (
          real,
          h.imag_absent real,
          parse_numeric_class-numeric_class_name a.class_id,
          mul64_small n (bytes_per_elem a.class_id) (omega (arith, h.size_fits)),
          le→ltb (length a.real_le) (payload_size a n) (omega (arith, h.real_size)),
          take_all (payload_size a n) a.real_le (omega (arith, h.real_size)),
        )
        refl

  pub numeric_complex :
      (a : NumericArray)
      → IsNumeric a n
      → a.complex ≡ true
      → Decode.decode_numeric
          (described (describe (numeric a)) m)
          a.shape
          n
          (Encode.encode_numeric a)
        ≡ ok (numeric a)
  unfolding Decode.decode_numeric describe copy_shape_size_to_u64 Encode.encode_numeric
  numeric_complex a h complex =
      let size = h.imag_size complex in
      rw
        (
          complex,
          parse_numeric_class-numeric_class_name a.class_id,
          mul64_small n (bytes_per_elem a.class_id) (omega (arith, h.size_fits)),
          mul64_small (payload_size a n) 2 h.size_fits,
          le→ltb (length (a.real_le ++ a.imag_le)) (payload_size a n * 2)
              (omega (arith, h.real_size, size, length-append a.real_le a.imag_le)),
          le→ltb (length (a.real_le ++ a.imag_le)) (payload_size a n + payload_size a n)
              (omega (arith, h.real_size, size, length-append a.real_le a.imag_le)),
          take-append_eq (payload_size a n) a.real_le a.imag_le (sym h.real_size),
          drop-append_eq (payload_size a n) a.real_le a.imag_le (sym h.real_size),
          take_all (payload_size a n) a.imag_le (omega (arith, size)),
        )
        refl
