-- ===== src/Codec/RoundTrip/Whole.antt =====
-- The round trip of a leaf of any kind.
use gbin.Prelude.{
  ℕ, ◌≡◌, refl, ◌∙◌, Bytes, codes, [], ◌∷◌, some, false, str_eq, ok, Bool-cases, inl, inr, arith,
}
use gbin.Word.{checked_mul_size}
use gbin.Value.{
  Value, struct, numeric, logical, string, char, datetime, duration, calendar_duration, categorical,
  opaque, no_entries, entry, OpaqueValue, NumericArray,
}
use gbin.Value.Shape.{numel_loop, shape_numel, copy_shape_size_to_u64}
use gbin.Header.{FieldMeta}
use gbin.Codec.Encode.{encode_value_bytes, encode_numeric, encode_units}
use gbin.Codec.Decode.{Decoded, decode_field_value, decode_kind, decode_numeric, decode_opaque}
use gbin.Codec.Describe.{describe, described}
use gbin.Codec.RoundTrip.Shaped.{IsShaped, IsNumeric, decode_field_value-shaped}
use gbin.Codec.RoundTrip.Numeric.{
  IsLogical, IsCharArray, numeric_real, numeric_complex, logical_back, char_back,
}
use gbin.Codec.RoundTrip.Text.{
  IsStringArray, IsCategorical, string_bytes, categorical_bytes, encode_string-bytes,
  encode_categorical-bytes, string_back, categorical_back,
}
use gbin.Codec.RoundTrip.Times.{
  IsDatetime, IsDuration, IsCalendarDuration, datetime_bytes, duration_bytes,
  calendar_duration_bytes, encode_datetime-bytes, encode_duration-bytes,
  encode_calendar_duration-bytes, datetime_back, duration_back, calendar_duration_back,
}

-- None of the kinds that decode_field_value knows.
pub record IsUnknownKind (k : Bytes) : Type 0 where
  pub not_numeric : str_eq k (codes "numeric") ≡ false
  pub not_logical : str_eq k (codes "logical") ≡ false
  pub not_char : str_eq k (codes "char") ≡ false
  pub not_string : str_eq k (codes "string") ≡ false
  pub not_datetime : str_eq k (codes "datetime") ≡ false
  pub not_duration : str_eq k (codes "duration") ≡ false
  pub not_calendar : str_eq k (codes "calendarDuration") ≡ false
  pub not_calendar_lower : str_eq k (codes "calendarduration") ≡ false
  pub not_categorical : str_eq k (codes "categorical") ≡ false
  pub not_struct : str_eq k (codes "struct") ≡ false

pub record IsOpaque (a : OpaqueValue) (n : ℕ) (kind class_name encoding : Bytes) : Type 0 where
  pub shaped : IsShaped a.shape n
  pub kind_is : a.kind ≡ some kind
  pub class_is : a.class_name ≡ some class_name
  pub encoding_is : a.encoding ≡ some encoding
  pub unknown : IsUnknownKind kind

-- A value that the writer can store as a leaf with nothing lost.
abbrev pub IsLeaf : Value → Type 0
IsLeaf (struct no_entries) = Unit
IsLeaf (struct (entry k v es)) = ⊥
IsLeaf (numeric a) = (n : ℕ) × IsNumeric a n
IsLeaf (logical a) = (n : ℕ) × IsLogical a n
IsLeaf (string a) = (n : ℕ) × IsStringArray a n
IsLeaf (char a) = (n : ℕ) × IsCharArray a n
IsLeaf (datetime a) =
    (n : ℕ) × (tz : Bytes) × (loc : Bytes) × (fmt : Bytes) × IsDatetime a n tz loc fmt
IsLeaf (duration a) = (n : ℕ) × IsDuration a n
IsLeaf (calendar_duration a) = (n : ℕ) × IsCalendarDuration a n
IsLeaf (categorical a) = (n : ℕ) × IsCategorical a n
IsLeaf (opaque a) = (n : ℕ) × (k : Bytes) × (c : Bytes) × (e : Bytes) × IsOpaque a n k c e

scalar-IsShaped : IsShaped (1 ∷ 1 ∷ []) 1
unfolding shape_numel numel_loop checked_mul_size
scalar-IsShaped = record { dims_fit = omega arith; numel = refl }

numeric_back :
    (m : FieldMeta) (n : ℕ) (a : NumericArray)
    → IsNumeric a n
    → decode_numeric (described (describe (numeric a)) m) a.shape n (encode_numeric a)
      ≡ ok (numeric a)
numeric_back m n a h = elim (Bool-cases a.complex) [
  | inl complex ↦ numeric_complex m n a h complex
  | inr real ↦ numeric_real m n a h real
]

module _ (m : FieldMeta) where
  abbrev back : Value → Bytes → Decoded
  back v bytes = decode_field_value (described (describe v) m) bytes

  opaque_back :
      (a : OpaqueValue) (n : ℕ) (k c e : Bytes)
      → IsOpaque a n k c e
      → back (opaque a) a.bytes ≡ ok (opaque a)
  unfolding describe decode_kind decode_opaque copy_shape_size_to_u64
  opaque_back a n k c e h =
      decode_field_value-shaped (described (describe (opaque a)) m) a.bytes n h.shaped
      ∙ rw (
        h.kind_is,
        h.class_is,
        h.encoding_is,
        h.unknown.not_numeric,
        h.unknown.not_logical,
        h.unknown.not_char,
        h.unknown.not_string,
        h.unknown.not_datetime,
        h.unknown.not_duration,
        h.unknown.not_calendar,
        h.unknown.not_calendar_lower,
        h.unknown.not_categorical,
        h.unknown.not_struct,
        ← h.kind_is,
        ← h.class_is,
        ← h.encoding_is,
      )

  -- A storable leaf is encoded without error, and decoding the bytes under its own description gives
  -- the same value.
  pub decode_field_value-encode_value_bytes :
      (v : Value)
      → IsLeaf v
      → (bytes : Bytes) × (encode_value_bytes v ≡ ok bytes)
        × (decode_field_value (described (describe v) m) bytes ≡ ok v)
  unfolding encode_value_bytes describe decode_kind copy_shape_size_to_u64
  decode_field_value-encode_value_bytes (struct no_entries) h =
      ([], refl, decode_field_value-shaped _ _ 1 scalar-IsShaped ∙ refl)
  decode_field_value-encode_value_bytes (struct (entry k v es)) h = absurd h
  decode_field_value-encode_value_bytes (numeric a) (n, h) =
      (encode_numeric a, refl, decode_field_value-shaped _ _ n h.shaped ∙ numeric_back m n a h)
  decode_field_value-encode_value_bytes (logical a) (n, h) =
      (a.bits, refl, decode_field_value-shaped _ _ n h.shaped ∙ logical_back a n h)
  decode_field_value-encode_value_bytes (string a) (n, h) = (
    string_bytes a,
    encode_string-bytes a n h,
    decode_field_value-shaped _ _ n h.shaped ∙ string_back a n h,
  )
  decode_field_value-encode_value_bytes (char a) (n, h) =
      (encode_units [] a.units, refl, decode_field_value-shaped _ _ n h.shaped ∙ char_back a n h)
  decode_field_value-encode_value_bytes (datetime a) (n, tz, loc, fmt, h) = (
    datetime_bytes a tz loc fmt,
    encode_datetime-bytes a n tz loc fmt h,
    decode_field_value-shaped _ _ n h.shaped ∙ datetime_back a n tz loc fmt h,
  )
  decode_field_value-encode_value_bytes (duration a) (n, h) = (
    duration_bytes a,
    encode_duration-bytes a n h,
    decode_field_value-shaped _ _ n h.shaped ∙ duration_back a n h,
  )
  decode_field_value-encode_value_bytes (calendar_duration a) (n, h) = (
    calendar_duration_bytes a,
    encode_calendar_duration-bytes a n h,
    decode_field_value-shaped _ _ n h.shaped ∙ calendar_duration_back a n h,
  )
  decode_field_value-encode_value_bytes (categorical a) (n, h) = (
    categorical_bytes a,
    encode_categorical-bytes a n h,
    decode_field_value-shaped _ _ n h.shaped ∙ categorical_back a n h,
  )
  decode_field_value-encode_value_bytes (opaque a) (n, k, c, e, h) =
      (a.bytes, refl, opaque_back a n k c e h)
