-- ===== src/Codec/Decode.antt =====
-- decode_field_value of C/src/gbf.c: one function for each kind of field, and the dispatch.
use gbin.Prelude.{
  ◌+◌, ◌>>=◌, map, ℕ, ◌*◌, ◌^◌, zero, suc, bit_or, Bytes, codes, List, [], ◌∷◌, Option, none, some,
  true, false, length, take, drop, get_or, ltb, not, ◌==◌, ◌||◌, if◌then◌else◌, str_eq, c_str,
  Result, ok, err, map,
}
use gbin.Error.{
  Error, aborted, undefined, dimension_too_large, shape_too_large, unsupported_class,
  payload_too_small, complex_payload_too_small, short_payload, count_mismatch, short_element_header,
  short_element_bytes, bad_strings, short_mask, short_array, bad_array, bad_category_string,
  short_codes,
}
use gbin.Word.{size_max, mul64}
use gbin.Value.{
  Value, struct, numeric, logical, string, char, datetime, duration, calendar_duration, categorical,
  opaque, no_entries,
}
use gbin.Value.Class.{bytes_per_elem, parse_numeric_class}
use gbin.Value.Shape.{shape_numel, copy_shape_u64_to_size}
use gbin.Codec
use gbin.Codec.{read_u32, read_i64, read_str_u32len, read_many, read_entry}
use gbin.Header.{FieldMeta}

abbrev pub Decoded : Type 0
Decoded = Result Error Value

-- Go on with what was read, or report.
abbrev pub or_fail : {A B : Type 0} → Option A → Error → (A → Result Error B) → Result Error B
or_fail none e k = err e
or_fail (some a) e k = k a

-- gbf_xcalloc(n, size): calloc fails where n * size does not fit a size_t, and the helper aborts.
abbrev pub xcalloc : {A : Type 0} → ℕ → ℕ → Result Error A → Result Error A
xcalloc n size k = if ltb size_max (n * size) then err aborted else k

-- The two memcpy of a complex payload read `expected` bytes each; the check computes their sum in
-- size_t, and where that wraps they read past the payload (unless gbf_xmalloc aborts first).
unfoldable pub decode_numeric : FieldMeta → List ℕ → ℕ → Bytes → Decoded
decode_numeric meta shape numel bytes =
    or_fail (parse_numeric_class meta.class_name) (unsupported_class meta.class_name) λ cls.
      let expected = mul64 numel (bytes_per_elem cls) in
      if not meta.complex
      then if ltb (length bytes) expected
        then err (payload_too_small "numeric")
        else ok (
            numeric (record {
              class_id = cls;
              shape = shape;
              complex = false;
              real_le = take expected bytes;
              imag_le = [];
            }))
      else if ltb (length bytes) (mul64 expected 2)
      then err (complex_payload_too_small "numeric")
      else if ltb (length bytes) (expected + expected)
      then err undefined
      else ok (
          numeric (record {
            class_id = cls;
            shape = shape;
            complex = true;
            real_le = take expected bytes;
            imag_le = take expected (drop expected bytes);
          }))

unfoldable pub decode_logical : List ℕ → ℕ → Bytes → Decoded
decode_logical shape numel bytes =
    if ltb (length bytes) numel
    then err (payload_too_small "logical")
    else ok (logical (record { shape = shape; bits = take numel bytes }))

-- `(uint16_t)(b[0] | (b[1] << 8))` for `n` units.
unfoldable pub decode_units : ℕ → Bytes → List ℕ
decode_units zero b = []
decode_units (suc n) b = bit_or (get_or b 0 0) (get_or b 1 0 * 2 ^ 8) ∷ decode_units n (drop 2 b)

unfoldable pub decode_char : List ℕ → ℕ → Bytes → Decoded
decode_char shape numel bytes =
    if ltb (length bytes) (mul64 numel 2)
    then err (payload_too_small "char")
    else xcalloc numel 2 (ok (char (record { shape = shape; units = decode_units numel bytes })))

-- One element of a string array; one of length 0 is NULL.
unfoldable pub decode_element : Bytes → Result Error (Option Bytes × Bytes)
decode_element p = or_fail (read_u32 p) short_element_header λ (n, q).
    if n == 0
    then ok (none, q)
    else if ltb (length q) n
    then err short_element_bytes
    else ok (some (c_str (take n q)), drop n q)

unfoldable pub decode_elements : ℕ → Bytes → Result Error (List (Option Bytes))
decode_elements zero p = ok []
decode_elements (suc k) p = do (e, q) ← decode_element p; es ← decode_elements k q; ok (e ∷ es)

unfoldable pub decode_string : List ℕ → ℕ → Bytes → Decoded
decode_string shape numel bytes = or_fail (read_u32 bytes) (short_payload "string") λ (count, p).
    if not (count == numel)
    then err (count_mismatch "string")
    else (do es ← decode_elements numel p; ok (string (record { shape = shape; elements = es })))

-- The three strings of a datetime, and the cursor after them.
abbrev three_strings : Bytes → Option (Bytes × Bytes × Bytes × Bytes)
three_strings p = Codec.◌>>=◌ (read_str_u32len p) λ (tz, p1).
    Codec.◌>>=◌ (read_str_u32len p1)
      λ (loc, p2). Codec.◌>>=◌ (read_str_u32len p2) λ (fmt, p3). some (tz, loc, fmt, p3)

unfoldable pub decode_datetime : List ℕ → ℕ → Bytes → Decoded
decode_datetime shape numel bytes =
    or_fail (read_u32 bytes) (short_payload "datetime") λ (count, p).
      if not (count == numel)
      then err (count_mismatch "datetime")
      else or_fail (three_strings p) bad_strings λ (tz, loc, fmt, q).
        if ltb (length q) numel
        then err (short_mask "datetime")
        else if ltb (length (drop numel q)) (mul64 numel 8)
        then err (short_array "datetime")
        else or_fail (read_many read_i64 numel (drop numel q)) (bad_array "datetime") λ (ms, _).
          ok (
            datetime (record {
              shape = shape;
              timezone = some tz;
              locale = some loc;
              format = some fmt;
              nat_mask = take numel q;
              ms = ms;
            }))

unfoldable pub decode_duration : List ℕ → ℕ → Bytes → Decoded
decode_duration shape numel bytes =
    or_fail (read_u32 bytes) (short_payload "duration") λ (count, p).
      if not (count == numel)
      then err (count_mismatch "duration")
      else if ltb (length p) numel
      then err (short_mask "duration")
      else if ltb (length (drop numel p)) (mul64 numel 8)
      then err (short_array "duration")
      else or_fail (read_many read_i64 numel (drop numel p)) (bad_array "duration")
          λ (ms, _). ok (duration (record { shape = shape; nan_mask = take numel p; ms = ms }))

unfoldable pub decode_calendar_duration : List ℕ → ℕ → Bytes → Decoded
decode_calendar_duration shape numel bytes =
    or_fail (read_u32 bytes) (short_payload "calendarDuration") λ (count, p).
      if not (count == numel)
      then err (count_mismatch "calendarDuration")
      else if ltb (length p) numel
      then err (short_mask "calendarDuration")
      else if ltb (length (drop numel p)) (mul64 numel 16)
      then err (short_array "calendarDuration")
      else or_fail (read_many read_entry numel (drop numel p)) (bad_array "calendarDuration")
          λ (es, _).
            ok (calendar_duration (record { shape = shape; mask = take numel p; entries = es }))

unfoldable pub decode_categorical : List ℕ → ℕ → Bytes → Decoded
decode_categorical shape numel bytes =
    or_fail (read_u32 bytes) (short_payload "categorical") λ (ncat, p).
      or_fail (read_many read_str_u32len ncat p) bad_category_string λ (cats, q).
        if ltb (length q) (mul64 numel 4)
        then err short_codes
        else xcalloc numel 4 (
            or_fail (read_many read_u32 numel q) (bad_array "categorical") λ (codes', _).
              ok (
                categorical (record { shape = shape; categories = map some cats; codes = codes' })))

unfoldable pub decode_opaque : FieldMeta → List ℕ → Bytes → Decoded
decode_opaque meta shape bytes = ok (
    opaque (record {
      kind = some meta.kind;
      class_name = some meta.class_name;
      shape = shape;
      complex = meta.complex;
      encoding = some meta.encoding;
      bytes = bytes;
    }))

-- The tests on the kind, in their order.
unfoldable pub decode_kind : FieldMeta → List ℕ → ℕ → Bytes → Decoded
decode_kind meta shape numel bytes =
    if str_eq meta.kind (codes "numeric")
    then decode_numeric meta shape numel bytes
    else if str_eq meta.kind (codes "logical")
    then decode_logical shape numel bytes
    else if str_eq meta.kind (codes "char")
    then decode_char shape numel bytes
    else if str_eq meta.kind (codes "string")
    then decode_string shape numel bytes
    else if str_eq meta.kind (codes "datetime")
    then decode_datetime shape numel bytes
    else if str_eq meta.kind (codes "duration")
    then decode_duration shape numel bytes
    else if str_eq meta.kind (codes "calendarDuration")
        || str_eq meta.kind (codes "calendarduration")
    then decode_calendar_duration shape numel bytes
    else if str_eq meta.kind (codes "categorical")
    then decode_categorical shape numel bytes
    else if str_eq meta.kind (codes "struct")
    then ok (struct no_entries)
    else decode_opaque meta shape bytes

unfoldable pub decode_field_value : FieldMeta → Bytes → Decoded
decode_field_value meta bytes =
    or_fail (copy_shape_u64_to_size meta.shape) dimension_too_large λ shape.
      or_fail (shape_numel shape) (shape_too_large "decode")
        λ numel. decode_kind meta shape numel bytes
