-- ===== src/Codec/Encode.antt =====
-- encode_value_bytes of C/src/gbf.c: one function for each case of its switch.
use gbin.Prelude.{
  ℕ, ◌/◌, ◌%◌, ◌^◌, ◌++◌, Bytes, List, [], ◌∷◌, Option, none, some, length, ltb, not, if◌then◌else◌,
  ◌==◌, Result, ok, err,
}
use gbin.Error.{
  Error, silent, nonempty_struct_leaf, too_many_elements, element_too_large, mask_length_mismatch,
  too_many_categories,
}
use gbin.Word.{u32_max}
use gbin.Value.{
  Value, struct, numeric, logical, string, char, datetime, duration, calendar_duration, categorical,
  opaque, no_entries, entry, NumericArray, StringArray, DatetimeArray, DurationArray,
  CalendarDurationArray, CategoricalArray,
}
use gbin.Codec.{
  ◌>>=◌, encode_u32, encode_str_u32len, encode_all_i64, encode_all_u32, encode_entries,
}

abbrev pub Encoded : Type 0
Encoded = Result Error Bytes

-- Go on with the buffer, or return 0 with no message.
abbrev pub or_silent : Option Bytes → (Bytes → Encoded) → Encoded
or_silent none k = err silent
or_silent (some sb) k = k sb

unfoldable pub encode_numeric : NumericArray → Bytes
encode_numeric a = if a.complex then a.real_le ++ a.imag_le else a.real_le

-- UTF-16 code units, low byte first.
unfoldable pub encode_units : Bytes → List ℕ → Bytes
encode_units sb [] = sb
encode_units sb (u ∷ us) = encode_units (sb ++ u % 2 ^ 8 ∷ u / 2 ^ 8 % 2 ^ 8 ∷ []) us

unfoldable pub encode_elements : Bytes → List (Option Bytes) → Encoded
encode_elements sb [] = ok sb
encode_elements sb (none ∷ es) = encode_elements (encode_u32 sb 0) es
encode_elements sb (some s ∷ es) =
    let rest = encode_elements (encode_u32 sb (length s) ++ s) es in
    if ltb u32_max (length s) then err element_too_large else rest

unfoldable pub encode_string : StringArray → Encoded
encode_string a =
    if ltb u32_max (length a.elements)
    then err (too_many_elements "string")
    else encode_elements (encode_u32 [] (length a.elements)) a.elements

unfoldable pub encode_datetime : DatetimeArray → Encoded
encode_datetime a =
    if ltb u32_max (length a.ms)
    then err (too_many_elements "datetime")
    else or_silent (encode_str_u32len (encode_u32 [] (length a.ms)) a.timezone) λ sb1.
      or_silent (encode_str_u32len sb1 a.locale) λ sb2.
        or_silent (encode_str_u32len sb2 a.format) λ sb3.
          if not (length a.nat_mask == length a.ms)
          then err (mask_length_mismatch "datetime")
          else ok (encode_all_i64 (sb3 ++ a.nat_mask) a.ms)

unfoldable pub encode_duration : DurationArray → Encoded
encode_duration a =
    if ltb u32_max (length a.ms)
    then err (too_many_elements "duration")
    else if not (length a.nan_mask == length a.ms)
    then err (mask_length_mismatch "duration")
    else ok (encode_all_i64 (encode_u32 [] (length a.ms) ++ a.nan_mask) a.ms)

unfoldable pub encode_calendar_duration : CalendarDurationArray → Encoded
encode_calendar_duration a =
    if ltb u32_max (length a.entries)
    then err (too_many_elements "calendarDuration")
    else if not (length a.mask == length a.entries)
    then err (mask_length_mismatch "calendarDuration")
    else ok (encode_entries (encode_u32 [] (length a.entries) ++ a.mask) a.entries)

unfoldable pub encode_categories : Bytes → List (Option Bytes) → Option Bytes
encode_categories sb [] = some sb
encode_categories sb (c ∷ cs) = do sb' ← encode_str_u32len sb c; encode_categories sb' cs

unfoldable pub encode_categorical : CategoricalArray → Encoded
encode_categorical a =
    if ltb u32_max (length a.categories)
    then err too_many_categories
    else or_silent (encode_categories (encode_u32 [] (length a.categories)) a.categories)
        λ sb. ok (encode_all_u32 sb a.codes)

unfoldable pub encode_value_bytes : Value → Encoded
encode_value_bytes (struct no_entries) = ok []
encode_value_bytes (struct (entry k v es)) = err nonempty_struct_leaf
encode_value_bytes (numeric a) = ok (encode_numeric a)
encode_value_bytes (logical a) = ok a.bits
encode_value_bytes (char a) = ok (encode_units [] a.units)
encode_value_bytes (string a) = encode_string a
encode_value_bytes (datetime a) = encode_datetime a
encode_value_bytes (duration a) = encode_duration a
encode_value_bytes (calendar_duration a) = encode_calendar_duration a
encode_value_bytes (categorical a) = encode_categorical a
encode_value_bytes (opaque a) = ok a.bytes
