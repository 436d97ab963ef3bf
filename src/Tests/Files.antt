-- ===== src/Tests/Files.antt =====
-- The theorems on the JSON text, the header and the payloads, applied at concrete inputs.
use gbin.Prelude.{
  ℕ, ◌^◌, ◌≡◌, ◌≢◌, refl, sym, ap, arith, inl, true, false, [], ◌∷◌, ◌++◌, Option, none, some,
  Bytes, codes, ok, err, length, replicate, drop, ltb, leb, ◌-◌,
}
use gbin.Error.{out_of_fuel}
use gbin.Json.{number, string}
use gbin.Json.Text.{json_escape, parse_string}
use gbin.Json.Text.Escape.{parse_string-json_escape}
use gbin.Json.Parse.{json_parse}
use gbin.Json.Parse.Ends.{json_parse-ne-out_of_fuel}
use gbin.Json.Access.{Floats, as_u64}
use gbin.Json.Access.Laws.{as_u64-decimal, as_u64-hex_string}
use gbin.Json.Crc.{
  locate, find_value, to_colon, after_colon, eight_at, put_at, crc_hex8,
  extract_header_crc32_hex_u32, zero_out_header_crc32_field,
}
use gbin.Json.Crc.Patch.{header_crc_lem}
use gbin.Libc.{decimal}
use gbin.Header.{FieldMeta}
use gbin.Payload.{Zlib, WriteOptions, always, maybe_decompress, compress_maybe, choose}
use gbin.Payload.Laws.{Restores, restores, maybe_decompress-compress_maybe}

-- A number type of a model C, with the length of a raw number for its value.
abbrev pub strtod : Bytes → Option ℕ
strtod raw = some (length raw)

abbrev pub floats : Floats ℕ
floats = record {
  float_zero = 0;
  float_one = 1;
  is_le_zero = λ v. leb v 0;
  is_nonzero = λ v. ltb 0 v;
  llround = λ v. v;
}

json_parse-ne-out_of_fuel_example : json_parse strtod (codes "[[1,{\"a\":null}") ≢ err out_of_fuel
json_parse-ne-out_of_fuel_example = json_parse-ne-out_of_fuel strtod (codes "[[1,{\"a\":null}")

parse_string-json_escape_example :
    parse_string (json_escape (codes "a\"\n\\b") ++ codes ",1") ≡ ok (codes "a\"\n\\b", codes ",1")
parse_string-json_escape_example = parse_string-json_escape (codes "a\"\n\\b") (codes ",1") (
  (omega arith, omega arith),
  (
    (omega arith, omega arith),
    ((omega arith, omega arith), ((omega arith, omega arith), ((omega arith, omega arith), tt))),
  ),
)

as_u64-decimal_example :
    (as_u64 floats (some (number 3 (decimal (2 ^ 64 - 1)) true)) 0 ≡ 2 ^ 64 - 1)
    × (as_u64 floats (some (string (decimal (2 ^ 64 - 1)))) 0 ≡ 2 ^ 64 - 1)
as_u64-decimal_example = as_u64-decimal floats (2 ^ 64 - 1) 3 0 (omega arith)

as_u64-hex_string_example : as_u64 floats (some (string (codes "0x1F"))) 5 ≡ 0
as_u64-hex_string_example = as_u64-hex_string floats b'x' (codes "1F") 5 (inl refl)

abbrev crc_text : Bytes
crc_text = codes "{\"header_crc32_hex\":\"00000000\"}"

header_crc_lem_example :
    (extract_header_crc32_hex_u32 (put_at 21 (crc_hex8 3735928559) crc_text) ≡ 3735928559)
    × (zero_out_header_crc32_field (put_at 21 (crc_hex8 3735928559) crc_text)
        ≡ zero_out_header_crc32_field crc_text)
    × (zero_out_header_crc32_field crc_text ≡ (put_at 21 (replicate 8 b'0') crc_text, true))
unfolding locate find_value to_colon after_colon eight_at
header_crc_lem_example = header_crc_lem crc_text 21 3735928559 refl (omega arith)

-- A codec that puts a byte in front.
abbrev prefixing : Zlib
prefixing = record {
  crc32 = λ s. length s;
  compress2 = λ level s. some (120 ∷ s);
  uncompress = λ n c. some (drop 1 c);
  default_compression = 2 ^ 32 - 1;
}

abbrev tail_of : Option Bytes → Option Bytes
tail_of none = none
tail_of (some c) = some (drop 1 c)

prefixing-Restores : Restores prefixing
prefixing-Restores = restores λ level src comp e. ap tail_of (sym e)

abbrev always_zlib : WriteOptions
always_zlib = record { compression = always; zlib_level = 6; include_crc32 = true }

abbrev packed_field : FieldMeta
packed_field = record {
  name = codes "x";
  kind = codes "logical";
  class_name = codes "logical";
  shape = 3 ∷ 1 ∷ [];
  complex = false;
  encoding = [];
  compression = codes "zlib";
  offset = 0;
  csize = 4;
  usize = 3;
  crc32 = 0;
}

maybe_decompress-compress_maybe_example :
    maybe_decompress prefixing packed_field (120 ∷ 1 ∷ 0 ∷ 1 ∷ []) ≡ ok (1 ∷ 0 ∷ 1 ∷ [])
unfolding compress_maybe choose
maybe_decompress-compress_maybe_example =
    maybe_decompress-compress_maybe prefixing always_zlib packed_field (1 ∷ 0 ∷ 1 ∷ [])
      (120 ∷ 1 ∷ 0 ∷ 1 ∷ []) prefixing-Restores (omega arith) refl refl
