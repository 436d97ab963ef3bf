-- ===== src/Header/Build.antt =====
-- build_header_json of C/src/gbf.c: the minified text of a header, in the order of its appends to a
-- string buffer. The allocation succeeds; `err undefined` is an append that writes past the block.
pub mod Held
use gbin.Prelude.{ℕ, List, [], ◌∷◌, ◌++◌, Bytes, codes, if◌then◌else◌, Result, ok, err, ◌>>=◌}
use gbin.Error.{Error}
use gbin.Strbuf.Content.{Content, empty_content, append_text, append_bytes, append_printed}
use gbin.Json.Text.{json_escape}
use gbin.Libc.{decimal}
use gbin.Header.{FieldMeta}

-- gbf_sb_append_fmt with "%" PRIu64. json_append_u32 prints the same digits with "%u".
abbrev pub json_append_u64 : Content → ℕ → Result Error Content
json_append_u64 sb v = append_printed sb (decimal v)

-- json_escape_append: a byte at a time, also where the C appends the four bytes of an escape at once.
unfoldable pub append_escaped : Content → Bytes → Result Error Content
append_escaped sb s = append_bytes sb (json_escape s)

-- The numbers of a shape after the first.
unfoldable pub append_dims : Content → List ℕ → Result Error Content
append_dims sb [] = ok sb
append_dims sb (d ∷ ds) = do
  sb1 ← append_text sb (codes ",")
  sb2 ← json_append_u64 sb1 d
  append_dims sb2 ds

unfoldable pub append_shape : Content → List ℕ → Result Error Content
unfolding append_dims
append_shape sb [] = ok sb
append_shape sb (d ∷ ds) = do sb1 ← json_append_u64 sb d; append_dims sb1 ds

-- The object of one field from its offset on.
unfoldable pub append_field_end : Content → FieldMeta → Result Error Content
append_field_end sb f = do
  sb ← append_text sb (codes ",\"offset\":")
  sb ← json_append_u64 sb f.offset
  sb ← append_text sb (codes ",\"csize\":")
  sb ← json_append_u64 sb f.csize
  sb ← append_text sb (codes ",\"usize\":")
  sb ← json_append_u64 sb f.usize
  sb ← append_text sb (codes ",\"crc32\":")
  sb ← json_append_u64 sb f.crc32
  append_text sb (codes "}")

-- The object of one field.
unfoldable pub append_field : Content → FieldMeta → Result Error Content
unfolding append_shape append_field_end append_escaped
append_field sb f = do
  sb ← append_text sb (codes "{")
  sb ← append_text sb (codes "\"name\":")
  sb ← append_escaped sb f.name
  sb ← append_text sb (codes ",\"kind\":")
  sb ← append_escaped sb f.kind
  sb ← append_text sb (codes ",\"class\":")
  sb ← append_escaped sb f.class_name
  sb ← append_text sb (codes ",\"shape\":[")
  sb ← append_shape sb f.shape
  sb ← append_text sb (codes "]")
  sb ← append_text sb (codes ",\"complex\":")
  sb ← append_text sb (if f.complex then codes "true" else codes "false")
  sb ← append_text sb (codes ",\"encoding\":")
  sb ← append_escaped sb f.encoding
  sb ← append_text sb (codes ",\"compression\":")
  sb ← append_escaped sb f.compression
  append_field_end sb f

unfoldable pub append_more_fields : Content → List FieldMeta → Result Error Content
unfolding append_field
append_more_fields sb [] = ok sb
append_more_fields sb (f ∷ fs) = do
  sb1 ← append_text sb (codes ",")
  sb2 ← append_field sb1 f
  append_more_fields sb2 fs

unfoldable pub append_fields : Content → List FieldMeta → Result Error Content
unfolding append_more_fields
append_fields sb [] = ok sb
append_fields sb (f ∷ fs) = do sb1 ← append_field sb f; append_more_fields sb1 fs

-- The appends before the number of payload_start.
unfoldable pub header_front : List FieldMeta → Result Error Content
unfolding append_fields
header_front fields = do
  sb ← append_text empty_content (codes "{")
  sb ← append_text sb (codes "\"format\":\"GBF\"")
  sb ← append_text sb (codes ",\"magic\":\"GREDBIN\"")
  sb ← append_text sb (codes ",\"version\":1")
  sb ← append_text sb (codes ",\"endianness\":\"little\"")
  sb ← append_text sb (codes ",\"order\":\"column-major\"")
  sb ← append_text sb (codes ",\"root\":\"struct\"")
  sb ← append_text sb (codes ",\"fields\":[")
  sb ← append_fields sb fields
  sb ← append_text sb (codes "]")
  append_text sb (codes ",\"payload_start\":")

-- The appends behind the number of payload_start.
unfoldable pub header_back : Content → ℕ → Bytes → Result Error Content
unfolding append_escaped
header_back sb file_size crc_hex = do
  sb ← append_text sb (codes ",\"file_size\":")
  sb ← json_append_u64 sb file_size
  sb ← append_text sb (codes ",\"header_crc32_hex\":")
  sb ← append_escaped sb crc_hex
  append_text sb (codes "}")

-- The appends before the NUL.
unfoldable pub header_appends : List FieldMeta → ℕ → ℕ → Bytes → Result Error Content
unfolding header_front header_back
header_appends fields payload_start file_size crc_hex = do
  sb ← header_front fields
  sb ← json_append_u64 sb payload_start
  header_back sb file_size crc_hex

-- The text of `out_json` up to its NUL; `out_len` is its length as a uint32_t.
unfoldable pub build_header_json : List FieldMeta → ℕ → ℕ → Bytes → Result Error Bytes
unfolding header_appends
build_header_json fields payload_start file_size crc_hex = do
  sb ← header_appends fields payload_start file_size crc_hex
  with_nul ← append_text sb (0 ∷ [])
  ok sb.text
