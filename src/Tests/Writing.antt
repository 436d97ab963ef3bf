-- ===== src/Tests/Writing.antt =====
-- The theorems on the writer, applied at concrete inputs.
use gbin.Prelude.{
  ◌^◌, ◌-◌, some, true, ◌≡◌, refl, arith, [], ◌∷◌, List, Bytes, codes, All, length, ok, false,
}
use gbin.Reader.{read_header_json}
use gbin.Strbuf.{grow}
use gbin.Strbuf.Content.{append_text, append_printed, cap_for, put_text}
use gbin.Writer.{WriterField, with_offsets, payloads, file_of}
use gbin.Value.{Value, struct, logical, entry, no_entries}
use gbin.Value.Shape.{copy_shape_size_to_u64}
use gbin.Codec.Encode.{encode_value_bytes}
use gbin.Codec.Describe.{describe}
use gbin.Payload.{Zlib, WriteOptions, auto, compress_maybe, choose}
use gbin.Writer.{flatten_fields_rec}
use gbin.Writer.Sizes.{flatten_fields_rec-HasItsSize}
use gbin.Writer.Layout.{HasItsSize, IsReadBack, file_of-reads}

abbrev field_with : Bytes → Bytes → WriterField
field_with name payload = record {
  meta = record {
    name = name;
    kind = codes "logical";
    class_name = codes "logical";
    shape = length payload ∷ 1 ∷ [];
    complex = false;
    encoding = [];
    compression = codes "none";
    offset = 0;
    csize = length payload;
    usize = length payload;
    crc32 = 0;
  };
  payload = payload;
}

abbrev two_fields : List WriterField
two_fields = field_with (codes "a") (1 ∷ 0 ∷ 1 ∷ []) ∷ field_with (codes "b") (1 ∷ []) ∷ []

file_of-reads_example :
    (read_header_json (file_of (codes "{}") (with_offsets 0 two_fields)) ≡ ok (2, codes "{}"))
    × All
        (IsReadBack (file_of (codes "{}") (with_offsets 0 two_fields)) 14)
        (with_offsets 0 two_fields)
unfolding payloads
file_of-reads_example =
    file_of-reads (codes "{}") two_fields (refl, (refl, tt)) (omega arith) (omega arith)

-- A zlib that does not compress.
abbrev pub copying : Zlib
copying = record {
  crc32 = λ s. length s;
  compress2 = λ level s. some s;
  uncompress = λ n c. some c;
  default_compression = 2 ^ 32 - 1;
}

abbrev pub auto_crc : WriteOptions
auto_crc = record { compression = auto; zlib_level = 6; include_crc32 = true }

abbrev pub three_flags : Value
three_flags = logical (record { shape = 3 ∷ 1 ∷ []; bits = 1 ∷ 0 ∷ 1 ∷ [] })

abbrev nested : Value
nested = struct (entry (codes "a") (struct (entry (codes "b") three_flags no_entries)) no_entries)

abbrev pub flag_field : WriterField
flag_field = record {
  meta = record {
    name = codes "a.b";
    kind = codes "logical";
    class_name = codes "logical";
    shape = 3 ∷ 1 ∷ [];
    complex = false;
    encoding = [];
    compression = codes "none";
    offset = 0;
    csize = 3;
    usize = 3;
    crc32 = 3;
  };
  payload = 1 ∷ 0 ∷ 1 ∷ [];
}

flatten_fields_rec-HasItsSize_example : All HasItsSize (flag_field ∷ [])
unfolding flatten_fields_rec append_text append_printed cap_for put_text grow encode_value_bytes
    compress_maybe choose describe copy_shape_size_to_u64
flatten_fields_rec-HasItsSize_example =
    flatten_fields_rec-HasItsSize copying auto_crc [] nested (flag_field ∷ []) refl
