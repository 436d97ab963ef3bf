-- ===== src/Writer.antt =====
-- Writing in C/src/gbf.c: flatten_fields_rec and gbf_write_file. The result is the bytes of the file;
-- that fopen and fwrite succeed is assumed, and memory suffices. A compression that is NULL is the
-- text "none" that the header prints for it.
pub mod Layout
pub mod Sizes
pub mod ReadBack
pub mod Leaf
use gbin.Prelude.{
  ◌-◌, ℕ, zero, suc, ◌+◌, ◌%◌, ◌^◌, Bool, true, false, ◌&&◌, not, List, [], ◌∷◌, ◌++◌, map, Option,
  none, some, Bytes, codes, length, take, ltb, leb, ◌==◌, if◌then◌else◌, is_empty, Result, ok, err,
  ◌>>=◌, ◌>>◌, guard,
}
use gbin.Error.{Error, unnamed_leaf, no_path, write_root_not_struct, header_length_changed}
use gbin.Word.{store_le_u32}
use gbin.Value.{Value, struct, Entries, no_entries, entry}
use gbin.Header.{FieldMeta}
use gbin.Header.Build.{build_header_json}
use gbin.Strbuf.Content.{empty_content, append_text, append_printed}
use gbin.Header.FixedPoint.{Layout as HeaderLayout, fixed_point}
use gbin.Codec.Describe.{describe}
use gbin.Codec.Encode.{encode_value_bytes}
use gbin.Json.Crc.{crc_hex8}
use gbin.Payload.{buffer_crc, Zlib, WriteOptions, compress_maybe}
use gbin.Reader.{k_magic}

-- writer_field_t
pub record WriterField : Type 0 where
  pub meta : FieldMeta
  pub payload : Bytes

-- "%s.%s", or the key alone at the root, in a fresh buffer, and its NUL.
unfoldable pub join_name : Bytes → Bytes → Result Error Bytes
join_name prefix key = do
  p ←
      if is_empty prefix
      then append_text empty_content key
      else append_printed empty_content (prefix ++ b'.' ∷ key)
  with_nul ← append_text p (0 ∷ [])
  ok p.text

-- The field of a value: what describe says of it, and where its payload goes.
unfoldable pub field_of : Bytes → Value → Bytes → ℕ → ℕ → Bytes → WriterField
field_of name v compression usize crc32 payload = record {
  meta = record {
    name = name;
    kind = (describe v).kind;
    class_name = (describe v).class_name;
    shape = (describe v).shape;
    complex = (describe v).complex;
    encoding = (describe v).encoding;
    compression = compression;
    offset = 0;
    csize = length payload;
    usize = usize;
    crc32 = crc32;
  };
  payload = payload;
}

module _ (z : Zlib) (opt : WriteOptions) where
  -- The CRC of the bytes before compression, of as many as their number is as a uInt.
  unfoldable pub raw_crc : Bytes → ℕ
  raw_crc raw = if ltb 0 (length raw) && opt.include_crc32 then buffer_crc z raw else 0

  unfoldable pub leaf_field : Bytes → Value → Result Error WriterField
  unfolding raw_crc field_of
  leaf_field prefix v = do
    guard (not (is_empty prefix)) unnamed_leaf
    raw ← encode_value_bytes v
    (name, payload) ← compress_maybe z opt raw
    ok (field_of prefix v name (length raw) (raw_crc raw) payload)

  -- An empty struct is a leaf of its own, but at the root.
  unfoldable pub empty_struct_fields : Bytes → List WriterField
  unfolding field_of
  empty_struct_fields prefix =
      if is_empty prefix then [] else field_of prefix (struct no_entries) (codes "none") 0 0 [] ∷ []

  unfoldable mutual
    unfolding join_name leaf_field empty_struct_fields

    pub flatten_fields_rec : Bytes → Value → Result Error (List WriterField)
    flatten_fields_rec prefix (struct no_entries) = ok (empty_struct_fields prefix)
    flatten_fields_rec prefix (struct (entry key child es)) =
        flatten_entries prefix (entry key child es)
    flatten_fields_rec prefix v = leaf_field prefix v >>= λ f. ok (f ∷ [])

    pub flatten_entries : Bytes → Entries → Result Error (List WriterField)
    flatten_entries prefix no_entries = ok []
    flatten_entries prefix (entry key child es) = do
      name ← join_name prefix key
      fs ← flatten_fields_rec name child
      more ← flatten_entries prefix es
      ok (fs ++ more)

-- The loop that computes the offsets, from a payload_size on.
unfoldable pub with_offsets : ℕ → List WriterField → List WriterField
with_offsets size [] = []
with_offsets size (f ∷ fs) =
    record f { meta = record (f.meta) { offset = size } }
    ∷ with_offsets ((size + f.meta.csize) % 2 ^ 64) fs

-- payload_size behind that loop.
unfoldable pub payload_size : ℕ → List WriterField → ℕ
payload_size size [] = size
payload_size size (f ∷ fs) = payload_size ((size + f.meta.csize) % 2 ^ 64) fs

abbrev pub metas : List WriterField → List FieldMeta
metas fs = map (λ f. f.meta) fs

unfoldable pub payloads : List WriterField → Bytes
payloads [] = []
payloads (f ∷ fs) = f.payload ++ payloads fs

-- magic8, the length, the header and the payloads, as they are written.
unfoldable pub file_of : Bytes → List WriterField → Bytes
unfolding payloads
file_of header fs =
    let header_len = length header % 2 ^ 32 in
    k_magic ++ 0 ∷ (store_le_u32 header_len ++ (take header_len header ++ payloads fs))

-- "defaults": a level out of -1 to 9 is -1.
unfoldable pub default_level : ℕ → ℕ
default_level level = if leb level 9 then level else 2 ^ 32 - 1

-- From the layout on, of the fields with their offsets.
unfoldable pub write_layout : Zlib → List WriterField → HeaderLayout → Result Error Bytes
unfolding file_of
write_layout z placed layout = do
  header_final ←
      build_header_json (metas placed) layout.payload_start layout.file_size
        (crc_hex8 (buffer_crc z layout.header_zero))
  guard (length header_final % 2 ^ 32 == length layout.header_zero % 2 ^ 32) header_length_changed
  ok (file_of header_final placed)

-- From the offsets on.
unfoldable pub write_fields : Zlib → List WriterField → Result Error Bytes
unfolding with_offsets payload_size write_layout
write_fields z fs = do
  layout ← fixed_point (metas (with_offsets 0 fs)) (payload_size 0 fs)
  write_layout z (with_offsets 0 fs) layout

unfoldable pub write_file : Zlib → WriteOptions → Bytes → Value → Result Error Bytes
unfolding flatten_fields_rec default_level write_fields
write_file z opt path (struct es) = do
  guard (not (is_empty path)) no_path
  fs ←
      flatten_fields_rec z (record opt { zlib_level = default_level opt.zlib_level }) [] (struct es)
  write_fields z fs
write_file z opt path v = guard (not (is_empty path)) no_path >> err write_root_not_struct
