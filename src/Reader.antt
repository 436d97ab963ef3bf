-- ===== src/Reader.antt =====
-- Reading in C/src/gbf.c: gbf_read_header_only, gbf_read_file and gbf_read_var. The file system is a
-- function from a path to the bytes of the file, `none` where fopen fails; both calls of fopen see
-- the same file. zlib, strtod and the double arithmetic are parameters.
use gbin.Prelude.{
  ℕ, ◌+◌, ◌%◌, ◌^◌, Bool, false, ◌&&◌, ◌||◌, not, List, [], ◌∷◌, Option, none, some, Bytes, codes,
  length, take, drop, get_or, leb, ◌==◌, if◌then◌else◌, str_eq, starts_with, is_empty, Result, ok,
  err, ◌>>=◌, ◌>>◌, guard, ◌*◌,
}
use gbin.Error.{
  Error, no_path, open_failed, missing_magic, bad_magic, missing_header_len,
  unreasonable_header_length, header_truncated, header_crc_mismatch, payload_start_mismatch,
  file_size_mismatch, var_not_found,
}
use gbin.Word.{le_u32}
use gbin.Header.{FieldMeta, Header}
use gbin.Header.Parse.{parse_header_from_json}
use gbin.Json.Access.{Floats}
use gbin.Json.Crc.{zero_out_header_crc32_field, extract_header_crc32_hex_u32}
use gbin.Value.{Value, struct, no_entries}
use gbin.Value.Path.{struct_insert_path}
use gbin.Payload.{Zlib, ReadOptions, read_field}

abbrev pub k_magic : Bytes
k_magic = codes "GREDBIN"

abbrev pub open_or_fail : Option Bytes → Result Error Bytes
open_or_fail none = err open_failed
open_or_fail (some file) = ok file

-- The length and the text of the header: everything before "validate header CRC if requested".
unfoldable pub read_header_json : Bytes → Result Error (ℕ × Bytes)
read_header_json file = do
  guard (leb 8 (length file)) missing_magic
  guard (starts_with file k_magic) bad_magic
  guard (leb 12 (length file)) missing_header_len
  let header_len = le_u32 (take 4 (drop 8 file))
  guard (leb header_len (1024 * 1024 * 256)) (unreasonable_header_length header_len)
  guard (leb header_len (length (drop 12 file))) header_truncated
  ok (header_len, take header_len (drop 12 file))

-- `hdr->payload_start` where it is present.
unfoldable pub fill_payload_start : ReadOptions → ℕ → Header → Result Error Header
fill_payload_start opt expected hdr = do
  guard
      (not (opt.validate && (not (hdr.payload_start == 0) && not (hdr.payload_start == expected))))
      (payload_start_mismatch hdr.payload_start expected)
  ok (record hdr { payload_start = if hdr.payload_start == 0 then expected else hdr.payload_start })

unfoldable pub fill_file_size : ReadOptions → ℕ → Header → Result Error Header
fill_file_size opt actual hdr =
    if opt.validate || hdr.file_size == 0
    then (do
      guard (not (opt.validate && (not (hdr.file_size == 0) && not (hdr.file_size == actual))))
          (file_size_mismatch hdr.file_size actual)
      ok (record hdr { file_size = actual }))
    else ok hdr

-- struct_insert_path as a step of a loop that fails with it.
abbrev pub inserted : Value × Option Error → Result Error Value
inserted (v, none) = ok v
inserted (v, some e) = err e

-- A field name under the prefix of gbf_read_var: the prefix, a dot and the rest.
unfoldable pub is_child : Bytes → Bytes → Bool
is_child prefix name = starts_with name prefix && get_or name (length prefix) 0 == b'.'

unfoldable pub is_match : Bytes → Bytes → Bool
unfolding is_child
is_match prefix name = is_empty prefix || (str_eq name prefix || is_child prefix name)

unfoldable pub any_match : Bytes → List FieldMeta → Bool
unfolding is_match
any_match prefix [] = false
any_match prefix (f ∷ fs) = is_match prefix f.name || any_match prefix fs

-- `exact_index`: the last field of that name.
unfoldable pub exact : Bytes → List FieldMeta → Option FieldMeta → Option FieldMeta
exact prefix [] found = found
exact prefix (f ∷ fs) found = exact prefix fs (if str_eq f.name prefix then some f else found)

unfoldable pub has_children : Bytes → List FieldMeta → Bool
unfolding is_child
has_children prefix [] = false
has_children prefix (f ∷ fs) =
    (not (str_eq f.name prefix) && is_child prefix f.name) || has_children prefix fs

-- The path of a field in the subtree, if it goes there.
unfoldable pub stripped : Bytes → Bytes → Option Bytes
unfolding is_child
stripped prefix name =
    if is_empty prefix
    then some name
    else if str_eq name prefix
    then none
    else if is_child prefix name
    then some (drop (length prefix + 1) name)
    else none

-- The field to return itself: an exact match without children, under a prefix.
unfoldable pub lone_leaf : Bytes → List FieldMeta → Option FieldMeta
unfolding exact has_children
lone_leaf prefix fields =
    if is_empty prefix || has_children prefix fields then none else exact prefix fields none

module _ {D : Type 0} (z : Zlib) (fl : Floats D) (strtod : Bytes → Option D)
    (fs : Bytes → Option Bytes) where
  unfoldable pub check_header_crc : ReadOptions → Bytes → Result Error (Unit {0})
  check_header_crc opt json =
      let (zeroed, found) = zero_out_header_crc32_field json in
      let expected = extract_header_crc32_hex_u32 json in
      let got = z.crc32 zeroed % 2 ^ 32 in
      guard (not (opt.validate && (found && not (got == expected))))
        (header_crc_mismatch expected got)

  -- The header, its length and its text.
  unfoldable pub read_header_only : Bytes → ReadOptions → Result Error (Header × ℕ × Bytes)
  unfolding read_header_json fill_payload_start fill_file_size check_header_crc
  read_header_only path opt = do
    guard (not (is_empty path)) no_path
    file ← open_or_fail (fs path)
    (header_len, json) ← read_header_json file
    check_header_crc opt json
    parsed ← parse_header_from_json fl strtod json
    started ← fill_payload_start opt (8 + 4 + header_len) parsed
    hdr ← fill_file_size opt (length file) started
    ok (hdr, header_len, json)

  -- The loop over the fields, with the path under which each one is inserted.
  unfoldable pub read_fields :
      ReadOptions → Bytes → ℕ → (Bytes → Option Bytes) → List FieldMeta → Value → Result Error Value
  read_fields opt file payload_start place [] root = ok root
  read_fields opt file payload_start place (meta ∷ metas) root = elim (place meta.name) [
    | none ↦ read_fields opt file payload_start place metas root
    | some name ↦ do
      v ← read_field z opt file payload_start meta
      root' ← inserted (struct_insert_path root name v)
      read_fields opt file payload_start place metas root'
  ]

  unfoldable pub read_file : Bytes → ReadOptions → Result Error (Value × Header)
  unfolding read_header_only read_fields
  read_file path opt = do
    (hdr, header_len, json) ← read_header_only path opt
    file ← open_or_fail (fs path)
    root ← read_fields opt file hdr.payload_start (λ name. some name) hdr.fields (struct no_entries)
    ok (root, hdr)

  -- What gbf_read_var builds of the matching fields.
  unfoldable pub read_matches : ReadOptions → Bytes → Header → Bytes → Result Error Value
  unfolding read_fields stripped lone_leaf
  read_matches opt file hdr prefix = elim (lone_leaf prefix hdr.fields) [
    | some meta ↦ read_field z opt file hdr.payload_start meta
    | none ↦ read_fields opt file hdr.payload_start (stripped prefix) hdr.fields (struct no_entries)
  ]

  -- A `var` that is NULL or empty is the empty prefix.
  unfoldable pub read_var : Bytes → Bytes → ReadOptions → Result Error Value
  unfolding read_header_only any_match read_matches
  read_var path prefix opt = do
    (hdr, header_len, json) ← read_header_only path opt
    guard (any_match prefix hdr.fields) (var_not_found prefix)
    file ← open_or_fail (fs path)
    read_matches opt file hdr prefix
