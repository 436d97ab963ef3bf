-- ===== src/Header/Tree.antt =====
-- The JSON value that the text of build_header_json stands for. `value` is the double of a number.
pub mod Print
pub mod Read
pub mod RoundTrip
use gbin.Prelude.{ℕ, true, List, [], ◌∷◌, Bytes, codes}
use gbin.Json.{
  Json, Items, Fields, bool, number, string, array, object, no_items, item, no_fields, field,
}
use gbin.Libc.{decimal}
use gbin.Header.{FieldMeta, Header}

-- The header that gbf_write_file prints.
abbrev pub written_header : List FieldMeta → ℕ → ℕ → Bytes → Header
written_header fields payload_start file_size crc_hex = record {
  format = codes "GBF";
  magic = codes "GREDBIN";
  version = 1;
  endianness = codes "little";
  order = codes "column-major";
  root = codes "struct";
  payload_start = payload_start;
  file_size = file_size;
  header_crc32_hex = crc_hex;
  fields = fields;
}

module _ {D : Type 0} (value : ℕ → D) where
  abbrev pub natural : ℕ → Json D
  natural n = number (value n) (decimal n) true

  unfoldable pub dims : List ℕ → Items D
  dims [] = no_items
  dims (d ∷ ds) = item (natural d) (dims ds)

  unfoldable pub field_tree : FieldMeta → Json D
  unfolding dims
  field_tree f = object (
      field (codes "name") (string f.name) (
        field (codes "kind") (string f.kind) (
          field (codes "class") (string f.class_name) (
            field (codes "shape") (array (dims f.shape)) (
              field (codes "complex") (bool f.complex) (
                field (codes "encoding") (string f.encoding) (
                  field (codes "compression") (string f.compression) (
                    field (codes "offset") (natural f.offset) (
                      field (codes "csize") (natural f.csize) (
                        field (codes "usize") (natural f.usize)
                          (field (codes "crc32") (natural f.crc32) no_fields)))))))))))

  unfoldable pub field_trees : List FieldMeta → Items D
  unfolding field_tree
  field_trees [] = no_items
  field_trees (f ∷ fs) = item (field_tree f) (field_trees fs)

  unfoldable pub header_tree : Header → Json D
  unfolding field_trees
  header_tree h = object (
      field (codes "format") (string h.format) (
        field (codes "magic") (string h.magic) (
          field (codes "version") (natural h.version) (
            field (codes "endianness") (string h.endianness) (
              field (codes "order") (string h.order) (
                field (codes "root") (string h.root) (
                  field (codes "fields") (array (field_trees h.fields)) (
                    field (codes "payload_start") (natural h.payload_start) (
                      field (codes "file_size") (natural h.file_size) (
                        field (codes "header_crc32_hex") (string h.header_crc32_hex)
                          no_fields))))))))))
