-- ===== src/Header/Text.antt =====
-- The text that build_header_json of C/src/gbf.c appends, piece by piece, without the buffer: what
-- the header says where no append leaves the block.
use gbin.Prelude.{ℕ, List, [], ◌∷◌, ◌++◌, Bytes, codes, if◌then◌else◌}
use gbin.Json.Text.{json_escape}
use gbin.Libc.{decimal}
use gbin.Header.{FieldMeta}

abbrev pub u64_text : Bytes → ℕ → Bytes
u64_text sb v = sb ++ decimal v

abbrev pub escaped_text : Bytes → Bytes → Bytes
escaped_text sb s = sb ++ json_escape s

abbrev pub str_text : Bytes → Bytes → Bytes
str_text sb s = sb ++ s

-- The numbers of a shape after the first.
unfoldable pub dims_text : Bytes → List ℕ → Bytes
dims_text sb [] = sb
dims_text sb (d ∷ ds) = dims_text (u64_text (str_text sb (codes ",")) d) ds

unfoldable pub shape_text : Bytes → List ℕ → Bytes
unfolding dims_text
shape_text sb [] = sb
shape_text sb (d ∷ ds) = dims_text (u64_text sb d) ds

-- The object of one field from its offset on.
unfoldable pub field_end_text : Bytes → FieldMeta → Bytes
field_end_text sb f =
    let sb = u64_text (str_text sb (codes ",\"offset\":")) f.offset in
    let sb = u64_text (str_text sb (codes ",\"csize\":")) f.csize in
    let sb = u64_text (str_text sb (codes ",\"usize\":")) f.usize in
    let sb = u64_text (str_text sb (codes ",\"crc32\":")) f.crc32 in str_text sb (codes "}")

-- The object of one field.
unfoldable pub field_text : Bytes → FieldMeta → Bytes
unfolding shape_text field_end_text
field_text sb0 f =
    let sb = str_text sb0 (codes "{") in
    let sb = escaped_text (str_text sb (codes "\"name\":")) f.name in
    let sb = escaped_text (str_text sb (codes ",\"kind\":")) f.kind in
    let sb = escaped_text (str_text sb (codes ",\"class\":")) f.class_name in
    let sb = shape_text (str_text sb (codes ",\"shape\":[")) f.shape in
    let sb = str_text sb (codes "]") in
    let sb = str_text sb (codes ",\"complex\":") in
    let sb = str_text sb (if f.complex then codes "true" else codes "false") in
    let sb = escaped_text (str_text sb (codes ",\"encoding\":")) f.encoding in
    let sb = escaped_text (str_text sb (codes ",\"compression\":")) f.compression in
    field_end_text sb f

unfoldable pub more_fields_text : Bytes → List FieldMeta → Bytes
unfolding field_text
more_fields_text sb [] = sb
more_fields_text sb (f ∷ fs) = more_fields_text (field_text (str_text sb (codes ",")) f) fs

unfoldable pub fields_text : Bytes → List FieldMeta → Bytes
unfolding more_fields_text
fields_text sb [] = sb
fields_text sb (f ∷ fs) = more_fields_text (field_text sb f) fs

abbrev pub preamble : Bytes
preamble =
    codes
      "{\"format\":\"GBF\",\"magic\":\"GREDBIN\",\"version\":1,\"endianness\":\"little\",\"order\":\"column-major\",\"root\":\"struct\",\"fields\":["

-- The text before the number of payload_start.
unfoldable pub front_text : List FieldMeta → Bytes
unfolding fields_text
front_text fields =
    str_text (str_text (fields_text preamble fields) (codes "]")) (codes ",\"payload_start\":")

unfoldable pub back_text : Bytes → ℕ → Bytes → Bytes
back_text sb file_size crc_hex =
    let sb = u64_text (str_text sb (codes ",\"file_size\":")) file_size in
    let sb = escaped_text (str_text sb (codes ",\"header_crc32_hex\":")) crc_hex in
    str_text sb (codes "}")

unfoldable pub header_text : List FieldMeta → ℕ → ℕ → Bytes → Bytes
unfolding front_text back_text
header_text fields payload_start file_size crc_hex =
    back_text (u64_text (front_text fields) payload_start) file_size crc_hex
