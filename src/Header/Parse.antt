-- ===== src/Header/Parse.antt =====
-- parse_header_from_json of C/src/gbf.c. The strtod and the double arithmetic of C are parameters.
use gbin.Prelude.{
  ℕ, zero, suc, ◌^◌, ◌%◌, false, List, [], ◌∷◌, Option, none, some, Bytes, codes, or_default,
  Result, ok, err, ◌>>=◌, ◌>>◌, guard,
}
use gbin.Error.{
  Error, JsonError, json_parse_failed, missing_fields_array, field_not_object, field_missing_names,
  field_missing_shape,
}
use gbin.Header.{FieldMeta, Header}
use gbin.Json.{Json}
use gbin.Json.Parse.{json_parse}
use gbin.Json.Access.{
  Floats, is_array, is_object, obj_get, array_size, array_get, as_cstr, as_u64, as_u32, as_bool,
}

abbrev pub parsed_or_fail : {A : Type 0} → Result JsonError A → Result Error A
parsed_or_fail (ok a) = ok a
parsed_or_fail (err e) = err (json_parse_failed e)

abbrev pub name_or_fail : ℕ → Option Bytes → Result Error Bytes
name_or_fail i none = err (field_missing_names i)
name_or_fail i (some s) = ok s

module _ {D : Type 0} (fl : Floats D) where
  -- The elements from index d on, n of them: the loop over the shape array.
  unfoldable pub shape_from : Option (Json D) → ℕ → ℕ → List ℕ
  shape_from j d zero = []
  shape_from j d (suc n) = as_u64 fl (array_get j d) 0 ∷ shape_from j (suc d) n

  unfoldable pub parse_shape : Option (Json D) → List ℕ
  unfolding shape_from
  parse_shape j = shape_from j 0 (array_size j)

  -- The body of the loop over the fields, at index i.
  unfoldable pub parse_field : ℕ → Option (Json D) → Result Error FieldMeta
  unfolding parse_shape
  parse_field i jf = do
    guard (is_object jf) (field_not_object i)
    name ← name_or_fail i (as_cstr (obj_get jf (codes "name")))
    kind ← name_or_fail i (as_cstr (obj_get jf (codes "kind")))
    class_name ← name_or_fail i (as_cstr (obj_get jf (codes "class")))
    guard (is_array (obj_get jf (codes "shape"))) (field_missing_shape i)
    ok (record {
      name = name;
      kind = kind;
      class_name = class_name;
      shape = parse_shape (obj_get jf (codes "shape"));
      complex = as_bool fl (obj_get jf (codes "complex")) false;
      encoding = or_default (as_cstr (obj_get jf (codes "encoding"))) [];
      compression = or_default (as_cstr (obj_get jf (codes "compression"))) (codes "none");
      offset = as_u64 fl (obj_get jf (codes "offset")) 0;
      csize = as_u64 fl (obj_get jf (codes "csize")) 0;
      usize = as_u64 fl (obj_get jf (codes "usize")) 0;
      crc32 = as_u32 fl (obj_get jf (codes "crc32")) 0;
    })

  unfoldable pub parse_fields_from : Option (Json D) → ℕ → ℕ → Result Error (List FieldMeta)
  unfolding parse_field
  parse_fields_from j i zero = ok []
  parse_fields_from j i (suc n) = do
    f ← parse_field i (array_get j i)
    fs ← parse_fields_from j (suc i) n
    ok (f ∷ fs)

  -- What is read of the parsed text. The int version is held as its 32 bits.
  unfoldable pub header_of : Option (Json D) → Result Error Header
  unfolding parse_fields_from
  header_of root = do
    guard (is_array (obj_get root (codes "fields"))) missing_fields_array
    fields ←
        parse_fields_from (obj_get root (codes "fields")) 0
          (array_size (obj_get root (codes "fields")))
    ok (record {
      format = or_default (as_cstr (obj_get root (codes "format"))) (codes "GBF");
      magic = or_default (as_cstr (obj_get root (codes "magic"))) (codes "GREDBIN");
      version = as_u64 fl (obj_get root (codes "version")) 1 % 2 ^ 32;
      endianness = or_default (as_cstr (obj_get root (codes "endianness"))) (codes "little");
      order = or_default (as_cstr (obj_get root (codes "order"))) (codes "column-major");
      root = or_default (as_cstr (obj_get root (codes "root"))) (codes "struct");
      payload_start = as_u64 fl (obj_get root (codes "payload_start")) 0;
      file_size = as_u64 fl (obj_get root (codes "file_size")) 0;
      header_crc32_hex =
          or_default (as_cstr (obj_get root (codes "header_crc32_hex"))) (codes "00000000");
      fields = fields;
    })

  unfoldable pub parse_header_from_json : (Bytes → Option D) → Bytes → Result Error Header
  unfolding header_of
  parse_header_from_json strtod json = do
    root ← parsed_or_fail (json_parse strtod json)
    header_of (some root)
