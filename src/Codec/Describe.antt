-- ===== src/Codec/Describe.antt =====
-- What the header says of a leaf: the switch of flatten_fields_rec of C/src/gbf.c that fills kind,
-- class, shape, complex and encoding, and the same fields of an empty struct leaf.
use gbin.Prelude.{
  ℕ, Bytes, codes, List, [], ◌∷◌, Option, Bool, false, if◌then◌else◌, or_default, not, is_empty,
}
use gbin.Value.{
  Value, struct, numeric, logical, string, char, datetime, duration, calendar_duration, categorical,
  opaque,
}
use gbin.Value.Class.{numeric_class_name}
use gbin.Value.Shape.{copy_shape_size_to_u64}
use gbin.Header.{FieldMeta}

pub record Description : Type 0 where
  pub kind : Bytes
  pub class_name : Bytes
  pub shape : List ℕ
  pub complex : Bool
  pub encoding : Bytes

abbrev real : Bytes → Bytes → List ℕ → Bytes → Description
real kind class_name shape encoding = record {
  kind = kind;
  class_name = class_name;
  shape = copy_shape_size_to_u64 shape;
  complex = false;
  encoding = encoding;
}

unfoldable pub datetime_encoding : Option Bytes → Bytes
datetime_encoding timezone =
    if not (is_empty (or_default timezone []))
    then codes "dt:tz-ymd+msday+nat-mask+tz+locale+format"
    else codes "dt:naive-ymd+msday+nat-mask+locale+format"

unfoldable pub describe : Value → Description
unfolding copy_shape_size_to_u64
describe (struct es) = record {
  kind = codes "struct";
  class_name = codes "struct";
  shape = 1 ∷ 1 ∷ [];
  complex = false;
  encoding = codes "empty-scalar-struct";
}
describe (numeric a) = record {
  kind = codes "numeric";
  class_name = numeric_class_name a.class_id;
  shape = copy_shape_size_to_u64 a.shape;
  complex = a.complex;
  encoding = [];
}
describe (logical a) = real (codes "logical") (codes "logical") a.shape []
describe (string a) = real (codes "string") (codes "string") a.shape (codes "utf-8")
describe (char a) = real (codes "char") (codes "char") a.shape (codes "utf-16-codeunits")
describe (datetime a) =
    real (codes "datetime") (codes "datetime") a.shape (datetime_encoding a.timezone)
describe (duration a) = real (codes "duration") (codes "duration") a.shape (codes "ms-i64+nan-mask")
describe (calendar_duration a) =
    real (codes "calendarDuration") (codes "calendarDuration") a.shape
      (codes "months-i32+days-i32+time-ms-i64+nan-mask")
describe (categorical a) =
    real (codes "categorical") (codes "categorical") a.shape (codes "u32-cats+u32-codes+utf8")
describe (opaque a) = record {
  kind = or_default a.kind (codes "opaque");
  class_name = or_default a.class_name (codes "opaque");
  shape = copy_shape_size_to_u64 a.shape;
  complex = a.complex;
  encoding = or_default a.encoding [];
}

-- The header entry of a leaf: a description, and the fields that place the payload.
abbrev pub described : Description → FieldMeta → FieldMeta
described d m = record m {
  kind = d.kind;
  class_name = d.class_name;
  shape = d.shape;
  complex = d.complex;
  encoding = d.encoding;
}
