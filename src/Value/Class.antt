-- ===== src/Value/Class.antt =====
-- The numeric classes: bytes_per_elem, numeric_class_name, parse_numeric_class of C/src/gbf.c.
use gbin.Prelude.{ℕ, ◌≡◌, refl, Option, none, some, Bytes, codes, str_eq, if◌then◌else◌}
use gbin.Value.{
  NumericClass, double, single, int8, uint8, int16, uint16, int32, uint32, int64, uint64,
}

unfoldable pub bytes_per_elem : NumericClass → ℕ
bytes_per_elem double = 8
bytes_per_elem single = 4
bytes_per_elem int8 = 1
bytes_per_elem uint8 = 1
bytes_per_elem int16 = 2
bytes_per_elem uint16 = 2
bytes_per_elem int32 = 4
bytes_per_elem uint32 = 4
bytes_per_elem int64 = 8
bytes_per_elem uint64 = 8

unfoldable pub numeric_class_name : NumericClass → Bytes
numeric_class_name double = codes "double"
numeric_class_name single = codes "single"
numeric_class_name int8 = codes "int8"
numeric_class_name uint8 = codes "uint8"
numeric_class_name int16 = codes "int16"
numeric_class_name uint16 = codes "uint16"
numeric_class_name int32 = codes "int32"
numeric_class_name uint32 = codes "uint32"
numeric_class_name int64 = codes "int64"
numeric_class_name uint64 = codes "uint64"

unfoldable pub parse_numeric_class : Bytes → Option NumericClass
parse_numeric_class s =
    if str_eq s (codes "double")
    then some double
    else if str_eq s (codes "single")
    then some single
    else if str_eq s (codes "int8")
    then some int8
    else if str_eq s (codes "uint8")
    then some uint8
    else if str_eq s (codes "int16")
    then some int16
    else if str_eq s (codes "uint16")
    then some uint16
    else if str_eq s (codes "int32")
    then some int32
    else if str_eq s (codes "uint32")
    then some uint32
    else if str_eq s (codes "int64")
    then some int64
    else if str_eq s (codes "uint64")
    then some uint64
    else none

-- The name of a class is read back as that class.
pub parse_numeric_class-numeric_class_name :
    (c : NumericClass) → parse_numeric_class (numeric_class_name c) ≡ some c
unfolding parse_numeric_class numeric_class_name
parse_numeric_class-numeric_class_name double = refl
parse_numeric_class-numeric_class_name _ = refl
