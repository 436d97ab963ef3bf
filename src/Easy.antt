-- ===== src/Easy.antt =====
-- C/include/gbin/gbf_easy.h and C/src/gbf_easy.c: the layer of entries. A pointer that may be NULL is
-- an Option; a shape that is NULL or has no dimension is the empty list. Memory suffices, and an
-- err that is passed is not NULL. Copied buffers and buffers whose ownership is taken hold the same
-- bytes, so that the two ownerships differ only where the code takes another way.
pub mod Shape
pub mod Order
pub mod Make
pub mod Access
pub mod Insert
pub mod File
pub mod Paths
pub mod Built
pub mod Written
use Prim.Native.String.{String}
use gbin.Prelude.{ℕ, Option, Bytes, codes, ◌≡◌, refl}
use gbin.Error.{Error}
use gbin.Value.{
  Value, NumericClass, double, single, int8, uint8, int16, uint16, int32, uint32, int64, uint64,
}
use gbin.Value.Class.{bytes_per_elem, numeric_class_name}

pub data Ownership : Type 0 where
  copied taken : Ownership

-- The layouts that are neither are not modelled: the code refuses them.
pub data Layout : Type 0 where
  col_major row_major : Layout

pub record Entry : Type 0 where
  pub name : Option Bytes
  pub value : Option Value

-- The messages of the layer, as in Error; `core` is a message of a function of gbf.c.
pub data EasyError : Type 0 where
  invalid_arguments invalid_class bad_shape stride_overflow : EasyError
  invalid_args : String → EasyError
  real_len_mismatch imag_len_mismatch string_n_mismatch char_n_mismatch : ℕ → ℕ → EasyError
  imag_required imag_not_allowed : EasyError
  invalid_insert_args invalid_segment : EasyError
  leaf_failed create_failed hits_non_struct : Bytes → EasyError
  path_null : EasyError
  null_value : Bytes → EasyError
  core : Error → EasyError

unfoldable pub elem_size : NumericClass → ℕ
elem_size double = 8
elem_size single = 4
elem_size int8 = 1
elem_size uint8 = 1
elem_size int16 = 2
elem_size uint16 = 2
elem_size int32 = 4
elem_size uint32 = 4
elem_size int64 = 8
elem_size uint64 = 8

unfoldable pub class_name : NumericClass → Bytes
class_name double = codes "double"
class_name single = codes "single"
class_name int8 = codes "int8"
class_name uint8 = codes "uint8"
class_name int16 = codes "int16"
class_name uint16 = codes "uint16"
class_name int32 = codes "int32"
class_name uint32 = codes "uint32"
class_name int64 = codes "int64"
class_name uint64 = codes "uint64"

-- The two files agree on the sizes and the names of the numeric classes.
pub elem_size-bytes_per_elem :
    (c : NumericClass) → (elem_size c ≡ bytes_per_elem c) × (class_name c ≡ numeric_class_name c)
unfolding elem_size bytes_per_elem class_name numeric_class_name
elem_size-bytes_per_elem double = (refl, refl)
elem_size-bytes_per_elem _ = (refl, refl)
