-- ===== src/Value.antt =====
-- The values of C/include/gbin/gbf.h. An array and its length field are one list. A `char*` that
-- may be NULL is an Option. The three arrays of a calendarDuration have one length, and are a
-- list of triples. The capacity of a struct's entry array is not modelled: nothing reads it but
-- the growth of the array itself.
pub mod Class
pub mod Shape
pub mod Struct
pub mod Path
pub mod Laws
pub mod Split
pub mod Make
pub mod Matrix
pub mod Rebuild
use gbin.Prelude.{ℕ, Bool, List, Option, Bytes}

pub data NumericClass : Type 0 where
  double single int8 uint8 int16 uint16 int32 uint32 int64 uint64 : NumericClass

pub record NumericArray : Type 0 where
  pub class_id : NumericClass
  pub shape : List ℕ
  pub complex : Bool
  pub real_le : Bytes
  pub imag_le : Bytes

pub record LogicalArray : Type 0 where
  pub shape : List ℕ
  pub bits : Bytes

-- A NULL element is a missing string.
pub record StringArray : Type 0 where
  pub shape : List ℕ
  pub elements : List (Option Bytes)

-- UTF-16 code units.
pub record CharArray : Type 0 where
  pub shape : List ℕ
  pub units : List ℕ

pub record DatetimeArray : Type 0 where
  pub shape : List ℕ
  pub timezone : Option Bytes
  pub locale : Option Bytes
  pub format : Option Bytes
  pub nat_mask : Bytes
  pub ms : List ℕ

pub record DurationArray : Type 0 where
  pub shape : List ℕ
  pub nan_mask : Bytes
  pub ms : List ℕ

-- One element: months, days and time_ms.
pub record CalendarEntry : Type 0 where
  pub months : ℕ
  pub days : ℕ
  pub time_ms : ℕ

pub record CalendarDurationArray : Type 0 where
  pub shape : List ℕ
  pub mask : Bytes
  pub entries : List CalendarEntry

pub record CategoricalArray : Type 0 where
  pub shape : List ℕ
  pub categories : List (Option Bytes)
  pub codes : List ℕ

pub record OpaqueValue : Type 0 where
  pub kind : Option Bytes
  pub class_name : Option Bytes
  pub shape : List ℕ
  pub complex : Bool
  pub encoding : Option Bytes
  pub bytes : Bytes

mutual
  pub data Value : Type 0 where
    struct : Entries → Value
    numeric : NumericArray → Value
    logical : LogicalArray → Value
    string : StringArray → Value
    char : CharArray → Value
    datetime : DatetimeArray → Value
    duration : DurationArray → Value
    calendar_duration : CalendarDurationArray → Value
    categorical : CategoricalArray → Value
    opaque : OpaqueValue → Value

  -- The entries of a struct, in the order of insertion.
  pub data Entries : Type 0 where
    no_entries : Entries
    entry : Bytes → Value → Entries → Entries
