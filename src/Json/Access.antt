-- ===== src/Json/Access.antt =====
-- The accessors of C/src/gbf_json.c: gbf_json_type and what reads a value with a default. A pointer
-- that may be NULL is an Option. The double arithmetic is a parameter.
pub mod Laws
use gbin.Prelude.{
  ℕ, zero, suc, ◌%◌, ◌^◌, Bool, true, false, ◌&&◌, ◌||◌, [], ◌∷◌, Option, none, some, Bytes, ◌==◌,
  if◌then◌else◌, str_eq,
}
use gbin.Json.{
  Json, Items, Fields, null, bool, number, string, array, object, no_items, item, no_fields, field,
}
use gbin.Libc.{strtoull}

-- The comparisons with 0.0, the constants and llround of the C implementation.
pub record Floats (D : Type 0) : Type 0 where
  pub float_zero : D
  pub float_one : D
  -- v <= 0.0
  pub is_le_zero : D → Bool
  -- v != 0.0
  pub is_nonzero : D → Bool
  -- (uint64_t)llround(v)
  pub llround : D → ℕ

abbrev pub or_nat : Option ℕ → ℕ → ℕ
or_nat none d = d
or_nat (some n) d = n

-- The text after "0x", read in base 16.
unfoldable pub hex_text : Bytes → ℕ → ℕ
hex_text (z ∷ x ∷ s) d =
    if z == b'0' && (x == b'x' || x == b'X') then or_nat (strtoull 16 s) d else d
hex_text s d = d

module _ {D : Type 0} where
  abbrev pub is_array : Option (Json D) → Bool
  is_array (some (array xs)) = true
  is_array j = false

  abbrev pub is_object : Option (Json D) → Bool
  is_object (some (object fs)) = true
  is_object j = false

  -- The first value under the key.
  unfoldable pub field_get : Fields D → Bytes → Option (Json D)
  field_get no_fields key = none
  field_get (field k v fs) key = if str_eq k key then some v else field_get fs key

  unfoldable pub obj_get : Option (Json D) → Bytes → Option (Json D)
  unfolding field_get
  obj_get (some (object fs)) key = field_get fs key
  obj_get j key = none

  unfoldable pub items_size : Items D → ℕ
  items_size no_items = 0
  items_size (item v xs) = suc (items_size xs)

  unfoldable pub array_size : Option (Json D) → ℕ
  unfolding items_size
  array_size (some (array xs)) = items_size xs
  array_size j = 0

  unfoldable pub items_get : Items D → ℕ → Option (Json D)
  items_get no_items i = none
  items_get (item v xs) zero = some v
  items_get (item v xs) (suc i) = items_get xs i

  unfoldable pub array_get : Option (Json D) → ℕ → Option (Json D)
  unfolding items_get
  array_get (some (array xs)) i = items_get xs i
  array_get j i = none

  unfoldable pub as_cstr : Option (Json D) → Option Bytes
  as_cstr (some (string s)) = some s
  as_cstr j = none

  module _ (fl : Floats D) where
    unfoldable pub as_f64 : Option (Json D) → D → D
    as_f64 (some (number v raw is_int)) d = v
    as_f64 (some (bool b)) d = if b then fl.float_one else fl.float_zero
    as_f64 j d = d

    unfoldable pub rounded : D → ℕ
    rounded v = if fl.is_le_zero v then 0 else fl.llround v

    unfoldable pub as_u64 : Option (Json D) → ℕ → ℕ
    unfolding rounded hex_text
    as_u64 (some (number v raw is_int)) d =
        if is_int then or_nat (strtoull 10 raw) (rounded v) else rounded v
    as_u64 (some (string s)) d = or_nat (strtoull 10 s) (hex_text s d)
    as_u64 j d = d

    unfoldable pub as_u32 : Option (Json D) → ℕ → ℕ
    as_u32 j d = as_u64 j d % 2 ^ 32

    unfoldable pub as_bool : Option (Json D) → Bool → Bool
    as_bool (some (bool b)) d = b
    as_bool (some (number v raw is_int)) d = fl.is_nonzero v
    as_bool j d = d
