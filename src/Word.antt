-- ===== src/Word.antt =====
-- C/src/gbf_util.c, the endian helpers and the checked multiplication. A machine integer is a
-- native number below 2 ^ w; an int32_t or int64_t is its two's complement bit pattern, so that
-- the casts of gbf_le_i32, gbf_le_i64, gbf_store_le_i32 and gbf_store_le_i64 are the identity.
mod Bits
pub mod Endian
pub mod Size
pub use Bits.*
use gbin.Prelude.{
  ℕ, ◌+◌, ◌*◌, ◌/◌, ◌%◌, ◌^◌, ◌<◌, bit_or, Bool, ◌||◌, Option, none, some, List, [], ◌∷◌, Bytes,
  get_or, ltb, ◌==◌, if◌then◌else◌, ◌-◌,
}

-- SIZE_MAX of a platform whose size_t has 64 bits.
abbrev pub size_max : ℕ
size_max = 2 ^ 64 - 1

abbrev pub u32_max : ℕ
u32_max = 2 ^ 32 - 1

abbrev pub IsU32 : ℕ → Type 0
IsU32 v = v < 2 ^ 32

abbrev pub IsU64 : ℕ → Type 0
IsU64 v = v < 2 ^ 64

-- uint64_t and size_t addition and multiplication.
abbrev pub add64 : ℕ → ℕ → ℕ
add64 a b = (a + b) % 2 ^ 64

abbrev pub mul64 : ℕ → ℕ → ℕ
mul64 a b = (a * b) % 2 ^ 64

unfoldable pub le_u32 : Bytes → ℕ
le_u32 b =
    bit_or (bit_or (bit_or (get_or b 0 0) (get_or b 1 0 * 2 ^ 8)) (get_or b 2 0 * 2 ^ 16))
      (get_or b 3 0 * 2 ^ 24)

unfoldable pub le_u64 : Bytes → ℕ
le_u64 b =
    bit_or
      (bit_or
        (bit_or
          (bit_or
            (bit_or (bit_or (bit_or (get_or b 0 0) (get_or b 1 0 * 2 ^ 8)) (get_or b 2 0 * 2 ^ 16))
              (get_or b 3 0 * 2 ^ 24))
            (get_or b 4 0 * 2 ^ 32))
          (get_or b 5 0 * 2 ^ 40))
        (get_or b 6 0 * 2 ^ 48))
      (get_or b 7 0 * 2 ^ 56)

unfoldable pub le_i32 : Bytes → ℕ
le_i32 b = le_u32 b

unfoldable pub le_i64 : Bytes → ℕ
le_i64 b = le_u64 b

-- `(v >> k) & 0xFF`
abbrev octet : ℕ → ℕ → ℕ
octet v k = v / 2 ^ k % 2 ^ 8

unfoldable pub store_le_u32 : ℕ → Bytes
store_le_u32 v = v % 2 ^ 8 ∷ octet v 8 ∷ octet v 16 ∷ octet v 24 ∷ []

unfoldable pub store_le_u64 : ℕ → Bytes
store_le_u64 v =
    v % 2 ^ 8
    ∷ octet v 8
    ∷ octet v 16
    ∷ octet v 24
    ∷ octet v 32
    ∷ octet v 40
    ∷ octet v 48
    ∷ octet v 56
    ∷ []

unfoldable pub store_le_i32 : ℕ → Bytes
store_le_i32 v = store_le_u32 v

unfoldable pub store_le_i64 : ℕ → Bytes
store_le_i64 v = store_le_u64 v

-- `none` is the return value 0; else the product that `*out` receives.
unfoldable pub checked_mul_size : ℕ → ℕ → Option ℕ
checked_mul_size a b =
    if a == 0 || b == 0 then some 0 else if ltb (size_max / b) a then none else some (mul64 a b)
