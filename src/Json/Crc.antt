-- ===== src/Json/Crc.antt =====
-- The CRC field of a header text: gbf_zero_out_header_crc32_field and
-- gbf_extract_header_crc32_hex_u32 of C/src/gbf_json.c, crc_hex8 of C/src/gbf.c.
pub mod Patch
pub mod Digits
use gbin.Prelude.{
  ℕ, zero, suc, ◌+◌, ◌/◌, ◌%◌, ◌^◌, Bool, true, false, ◌||◌, List, [], ◌∷◌, ◌++◌, Option, none,
  some, Bytes, codes, c_str, length, take, drop, replicate, ltb, ◌==◌, if◌then◌else◌, starts_with,
  ◌-◌,
}
use gbin.Json.Access.{or_nat}
use gbin.Libc.{strtoull}

abbrev pub needle : Bytes
needle = codes "\"header_crc32_hex\""

-- Eight bytes are available at the cursor.
unfoldable pub eight_at : ℕ → Bytes → Option ℕ
eight_at j p = if ltb (length p) 8 then none else some j

abbrev pub is_blank : ℕ → Bool
is_blank c = c == 32 || (c == 9 || (c == 13 || c == 10))

-- The blanks and the quote behind the colon.
unfoldable pub after_colon : ℕ → Bytes → Option ℕ
unfolding eight_at
after_colon j [] = none
after_colon j (c ∷ p) =
    if is_blank c then after_colon (suc j) p else if c == 34 then eight_at (suc j) p else none

unfoldable pub to_colon : ℕ → Bytes → Option ℕ
unfolding after_colon
to_colon j [] = none
to_colon j (c ∷ p) = if c == b':' then after_colon (suc j) p else to_colon (suc j) p

-- The search loop, at index i with what is left of the text: only the first match is tried.
unfoldable pub find_value : ℕ → Bytes → Option ℕ
unfolding to_colon
find_value i [] = none
find_value i (c ∷ p) =
    if ltb (length needle) (suc (length p))
    then if starts_with (c ∷ p) needle
      then to_colon (i + length needle) (drop (length needle) (c ∷ p))
      else find_value (suc i) p
    else none

-- Where the eight characters of the CRC stand.
unfoldable pub locate : Bytes → Option ℕ
locate json = find_value 0 json

-- Eight characters written at an index.
unfoldable pub put_at : ℕ → Bytes → Bytes → Bytes
put_at i d json = take i json ++ (d ++ drop (i + 8) json)

abbrev zeroed : Option ℕ → Bytes → Bytes × Bool
zeroed none json = (json, false)
zeroed (some i) json = (put_at i (replicate 8 b'0') json, true)

-- The text after the call, and the result.
unfoldable pub zero_out_header_crc32_field : Bytes → Bytes × Bool
zero_out_header_crc32_field json = zeroed (locate json) json

abbrev extracted : Option ℕ → Bytes → ℕ
extracted none json = 0
extracted (some i) json = or_nat (strtoull 16 (c_str (take 8 (drop i json)))) 0 % 2 ^ 32

unfoldable pub extract_header_crc32_hex_u32 : Bytes → ℕ
extract_header_crc32_hex_u32 json = extracted (locate json) json

unfoldable pub hex_upper : ℕ → ℕ
hex_upper d = if ltb d 10 then b'0' + d else b'A' + d - 10

unfoldable pub crc_hex8 : ℕ → Bytes
unfolding hex_upper
crc_hex8 crc =
    hex_upper (crc / 2 ^ 28 % 2 ^ 4)
    ∷ hex_upper (crc / 2 ^ 24 % 2 ^ 4)
    ∷ hex_upper (crc / 2 ^ 20 % 2 ^ 4)
    ∷ hex_upper (crc / 2 ^ 16 % 2 ^ 4)
    ∷ hex_upper (crc / 2 ^ 12 % 2 ^ 4)
    ∷ hex_upper (crc / 2 ^ 8 % 2 ^ 4)
    ∷ hex_upper (crc / 2 ^ 4 % 2 ^ 4)
    ∷ hex_upper (crc % 2 ^ 4)
    ∷ []
