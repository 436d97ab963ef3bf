-- ===== src/Libc.antt =====
-- What C/src/gbf.c and C/src/gbf_json.c use of the C library's conversions: strtoull and strtoul
-- (with 64-bit results) in the bases 10 and 16, and the decimal print of "%llu" and "%u". The
-- locale is "C". A text is a C string.
pub mod Decimal
use gbin.Prelude.{
  ℕ, zero, suc, ◌+◌, ◌-◌, ◌*◌, ◌/◌, ◌%◌, ◌^◌, Bool, true, false, ◌&&◌, ◌||◌, List, [], ◌∷◌, Option,
  none, some, Bytes, ltb, leb, ◌==◌, if◌then◌else◌,
}
use gbin.Json.Text.{skip_ws, is_hex, hex_val}

abbrev pub ullong_max : ℕ
ullong_max = 2 ^ 64 - 1

-- The value of a digit in base 10 or 16.
unfoldable pub digit_value : ℕ → ℕ → Option ℕ
digit_value base c =
    if is_hex c then (if ltb (hex_val c) base then some (hex_val c) else none) else none

abbrev next_digit : (ℕ → ℕ) → ℕ → Option ℕ → ℕ
next_digit more acc none = acc
next_digit more acc (some d) = more d

-- The digits from the cursor on; the first other character ends them.
unfoldable pub scan_digits : ℕ → ℕ → Bytes → ℕ
scan_digits base acc [] = acc
scan_digits base acc (c ∷ s) =
    next_digit (λ d. scan_digits base (acc * base + d) s) acc (digit_value base c)

-- ERANGE is `none`; a minus sign negates the value in the unsigned type.
unfoldable pub in_range : Bool → ℕ → Option ℕ
in_range negative v =
    if ltb ullong_max v then none else some (if negative then (2 ^ 64 - v) % 2 ^ 64 else v)

-- The optional 0x of base 16.
unfoldable pub skip_prefix : ℕ → Bytes → Bytes
skip_prefix base (z ∷ x ∷ s) =
    if base == 16 && (z == b'0' && (x == b'x' || x == b'X')) then s else z ∷ x ∷ s
skip_prefix base s = s

unfoldable pub convert : ℕ → Bool → Bytes → Option ℕ
convert base negative s = in_range negative (scan_digits base 0 (skip_prefix base s))

unfoldable pub signed : ℕ → Bytes → Option ℕ
signed base [] = some 0
signed base (c ∷ s) =
    if c == b'-'
    then convert base true s
    else if c == b'+'
    then convert base false s
    else convert base false (c ∷ s)

-- `none` where errno is set. A text with no digits converts to 0.
unfoldable pub strtoull : ℕ → Bytes → Option ℕ
strtoull base s = signed base (skip_ws s)

-- The decimal digits of n, in front of `out`. A uint64_t has at most 20.
unfoldable pub digits : ℕ → ℕ → Bytes → Bytes
digits zero n out = out
digits (suc f) n out =
    let more = digits f (n / 10) ((b'0' + n % 10) ∷ out) in
    if ltb n 10 then (b'0' + n) ∷ out else more

unfoldable pub decimal : ℕ → Bytes
decimal n = digits 20 n []
