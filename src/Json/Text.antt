-- ===== src/Json/Text.antt =====
-- Characters and strings of C/src/gbf_json.c: skip_ws, is_hex, hex_val, utf8_append_codepoint and
-- parse_string; and json_escape_append of C/src/gbf.c. A cursor is the list of the bytes from *p to
-- end. isspace is that of the "C" locale.
pub mod Ends
pub mod Escape
use gbin.Prelude.{
  ℕ, zero, suc, ◌+◌, ◌-◌, ◌*◌, ◌/◌, ◌%◌, ◌^◌, bit_or, Bool, true, false, ◌&&◌, ◌||◌, not, List, [],
  ◌∷◌, ◌++◌, Option, none, some, Bytes, codes, c_str, length, drop, ltb, leb, ◌==◌, if◌then◌else◌,
  Result, ok, err,
}
use gbin.Error.{
  JsonError, expected_string, control_character, bad_escape, short_u_escape, invalid_u_escape,
  unsupported_escape, unterminated_string, out_of_fuel,
}

unfoldable pub isspace : ℕ → Bool
isspace c = (leb 9 c && leb c 13) || c == b' '

unfoldable pub skip_ws : Bytes → Bytes
skip_ws [] = []
skip_ws (c ∷ p) = if isspace c then skip_ws p else c ∷ p

abbrev between : ℕ → ℕ → ℕ → Bool
between lo hi c = leb lo c && leb c hi

unfoldable pub is_hex : ℕ → Bool
is_hex c = between b'0' b'9' c || between b'a' b'f' c || between b'A' b'F' c

unfoldable pub hex_val : ℕ → ℕ
hex_val c =
    if between b'0' b'9' c
    then c - b'0'
    else if between b'a' b'f' c
    then 10 + (c - b'a')
    else if between b'A' b'F' c
    then 10 + (c - b'A')
    else 0

-- `0x80 | ((cp >> k) & 0x3F)`
abbrev continuation : ℕ → ℕ → ℕ
continuation cp k = bit_or 0x80 (cp / 2 ^ k % 2 ^ 6)

unfoldable pub utf8_append_codepoint : Bytes → ℕ → Bytes
utf8_append_codepoint sb cp =
    if leb cp 0x7F
    then sb ++ cp ∷ []
    else if leb cp 0x7FF
    then sb ++ bit_or 0xC0 (cp / 2 ^ 6 % 2 ^ 5) ∷ continuation cp 0 ∷ []
    else if leb cp 0xFFFF
    then sb ++ bit_or 0xE0 (cp / 2 ^ 12 % 2 ^ 4) ∷ continuation cp 6 ∷ continuation cp 0 ∷ []
    else sb
      ++ bit_or 0xF0 (cp / 2 ^ 18 % 2 ^ 3)
        ∷ continuation cp 12
        ∷ continuation cp 6
        ∷ continuation cp 0
        ∷ []

-- The loop over the digits of a \u escape; `none` at a character that is no hex digit.
unfoldable pub hex_digits : ℕ → ℕ → Bytes → Option ℕ
hex_digits zero cp p = some cp
hex_digits (suc n) cp [] = none
hex_digits (suc n) cp (h ∷ p) =
    let rest = hex_digits n (bit_or (cp * 2 ^ 4) (hex_val h)) p in if is_hex h then rest else none

unfoldable pub simple_escape : ℕ → Option ℕ
simple_escape e =
    if e == 34
    then some 34
    else if e == 92
    then some 92
    else if e == b'/'
    then some b'/'
    else if e == b'b'
    then some 8
    else if e == b'f'
    then some 12
    else if e == b'n'
    then some 10
    else if e == b'r'
    then some 13
    else if e == b't'
    then some 9
    else none

abbrev in_low_range : Option ℕ → Option ℕ
in_low_range none = none
in_low_range (some lo) = if leb 0xDC00 lo && leb lo 0xDFFF then some lo else none

-- The low half of a surrogate pair, if `\uXXXX` with such a half stands at the cursor.
unfoldable pub low_surrogate : Bytes → Option ℕ
low_surrogate [] = none
low_surrogate (b ∷ []) = none
low_surrogate (b ∷ u ∷ q) =
    if leb 6 (length (b ∷ u ∷ q)) && (b == 92 && u == b'u')
    then in_low_range (hex_digits 4 0 q)
    else none

abbrev join_surrogates : ℕ → Bytes → Option ℕ → ℕ × Bytes
join_surrogates cp p none = (cp, p)
join_surrogates cp p (some lo) = (0x10000 + bit_or ((cp - 0xD800) * 2 ^ 10) (lo - 0xDC00), drop 6 p)

-- The code point of a \u escape whose first four digits are `cp`, and the cursor after it.
unfoldable pub surrogates : ℕ → Bytes → ℕ × Bytes
surrogates cp p =
    if leb 0xD800 cp && leb cp 0xDBFF then join_surrogates cp p (low_surrogate p) else (cp, p)

-- One round of the loop of parse_string.
pub data StringStep : Type 0 where
  more : Bytes → Bytes → StringStep
  finished : Bytes → Bytes → StringStep
  failed : JsonError → StringStep

abbrev append_escape : Bytes → Bytes → Option ℕ → StringStep
append_escape sb p none = failed invalid_u_escape
append_escape sb p (some cp) =
    let (cp', q) = surrogates cp (drop 4 p) in more (utf8_append_codepoint sb cp') q

abbrev append_simple : Bytes → Bytes → Option ℕ → StringStep
append_simple sb p none = failed unsupported_escape
append_simple sb p (some c) = more (sb ++ c ∷ []) p

unfoldable pub escape_step : Bytes → Bytes → StringStep
escape_step sb [] = failed bad_escape
escape_step sb (e ∷ p) =
    if e == b'u'
    then if ltb (length p) 4 then failed short_u_escape else append_escape sb p (hex_digits 4 0 p)
    else append_simple sb p (simple_escape e)

-- The closing quote appends a NUL, and gbf_strdup copies up to the first NUL.
unfoldable pub string_step : Bytes → Bytes → StringStep
string_step sb [] = failed unterminated_string
string_step sb (c ∷ p) =
    if c == 34
    then finished (c_str sb) p
    else if ltb c 0x20
    then failed control_character
    else if not (c == 92)
    then more (sb ++ c ∷ []) p
    else escape_step sb p

abbrev pub Parsed : Type 0 → Type 0
Parsed A = Result JsonError (A × Bytes)

abbrev on_step : (Bytes → Bytes → Parsed Bytes) → StringStep → Parsed Bytes
on_step loop (more sb p) = loop sb p
on_step loop (finished s p) = ok (s, p)
on_step loop (failed e) = err e

-- Each round takes a byte at least, so the length of the input and one more is fuel enough.
unfoldable pub string_loop : ℕ → Bytes → Bytes → Parsed Bytes
string_loop zero sb p = err out_of_fuel
string_loop (suc f) sb p = on_step (λ sb' p'. string_loop f sb' p') (string_step sb p)

unfoldable pub parse_string : Bytes → Parsed Bytes
parse_string [] = err expected_string
parse_string (c ∷ p) = if c == 34 then string_loop (suc (length p)) [] p else err expected_string

-- `"0123456789ABCDEF"[d]`
unfoldable pub hex_char : ℕ → ℕ
hex_char d = if ltb d 10 then b'0' + d else b'A' + (d - 10)

unfoldable pub escape_char : ℕ → Bytes
escape_char c =
    if c == 34 || c == 92
    then 92 ∷ c ∷ []
    else if ltb c 0x20
    then 92 ∷ b'u' ∷ b'0' ∷ b'0' ∷ hex_char (c / 2 ^ 4 % 2 ^ 4) ∷ hex_char (c % 2 ^ 4) ∷ []
    else c ∷ []

unfoldable pub escape_chars : Bytes → Bytes
escape_chars [] = []
escape_chars (c ∷ s) = escape_char c ++ escape_chars s

-- What json_escape_append writes of a string that is not NULL.
unfoldable pub json_escape : Bytes → Bytes
json_escape s = 34 ∷ (escape_chars s ++ 34 ∷ [])
