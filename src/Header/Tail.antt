-- ===== src/Header/Tail.antt =====
-- The end of the text of build_header_json of C/src/gbf.c: the digits of the CRC.
use gbin.Prelude.{
  ℕ, ◌+◌, ◌<◌, ◌≡◌, refl, sym, arith, List, [], ◌∷◌, ◌++◌, append_assoc, Bytes, codes, length,
  length-append, take-append_eq, drop-append_eq, ◌/◌, ◌^◌, ◌%◌,
}
use gbin.Json.Text.{json_escape, escape_chars, escape_char}
use gbin.Json.Crc.{put_at, crc_hex8, hex_upper}
use gbin.Libc.{decimal}
use gbin.Header.{FieldMeta}
use gbin.Header.Text.{header_text, front_text}
use gbin.Header.FixedPoint.{zeros}

-- The text before the first digit of the CRC.
unfoldable pub before_crc : List FieldMeta → ℕ → ℕ → Bytes
before_crc fields payload_start file_size =
    front_text fields
    ++ (decimal payload_start
        ++ (codes ",\"file_size\":" ++ (decimal file_size ++ codes ",\"header_crc32_hex\":\"")))

-- A text that json_escape_append puts between quotes as it is.
pub data IsPlain (s : Bytes) : Type 0 where
  plain : escape_chars s ≡ s → IsPlain s

hex_upper-plain : (d : ℕ) → d < 16 → escape_char (hex_upper d) ≡ hex_upper d ∷ []
unfolding escape_char hex_upper
hex_upper-plain d h = ground arith

pub crc_hex8-IsPlain : (c : ℕ) → IsPlain (crc_hex8 c)
unfolding crc_hex8 escape_chars
crc_hex8-IsPlain c = plain (
    rw
      (
        hex_upper-plain (c / 2 ^ 28 % 2 ^ 4) (omega arith),
        hex_upper-plain (c / 2 ^ 24 % 2 ^ 4) (omega arith),
        hex_upper-plain (c / 2 ^ 20 % 2 ^ 4) (omega arith),
        hex_upper-plain (c / 2 ^ 16 % 2 ^ 4) (omega arith),
        hex_upper-plain (c / 2 ^ 12 % 2 ^ 4) (omega arith),
        hex_upper-plain (c / 2 ^ 8 % 2 ^ 4) (omega arith),
        hex_upper-plain (c / 2 ^ 4 % 2 ^ 4) (omega arith),
        hex_upper-plain (c % 2 ^ 4) (omega arith),
      )
      refl)

pub zeros-IsPlain : IsPlain zeros
unfolding escape_chars escape_char
zeros-IsPlain = plain refl

pub header_text-parts :
    (fields : List FieldMeta) (ps fs : ℕ) (crc : Bytes)
    → IsPlain crc
    → header_text fields ps fs crc ≡ before_crc fields ps fs ++ (crc ++ codes "\"}")
unfolding header_text before_crc json_escape
header_text-parts fields ps fs crc (plain e) = simp (e, append_assoc)

-- Writing eight bytes over eight others.
pub put_at-parts :
    (front old new rest : Bytes)
    → length old ≡ 8
    → put_at (length front) new (front ++ (old ++ rest)) ≡ front ++ (new ++ rest)
unfolding put_at
put_at-parts front old new rest e =
    rw
      (
        take-append_eq (length front) front (old ++ rest) refl,
        sym (append_assoc front old rest),
        drop-append_eq (length front + 8) (front ++ old) rest
            (omega (arith, length-append front old, e)),
      )
      refl
