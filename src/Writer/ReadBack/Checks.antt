-- ===== src/Writer/ReadBack/Checks.antt =====
-- The checks of gbf_read_header_only of C/src/gbf.c on a header that is right.
use gbin.Prelude.{
  is_empty, ◌+◌, ℕ, ◌%◌, ◌^◌, ◌<◌, ◌≡◌, refl, arith, true, false, Option, some, Bytes, length, ok,
  eq→==, ne→==, Bool-cases, inl, inr,
}
use gbin.Json.Access.{Floats}
use gbin.Json.Crc.{extract_header_crc32_hex_u32, zero_out_header_crc32_field}
use gbin.Header.{Header}
use gbin.Payload.{Zlib, ReadOptions}
use gbin.Header.Parse.{parse_header_from_json}
use gbin.Reader.{
  read_header_json, read_header_only, fill_payload_start, fill_file_size, check_header_crc,
}

pub check_header_crc-right :
    {D : Type 0} (z : Zlib) (fl : Floats D) (strtod : Bytes → Option D)
    (disk : Bytes → Option Bytes) (opt : ReadOptions) (json zeroed : Bytes)
    → extract_header_crc32_hex_u32 json ≡ z.crc32 zeroed % 2 ^ 32
    → zero_out_header_crc32_field json ≡ (zeroed, true)
    → check_header_crc z fl strtod disk opt json ≡ ok tt
unfolding check_header_crc
check_header_crc-right z fl strtod disk opt json zeroed found cleared =
    elim (Bool-cases (opt.validate)) [
      | inl on ↦
          rw (cleared, found, eq→== (z.crc32 zeroed % 2 ^ 32) (z.crc32 zeroed % 2 ^ 32) refl, on)
            refl
      | inr off ↦ rw (off) refl
    ]

pub fill_payload_start-right :
    (opt : ReadOptions) (expected : ℕ) (hdr : Header)
    → hdr.payload_start ≡ expected
    → 0 < expected
    → fill_payload_start opt expected hdr ≡ ok hdr
unfolding fill_payload_start
fill_payload_start-right opt expected hdr e pos =
    let given = ne→== (hdr.payload_start) 0 (omega (arith, e, pos)) in
    let right = eq→== (hdr.payload_start) expected e in
    elim (Bool-cases (opt.validate)) [
      | inl on ↦ rw (given, right, on) refl
      | inr off ↦ rw (given, off) refl
    ]

pub fill_file_size-right :
    (opt : ReadOptions) (actual : ℕ) (hdr : Header)
    → actual ≡ hdr.file_size
    → 0 < actual
    → fill_file_size opt actual hdr ≡ ok hdr
unfolding fill_file_size
fill_file_size-right opt actual hdr e pos =
    let given = ne→== (hdr.file_size) 0 (omega (arith, e, pos)) in
    let right = eq→== (hdr.file_size) (hdr.file_size) refl in
    elim (Bool-cases (opt.validate)) [
      | inl on ↦ rw (e, given, right, on) refl
      | inr off ↦ rw (given, off) refl
    ]

module _ {D : Type 0} (z : Zlib) (fl : Floats D) (strtod : Bytes → Option D) where
  -- All steps in a row.
  pub read_header_only-steps :
      (disk : Bytes → Option Bytes) (path file json zeroed : Bytes) (len : ℕ) (hdr : Header)
      (opt : ReadOptions)
      → is_empty path ≡ false
      → disk path ≡ some file
      → read_header_json file ≡ ok (len, json)
      → (extract_header_crc32_hex_u32 json ≡ z.crc32 zeroed % 2 ^ 32)
        × (zero_out_header_crc32_field json ≡ (zeroed, true))
      → parse_header_from_json fl strtod json ≡ ok hdr
      → hdr.payload_start ≡ 8 + 4 + len
      → length file ≡ hdr.file_size
      → 0 < length file
      → read_header_only z fl strtod disk path opt ≡ ok (hdr, len, json)
  unfolding read_header_only
  read_header_only-steps disk path file json zeroed len hdr opt named there text crc parsed start
        size pos =
      rw
        (
          named,
          there,
          text,
          check_header_crc-right z fl strtod disk opt json zeroed crc.0 crc.1,
          parsed,
          fill_payload_start-right opt (8 + 4 + len) hdr start (omega arith),
          fill_file_size-right opt (length file) hdr size pos,
        )
        refl
