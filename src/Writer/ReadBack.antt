-- ===== src/Writer/ReadBack.antt =====
-- The sizes and the CRC that gbf_write_file of C/src/gbf.c puts into a header.
pub mod Checks
pub mod Whole
use gbin.Prelude.{
  ◌≤◌, ℕ, ◌+◌, ◌-◌, ◌%◌, ◌^◌, ◌<◌, ◌≡◌, refl, sym, ap, ◌∙◌, arith, true, List, [], ◌∷◌, ◌++◌, some,
  Bytes, All, length, length-append, replicate, codes,
}
use gbin.Word.{IsU32}
use gbin.Json.Crc.{
  locate, put_at, crc_hex8, extract_header_crc32_hex_u32, zero_out_header_crc32_field,
}
use gbin.Json.Crc.Patch.{header_crc_lem}
use gbin.Header.{FieldMeta}
use gbin.Header.FixedPoint.{Layout}
use gbin.Header.FixedPoint.Width.{length-decimal_le}
use gbin.Header.FixedPoint.Converges.{length-header, IsConsistent, consistent}
use gbin.Header.Text.{front_text, header_text}
use gbin.Header.Tail.{before_crc, header_text-parts, put_at-parts, crc_hex8-IsPlain, zeros-IsPlain}
use gbin.Header.FixedPoint.{zeros}
use gbin.Writer.{WriterField, payload_size, payloads}
use gbin.Writer.Layout.{HasItsSize}

pub payload_size-payloads :
    (size : ℕ) (fs : List WriterField)
    → All HasItsSize fs
    → size + length (payloads fs) < 2 ^ 64
    → payload_size size fs ≡ size + length (payloads fs)
unfolding payload_size payloads
payload_size-payloads size [] h small = omega arith
payload_size-payloads size (f ∷ fs) h small =
    let both = length-append (f.payload) (payloads fs) in
    let next : (size + f.meta.csize) % 2 ^ 64 ≡ size + length (f.payload) =
      omega (arith, h.0, both, small) in
    rw next (
      payload_size-payloads (size + length (f.payload)) fs h.1 (omega (arith, both, small))
      ∙ omega (arith, both))

-- A text of the header with the zeros in place of the CRC, and the text with the CRC.
module _ (fields : List FieldMeta) (ps fs crc : ℕ) where
  pub length-parts : length (header_text fields ps fs zeros) ≡ length (before_crc fields ps fs) + 10
  length-parts =
      ap length (header_text-parts fields ps fs zeros zeros-IsPlain)
      ∙ length-append (before_crc fields ps fs) (zeros ++ codes "\"}")

  pub length-final :
      length (header_text fields ps fs (crc_hex8 crc)) ≡ length (before_crc fields ps fs) + 10
  unfolding crc_hex8
  length-final =
      ap length (header_text-parts fields ps fs (crc_hex8 crc) (crc_hex8-IsPlain crc))
      ∙ length-append (before_crc fields ps fs) (crc_hex8 crc ++ codes "\"}")

  final-put_at :
      header_text fields ps fs (crc_hex8 crc)
      ≡ put_at (length (before_crc fields ps fs)) (crc_hex8 crc) (header_text fields ps fs zeros)
  final-put_at =
      header_text-parts fields ps fs (crc_hex8 crc) (crc_hex8-IsPlain crc)
      ∙ sym (put_at-parts (before_crc fields ps fs) zeros (crc_hex8 crc) (codes "\"}") refl)
      ∙ ap (put_at (length (before_crc fields ps fs)) (crc_hex8 crc))
          (sym (header_text-parts fields ps fs zeros zeros-IsPlain))

  zero-put_at :
      put_at (length (before_crc fields ps fs)) (replicate 8 b'0') (header_text fields ps fs zeros)
      ≡ header_text fields ps fs zeros
  zero-put_at =
      ap (put_at (length (before_crc fields ps fs)) zeros)
        (header_text-parts fields ps fs zeros zeros-IsPlain)
      ∙ put_at-parts (before_crc fields ps fs) zeros zeros (codes "\"}") refl
      ∙ sym (header_text-parts fields ps fs zeros zeros-IsPlain)

  -- The CRC that the reader finds, and the text whose CRC it computes.
  pub crc_checks :
      locate (header_text fields ps fs zeros) ≡ some (length (header_text fields ps fs zeros) - 10)
      → IsU32 crc
      → (extract_header_crc32_hex_u32 (header_text fields ps fs (crc_hex8 crc)) ≡ crc)
        × (zero_out_header_crc32_field (header_text fields ps fs (crc_hex8 crc))
            ≡ (header_text fields ps fs zeros, true))
  crc_checks at h =
      let i = length (before_crc fields ps fs) in
      let located : locate (header_text fields ps fs zeros) ≡ some i =
        at ∙ ap some (omega (arith, length-parts)) in
      let (found, cleared, zeroed) =
        header_crc_lem (header_text fields ps fs zeros) i crc located h in
      (
        ap extract_header_crc32_hex_u32 final-put_at ∙ found,
        ap zero_out_header_crc32_field final-put_at
            ∙ cleared
            ∙ zeroed
            ∙ ap (λ t. (t, true)) zero-put_at,
      )

pub header_zero-small :
    (fields : List FieldMeta) (size : ℕ) (l : Layout)
    → IsConsistent fields size l
    → length l.header_zero ≤ length (front_text fields) + 84
header_zero-small fields size l (consistent zero start file_size) = omega (
  arith,
  ap length zero,
  length-header fields l.payload_start l.file_size,
  length-decimal_le l.payload_start,
  length-decimal_le l.file_size,
)

pub zero_of :
    (fields : List FieldMeta) (size : ℕ) (l : Layout)
    → IsConsistent fields size l
    → l.header_zero ≡ header_text fields l.payload_start l.file_size zeros
zero_of fields size l (consistent zero start file_size) = zero
