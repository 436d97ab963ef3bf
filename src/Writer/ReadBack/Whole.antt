-- ===== src/Writer/ReadBack/Whole.antt =====
-- gbf_read_header_only of C/src/gbf.c on a file that gbf_write_file writes.
use gbin.Prelude.{
  ℕ, ◌+◌, ◌-◌, ◌%◌, ◌^◌, ◌≤◌, ◌<◌, ◌≡◌, refl, sym, ap, ◌∙◌, arith, true, false, List, [], Option,
  some, Bytes, All, length, take, take_all, is_empty, Result, ok, eq→==,
}
use gbin.Error.{Error}
use gbin.Word.{IsU64}
use gbin.Value.{struct, Entries}
use gbin.Json.Access.{Floats}
use gbin.Header.Parse.{parse_header_from_json}
use gbin.Json.Crc.{extract_header_crc32_hex_u32, zero_out_header_crc32_field, locate, crc_hex8}
use gbin.Json.Crc.Patch.{crc_hex8-IsCStr}
use gbin.Strbuf.Content.Fits.{FitsBlocks}
use gbin.Header.{Header}
use gbin.Header.Text.{header_text, front_text}
use gbin.Header.FixedPoint.{Layout, zeros}
use gbin.Header.FixedPoint.Text.{text_fixed_point, fixed_point-ok, header_texts}
use gbin.Header.Build.Held.{Built-ok, build_header_json-Built}
use gbin.Header.FixedPoint.Converges.{IsConsistent, consistent, text_fixed_point-IsConsistent}
use gbin.Header.Tree.{written_header}
use gbin.Header.Tree.Read.{IsField}
use gbin.Header.Tree.RoundTrip.{ReadsDecimals, parse_header_from_json-header_text}
use gbin.Payload.{Zlib, ReadOptions, WriteOptions}
use gbin.Reader.{read_header_only}
use gbin.Writer.{
  write_layout, WriterField, with_offsets, payload_size, payloads, metas, file_of, write_fields,
  write_file, flatten_fields_rec, default_level,
}
use gbin.Writer.Layout.{HasItsSize, IsReadBack, file_of-reads, length-file_of}
use gbin.Writer.Sizes.{flatten_fields_rec-HasItsSize}
use gbin.Writer.ReadBack.{
  header_zero-small, zero_of, payload_size-payloads, length-parts, length-final, crc_checks,
}
use gbin.Writer.ReadBack.Checks.{read_header_only-steps}

-- A file whose header gbf_read_header_only returns under the path, with validation and without, as a
-- header of the fields; and from which read_payload_bytes takes every payload, at the payload_start
-- of that header.
pub data ReadsBack {D : Type 0} (z : Zlib) (fl : Floats D) (strtod : Bytes → Option D)
    (path : Bytes) (fs : List WriterField) : Result Error Bytes → Type 0 where
  reads_back :
      (file json : Bytes) (len : ℕ) (hdr : Header)
      → hdr.fields ≡ metas (with_offsets 0 fs)
      → hdr.file_size ≡ length file
      → ((opt : ReadOptions) (disk : Bytes → Option Bytes)
          → disk path ≡ some file
          → read_header_only z fl strtod disk path opt ≡ ok (hdr, len, json))
      → All (IsReadBack file (hdr.payload_start)) (with_offsets 0 fs)
      → ReadsBack z fl strtod path fs (ok file)

-- The zero text of the fields that the loop finds.
abbrev pub header_zero_of : List WriterField → Bytes
header_zero_of fs = (text_fixed_point (metas (with_offsets 0 fs)) (payload_size 0 fs)).header_zero

-- The text of the fields with the CRC of that text.
abbrev pub final_text : Zlib → List WriterField → Bytes
final_text z fs =
    let l = text_fixed_point (metas (with_offsets 0 fs)) (payload_size 0 fs) in
    header_text (metas (with_offsets 0 fs)) l.payload_start l.file_size
      (crc_hex8 (z.crc32 l.header_zero % 2 ^ 32))

at_start :
    (file : Bytes) (a b : ℕ) (fs : List WriterField)
    → a ≡ b
    → All (IsReadBack file a) fs
    → All (IsReadBack file b) fs
at_start file a b fs e h = rw e at h

module _ {D : Type 0} (z : Zlib) (fl : Floats D) (strtod : Bytes → Option D) (value : ℕ → D)
    (law : ReadsDecimals strtod value) where
  module _ (path : Bytes) (fs : List WriterField) (named : is_empty path ≡ false)
      (sizes : All HasItsSize fs) (ranges : All IsField (metas (with_offsets 0 fs))) where
    -- The header text that is written, of the numbers that the loop leaves.
    final_of : Layout → Bytes
    final_of l =
        header_text (metas (with_offsets 0 fs)) l.payload_start l.file_size
          (crc_hex8 (z.crc32 l.header_zero % 2 ^ 32))

    length-final_of :
        (l : Layout)
        → l.header_zero ≡ header_text (metas (with_offsets 0 fs)) l.payload_start l.file_size zeros
        → length (final_of l) ≡ length l.header_zero
    unfolding final_of
    length-final_of l e =
        let ms = metas (with_offsets 0 fs) in
        length-final ms l.payload_start l.file_size (z.crc32 l.header_zero % 2 ^ 32)
        ∙ sym (length-parts ms l.payload_start l.file_size (z.crc32 l.header_zero % 2 ^ 32))
        ∙ ap length (sym e)

    final_of-crc :
        (l : Layout)
        → l.header_zero ≡ header_text (metas (with_offsets 0 fs)) l.payload_start l.file_size zeros
        → locate l.header_zero ≡ some (length l.header_zero - 10)
        → (extract_header_crc32_hex_u32 (final_of l) ≡ z.crc32 l.header_zero % 2 ^ 32)
          × (zero_out_header_crc32_field (final_of l) ≡ (l.header_zero, true))
    unfolding final_of
    final_of-crc l zero at =
        let (found, cleared) =
          crc_checks (metas (with_offsets 0 fs)) l.payload_start l.file_size
            (z.crc32 l.header_zero % 2 ^ 32)
            (ap locate (sym zero) ∙ at ∙ ap (λ t. some (length t - 10)) zero) (omega arith) in
        (found, cleared ∙ ap (λ t. (t, true)) (sym zero))

    final_of-parsed :
        (l : Layout)
        → IsU64 l.payload_start
        → IsU64 l.file_size
        → parse_header_from_json fl strtod (final_of l)
          ≡ ok (
              written_header
                (metas (with_offsets 0 fs))
                l.payload_start
                l.file_size
                (crc_hex8 (z.crc32 l.header_zero % 2 ^ 32)))
    unfolding final_of
    final_of-parsed l start size =
        parse_header_from_json-header_text fl strtod value law (metas (with_offsets 0 fs))
          l.payload_start l.file_size (crc_hex8 (z.crc32 l.header_zero % 2 ^ 32)) ranges start size
          (crc_hex8-IsCStr (z.crc32 l.header_zero % 2 ^ 32))

    consistent-ReadsBack :
        (l : Layout)
        → IsConsistent (metas (with_offsets 0 fs)) (length (payloads fs)) l
        → length l.header_zero ≤ 2 ^ 28
        → 12 + length l.header_zero + length (payloads fs) < 2 ^ 63
        → locate l.header_zero ≡ some (length l.header_zero - 10)
        → ReadsBack z fl strtod path fs (ok (file_of (final_of l) (with_offsets 0 fs)))
    consistent-ReadsBack l (consistent zero start size) small total at =
        let ms = metas (with_offsets 0 fs) in
        let crc = z.crc32 l.header_zero % 2 ^ 32 in
        let same = length-final_of l zero in
        let file = file_of (final_of l) (with_offsets 0 fs) in
        let file_length = length-file_of (final_of l) fs (omega (arith, same, small)) in
        let (text, payloads_back) =
          file_of-reads (final_of l) fs sizes (omega (arith, same, small))
            (omega (arith, same, total)) in
        reads_back file (final_of l) (length (final_of l))
          (written_header ms l.payload_start l.file_size (crc_hex8 crc)) refl
          (omega (arith, size, start, file_length, same))
          (λ opt disk there.
            read_header_only-steps z fl strtod disk path file (final_of l) l.header_zero
              (length (final_of l)) (written_header ms l.payload_start l.file_size (crc_hex8 crc))
              opt named there text (final_of-crc l zero at)
              (final_of-parsed l (omega (arith, start, total)) (omega (arith, start, size, total)))
              (omega (arith, start, same)) (omega (arith, size, start, file_length, same))
              (omega (arith, file_length)))
          (at_start file _ _ (with_offsets 0 fs) (omega (arith, start, same)) payloads_back)

    -- Of a layout that the loop has found, the rest of the writer writes the file.
    write_layout-ok :
        (l : Layout)
        → l.header_zero ≡ header_text (metas (with_offsets 0 fs)) l.payload_start l.file_size zeros
        → length l.header_zero ≤ 2 ^ 28
        → FitsBlocks (final_of l)
        → write_layout z (with_offsets 0 fs) l ≡ ok (file_of (final_of l) (with_offsets 0 fs))
    unfolding final_of write_layout
    write_layout-ok l zero small fits =
        let ms = metas (with_offsets 0 fs) in
        let crc = z.crc32 l.header_zero % 2 ^ 32 in
        let whole : length l.header_zero % 2 ^ 32 ≡ length l.header_zero = omega (arith, small) in
        let all : take (length l.header_zero) l.header_zero ≡ l.header_zero =
          take_all (length l.header_zero) l.header_zero (omega arith) in
        let same : length (header_text ms l.payload_start l.file_size (crc_hex8 crc))
            ≡ length l.header_zero =
          length-final_of l zero in
        let final = build_header_json-Built ms l.payload_start l.file_size (crc_hex8 crc) in
        rw
          (
            whole,
            all,
            Built-ok final fits,
            same,
            whole,
            eq→== (length l.header_zero) (length l.header_zero) refl,
          )
          refl

    write_fields-ReadsBack :
        length (front_text (metas (with_offsets 0 fs))) + 100 ≤ 2 ^ 28
        → length (front_text (metas (with_offsets 0 fs))) + 200 + length (payloads fs) < 2 ^ 63
        → locate (header_zero_of fs) ≡ some (length (header_zero_of fs) - 10)
        → All FitsBlocks (header_texts (metas (with_offsets 0 fs)) (payload_size 0 fs))
        → FitsBlocks (final_text z fs)
        → ReadsBack z fl strtod path fs (write_fields z fs)
    unfolding write_fields final_of
    write_fields-ReadsBack small total at texts final =
        let ms = metas (with_offsets 0 fs) in
        let size_is : payload_size 0 fs ≡ length (payloads fs) =
          payload_size-payloads 0 fs sizes (omega (arith, total)) ∙ omega arith in
        let l = text_fixed_point ms (payload_size 0 fs) in
        let c : IsConsistent ms (length (payloads fs)) l = rw size_is (
          text_fixed_point-IsConsistent ms (length (payloads fs)) (omega (arith, small))
            (omega (arith, total))) in
        let short = header_zero-small ms (length (payloads fs)) l c in
        rw
          (
            fixed_point-ok ms (payload_size 0 fs) texts,
            write_layout-ok l (zero_of ms (length (payloads fs)) l c) (omega (arith, short, small))
                final,
          )
          (consistent-ReadsBack l c (omega (arith, short, small)) (omega (arith, short, total)) at)

-- Under a path that is not empty, let flatten_fields_rec make fields of a struct whose numbers are
-- in the range of their types and whose strings have no NUL; let the header text before the number
-- of payload_start be at most 2^28 - 100 bytes, together with the payloads less than 2^63 - 200;
-- let the search for the CRC field of the header with zeros end at its own digits, 10 bytes before
-- the end; and let the header texts of the loop and the text with the CRC fit the blocks of their
-- buffers: each is shorter than 2^62 - 1, and no digit in it is the last byte of a block of 64, 128,
-- 256, ... bytes. Then gbf_write_file writes a file, and of a disk with that file under the path
-- gbf_read_header_only, with validation and without, returns a header with these fields, their
-- offsets and the length of the file; and at the payload_start of that header read_payload_bytes
-- finds the payload of every field. strtod is one that converts decimal numbers.
pub write_file-ReadsBack :
    {D : Type 0} (z : Zlib) (fl : Floats D) (strtod : Bytes → Option D) (value : ℕ → D)
    → ReadsDecimals strtod value
    → (opt : WriteOptions) (path : Bytes) (es : Entries) (fs : List WriterField)
    → is_empty path ≡ false
    → flatten_fields_rec z (record opt { zlib_level = default_level opt.zlib_level }) [] (struct es)
      ≡ ok fs
    → All IsField (metas (with_offsets 0 fs))
    → length (front_text (metas (with_offsets 0 fs))) + 100 ≤ 2 ^ 28
    → length (front_text (metas (with_offsets 0 fs))) + 200 + length (payloads fs) < 2 ^ 63
    → locate (header_zero_of fs) ≡ some (length (header_zero_of fs) - 10)
    → All FitsBlocks (header_texts (metas (with_offsets 0 fs)) (payload_size 0 fs))
    → FitsBlocks (final_text z fs)
    → ReadsBack z fl strtod path fs (write_file z opt path (struct es))
unfolding write_file
write_file-ReadsBack z fl strtod value law opt path es fs named flat ranges small total at texts
      fin =
    let sizes =
      flatten_fields_rec-HasItsSize z (record opt { zlib_level = default_level opt.zlib_level }) []
        (struct es) fs flat in
    rw (named, flat)
      (write_fields-ReadsBack z fl strtod value law path fs named sizes ranges small total at texts
        fin)
