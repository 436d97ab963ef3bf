-- ===== src/Tests/ReadBack.antt =====
-- The theorem on the header of a written file, applied at a concrete input.
use gbin.Prelude.{All, refl, arith, [], ◌∷◌, codes}
use gbin.Value.{struct, entry, no_entries}
use gbin.Value.Shape.{copy_shape_size_to_u64}
use gbin.Codec.Encode.{encode_value_bytes}
use gbin.Codec.Describe.{describe}
use gbin.Payload.{compress_maybe, choose}
use gbin.Header.Build.{append_escaped}
use gbin.Header.Text.{header_text, front_text, fields_text}
use gbin.Strbuf.Content.Fits.{FitsBlocks, fits_at_blocks-FitsBlocks}
use gbin.Header.FixedPoint.{next_layout}
use gbin.Header.FixedPoint.Text.{header_texts, text_fixed_point}
use gbin.Strbuf.{grow}
use gbin.Strbuf.Content.{append_bytes, append_text, append_printed, cap_for, put_text}
use gbin.Json.Crc.{crc_hex8}
use gbin.Header.Tree.RoundTrip.{reads}
use gbin.Json.Crc.{locate, find_value}
use gbin.Json.Text.{json_escape, escape_chars, escape_char}
use gbin.Libc.{decimal, digits}
use gbin.Writer.{
  metas, join_name, write_file, flatten_fields_rec, payloads, payload_size, with_offsets,
}
use gbin.Writer.ReadBack.Whole.{final_text, ReadsBack, write_file-ReadsBack}
use gbin.Tests.Files.{strtod, floats}
use gbin.Tests.Headers.{value}
use gbin.Tests.Writing.{copying, auto_crc, three_flags, flag_field}

nested-FitsBlocks : All FitsBlocks (header_texts (metas (with_offsets 0 (flag_field ∷ []))) 3)
unfolding header_texts header_text front_text fields_text json_escape escape_chars escape_char
    decimal digits next_layout with_offsets
nested-FitsBlocks = (
  fits_at_blocks-FitsBlocks _ refl,
  (
    fits_at_blocks-FitsBlocks _ refl,
    (
      fits_at_blocks-FitsBlocks _ refl,
      (
        fits_at_blocks-FitsBlocks _ refl,
        (
          fits_at_blocks-FitsBlocks _ refl,
          (
            fits_at_blocks-FitsBlocks _ refl,
            (fits_at_blocks-FitsBlocks _ refl, (fits_at_blocks-FitsBlocks _ refl, tt)),
          ),
        ),
      ),
    ),
  ),
)

nested_final-FitsBlocks : FitsBlocks (final_text copying (flag_field ∷ []))
unfolding header_text front_text fields_text json_escape escape_chars escape_char decimal digits
    text_fixed_point with_offsets payload_size crc_hex8
nested_final-FitsBlocks = fits_at_blocks-FitsBlocks _ refl

write_file-ReadsBack_example : ReadsBack copying floats strtod (codes "f") (flag_field ∷ []) (
    write_file copying auto_crc
      (codes "f")
      (struct (entry (codes "a") (struct (entry (codes "b") three_flags no_entries)) no_entries)))
unfolding flatten_fields_rec encode_value_bytes compress_maybe choose describe
    copy_shape_size_to_u64 locate text_fixed_point front_text fields_text join_name append_bytes
    append_escaped append_text append_printed cap_for put_text grow payloads with_offsets
    json_escape escape_chars escape_char decimal digits find_value header_text payload_size
write_file-ReadsBack_example =
    write_file-ReadsBack copying floats strtod value (reads λ n h. refl) auto_crc (codes "f")
      (entry (codes "a") (struct (entry (codes "b") three_flags no_entries)) no_entries)
      (flag_field ∷ []) refl refl
      (
        record {
          name_is = omega arith;
          kind_is = omega arith;
          class_is = omega arith;
          encoding_is = tt;
          compression_is = omega arith;
          shape_is = omega arith;
          offset_is = omega arith;
          csize_is = omega arith;
          usize_is = omega arith;
          crc32_is = omega arith;
        },
        tt,
      )
      (omega arith) (omega arith) refl nested-FitsBlocks nested_final-FitsBlocks
