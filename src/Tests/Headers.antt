-- ===== src/Tests/Headers.antt =====
-- The theorems on printed JSON and headers, applied at concrete inputs.
use gbin.Prelude.{
  All, Bytes, ℕ, ◌≡◌, refl, arith, true, [], ◌∷◌, codes, length, ok, false, err, ◌>>=◌,
}
use gbin.Json.{Json, array, bool, string, number, no_items, item}
use gbin.Json.Parse.{json_parse}
use gbin.Json.Parse.Render.{render, IsPrintable, ArePrintable}
use gbin.Json.Parse.Render.RoundTrip.{json_parse-render}
use gbin.Libc.{decimal, digits}
use gbin.Header.{FieldMeta}
use gbin.Error.{undefined}
use gbin.Strbuf.{grow}
use gbin.Strbuf.Content.{append_bytes, append_text, append_printed, cap_for, put_text}
use gbin.Json.Text.{json_escape, escape_chars, escape_char}
use gbin.Header.Build.{build_header_json, append_escaped}
use gbin.Strbuf.Content.Fits.{
  FitsBlocks, short-FitsBlocks, fits_at_blocks, fits_at_blocks-FitsBlocks,
}
use gbin.Header.Text.{header_text, front_text, fields_text}
use gbin.Header.FixedPoint.{next_layout, Layout, fixed_point}
use gbin.Header.FixedPoint.Text.{header_texts}
use gbin.Header.FixedPoint.Converges.{IsConsistent, fixed_point-IsConsistent}
use gbin.Header.Parse.{parse_header_from_json}
use gbin.Header.Tree.{written_header, header_tree}
use gbin.Header.Tree.Print.{build_header_json-render, header_text-render}
use gbin.Header.Tree.Read.{IsField}
use gbin.Header.Tree.RoundTrip.{reads, parse_header_from_json-build_header_json}
use gbin.Tests.Files.{strtod, floats}

abbrev pub value : ℕ → ℕ
value n = length (decimal n)

abbrev flags : Json ℕ
flags =
    array
      (item (bool true) (item (string (codes "a\"b")) (item (number 2 (codes "42") true) no_items)))

flags-IsPrintable : IsPrintable strtod flags
unfolding IsPrintable ArePrintable
flags-IsPrintable = (tt, (omega arith, ((omega arith, omega arith, refl, refl), tt)))

json_parse-render_example : json_parse strtod (render flags) ≡ ok flags
json_parse-render_example = json_parse-render strtod flags flags-IsPrintable

abbrev one_field : FieldMeta
one_field = record {
  name = codes "a.b";
  kind = codes "logical";
  class_name = codes "logical";
  shape = 3 ∷ 1 ∷ [];
  complex = true;
  encoding = [];
  compression = codes "none";
  offset = 0;
  csize = 3;
  usize = 3;
  crc32 = 7;
}

one_field-IsField : IsField one_field
one_field-IsField = record {
  name_is = omega arith;
  kind_is = omega arith;
  class_is = omega arith;
  encoding_is = tt;
  compression_is = omega arith;
  shape_is = omega arith;
  offset_is = omega arith;
  csize_is = omega arith;
  usize_is = omega arith;
  crc32_is = omega arith;
}

one_field-FitsBlocks : FitsBlocks (header_text (one_field ∷ []) 300 303 (codes "00000000"))
unfolding header_text front_text fields_text json_escape escape_chars escape_char decimal digits
one_field-FitsBlocks = short-FitsBlocks _ (omega arith) refl refl refl refl

one_field_tree-FitsBlocks :
    FitsBlocks
      (render (header_tree value (written_header (one_field ∷ []) 300 303 (codes "00000000"))))
one_field_tree-FitsBlocks =
    rw (← header_text-render value (one_field ∷ []) 300 303 (codes "00000000")) one_field-FitsBlocks

build_header_json-render_example :
    build_header_json (one_field ∷ []) 300 303 (codes "00000000")
    ≡ ok (render (header_tree value (written_header (one_field ∷ []) 300 303 (codes "00000000"))))
build_header_json-render_example =
    build_header_json-render value (one_field ∷ []) 300 303 (codes "00000000")
      one_field_tree-FitsBlocks

parse_header_from_json-build_header_json_example :
    (build_header_json (one_field ∷ []) 300 303 (codes "00000000")
      >>= parse_header_from_json floats strtod)
    ≡ ok (written_header (one_field ∷ []) 300 303 (codes "00000000"))
parse_header_from_json-build_header_json_example =
    parse_header_from_json-build_header_json floats strtod value (reads λ n h. refl)
      (one_field ∷ []) 300 303 (codes "00000000") (one_field-IsField, tt) (omega arith)
      (omega arith) (omega arith) one_field-FitsBlocks

-- A first field of eight letters: the 3 of its shape ends at the end of a block of 256 bytes.
abbrev eight_letters : FieldMeta
eight_letters = record one_field { name = codes "abcdefgh"; complex = false }

eight_letters-overruns :
    build_header_json (eight_letters ∷ []) 300 303 (codes "00000000") ≡ err undefined
unfolding build_header_json append_bytes append_escaped append_text append_printed cap_for put_text
    grow json_escape escape_chars escape_char decimal digits
eight_letters-overruns = refl

-- With eighteen letters, the 0 of the offset does.
eighteen_letters-overruns :
    build_header_json
      (record eight_letters { name = codes "abcdefghijklmnopqr" } ∷ [])
      300
      303
      (codes "00000000")
    ≡ err undefined
unfolding build_header_json append_bytes append_escaped append_text append_printed cap_for put_text
    grow json_escape escape_chars escape_char decimal digits
eighteen_letters-overruns = refl

no_fields-FitsBlocks : All FitsBlocks (header_texts [] 1000)
unfolding header_texts header_text front_text fields_text json_escape escape_chars escape_char
    decimal digits next_layout
no_fields-FitsBlocks =
    let fits = λ (t : Bytes) (e : fits_at_blocks t ≡ true). fits_at_blocks-FitsBlocks t e in
    (
      fits _ refl,
      (
        fits _ refl,
        (
          fits _ refl,
          (fits _ refl, (fits _ refl, (fits _ refl, (fits _ refl, (fits _ refl, tt))))),
        ),
      ),
    )

fixed_point-IsConsistent_example :
    (l : Layout) × (fixed_point [] 1000 ≡ ok l) × IsConsistent [] 1000 l
unfolding front_text
fixed_point-IsConsistent_example =
    fixed_point-IsConsistent [] 1000 (omega arith) (omega arith) no_fields-FitsBlocks
