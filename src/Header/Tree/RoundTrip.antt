-- ===== src/Header/Tree/RoundTrip.antt =====
-- parse_header_from_json of the text that build_header_json writes.
use gbin.Prelude.{
  ℕ, ◌<◌, ◌≡◌, refl, ap, arith, List, [], ◌∷◌, Option, some, Bytes, All, IsCStr, length, ok, ◌>>=◌,
  ◌∙◌,
}
use gbin.Word.{IsU64}
use gbin.Json.Access.{Floats}
use gbin.Json.Parse.Render.{IsPrintable, ArePrintable, HavePrintable}
use gbin.Json.Parse.Render.RoundTrip.{json_parse-render}
use gbin.Libc.{decimal}
use gbin.Libc.Decimal.{decimal-All, decimal_cons}
use gbin.Header.{FieldMeta, Header}
use gbin.Header.Build.{build_header_json}
use gbin.Strbuf.Content.Fits.{FitsBlocks}
use gbin.Header.Build.Held.{Built-ok, build_header_json-Built}
use gbin.Header.Text.{header_text}
use gbin.Header.Parse.{parse_header_from_json}
use gbin.Header.Tree.{written_header, natural, dims, field_tree, field_trees, header_tree}
use gbin.Header.Tree.Print.{header_text-render}
use gbin.Header.Tree.Read.{IsField, IsHeader, header_of-tree}

-- What C documents of strtod: a decimal print of a uint64_t is converted, with no error.
pub data ReadsDecimals {D : Type 0} (strtod : Bytes → Option D) (value : ℕ → D) : Type 0 where
  reads : ((n : ℕ) → IsU64 n → strtod (decimal n) ≡ some (value n)) → ReadsDecimals strtod value

length-decimal_pos : (n : ℕ) → 0 < length (decimal n)
length-decimal_pos n = let (d, s, e) = decimal_cons n in omega (arith, ap length e)

module _ {D : Type 0} (strtod : Bytes → Option D) (value : ℕ → D)
    (law : ReadsDecimals strtod value) where
  natural-IsPrintable : (n : ℕ) → IsU64 n → IsPrintable strtod (natural value n)
  unfolding IsPrintable
  natural-IsPrintable n h = (decimal-All n, length-decimal_pos n, strtod_at law, refl)
    where
      strtod_at : ReadsDecimals strtod value → strtod (decimal n) ≡ some (value n)
      strtod_at (reads r) = r n h

  dims-ArePrintable : (ds : List ℕ) → All IsU64 ds → ArePrintable strtod (dims value ds)
  unfolding ArePrintable dims
  dims-ArePrintable [] h = tt
  dims-ArePrintable (d ∷ ds) h = (natural-IsPrintable d h.0, dims-ArePrintable ds h.1)

  field_tree-IsPrintable : (f : FieldMeta) → IsField f → IsPrintable strtod (field_tree value f)
  unfolding IsPrintable HavePrintable field_tree
  field_tree-IsPrintable f h = (
    omega arith,
    h.name_is,
    (
      omega arith,
      h.kind_is,
      (
        omega arith,
        h.class_is,
        (
          omega arith,
          dims-ArePrintable f.shape h.shape_is,
          (
            omega arith,
            tt,
            (
              omega arith,
              h.encoding_is,
              (
                omega arith,
                h.compression_is,
                (
                  omega arith,
                  natural-IsPrintable f.offset h.offset_is,
                  (
                    omega arith,
                    natural-IsPrintable f.csize h.csize_is,
                    (
                      omega arith,
                      natural-IsPrintable f.usize h.usize_is,
                      (omega arith, natural-IsPrintable f.crc32 (omega (arith, h.crc32_is)), tt),
                    ),
                  ),
                ),
              ),
            ),
          ),
        ),
      ),
    ),
  )

  field_trees-ArePrintable :
      (fs : List FieldMeta) → All IsField fs → ArePrintable strtod (field_trees value fs)
  unfolding ArePrintable field_trees
  field_trees-ArePrintable [] h = tt
  field_trees-ArePrintable (f ∷ fs) h =
      (field_tree-IsPrintable f h.0, field_trees-ArePrintable fs h.1)

  header_tree-IsPrintable : (h : Header) → IsHeader h → IsPrintable strtod (header_tree value h)
  unfolding IsPrintable HavePrintable header_tree
  header_tree-IsPrintable h w = (
    omega arith,
    w.format_is,
    (
      omega arith,
      w.magic_is,
      (
        omega arith,
        natural-IsPrintable h.version (omega (arith, w.version_is)),
        (
          omega arith,
          w.endianness_is,
          (
            omega arith,
            w.order_is,
            (
              omega arith,
              w.root_is,
              (
                omega arith,
                field_trees-ArePrintable h.fields w.fields_are,
                (
                  omega arith,
                  natural-IsPrintable h.payload_start w.payload_start_is,
                  (
                    omega arith,
                    natural-IsPrintable h.file_size w.file_size_is,
                    (omega arith, w.crc_is, tt),
                  ),
                ),
              ),
            ),
          ),
        ),
      ),
    ),
  )

written_header-IsHeader :
    (fields : List FieldMeta) (payload_start file_size : ℕ) (crc : Bytes)
    → All IsField fields
    → IsU64 payload_start
    → IsU64 file_size
    → IsCStr crc
    → IsHeader (written_header fields payload_start file_size crc)
written_header-IsHeader fields ps fs crc hf hp hs hc = record {
  format_is = omega arith;
  magic_is = omega arith;
  version_is = omega arith;
  endianness_is = omega arith;
  order_is = omega arith;
  root_is = omega arith;
  payload_start_is = hp;
  file_size_is = hs;
  crc_is = hc;
  fields_are = hf;
}

pub parse_header_from_json-header_text :
    {D : Type 0} (fl : Floats D) (strtod : Bytes → Option D) (value : ℕ → D)
    → ReadsDecimals strtod value
    → (fields : List FieldMeta) (payload_start file_size : ℕ) (crc : Bytes) → All IsField fields
    → IsU64 payload_start
    → IsU64 file_size
    → IsCStr crc
    → parse_header_from_json fl strtod (header_text fields payload_start file_size crc)
      ≡ ok (written_header fields payload_start file_size crc)
unfolding parse_header_from_json
parse_header_from_json-header_text fl strtod value law fields ps fs crc hf hp hs hc =
    let h = written_header fields ps fs crc in
    let w = written_header-IsHeader fields ps fs crc hf hp hs hc in
    rw
      (
        header_text-render value fields ps fs crc,
        json_parse-render strtod (header_tree value h)
            (header_tree-IsPrintable strtod value law h w),
        header_of-tree fl value h w,
      )
      refl

-- When the header text fits the blocks of its buffer, build_header_json returns a text that
-- parse_header_from_json reads as the header it was made of: fields whose numbers are in range and
-- whose strings hold no NUL, in their order, any uint64_t payload start and file size, any CRC text
-- without a NUL, and a strtod that converts decimal numbers. The text fits where it is shorter than
-- 2^62 - 1 and no digit in it is the last byte of a block of 64, 128, 256, ... bytes.
pub parse_header_from_json-build_header_json :
    {D : Type 0} (fl : Floats D) (strtod : Bytes → Option D) (value : ℕ → D)
    → ReadsDecimals strtod value
    → (fields : List FieldMeta) (payload_start file_size : ℕ) (crc : Bytes) → All IsField fields
    → IsU64 payload_start
    → IsU64 file_size
    → IsCStr crc
    → FitsBlocks (header_text fields payload_start file_size crc)
    → (build_header_json fields payload_start file_size crc >>= parse_header_from_json fl strtod)
      ≡ ok (written_header fields payload_start file_size crc)
parse_header_from_json-build_header_json fl strtod value law fields ps fs crc hf hp hs hc fits =
    ap (λ r. r >>= parse_header_from_json fl strtod)
      (Built-ok (build_header_json-Built fields ps fs crc) fits)
    ∙ parse_header_from_json-header_text fl strtod value law fields ps fs crc hf hp hs hc
