-- ===== src/Writer/Leaf.antt =====
-- The field that flatten_fields_rec of C/src/gbf.c makes of a leaf, read by gbf_read_file.
use gbin.Prelude.{
  ℕ, ◌+◌, ◌%◌, ◌^◌, ◌≤◌, ◌≡◌, refl, sym, ◌∙◌, true, Bytes, length, is_empty, ltb, eq→==, Bool-cases,
  inl, inr, Result, ok, err, ◌⊎◌,
}
use mathlib.Core.Path.{subst}
use gbin.Error.{Error}
use gbin.Word.{size_max}
use gbin.Value.{Value}
use gbin.Header.{FieldMeta}
use gbin.Codec.Decode.{decode_field_value}
use gbin.Codec.Describe.{describe, described}
use gbin.Codec.RoundTrip.Whole.{IsLeaf, decode_field_value-encode_value_bytes}
use gbin.Payload.{
  buffer_crc, Zlib, ReadOptions, WriteOptions, read_payload_bytes, compress_maybe, check_field_crc,
  read_field,
}
use gbin.Payload.Laws.{Restores, maybe_decompress-compress_maybe}
use gbin.Writer.{WriterField, field_of, raw_crc, leaf_field}

check_field_crc-raw_crc :
    (z : Zlib) (wopt : WriteOptions) (ropt : ReadOptions) (meta : FieldMeta) (raw : Bytes)
    → wopt.include_crc32 ≡ true
    → meta.crc32 ≡ raw_crc z wopt raw
    → check_field_crc z ropt meta raw ≡ ok tt
unfolding check_field_crc raw_crc
check_field_crc-raw_crc z wopt ropt meta raw on e = elim (Bool-cases (ropt.validate)) [
  | inr off ↦ rw off refl
  | inl checked ↦ elim (Bool-cases (ltb 0 (length raw))) [
    | inr empty ↦ rw (checked, empty) refl
    | inl full ↦
        let crc : meta.crc32 ≡ buffer_crc z raw = e ∙ rw (full, on) refl in
        rw (checked, full, eq→== (buffer_crc z raw) (meta.crc32) (sym crc)) refl
  ]
]

module _ (z : Zlib) (wopt : WriteOptions) (ropt : ReadOptions) (prefix : Bytes) (v : Value) where
  -- Of the pieces that leaf_field puts together.
  read_pieces :
      (raw name payload file : Bytes) (start off : ℕ)
      → Restores z
      → wopt.include_crc32 ≡ true
      → length raw ≤ size_max
      → compress_maybe z wopt raw ≡ ok (name, payload)
      → decode_field_value
          (record (field_of prefix v name (length raw) (raw_crc z wopt raw) payload).meta {
            offset = off;
          })
          raw
        ≡ ok v
      → read_payload_bytes file ((start + off) % 2 ^ 64) (length payload) ≡ ok payload
      → read_field z ropt file start
          (record (field_of prefix v name (length raw) (raw_crc z wopt raw) payload).meta {
            offset = off;
          })
        ≡ ok v
  unfolding read_field field_of
  read_pieces raw name payload file start off law on fits packed decoded there =
      let meta : FieldMeta =
        record (field_of prefix v name (length raw) (raw_crc z wopt raw) payload).meta {
          offset = off;
        } in
      rw
        (
          there,
          maybe_decompress-compress_maybe z wopt meta raw payload law fits refl packed,
          check_field_crc-raw_crc z wopt ropt meta raw on refl,
          decoded,
        )
        refl

no_field : {x : Error} {f : WriterField} → Path (Result Error WriterField) (err x) (ok f) → ⊥
no_field h = cc

same_field : {f g : WriterField} → Path (Result Error WriterField) (ok f) (ok g) → f ≡ g
same_field h = cc

compressed :
    (r : Result Error (Bytes × Bytes))
    → ((name : Bytes) × (payload : Bytes) × (r ≡ ok (name, payload))) ⊎ ((e : Error) × (r ≡ err e))
compressed (ok (name, payload)) = inl (name, payload, refl)
compressed (err e) = inr (e, refl)

-- Let uncompress restore what compress2 compressed, and CRCs be written. If the writer makes a field
-- of a storable leaf, by whatever compression, and the payload of the field stands at
-- payload_start + its offset in a file, then gbf_read_file reads the leaf from the field, with
-- validation and without; the size before compression is to fit in a size_t.
pub read_field-leaf_field :
    (z : Zlib) (wopt : WriteOptions) (ropt : ReadOptions) (prefix : Bytes) (v : Value)
    (f : WriterField) (file : Bytes) (start off : ℕ)
    → Restores z
    → wopt.include_crc32 ≡ true
    → IsLeaf v
    → leaf_field z wopt prefix v ≡ ok f
    → f.meta.usize ≤ size_max
    → read_payload_bytes file ((start + off) % 2 ^ 64) f.meta.csize ≡ ok f.payload
    → read_field z ropt file start (record (f.meta) { offset = off }) ≡ ok v
unfolding leaf_field field_of
read_field-leaf_field z wopt ropt prefix v f file start off law on leaf e fits there =
    let (raw, encoded, decoded) =
      decode_field_value-encode_value_bytes (record (f.meta) { offset = off }) v leaf in
    elim (Bool-cases (is_empty prefix)) [
      | inl root ↦ absurd (no_field (rw root at e))
      | inr named ↦ elim (compressed (compress_maybe z wopt raw)) [
        | inr (x, failed) ↦ absurd (no_field (rw (named, encoded, failed) at e))
        | inl (name, payload, packed) ↦
            let is_f = same_field (rw (named, encoded, packed) at e) in
            subst
              (λ g.
                decode_field_value (described (describe v) (record (g.meta) { offset = off })) raw
                  ≡ ok v
                → g.meta.usize ≤ size_max
                → read_payload_bytes file ((start + off) % 2 ^ 64) g.meta.csize ≡ ok g.payload
                → read_field z ropt file start (record (g.meta) { offset = off }) ≡ ok v)
              is_f
              (λ d u t.
                read_pieces z wopt ropt prefix v raw name payload file start off law on u packed d
                  t)
              decoded fits there
      ]
    ]
