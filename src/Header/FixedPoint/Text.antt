-- ===== src/Header/FixedPoint/Text.antt =====
-- The loop of gbf_write_file (C/src/gbf.c) over the texts of the headers, without their buffers.
use gbin.Prelude.{
  Bytes, [], ◌∷◌, All, ◌≡◌, refl, ok, ℕ, zero, suc, List, codes, if◌then◌else◌, Bool-cases, inl,
  inr,
}
use gbin.Strbuf.Content.Fits.{FitsBlocks}
use gbin.Header.{FieldMeta}
use gbin.Header.Text.{header_text}
use gbin.Header.Build.Held.{Built-ok, build_header_json-Built}
use gbin.Header.FixedPoint.{Layout, zeros, next_layout, is_stable, iterate, fixed_point, ok}

unfoldable pub text_iterate : List FieldMeta → ℕ → ℕ → Layout → Layout
unfolding next_layout is_stable
text_iterate fields payload_size zero l = l
text_iterate fields payload_size (suc n) l =
    let next = next_layout payload_size (header_text fields l.payload_start l.file_size zeros) in
    let rest = text_iterate fields payload_size n next in if is_stable l next then next else rest

unfoldable pub text_fixed_point : List FieldMeta → ℕ → Layout
unfolding text_iterate
text_fixed_point fields payload_size =
    text_iterate fields payload_size 8
      (record { payload_start = 0; file_size = 0; header_zero = codes "" })

-- The texts of the iterations from a layout on.
unfoldable pub texts_from : List FieldMeta → ℕ → ℕ → Layout → List Bytes
unfolding next_layout
texts_from fields payload_size zero l = []
texts_from fields payload_size (suc n) l =
    let header = header_text fields l.payload_start l.file_size zeros in
    header ∷ texts_from fields payload_size n (next_layout payload_size header)

-- The texts of 8 iterations from 0.
unfoldable pub header_texts : List FieldMeta → ℕ → List Bytes
unfolding texts_from
header_texts fields payload_size =
    texts_from fields payload_size 8
      (record { payload_start = 0; file_size = 0; header_zero = codes "" })

module _ (fields : List FieldMeta) (payload_size : ℕ) where
  iterate-ok :
      (n : ℕ) (l : Layout)
      → All FitsBlocks (texts_from fields payload_size n l)
      → iterate fields payload_size n l ≡ ok (text_iterate fields payload_size n l)
  unfolding iterate text_iterate texts_from
  iterate-ok zero l h = refl
  iterate-ok (suc n) l h =
      let header = header_text fields l.payload_start l.file_size zeros in
      let next = next_layout payload_size header in
      let rest = iterate-ok n next h.1 in
      rw (Built-ok (build_header_json-Built fields l.payload_start l.file_size zeros) h.0, rest)
        (elim (Bool-cases (is_stable l next)) [
          | inl stable ↦ rw stable refl
          | inr moves ↦ rw moves refl
        ])

  -- The loop ends with the layout of the texts, where each of them fits its blocks.
  pub fixed_point-ok :
      All FitsBlocks (header_texts fields payload_size)
      → fixed_point fields payload_size ≡ ok (text_fixed_point fields payload_size)
  unfolding fixed_point text_fixed_point header_texts
  fixed_point-ok h =
      iterate-ok 8 (record { payload_start = 0; file_size = 0; header_zero = codes "" }) h
