-- ===== src/Header/Tree/Print.antt =====
-- build_header_json prints the tree of the header.
use gbin.Prelude.{ok, ℕ, ◌≡◌, refl, ap, ◌∙◌, List, [], ◌∷◌, ◌++◌, append_assoc, Bytes, codes}
use gbin.Json.{array}
use gbin.Json.Text.{json_escape, escape_chars, escape_char}
use gbin.Json.Parse.Render.{render, render_items, render_fields}
use gbin.Libc.{decimal, digits}
use gbin.Header.{FieldMeta}
use gbin.Header.Text.{dims_text, shape_text, field_text, more_fields_text, fields_text, header_text}
use gbin.Header.Build.{build_header_json}
use gbin.Strbuf.Content.Fits.{FitsBlocks}
use gbin.Header.Build.Held.{Built-ok, build_header_json-Built}
use gbin.Header.Tree.{written_header, dims, field_tree, field_trees, header_tree}

module _ {D : Type 0} (value : ℕ → D) where
  dims_text-render :
      (sb : Bytes) (ds : List ℕ) → dims_text sb ds ++ codes "]" ≡ sb ++ render_items (dims value ds)
  unfolding dims_text dims render render_items
  dims_text-render sb [] = refl
  dims_text-render sb (d ∷ ds) =
      dims_text-render (sb ++ codes "," ++ decimal d) ds ∙ simp append_assoc

  -- The print of a shape behind its bracket.
  shape_body : List ℕ → Bytes
  shape_body [] = codes "]"
  shape_body (d ∷ ds) = decimal d ++ render_items (dims value ds)

  render-dims : (ds : List ℕ) → render (array (dims value ds)) ≡ b'[' ∷ shape_body ds
  unfolding render dims shape_body
  render-dims [] = refl
  render-dims (d ∷ ds) = refl

  shape_text-render :
      (sb : Bytes) (ds : List ℕ) → shape_text sb ds ++ codes "]" ≡ sb ++ shape_body ds
  unfolding shape_text shape_body
  shape_text-render sb [] = refl
  shape_text-render sb (d ∷ ds) = dims_text-render (sb ++ decimal d) ds ∙ simp append_assoc

  field_text-render :
      (sb : Bytes) (f : FieldMeta) → field_text sb f ≡ sb ++ render (field_tree value f)
  unfolding field_text field_tree render render_fields json_escape escape_chars escape_char
  field_text-render sb f = simp (shape_text-render, render-dims, append_assoc)

  more_fields_text-render :
      (sb : Bytes) (fs : List FieldMeta)
      → more_fields_text sb fs ++ codes "]" ≡ sb ++ render_items (field_trees value fs)
  unfolding more_fields_text field_trees render_items
  more_fields_text-render sb [] = refl
  more_fields_text-render sb (f ∷ fs) =
      more_fields_text-render (field_text (sb ++ codes ",") f) fs
      ∙ ap (λ t. t ++ render_items (field_trees value fs)) (field_text-render (sb ++ codes ",") f)
      ∙ append_assoc (sb ++ codes ",") (render (field_tree value f))
          (render_items (field_trees value fs))
      ∙ append_assoc sb (codes ",")
          (render (field_tree value f) ++ render_items (field_trees value fs))

  -- The print of the fields behind their bracket.
  fields_body : List FieldMeta → Bytes
  fields_body [] = codes "]"
  fields_body (f ∷ fs) = render (field_tree value f) ++ render_items (field_trees value fs)

  render-field_trees :
      (fs : List FieldMeta) → render (array (field_trees value fs)) ≡ b'[' ∷ fields_body fs
  unfolding render field_trees fields_body
  render-field_trees [] = refl
  render-field_trees (f ∷ fs) = refl

  fields_text-render :
      (sb : Bytes) (fs : List FieldMeta) → fields_text sb fs ++ codes "]" ≡ sb ++ fields_body fs
  unfolding fields_text fields_body
  fields_text-render sb [] = refl
  fields_text-render sb (f ∷ fs) =
      more_fields_text-render (field_text sb f) fs
      ∙ ap (λ t. t ++ render_items (field_trees value fs)) (field_text-render sb f)
      ∙ append_assoc sb (render (field_tree value f)) (render_items (field_trees value fs))

  pub header_text-render :
      (fields : List FieldMeta) (payload_start file_size : ℕ) (crc_hex : Bytes)
      → header_text fields payload_start file_size crc_hex
        ≡ render (header_tree value (written_header fields payload_start file_size crc_hex))
  unfolding header_text header_tree render render_fields json_escape escape_chars escape_char
      decimal digits
  header_text-render fields payload_start file_size crc_hex =
      simp (fields_text-render, render-field_trees, append_assoc)

  -- When the minified print of the tree of the header fits its blocks (it is shorter than 2^62 - 1,
  -- and no digit is the last byte of a block of 64, 128, 256, ... bytes), build_header_json returns
  -- that print.
  pub build_header_json-render :
      (fields : List FieldMeta) (payload_start file_size : ℕ) (crc_hex : Bytes)
      → FitsBlocks
          (render (header_tree value (written_header fields payload_start file_size crc_hex)))
      → build_header_json fields payload_start file_size crc_hex
        ≡ ok (render (header_tree value (written_header fields payload_start file_size crc_hex)))
  build_header_json-render fields payload_start file_size crc_hex fits =
      let same = header_text-render fields payload_start file_size crc_hex in
      Built-ok (build_header_json-Built fields payload_start file_size crc_hex) (rw same fits)
      ∙ ap ok same
