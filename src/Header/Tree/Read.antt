-- ===== src/Header/Tree/Read.antt =====
-- parse_header_from_json reads the header off its tree.
use gbin.Prelude.{
  ℕ, suc, ◌+◌, ◌%◌, ◌^◌, ◌≡◌, refl, ap, ◌∙◌, arith, List, [], ◌∷◌, Option, some, All, IsCStr,
  length, ok,
}
use gbin.Word.{IsU32, IsU64}
use gbin.Json.{Json, array}
use gbin.Json.Access.{
  Floats, field_get, obj_get, items_size, array_size, items_get, array_get, as_cstr, as_u64,
  as_bool,
}
use gbin.Json.Access.Laws.{as_u64-decimal, as_u32-decimal}
use gbin.Header.{FieldMeta, Header}
use gbin.Header.Parse.{shape_from, parse_shape, parse_field, parse_fields_from, header_of}
use gbin.Header.Tree.{natural, dims, field_tree, field_trees, header_tree}

-- What the C types of a field hold, and no string with a NUL.
pub record IsField (f : FieldMeta) : Type 0 where
  pub name_is : IsCStr f.name
  pub kind_is : IsCStr f.kind
  pub class_is : IsCStr f.class_name
  pub encoding_is : IsCStr f.encoding
  pub compression_is : IsCStr f.compression
  pub shape_is : All IsU64 f.shape
  pub offset_is : IsU64 f.offset
  pub csize_is : IsU64 f.csize
  pub usize_is : IsU64 f.usize
  pub crc32_is : IsU32 f.crc32

pub record IsHeader (h : Header) : Type 0 where
  pub format_is : IsCStr h.format
  pub magic_is : IsCStr h.magic
  pub version_is : IsU32 h.version
  pub endianness_is : IsCStr h.endianness
  pub order_is : IsCStr h.order
  pub root_is : IsCStr h.root
  pub payload_start_is : IsU64 h.payload_start
  pub file_size_is : IsU64 h.file_size
  pub crc_is : IsCStr h.header_crc32_hex
  pub fields_are : All IsField h.fields

small : (n : ℕ) → IsU32 n → n % 2 ^ 32 ≡ n
small n h = omega arith

module _ {D : Type 0} (fl : Floats D) (value : ℕ → D) where
  as_u64-natural : (n d : ℕ) → IsU64 n → as_u64 fl (some (natural value n)) d ≡ n
  as_u64-natural n d h = (as_u64-decimal fl n (value n) d h).0

  items_size-dims : (ds : List ℕ) → items_size (dims value ds) ≡ length ds
  unfolding items_size dims
  items_size-dims [] = refl
  items_size-dims (d ∷ ds) = ap suc (items_size-dims ds)

  -- The loop from index i, where the elements from i on are the dimensions.
  shape_from-dims :
      (ds : List ℕ) (j : Option (Json D)) (i : ℕ)
      → All IsU64 ds
      → ((k : ℕ) → array_get j (i + k) ≡ items_get (dims value ds) k)
      → shape_from fl j i (length ds) ≡ ds
  unfolding shape_from dims items_get
  shape_from-dims [] j i h at_k = refl
  shape_from-dims (d ∷ ds) j i h at_k =
      let here : array_get j i ≡ some (natural value d) = ap (array_get j) (omega arith) ∙ at_k 0 in
      let rest : shape_from fl j (suc i) (length ds) ≡ ds =
        shape_from-dims ds j (suc i) h.1 λ k. ap (array_get j) (omega arith) ∙ at_k (suc k) in
      rw (here, as_u64-natural d 0 h.0, rest) refl

  parse_shape-dims :
      (ds : List ℕ) → All IsU64 ds → parse_shape fl (some (array (dims value ds))) ≡ ds
  unfolding parse_shape array_size array_get
  parse_shape-dims ds h = rw (items_size-dims ds) (
      shape_from-dims ds (some (array (dims value ds))) 0 h
        λ k. ap (items_get (dims value ds)) (omega arith))

  parse_field-tree :
      (i : ℕ) (f : FieldMeta) → IsField f → parse_field fl i (some (field_tree value f)) ≡ ok f
  unfolding parse_field field_tree obj_get field_get as_cstr as_bool
  parse_field-tree i f h =
      rw
        (
          parse_shape-dims f.shape h.shape_is,
          as_u64-natural f.offset 0 h.offset_is,
          as_u64-natural f.csize 0 h.csize_is,
          as_u64-natural f.usize 0 h.usize_is,
          as_u32-decimal fl f.crc32 (value f.crc32) 0 h.crc32_is,
        )
        refl

  items_size-field_trees : (fs : List FieldMeta) → items_size (field_trees value fs) ≡ length fs
  unfolding items_size field_trees
  items_size-field_trees [] = refl
  items_size-field_trees (f ∷ fs) = ap suc (items_size-field_trees fs)

  parse_fields_from-trees :
      (fs : List FieldMeta) (j : Option (Json D)) (i : ℕ)
      → All IsField fs
      → ((k : ℕ) → array_get j (i + k) ≡ items_get (field_trees value fs) k)
      → parse_fields_from fl j i (length fs) ≡ ok fs
  unfolding parse_fields_from field_trees items_get
  parse_fields_from-trees [] j i h at_k = refl
  parse_fields_from-trees (f ∷ fs) j i h at_k =
      let here : array_get j i ≡ some (field_tree value f) =
        ap (array_get j) (omega arith) ∙ at_k 0 in
      let rest : parse_fields_from fl j (suc i) (length fs) ≡ ok fs =
        parse_fields_from-trees fs j (suc i) h.1
          λ k. ap (array_get j) (omega arith) ∙ at_k (suc k) in
      rw (here, parse_field-tree i f h.0, rest) refl

  parse_fields-trees :
      (fs : List FieldMeta)
      → All IsField fs
      → parse_fields_from fl
          (some (array (field_trees value fs)))
          0
          (array_size (some (array (field_trees value fs))))
        ≡ ok fs
  unfolding array_size array_get
  parse_fields-trees fs h = rw (items_size-field_trees fs) (
      parse_fields_from-trees fs (some (array (field_trees value fs))) 0 h
        λ k. ap (items_get (field_trees value fs)) (omega arith))

  -- What the parser reads of the tree of a header is the header.
  pub header_of-tree : (h : Header) → IsHeader h → header_of fl (some (header_tree value h)) ≡ ok h
  unfolding header_of header_tree obj_get field_get as_cstr
  header_of-tree h w =
      rw
        (
          parse_fields-trees h.fields w.fields_are,
          as_u64-natural h.version 1 (omega (arith, w.version_is)),
          as_u64-natural h.payload_start 0 w.payload_start_is,
          as_u64-natural h.file_size 0 w.file_size_is,
        )
        (rw (small h.version w.version_is) refl)
