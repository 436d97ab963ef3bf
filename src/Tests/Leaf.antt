-- ===== src/Tests/Leaf.antt =====
-- The theorem on the field of a leaf, applied at a concrete input.
use gbin.Prelude.{◌≡◌, refl, sym, arith, true, [], ◌∷◌, codes, ok}
use gbin.Word.{checked_mul_size}
use gbin.Value.Shape.{shape_numel, numel_loop, copy_shape_size_to_u64}
use gbin.Codec.Encode.{encode_value_bytes}
use gbin.Codec.Describe.{describe}
use gbin.Codec.RoundTrip.Whole.{IsLeaf}
use gbin.Payload.{ReadOptions, read_payload_bytes, compress_maybe, choose, read_field}
use gbin.Payload.Laws.{Restores, restores}
use gbin.Writer.{leaf_field}
use gbin.Writer.Leaf.{read_field-leaf_field}
use gbin.Tests.Writing.{copying, auto_crc, three_flags, flag_field}

copying-Restores : Restores copying
copying-Restores = restores λ level src comp e. sym e

three_flags-IsLeaf : IsLeaf three_flags
unfolding shape_numel numel_loop checked_mul_size
three_flags-IsLeaf = (
  3,
  record {
    shaped = record { dims_fit = (omega arith, (omega arith, tt)); numel = refl };
    count = refl;
  },
)

abbrev checking : ReadOptions
checking = record { validate = true }

read_field-leaf_field_example :
    read_field copying checking (9 ∷ 9 ∷ 1 ∷ 0 ∷ 1 ∷ []) 1 (record (flag_field.meta) { offset = 1 })
    ≡ ok three_flags
unfolding leaf_field encode_value_bytes compress_maybe choose describe copy_shape_size_to_u64
    read_payload_bytes
read_field-leaf_field_example =
    read_field-leaf_field copying auto_crc checking (codes "a.b") three_flags flag_field
      (9 ∷ 9 ∷ 1 ∷ 0 ∷ 1 ∷ []) 1 1 copying-Restores refl three_flags-IsLeaf refl (omega arith) refl
