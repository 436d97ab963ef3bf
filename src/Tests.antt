-- ===== src/Tests.antt =====
-- The theorems on the values, the words, the string buffer and the codec, applied at concrete inputs.
mod Files
mod Making
mod Headers
mod Layer
mod ReadBack
mod Matrix
mod Rebuild
mod Leaf
mod Writing
use gbin.Prelude.{
  ℕ, ◌*◌, ◌+◌, ◌%◌, ◌^◌, ◌≡◌, ◌≤◌, refl, arith, ◌⊎◌, inl, inr, Bool, true, false, List, [], ◌∷◌,
  ◌++◌, Option, none, some, Bytes, codes, All, ok, length, str_eq, if◌then◌else◌, leb, ◌<◌,
  replicate,
}
use gbin.Word.{size_max, store_le_u32, store_le_u64, le_u32, le_u64, checked_mul_size}
use gbin.Word.Endian.{le_u32-store_le_u32, le_u64-store_le_u64, store_le_u32-le_u32}
use gbin.Word.Size.{checked_mul_size_lem}
use gbin.Strbuf.{StrBuf, Heap, Run, overrun, init, grow, grow_fuel, append_mem, append_fmt}
use gbin.Strbuf.Append.{IsValid, Appended, append_mem-Appended, init-IsValid}
use gbin.Strbuf.Growth.{grow_fuel_suffices}
use gbin.Strbuf.Overrun.{append_fmt_overruns}
use gbin.Value.{
  Value, struct, numeric, opaque, NumericArray, NumericClass, int16, double, Entries, no_entries,
  entry,
}
use gbin.Value.Class.{
  bytes_per_elem, numeric_class_name, parse_numeric_class, parse_numeric_class-numeric_class_name,
}
use gbin.Value.Shape.{product, shape_numel, numel_loop, shape_numel_sound, shape_numel_complete}
use gbin.Value.Struct.{find, put, set_entry, find-put, HasDistinctKeys, put-HasDistinctKeys}
use gbin.Value.Path.{split_path, split_loop, struct_insert_path, insert_parts, step_into}
use gbin.Value.Laws.{lookup_path, struct_insert_path-found, struct_insert_path-frame}
use gbin.Value.Split.{join_dots, NoDot, split_path_lem}
use gbin.Header.{FieldMeta}
use gbin.Codec.Encode.{encode_value_bytes}
use gbin.Codec.Decode.{decode_field_value, decode_numeric}
use gbin.Codec.Describe.{describe, described}
use gbin.Codec.RoundTrip.Shaped.{IsShaped, IsNumeric}
use gbin.Codec.RoundTrip.Whole.{decode_field_value-encode_value_bytes}
use gbin.Codec.Overflow.{decode_numeric_wraps}

abbrev double_field : FieldMeta
double_field = record {
  name = codes "a.b";
  kind = codes "numeric";
  class_name = codes "double";
  shape = 2 ^ 61 ∷ [];
  complex = false;
  encoding = [];
  compression = codes "none";
  offset = 0;
  csize = 0;
  usize = 0;
  crc32 = 0;
}

-- A 2 by 1 complex array of int16.
abbrev two_int16 : NumericArray
two_int16 = record {
  class_id = int16;
  shape = 2 ∷ 1 ∷ [];
  complex = true;
  real_le = 1 ∷ 0 ∷ 255 ∷ 255 ∷ [];
  imag_le = 7 ∷ 0 ∷ 0 ∷ 128 ∷ [];
}

two_int16-IsNumeric : IsNumeric two_int16 2
unfolding shape_numel numel_loop checked_mul_size bytes_per_elem
two_int16-IsNumeric = record {
  shaped = record { dims_fit = (omega arith, (omega arith, tt)); numel = refl };
  size_fits = omega arith;
  real_size = refl;
  imag_size = λ h. refl;
  imag_absent = λ h. cc;
}

decode_field_value-encode_value_bytes_example :
    (bytes : Bytes) × (encode_value_bytes (numeric two_int16) ≡ ok bytes)
    × (decode_field_value (described (describe (numeric two_int16)) double_field) bytes
        ≡ ok (numeric two_int16))
decode_field_value-encode_value_bytes_example =
    decode_field_value-encode_value_bytes double_field (numeric two_int16) (2, two_int16-IsNumeric)

decode_numeric_wraps_example :
    decode_numeric double_field (2 ^ 61 ∷ []) (2 ^ 61) []
    ≡ ok (
        numeric (record {
          class_id = double;
          shape = 2 ^ 61 ∷ [];
          complex = false;
          real_le = [];
          imag_le = [];
        }))
unfolding parse_numeric_class bytes_per_elem
decode_numeric_wraps_example =
    decode_numeric_wraps double_field (2 ^ 61 ∷ []) (2 ^ 61) [] double refl refl refl

abbrev one_entry : Entries
one_entry = entry (codes "a") (struct no_entries) no_entries

abbrev leaf : Value
leaf = numeric two_int16

put-HasDistinctKeys_example : HasDistinctKeys (put (codes "b") leaf one_entry)
unfolding find
put-HasDistinctKeys_example = put-HasDistinctKeys (codes "b") leaf one_entry (refl, tt)

struct_insert_path-found_example :
    lookup_path
      (split_path (codes "a.b"))
      (struct_insert_path (struct one_entry) (codes "a.b") leaf).0
    ≡ some leaf
unfolding struct_insert_path insert_parts split_path split_loop step_into set_entry find
struct_insert_path-found_example = struct_insert_path-found one_entry (codes "a.b") leaf refl

struct_insert_path-frame_example :
    lookup_path
      (split_path (codes "a.c"))
      (struct_insert_path (struct one_entry) (codes "a.b") leaf).0
    ≡ lookup_path (split_path (codes "a.c")) (struct one_entry)
unfolding split_path split_loop
struct_insert_path-frame_example =
    struct_insert_path-frame one_entry (codes "a.b") (codes "a.c") leaf (inr (refl, inl refl))

split_path_lem_example :
    (join_dots (split_path (codes "a..b")) ≡ codes "a..b") × All NoDot (split_path (codes "a..b"))
split_path_lem_example = split_path_lem (codes "a..b")

shape_numel_sound_example : (6 ≡ product (2 ∷ 3 ∷ [])) × (6 ≤ size_max)
unfolding shape_numel numel_loop checked_mul_size
shape_numel_sound_example = shape_numel_sound 2 (3 ∷ []) {m = 6} refl

shape_numel_complete_example : shape_numel (2 ∷ 3 ∷ []) ≡ some (product (2 ∷ 3 ∷ []))
unfolding product
shape_numel_complete_example =
    shape_numel_complete 2 (3 ∷ []) (omega arith, (omega arith, tt)) (omega arith)

checked_mul_size_lem_example :
    checked_mul_size (2 ^ 32) (2 ^ 32)
    ≡ (if leb (2 ^ 32 * 2 ^ 32) size_max then some (2 ^ 32 * 2 ^ 32) else none)
checked_mul_size_lem_example = checked_mul_size_lem (2 ^ 32) (2 ^ 32)

grow_fuel_suffices_example :
    (c : ℕ) × (grow grow_fuel 64 1000 ≡ some c)
    × (1000 ≤ c)
    × (64 ≤ c)
    × ((c ≡ 64) ⊎ (c < 2 * 1000))
grow_fuel_suffices_example = grow_fuel_suffices 64 1000 (omega arith) (omega arith)

-- A heap that grants every block and fills it with 170.
abbrev generous : Heap
generous = record { alloc = λ n. true; fresh = λ n. 170 }

append_mem-Appended_example :
    Appended generous init (codes "abc") (append_mem generous init (codes "abc"))
unfolding init
append_mem-Appended_example =
    append_mem-Appended generous init (codes "abc") init-IsValid (omega arith)

-- A buffer of 64 bytes with room for three more.
abbrev nearly_full : StrBuf
nearly_full = record { block = replicate 64 97; len = 61; cap = 64 }

append_fmt_overruns_example : append_fmt generous nearly_full (codes "abc") ≡ overrun
append_fmt_overruns_example =
    append_fmt_overruns generous nearly_full (codes "abc")
      (record { block_size = refl; within = omega arith; cap_size = inr (omega arith) })
      (omega arith) refl
