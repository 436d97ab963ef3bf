-- ===== src/Tests/Layer.antt =====
-- The theorems on the layer of entries, applied at concrete inputs.
use gbin.Prelude.{
  ◌≡◌, refl, arith, true, false, [], ◌∷◌, ◌++◌, map, Option, none, some, Bytes, codes, ok, err,
  List, Result, inl, inr,
}
use gbin.Value.{Value, struct, no_entries, entry, numeric, uint8, double}
use gbin.Value.Path.{split_path, split_loop, struct_insert_path}
use gbin.Value.Struct.{put, set_entry}
use gbin.Value.Laws.{lookup_path}
use gbin.Value.Shape.{product}
use gbin.Value.Make.{new_numeric_from_bytes}
use gbin.Easy.{elem_size, EasyError, copied, taken, row_major, col_major}
use gbin.Easy.Order.{to_col_major_bytes}
use gbin.Easy.Order.Whole.{Stored, to_col_major_bytes-Stored}
use gbin.Word.{checked_mul_size}
use gbin.Easy.Shape.{shape_total_bytes_checked, shape_numel_checked, checked_loop}
use gbin.Easy.Make.{f64_nd, typed_nd, numeric_bytes_nd, numeric_bytes, check_imag, imag_kept}
use gbin.Easy.Make.Accepts.{numeric_bytes_nd-new_numeric}
use gbin.Easy.Make.Typed.{HoldsNumbers, f64_nd-HoldsNumbers, f64_nd-Ownership}
use gbin.Easy.Access.{get, struct_get}
use gbin.Writer.{write_file}
use gbin.Header.Build.{build_header_json, append_escaped}
use gbin.Strbuf.{grow}
use gbin.Strbuf.Content.{append_bytes, append_text, append_printed, cap_for, put_text}
use gbin.Header.FixedPoint.{fixed_point}
use gbin.Codec.Describe.{describe}
use gbin.Json.Text.{json_escape, escape_chars, escape_char}
use gbin.Json.Crc.{crc_hex8}
use gbin.Libc.{decimal, digits}
use gbin.Easy.Insert.{struct_insert_by_path}
use gbin.Easy.Paths.{get-lookup_path, Agree, struct_insert_by_path-Agree}
use gbin.Easy.Built.{named}
use gbin.Easy.File.{easy_write_file}
use gbin.Easy.Written.{
  WrittenOf, easy_write_file-WrittenOf, easy_write_file-null_value, easy_write_file-ends, entry_of,
}
use gbin.Tests.Writing.{copying, auto_crc, three_flags}

-- The rows 1 2 3 and 4 5 6 of two-byte numbers, on a big-endian host.
abbrev six : Bytes
six = 0 ∷ 1 ∷ 0 ∷ 2 ∷ 0 ∷ 3 ∷ 0 ∷ 4 ∷ 0 ∷ 5 ∷ 0 ∷ 6 ∷ []

to_col_major_bytes-Stored_example :
    Stored false row_major
      (2 ∷ 3 ∷ [])
      2
      six
      (to_col_major_bytes false six 2 (2 ∷ 3 ∷ []) row_major)
unfolding product
to_col_major_bytes-Stored_example =
    to_col_major_bytes-Stored false row_major 2 six 2 (3 ∷ []) (omega arith)
      (omega arith, (omega arith, tt)) (omega arith) (omega arith)

abbrev two_doubles : Bytes
two_doubles = 1 ∷ 2 ∷ 3 ∷ 4 ∷ 5 ∷ 6 ∷ 7 ∷ 8 ∷ 9 ∷ 10 ∷ 11 ∷ 12 ∷ 13 ∷ 14 ∷ 15 ∷ 16 ∷ []

f64_nd-HoldsNumbers_example :
    HoldsNumbers true col_major double
      (codes "x")
      (2 ∷ 1 ∷ [])
      two_doubles
      (f64_nd true (some (codes "x")) (some two_doubles) (2 ∷ 1 ∷ []) col_major taken)
unfolding product elem_size
f64_nd-HoldsNumbers_example =
    f64_nd-HoldsNumbers true col_major taken (codes "x") 2 (1 ∷ []) two_doubles
      (omega arith, (omega arith, tt)) (omega arith) (omega arith)

f64_nd-Ownership_example :
    f64_nd true (some (codes "x")) (some two_doubles) (2 ∷ 1 ∷ []) col_major taken
    ≡ f64_nd true (some (codes "x")) (some two_doubles) (2 ∷ 1 ∷ []) col_major copied
f64_nd-Ownership_example =
    f64_nd-Ownership true (some (codes "x")) (some two_doubles) (2 ∷ 1 ∷ []) col_major

abbrev two_bytes : Value
two_bytes = numeric (record {
  class_id = uint8;
  shape = 1 ∷ 2 ∷ [];
  complex = true;
  real_le = 7 ∷ 8 ∷ [];
  imag_le = 9 ∷ 10 ∷ [];
})

numeric_bytes_nd-new_numeric_example :
    new_numeric_from_bytes uint8 (1 ∷ 2 ∷ []) true (7 ∷ 8 ∷ []) (some (9 ∷ 10 ∷ [])) ≡ ok two_bytes
unfolding numeric_bytes_nd numeric_bytes elem_size check_imag imag_kept shape_total_bytes_checked
    shape_numel_checked checked_loop checked_mul_size
numeric_bytes_nd-new_numeric_example =
    numeric_bytes_nd-new_numeric (some (codes "x")) uint8 (1 ∷ 2 ∷ []) true (7 ∷ 8 ∷ [])
      (some (9 ∷ 10 ∷ [])) copied two_bytes refl

abbrev nested_root : Value
nested_root =
    struct (entry (codes "a") (struct (entry (codes "b") three_flags no_entries)) no_entries)

get-lookup_path_example :
    get (some nested_root) (some (codes "a.b")) ≡ lookup_path (split_path (codes "a.b")) nested_root
unfolding split_path split_loop
get-lookup_path_example = get-lookup_path nested_root (codes "a.b") (refl, (refl, tt))

struct_insert_by_path-Agree_example :
    Agree
      (struct_insert_by_path nested_root (codes "a.c.d") two_bytes)
      (struct_insert_path nested_root (codes "a.c.d") two_bytes)
unfolding split_path split_loop
struct_insert_by_path-Agree_example =
    struct_insert_by_path-Agree nested_root (codes "a.c.d") two_bytes (refl, (refl, (refl, tt)))

abbrev file_or : Result (Option EasyError) Bytes → Bytes
file_or (ok file) = file
file_or (err e) = []

abbrev empties : List (Bytes × Value)
empties = (codes "a.b", struct no_entries) ∷ (codes "a.c", struct no_entries) ∷ []

easy_write_file-WrittenOf_example :
    WrittenOf copying auto_crc
      (codes "f")
      empties
      (file_or (easy_write_file copying auto_crc (some (codes "f")) none (map named empties)))
unfolding split_path split_loop easy_write_file struct_insert_by_path struct_get set_entry put
    write_file build_header_json describe json_escape escape_chars escape_char decimal digits
    fixed_point crc_hex8 append_bytes append_escaped append_text append_printed cap_for put_text
    grow
easy_write_file-WrittenOf_example =
    easy_write_file-WrittenOf copying auto_crc (codes "f") none empties _
      ((inr (refl, inl refl), tt), (tt, tt)) refl

easy_write_file-null_value_example :
    (e : EasyError) × (easy_write_file copying auto_crc (some (codes "f")) none (
        map entry_of ((codes "a", some three_flags) ∷ [])
        ++ record { name = some (codes "b"); value = none } ∷ [])
      ≡ err (some e))
easy_write_file-null_value_example =
    easy_write_file-null_value copying auto_crc (codes "f") none
      ((codes "a", some three_flags) ∷ []) (codes "b") []

easy_write_file-ends_example :
    easy_write_file copying auto_crc (some (codes "f")) none (
      []
      ++ (f64_nd true none none [] col_major copied).0
        ∷ record { name = some (codes "a"); value = some three_flags }
        ∷ [])
    ≡ easy_write_file copying auto_crc (some (codes "f")) none []
unfolding f64_nd typed_nd
easy_write_file-ends_example =
    easy_write_file-ends copying auto_crc (codes "f") none []
      (record { name = some (codes "a"); value = some three_flags } ∷ []) none
