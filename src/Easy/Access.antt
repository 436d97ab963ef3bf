-- ===== src/Easy/Access.antt =====
-- Navigation and typed views of C/src/gbf_easy.c: gbf_easy_struct_get, gbf_easy_get and gbf_easy_as_*. A
-- borrowed pointer is the value that it points to.
use gbin.Prelude.{
  true, false, [], ◌∷◌, ◌++◌, Option, none, some, Bytes, ◌==◌, is_empty, if◌then◌else◌, str_eq,
}
use gbin.Value.{
  Value, Entries, no_entries, entry, struct, numeric, logical, string, char, NumericArray,
  LogicalArray, StringArray, CharArray,
}

-- gbf_easy_struct_get and gbf_easy_struct_get_mut.
unfoldable pub struct_get : Entries → Bytes → Option Value
struct_get no_entries key = none
struct_get (entry k v es) key = if str_eq k key then some v else struct_get es key

-- The value of the key in a value: none of a value that is no struct.
unfoldable pub next_value : Value → Bytes → Option Value
unfolding struct_get
next_value (struct es) key = if is_empty key then none else struct_get es key
next_value _ key = none

abbrev pub go_into : (Value → Option Value) → Option Value → Option Value
go_into rest none = none
go_into rest (some v) = rest v

-- The loop of gbf_easy_get: `key` is what stands between seg_start and the byte that is looked at. A
-- path that ends where a segment would start ends the loop.
unfoldable pub get_loop : Value → Bytes → Bytes → Option Value
unfolding next_value
get_loop cur [] [] = some cur
get_loop cur (k ∷ key) [] = next_value cur (k ∷ key)
get_loop cur key (c ∷ p) = elim (c == b'.') [
  | true ↦ go_into (λ next. get_loop next [] p) (next_value cur key)
  | false ↦ get_loop cur (key ++ c ∷ []) p
]

unfoldable pub get : Option Value → Option Bytes → Option Value
unfolding get_loop
get none dot_path = none
get (some root) none = some root
get (some root) (some dot_path) = get_loop root [] dot_path

unfoldable pub as_numeric : Option Value → Option NumericArray
as_numeric (some (numeric a)) = some a
as_numeric _ = none

unfoldable pub as_logical : Option Value → Option LogicalArray
as_logical (some (logical a)) = some a
as_logical _ = none

unfoldable pub as_string : Option Value → Option StringArray
as_string (some (string a)) = some a
as_string _ = none

unfoldable pub as_char : Option Value → Option CharArray
as_char (some (char a)) = some a
as_char _ = none
