-- ===== src/Value/Struct.antt =====
-- The entries of a struct: struct_find, struct_get_child and gbf_struct_set of C/src/gbf.c.
use gbin.Prelude.{
  ◌>>=◌, ◌≡◌, refl, arith, Bytes, Option, none, some, str_eq, str_eq_iff, is_empty, if◌then◌else◌,
  Result, ok, err,
}
use gbin.Error.{Error, target_not_struct, empty_key, child_null}
use gbin.Value.{Value, struct, Entries, no_entries, entry}

-- The value of the first entry with the key; struct_find and struct_get_child search alike.
unfoldable pub find : Bytes → Entries → Option Value
find key no_entries = none
find key (entry k v es) = if str_eq k key then some v else find key es

-- Replace the first entry with the key, or add one at the end.
unfoldable pub put : Bytes → Value → Entries → Entries
put key child no_entries = entry key child no_entries
put key child (entry k v es) =
    if str_eq k key then entry key child es else entry k v (put key child es)

-- gbf_struct_set where its pointers are not NULL: the entries after the call, or the error.
unfoldable pub set_entry : Entries → Bytes → Value → Result Error Entries
set_entry es key child = if is_empty key then err empty_key else ok (put key child es)

unfoldable pub struct_set : Option Value → Bytes → Option Value → Result Error Value
struct_set (some (struct es)) key (some child) = do es' ← set_entry es key child; ok (struct es')
struct_set (some (struct es)) key none = if is_empty key then err empty_key else err child_null
struct_set _ key child = err target_not_struct

-- Looking a key up after a write gives the value written, and other keys keep theirs.
pub find-put :
    (j key : Bytes) (child : Value) (es : Entries)
    → find j (put key child es) ≡ (if str_eq key j then some child else find j es)
unfolding find put
find-put j key child no_entries = refl
find-put j key child (entry k v es) =
    ground (arith, str_eq_iff k key, str_eq_iff k j, str_eq_iff key j, find-put j key child es)

-- The keys of the entries are pairwise different.
abbrev pub HasDistinctKeys : Entries → Type 0
HasDistinctKeys no_entries = Unit
HasDistinctKeys (entry k v es) = (find k es ≡ none) × HasDistinctKeys es

-- A write keeps the keys of a struct pairwise different.
pub put-HasDistinctKeys :
    (key : Bytes) (child : Value) (es : Entries)
    → HasDistinctKeys es
    → HasDistinctKeys (put key child es)
unfolding put find
put-HasDistinctKeys key child no_entries h = (refl, tt)
put-HasDistinctKeys key child (entry k v es) h = ground (
  arith,
  str_eq_iff k key,
  str_eq_iff key k,
  find-put k key child es,
  put-HasDistinctKeys key child es,
)
