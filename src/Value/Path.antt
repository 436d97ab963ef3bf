-- ===== src/Value/Path.antt =====
-- Dotted paths: split_path and struct_insert_path of C/src/gbf.c.
use gbin.Prelude.{
  Bytes, List, [], ◌∷◌, ◌++◌, Option, none, some, true, false, ◌==◌, is_empty, if◌then◌else◌,
  Result, ok, err,
}
use gbin.Error.{Error, root_not_struct, empty_path, path_collision, bad_path}
use gbin.Value.{Value, struct, Entries, no_entries}
use gbin.Value.Struct.{find, put, set_entry}

-- The loop of split_path: `part` is what stands between `start` and `p`.
unfoldable pub split_loop : Bytes → Bytes → List Bytes
split_loop part [] = part ∷ []
split_loop part (c ∷ s) = elim (c == b'.') [
  | true ↦ part ∷ split_loop [] s
  | false ↦ split_loop (part ++ c ∷ []) s
]

unfoldable pub split_path : Bytes → List Bytes
unfolding split_loop
split_path path = split_loop [] path

-- The state of the root after a call, and the error that the call reports, if any.
abbrev pub Inserted : Type 0
Inserted = Entries × Option Error

abbrev set_last : Entries → Result Error Entries → Inserted
set_last old (ok es) = (es, none)
set_last old (err e) = (old, some e)

-- Put back the child that the walk has changed.
abbrev pub put_child : Bytes → Entries → Inserted → Inserted
put_child key es (child, e) = (put key (struct child) es, e)

-- The child that the walk goes into: the one that is there, or a new struct.
unfoldable pub step_into : Bytes → Entries → Option Value → Result Error Entries
step_into key es none = elim (set_entry es key (struct no_entries)) [
  | ok _ ↦ ok no_entries
  | err e ↦ err e
]
step_into key es (some (struct child)) = ok child
step_into key es (some _) = err (path_collision key)

abbrev pub go_on : Bytes → Entries → (Entries → Inserted) → Result Error Entries → Inserted
go_on key es rest (ok child) = put_child key es (rest child)
go_on key es rest (err e) = (es, some e)

-- The walk from the struct with the entries `es`. An empty list of parts does not arise.
unfoldable pub insert_parts : Entries → List Bytes → Value → Inserted
insert_parts es [] leaf = (es, some bad_path)
insert_parts es (key ∷ []) leaf = set_last es (set_entry es key leaf)
insert_parts es (key ∷ next ∷ parts) leaf =
    go_on key es (λ child. insert_parts child (next ∷ parts) leaf) (step_into key es (find key es))

unfoldable pub struct_insert_path : Value → Bytes → Value → Value × Option Error
struct_insert_path (struct es) path leaf =
    if is_empty path
    then (struct es, some empty_path)
    else (let (es', e) = insert_parts es (split_path path) leaf in (struct es', e))
struct_insert_path v path leaf = (v, some root_not_struct)
