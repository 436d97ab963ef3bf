-- ===== src/Easy/Insert.antt =====
-- struct_insert_by_path of C/src/gbf_easy.c.
use gbin.Prelude.{
  true, false, [], ◌∷◌, ◌++◌, Option, none, some, Bytes, ◌==◌, is_empty, Result, ok, err,
}
use gbin.Error.{Error}
use gbin.Value.{Value, Entries, no_entries, struct}
use gbin.Value.Struct.{put, set_entry}
use gbin.Easy.{
  EasyError, invalid_insert_args, invalid_segment, leaf_failed, create_failed, hits_non_struct,
}
use gbin.Easy.Access.{struct_get}

-- The entries of the struct after a call, and the error that the call reports, if any.
abbrev pub Inserted : Type 0
Inserted = Entries × Option EasyError

abbrev with_leaf : Bytes → Entries → Result Error Entries → Inserted
with_leaf key old (ok es) = (es, none)
with_leaf key old (err e) = (old, some (leaf_failed key))

-- The struct that the walk goes into: the one that is there, or a new one.
unfoldable pub child_struct : Bytes → Entries → Option Value → Result EasyError Entries
child_struct key es none = elim (set_entry es key (struct no_entries)) [
  | ok _ ↦ ok no_entries
  | err e ↦ err (create_failed key)
]
child_struct key es (some (struct child)) = ok child
child_struct key es (some _) = err (hits_non_struct key)

-- The child is changed where it stands.
abbrev pub change_child : Bytes → Entries → Inserted → Inserted
change_child key es (child, e) = (put key (struct child) es, e)

abbrev pub walk_into : Bytes → Entries → (Entries → Inserted) → Result EasyError Entries → Inserted
walk_into key es rest (ok child) = change_child key es (rest child)
walk_into key es rest (err e) = (es, some e)

-- The loop from the struct with the entries `es`: `key` is what stands between p and the byte that is
-- looked at.
unfoldable pub insert_loop : Entries → Bytes → Bytes → Value → Inserted
unfolding child_struct
insert_loop es [] [] leaf = (es, some invalid_segment)
insert_loop es (k ∷ key) [] leaf = with_leaf (k ∷ key) es (set_entry es (k ∷ key) leaf)
insert_loop es key (c ∷ p) leaf = elim (c == b'.') [
  | true ↦ elim (is_empty key) [
    | true ↦ (es, some invalid_segment)
    | false ↦
        walk_into key es (λ child. insert_loop child [] p leaf)
          (child_struct key es (struct_get es key))
  ]
  | false ↦ insert_loop es (key ++ c ∷ []) p leaf
]

unfoldable pub struct_insert_by_path : Value → Bytes → Value → Value × Option EasyError
unfolding insert_loop
struct_insert_by_path (struct es) path leaf =
    let (es', e) = insert_loop es [] path leaf in (struct es', e)
struct_insert_by_path v path leaf = (v, some invalid_insert_args)
