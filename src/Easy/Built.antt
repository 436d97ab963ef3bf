-- ===== src/Easy/Built.antt =====
-- The struct that gbf_easy_write_file of C/src/gbf_easy.c builds of its entries.
use gbin.Prelude.{
  true, List, [], ◌∷◌, ◌++◌, map, Option, none, some, Bytes, ◌==◌, is_empty, All, ◌≡◌, refl, ap,
  ◌∙◌, Bool-cases, inl, inr, Result, ok, err,
}
use mathlib.Core.Option.{some-ne-none}
use gbin.Value.{Value, Entries, struct}
use gbin.Value.Path.{split_loop, split_path, struct_insert_path}
use gbin.Value.Laws.{lookup_path, Apart, struct_insert_path-found, struct_insert_path-frame}
use gbin.Easy.{EasyError, Entry}
use gbin.Easy.Access.{struct_get, get}
use gbin.Easy.Insert.{walk_into, Inserted, child_struct, insert_loop, struct_insert_by_path}
use gbin.Easy.Paths.{IsSegmented, get-lookup_path, Agree, struct_insert_by_path-Agree}
use gbin.Error.{Error}
use gbin.Easy.File.{after_insert, Building, add_entry, add_entries}

walk_into-succeeds :
    (key : Bytes) (es : Entries) (f : Entries → Inserted) (r : Result EasyError Entries)
    → (walk_into key es f r).1 ≡ none
    → (child : Entries) × ((f child).1 ≡ none)
walk_into-succeeds key es f (ok child) h = (child, h)
walk_into-succeeds key es f (err e) h = absurd (some-ne-none e h)

-- An insertion that reports no error has met no empty segment.
insert_loop-IsSegmented :
    (es : Entries) (key p : Bytes) (leaf : Value)
    → (insert_loop es key p leaf).1 ≡ none
    → IsSegmented (split_loop key p)
unfolding insert_loop split_loop
insert_loop-IsSegmented es [] [] leaf h = cc
insert_loop-IsSegmented es (k ∷ key) [] leaf h = (refl, tt)
insert_loop-IsSegmented es key (c ∷ p) leaf h = elim (Bool-cases (c == b'.')) [
  | inr other ↦
      rw (split_loop, other)
        (insert_loop-IsSegmented es (key ++ c ∷ []) p leaf (rw (insert_loop, other) at h))
  | inl dot ↦ elim (Bool-cases (is_empty key)) [
    | inl empty ↦ absurd (some-ne-none _ (rw (insert_loop, dot, empty) at h))
    | inr filled ↦
        let (child, e) =
          walk_into-succeeds key es (λ t. insert_loop t [] p leaf)
            (child_struct key es (struct_get es key)) (rw (insert_loop, dot, filled) at h) in
        rw (split_loop, dot) (filled, insert_loop-IsSegmented child [] p leaf e)
  ]
]

by_path-IsSegmented :
    (root : Value) (path : Bytes) (leaf : Value)
    → (struct_insert_by_path root path leaf).1 ≡ none
    → IsSegmented (split_path path)
unfolding struct_insert_by_path split_path
by_path-IsSegmented (struct es) path leaf h = insert_loop-IsSegmented es [] path leaf h
by_path-IsSegmented _ path leaf h = cc

-- What the insertion of gbf.c does where that of gbf_easy.c reports no error.
Agree-done :
    (i : Value × Option EasyError) (j : Value × Option Error)
    → Agree i j
    → i.1 ≡ none
    → (i.0 ≡ j.0) × (j.1 ≡ none)
Agree-done (v, none) (w, none) a h = (a, refl)
Agree-done (v, none) (w, some x) a h = absurd a
Agree-done (v, some e) j a h = absurd (some-ne-none e h)

by_path_done :
    (root : Value) (path : Bytes) (leaf : Value)
    → (struct_insert_by_path root path leaf).1 ≡ none
    → ((struct_insert_by_path root path leaf).0 ≡ (struct_insert_path root path leaf).0)
      × ((struct_insert_path root path leaf).1 ≡ none)
by_path_done root path leaf h =
    Agree-done (struct_insert_by_path root path leaf) (struct_insert_path root path leaf)
      (struct_insert_by_path-Agree root path leaf (by_path-IsSegmented root path leaf h)) h

by_path-found :
    (root : Value) (path : Bytes) (leaf : Value)
    → (struct_insert_by_path root path leaf).1 ≡ none
    → lookup_path (split_path path) (struct_insert_by_path root path leaf).0 ≡ some leaf
by_path-found (struct es) path leaf h =
    let (same, done) = by_path_done (struct es) path leaf h in
    ap (lookup_path (split_path path)) same ∙ struct_insert_path-found es path leaf done
by_path-found _ path leaf h = unfold struct_insert_by_path in cc

by_path-frame :
    (root : Value) (path q : Bytes) (leaf : Value)
    → (struct_insert_by_path root path leaf).1 ≡ none
    → Apart (split_path path) (split_path q)
    → lookup_path (split_path q) (struct_insert_by_path root path leaf).0
      ≡ lookup_path (split_path q) root
by_path-frame (struct es) path q leaf h a =
    ap (lookup_path (split_path q)) (by_path_done (struct es) path leaf h).0
    ∙ struct_insert_path-frame es path q leaf a
by_path-frame _ path q leaf h a = unfold struct_insert_by_path in refl

-- After an insertion by path that reports no error, gbf_easy_get finds the leaf at the path.
pub get-struct_insert_by_path :
    (root : Value) (path : Bytes) (leaf : Value)
    → (struct_insert_by_path root path leaf).1 ≡ none
    → get (some (struct_insert_by_path root path leaf).0) (some path) ≡ some leaf
get-struct_insert_by_path root path leaf h =
    get-lookup_path (struct_insert_by_path root path leaf).0 path
      (by_path-IsSegmented root path leaf h)
    ∙ by_path-found root path leaf h

-- An entry with a name and a value.
abbrev pub named : Bytes × Value → Entry
named (name, v) = record { name = some name; value = some v }

inserted_done :
    (b : Building) (i : Value × Option EasyError)
    → (after_insert b i).fine ≡ true
    → ((after_insert b i).root ≡ i.0) × (i.1 ≡ none)
inserted_done b (root, none) h = (refl, refl)
inserted_done b (root, some e) h = cc

add_entry-fine :
    (b : Building) (name : Bytes) (o : Option Value)
    → (add_entry b name o).fine ≡ true
    → b.fine ≡ true
unfolding add_entry
add_entry-fine b name none h = cc
add_entry-fine b name (some v) h = kept b (struct_insert_by_path b.root name v) h
  where
    kept :
        (b : Building) (i : Value × Option EasyError)
        → (after_insert b i).fine ≡ true
        → b.fine ≡ true
    kept b (root, none) h = h
    kept b (root, some e) h = cc

-- ok stays 0 once it is.
add_entries-fine :
    (b : Building) (es : List (Bytes × Value))
    → (add_entries b (map named es)).fine ≡ true
    → b.fine ≡ true
unfolding add_entries
add_entries-fine b [] h = h
add_entries-fine b (e ∷ es) h =
    add_entry-fine b e.0 (some e.1) (add_entries-fine (add_entry b e.0 (some e.1)) es h)

add_entry_done :
    (b : Building) (name : Bytes) (v : Value)
    → (add_entry b name (some v)).fine ≡ true
    → ((add_entry b name (some v)).root ≡ (struct_insert_by_path b.root name v).0)
      × ((struct_insert_by_path b.root name v).1 ≡ none)
unfolding add_entry
add_entry_done b name v h = inserted_done b (struct_insert_by_path b.root name v) h

-- The paths of the entries are apart from `q`.
abbrev pub ApartFrom : Bytes → List (Bytes × Value) → Type 0
ApartFrom q es = All (λ e. Apart (split_path e.0) (split_path q)) es

-- No path is a prefix of a later one, or prefixed by it.
abbrev pub PairwiseApart : List (Bytes × Value) → Type 0
PairwiseApart [] = Unit
PairwiseApart (e ∷ es) = ApartFrom e.0 es × PairwiseApart es

add_entries-frame :
    (b : Building) (es : List (Bytes × Value)) (q : Bytes)
    → (add_entries b (map named es)).fine ≡ true
    → ApartFrom q es
    → lookup_path (split_path q) (add_entries b (map named es)).root
      ≡ lookup_path (split_path q) b.root
unfolding add_entries
add_entries-frame b [] q h a = refl
add_entries-frame b (e ∷ es) q h a =
    let b' = add_entry b e.0 (some e.1) in
    let (root_is, done) = add_entry_done b e.0 e.1 (add_entries-fine b' es h) in
    add_entries-frame b' es q h a.1
    ∙ ap (lookup_path (split_path q)) root_is
    ∙ by_path-frame b.root e.0 q e.1 done a.0

-- Where the loop over entries with names and values reports no error, and no path is a prefix of a
-- later one or prefixed by it, gbf_easy_get finds every value at the path of its entry.
pub add_entries-found :
    (b : Building) (es : List (Bytes × Value))
    → (add_entries b (map named es)).fine ≡ true
    → PairwiseApart es
    → All (λ e. get (some (add_entries b (map named es)).root) (some e.0) ≡ some e.1) es
unfolding add_entries
add_entries-found b [] h a = tt
add_entries-found b (e ∷ es) h a =
    let b' = add_entry b e.0 (some e.1) in
    let (root_is, done) = add_entry_done b e.0 e.1 (add_entries-fine b' es h) in
    (
      get-lookup_path (add_entries b' (map named es)).root e.0
            (by_path-IsSegmented b.root e.0 e.1 done)
          ∙ add_entries-frame b' es e.0 h a.0
          ∙ ap (lookup_path (split_path e.0)) root_is
          ∙ by_path-found b.root e.0 e.1 done,
      add_entries-found b' es h a.1,
    )
