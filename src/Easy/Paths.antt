-- ===== src/Easy/Paths.antt =====
-- The paths of C/src/gbf_easy.c against those of C/src/gbf.c.
use gbin.Prelude.{
  false, List, [], ◌∷◌, ◌++◌, Option, none, some, ℕ, Option-cases, Bytes, ◌==◌, is_empty, All, ◌≡◌,
  refl, sym, ◌∙◌, Bool-cases, inl, inr,
}
use gbin.Error.{Error}
use gbin.Value.{Value, Entries, no_entries, entry, struct}
use gbin.Value.Struct.{find, put, set_entry}
use gbin.Value.Path.{
  put_child, go_on, split_loop, split_path, insert_parts, step_into, struct_insert_path,
}
use gbin.Value.Split.{split_loop_cons}
use gbin.Value.Laws.{lookup_path}
use gbin.Easy.{EasyError}
use gbin.Easy.Access.{go_into, struct_get, next_value, get_loop, get}
use gbin.Easy.Insert.{child_struct, change_child, walk_into, insert_loop, struct_insert_by_path}

pub struct_get-find : (es : Entries) (key : Bytes) → struct_get es key ≡ find key es
unfolding struct_get find
struct_get-find no_entries key = refl
struct_get-find (entry k v es) key = rw (struct_get-find es key) refl

-- A path whose segments are not empty.
abbrev pub IsSegmented : List Bytes → Type 0
IsSegmented parts = All (λ p. is_empty p ≡ false) parts

lookup_path-cons :
    (key : Bytes) (parts : List Bytes) (v : Value)
    → is_empty key ≡ false
    → lookup_path (key ∷ parts) v ≡ go_into (lookup_path parts) (next_value v key)
unfolding lookup_path next_value
lookup_path-cons [] parts v h = cc
lookup_path-cons (k ∷ key) parts (struct es) h = elim (Option-cases (find (k ∷ key) es)) [
  | inl missing ↦ rw (struct_get-find es (k ∷ key), missing) refl
  | inr (v, found) ↦ rw (struct_get-find es (k ∷ key), found) refl
]
lookup_path-cons (k ∷ key) parts _ h = refl

go_into-ext :
    (f g : Value → Option Value) (o : Option Value)
    → ((v : Value) → f v ≡ g v)
    → go_into f o ≡ go_into g o
go_into-ext f g none h = refl
go_into-ext f g (some v) h = h v

next_value-lookup :
    (v : Value) (key : Bytes) → is_empty key ≡ false → next_value v key ≡ lookup_path (key ∷ []) v
unfolding lookup_path
next_value-lookup v key h = elim (Option-cases (next_value v key)) [
  | inl missing ↦ rw (lookup_path-cons key [] v h, missing) refl
  | inr (x, found) ↦ rw (lookup_path-cons key [] v h, found) refl
]

get_loop-lookup :
    (cur : Value) (key p : Bytes)
    → IsSegmented (split_loop key p)
    → get_loop cur key p ≡ lookup_path (split_loop key p) cur
unfolding get_loop split_loop
get_loop-lookup cur [] [] h = cc
get_loop-lookup cur (k ∷ key) [] h = next_value-lookup cur (k ∷ key) refl
get_loop-lookup cur key (c ∷ p) h = elim (Bool-cases (c == b'.')) [
  | inl dot ↦
      let segments : IsSegmented (key ∷ split_loop [] p) = rw (split_loop, dot) at h in
      rw (get_loop, split_loop, dot)
        (go_into-ext (λ next. get_loop next [] p) (lookup_path (split_loop [] p))
            (next_value cur key) (λ next. get_loop-lookup next [] p segments.1)
          ∙ sym (lookup_path-cons key (split_loop [] p) cur segments.0))
  | inr other ↦
      rw (get_loop, split_loop, other)
        (get_loop-lookup cur (key ++ c ∷ []) p (rw (split_loop, other) at h))
]

-- On a path without an empty segment, gbf_easy_get finds what stands at the parts that split_path
-- of gbf.c cuts the path into, and nothing where one of them is missing or the path hits a value
-- that is no struct.
pub get-lookup_path :
    (root : Value) (path : Bytes)
    → IsSegmented (split_path path)
    → get (some root) (some path) ≡ lookup_path (split_path path) root
unfolding get split_path
get-lookup_path root path h = get_loop-lookup root [] path h

-- Two insertions that leave the same entries, and of which both report an error or neither does.
pub data Agrees : gbin.Easy.Insert.Inserted → gbin.Value.Path.Inserted → Type 0 where
  both_done : (es : Entries) → Agrees (es, none) (es, none)
  both_failed : (es : Entries) (e : EasyError) (x : Error) → Agrees (es, some e) (es, some x)

in_child-Agrees :
    (key : Bytes) (es : Entries) (i : gbin.Easy.Insert.Inserted) (j : gbin.Value.Path.Inserted)
    → Agrees i j
    → Agrees (change_child key es i) (put_child key es j)
in_child-Agrees key es _ _ (both_done child) = both_done (put key (struct child) es)
in_child-Agrees key es _ _ (both_failed child e x) = both_failed (put key (struct child) es) e x

walk-Agrees :
    (k : ℕ) (key : Bytes) (es : Entries) (o : Option Value)
    (f : Entries → gbin.Easy.Insert.Inserted) (g : Entries → gbin.Value.Path.Inserted)
    → ((child : Entries) → Agrees (f child) (g child))
    → Agrees
        (walk_into (k ∷ key) es f (child_struct (k ∷ key) es o))
        (go_on (k ∷ key) es g (step_into (k ∷ key) es o))
unfolding child_struct step_into set_entry
walk-Agrees k key es none f g h =
    in_child-Agrees (k ∷ key) es (f no_entries) (g no_entries) (h no_entries)
walk-Agrees k key es (some (struct child)) f g h =
    in_child-Agrees (k ∷ key) es (f child) (g child) (h child)
walk-Agrees k key es (some _) f g h = both_failed es _ _

insert_parts-cons :
    (es : Entries) (key : Bytes) (parts : List Bytes) (leaf : Value) (q : Bytes) (qs : List Bytes)
    → parts ≡ q ∷ qs
    → insert_parts es (key ∷ parts) leaf
      ≡ go_on key es (λ child. insert_parts child parts leaf) (step_into key es (find key es))
unfolding insert_parts
insert_parts-cons es key parts leaf q qs e = rw e refl

dot-Agrees :
    (es : Entries) (key p : Bytes) (leaf : Value)
    → is_empty key ≡ false
    → ((child : Entries)
        → Agrees (insert_loop child [] p leaf) (insert_parts child (split_loop [] p) leaf))
    → Agrees
        (walk_into key es
          (λ child. insert_loop child [] p leaf)
          (child_struct key es (struct_get es key)))
        (insert_parts es (key ∷ split_loop [] p) leaf)
dot-Agrees es [] p leaf filled h = cc
dot-Agrees es (k ∷ key) p leaf filled h =
    let (q, qs, e) = split_loop_cons [] p in
    rw (struct_get-find es (k ∷ key), insert_parts-cons es (k ∷ key) (split_loop [] p) leaf q qs e)
      (walk-Agrees k key es (find (k ∷ key) es) (λ child. insert_loop child [] p leaf)
        (λ child. insert_parts child (split_loop [] p) leaf) h)

insert_loop-Agrees :
    (es : Entries) (key p : Bytes) (leaf : Value)
    → IsSegmented (split_loop key p)
    → Agrees (insert_loop es key p leaf) (insert_parts es (split_loop key p) leaf)
unfolding insert_loop insert_parts split_loop
insert_loop-Agrees es [] [] leaf h = cc
insert_loop-Agrees es (k ∷ key) [] leaf h = unfold set_entry in both_done (put (k ∷ key) leaf es)
insert_loop-Agrees es key (c ∷ p) leaf h = elim (Bool-cases (c == b'.')) [
  | inr other ↦
      rw (insert_loop, split_loop, other)
        (insert_loop-Agrees es (key ++ c ∷ []) p leaf (rw (split_loop, other) at h))
  | inl dot ↦
      let segments : IsSegmented (key ∷ split_loop [] p) = rw (split_loop, dot) at h in
      rw (insert_loop, split_loop, dot, segments.0)
        (dot-Agrees es key p leaf segments.0 λ child. insert_loop-Agrees child [] p leaf segments.1)
]

-- What an insertion leaves behind, with the error that it reports, in either file.
abbrev pub Agree : Value × Option EasyError → Value × Option Error → Type 0
Agree (v, none) (w, none) = v ≡ w
Agree (v, some e) (w, some x) = v ≡ w
Agree _ _ = ⊥

agree :
    (i : gbin.Easy.Insert.Inserted) (j : gbin.Value.Path.Inserted)
    → Agrees i j
    → Agree (struct i.0, i.1) (struct j.0, j.1)
agree _ _ (both_done es) = refl
agree _ _ (both_failed es e x) = refl

split_path_filled : (path : Bytes) → IsSegmented (split_path path) → is_empty path ≡ false
unfolding split_path split_loop
split_path_filled [] h = h.0
split_path_filled (c ∷ path) h = refl

-- On a path without an empty segment, the insertions by path of gbf_easy.c and of gbf.c leave the
-- same value behind, and one reports an error exactly where the other does, whatever the root is.
pub struct_insert_by_path-Agree :
    (root : Value) (path : Bytes) (leaf : Value)
    → IsSegmented (split_path path)
    → Agree (struct_insert_by_path root path leaf) (struct_insert_path root path leaf)
unfolding struct_insert_by_path struct_insert_path
struct_insert_by_path-Agree (struct es) path leaf h = rw (split_path_filled path h) (
    agree (insert_loop es [] path leaf) (insert_parts es (split_path path) leaf)
      (unfold split_path in insert_loop-Agrees es [] path leaf (unfold split_path in h)))
struct_insert_by_path-Agree _ path leaf h = refl
