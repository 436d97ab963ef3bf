-- ===== src/Value/Rebuild.antt =====
-- The leaves of a struct, inserted one by one by struct_insert_path of C/src/gbf.c as gbf_read_file does.
pub mod Whole
use gbin.Prelude.{
  ◌≡◌, refl, ap, ◌∙◌, arith, Bytes, List, [], ◌∷◌, ◌++◌, map, none, some, false, inl, inr, str_eq,
  str_eq_refl, str_eq_iff, is_empty, Bool-cases, All, Result, ok, err,
}
use mathlib.Core.Option.{some-ne-none}
use gbin.Value.{Value, Entries, no_entries, entry, struct}
use gbin.Value.Struct.{find, put, find-put, set_entry}
use gbin.Error.{Error}
use gbin.Value.Path.{Inserted, put_child, insert_parts, step_into}

-- A leaf with the keys that lead to it, in the order of the writer: an empty struct is a leaf.
unfoldable mutual
  pub leaves : Value → List (List Bytes × Value)
  leaves (struct no_entries) = ([], struct no_entries) ∷ []
  leaves (struct (entry k v es)) = entry_leaves (entry k v es)
  leaves v = ([], v) ∷ []

  pub entry_leaves : Entries → List (List Bytes × Value)
  entry_leaves no_entries = []
  entry_leaves (entry k v es) = map (λ p. (k ∷ p.0, p.1)) (leaves v) ++ entry_leaves es

-- Go on behind an insertion that reports no error.
abbrev continue : Inserted → (Entries → Result Error Entries) → Result Error Entries
continue (es, none) rest = rest es
continue (es, some e) rest = err e

-- The insertions of the leaves, from the entries `es` on, up to the first error.
unfoldable pub insert_all : Entries → List (List Bytes × Value) → Result Error Entries
insert_all es [] = ok es
insert_all es (p ∷ ps) = continue (insert_parts es (p.0) (p.1)) λ next. insert_all next ps

same_entries : {a b : Entries} → Path (Result Error Entries) (ok a) (ok b) → a ≡ b
same_entries h = cc

put-put : (k : Bytes) (v w : Value) (es : Entries) → put k w (put k v es) ≡ put k w es
unfolding put
put-put k v w no_entries = rw (str_eq_refl k) refl
put-put k v w (entry j u es) = elim (Bool-cases (str_eq j k)) [
  | inl same ↦ rw (same, str_eq_refl k) refl
  | inr other ↦ rw (other, other, put-put k v w es) refl
]

-- The entries of the second struct behind those of the first.
unfoldable pub join : Entries → Entries → Entries
join no_entries more = more
join (entry k v es) more = entry k v (join es more)

pub join_new :
    (k : Bytes) (v : Value) (es more : Entries)
    → find k es ≡ none
    → join (put k v es) more ≡ join es (entry k v more)
unfolding put find join
join_new k v no_entries more h = refl
join_new k v (entry j u es) more h = elim (Bool-cases (str_eq j k)) [
  | inl same ↦ absurd (some-ne-none u (rw same at h))
  | inr other ↦ rw (other, join_new k v es more (rw other at h)) refl
]

continue-ok :
    (i : Inserted) (rest : Entries → Result Error Entries) (t : Entries)
    → continue i rest ≡ ok t
    → (next : Entries) × (i ≡ (next, none)) × (rest next ≡ ok t)
continue-ok (next, none) rest t h = (next, refl, h)
continue-ok (next, some e) rest t h = cc

pub insert_all-append :
    (es t : Entries) (ps qs : List (List Bytes × Value))
    → insert_all es ps ≡ ok t
    → insert_all es (ps ++ qs) ≡ insert_all t qs
unfolding insert_all
insert_all-append es t [] qs h = ap (λ r. insert_all r qs) (same_entries h)
insert_all-append es t (p ∷ ps) qs h =
    let (next, e, rest) =
      continue-ok (insert_parts es (p.0) (p.1)) (λ next. insert_all next ps) t h in
    rw e (insert_all-append next t ps qs rest)

-- One key in front of the keys of every leaf.
abbrev pub under : Bytes → List (List Bytes × Value) → List (List Bytes × Value)
under k ps = map (λ p. (k ∷ p.0, p.1)) ps

abbrev pub Cons : List (List Bytes × Value) → Type 0
Cons ps = (p : List Bytes × Value) × (qs : List (List Bytes × Value)) × (ps ≡ p ∷ qs)

-- Every leaf has at least one key.
abbrev pub HasParts : List (List Bytes × Value) → Type 0
HasParts ps = All (λ p. (n : Bytes) × (ns : List Bytes) × (p.0 ≡ n ∷ ns)) ps

pub insert_one :
    (es : Entries) (k : Bytes) (v : Value)
    → is_empty k ≡ false
    → insert_parts es (k ∷ []) v ≡ (put k v es, none)
unfolding insert_parts set_entry
insert_one es k v h = rw h refl

insert_into :
    (es child : Entries) (k : Bytes) (parts : List Bytes) (v : Value) (n : Bytes) (ns : List Bytes)
    → step_into k es (find k es) ≡ ok child
    → parts ≡ n ∷ ns
    → insert_parts es (k ∷ parts) v ≡ put_child k es (insert_parts child parts v)
unfolding insert_parts
insert_into es child k parts v n ns h e = rw (e, h) refl

step_old :
    (es child : Entries) (k : Bytes)
    → find k es ≡ some (struct child)
    → step_into k es (find k es) ≡ ok child
unfolding step_into
step_old es child k h = rw h refl

step_new :
    (es : Entries) (k : Bytes)
    → is_empty k ≡ false
    → find k es ≡ none
    → step_into k es (find k es) ≡ ok no_entries
unfolding step_into set_entry
step_new es [] filled h = cc
step_new es (c ∷ k) filled h = rw h refl

insert_under :
    (k : Bytes) (es child : Entries) (ps : List (List Bytes × Value)) (t : Entries)
    → HasParts ps
    → insert_all child ps ≡ ok t
    → insert_all (put k (struct child) es) (under k ps) ≡ ok (put k (struct t) es)
unfolding insert_all
insert_under k es child [] t h e = ap (λ r. ok (put k (struct r) es)) (same_entries e)
insert_under k es child (p ∷ ps) t h e =
    let (n, ns, parts) = h.0 in
    let old = put k (struct child) es in
    let there : find k old ≡ some (struct child) =
      find-put k k (struct child) es ∙ rw (str_eq_refl k) refl in
    let (next, now, rest) =
      continue-ok (insert_parts child (p.0) (p.1)) (λ next. insert_all next ps) t e in
    rw
      (
        insert_into old child k (p.0) (p.1) n ns (step_old old child k there) parts,
        now,
        put-put k (struct child) (struct next) es,
      )
      (insert_under k es next ps t h.1 rest)

-- The first leaf under a new key makes the struct that the others go into.
pub insert_under_new :
    (k : Bytes) (es : Entries) (ps : List (List Bytes × Value)) (t : Entries)
    → is_empty k ≡ false
    → find k es ≡ none
    → HasParts ps
    → Cons ps
    → insert_all no_entries ps ≡ ok t
    → insert_all es (under k ps) ≡ ok (put k (struct t) es)
unfolding insert_all
insert_under_new k es [] t filled new h c e = cc
insert_under_new k es (p ∷ ps) t filled new h c e =
    let (n, ns, parts) = h.0 in
    let (next, now, rest) =
      continue-ok (insert_parts no_entries (p.0) (p.1)) (λ next. insert_all next ps) t e in
    rw (insert_into es no_entries k (p.0) (p.1) n ns (step_new es k filled new) parts, now)
      (insert_under k es next ps t h.1 rest)
