-- ===== src/Value/Rebuild/Whole.antt =====
-- The struct that the leaves of a struct make, put together by struct_insert_path of C/src/gbf.c.
use gbin.Prelude.{
  ◌≡◌, refl, ap, ◌∙◌, arith, Bytes, List, [], ◌∷◌, ◌++◌, none, false, inl, inr, str_eq, str_eq_iff,
  is_empty, Bool-cases, ok,
}
use mathlib.Core.Option.{some-ne-none}
use gbin.Value.{Value, Entries, no_entries, entry, struct}
use gbin.Value.Struct.{find, put, find-put}
use gbin.Value.Rebuild.{
  leaves, entry_leaves, insert_all, join, join_new, insert_all-append, under, HasParts, Cons,
  insert_one, insert_under_new,
}

-- No key of the struct, nor of the structs in it, is empty or stands twice in one struct.
unfoldable mutual
  pub WellKeyed : Value → Type 0
  WellKeyed (struct es) = AreWellKeyed es
  WellKeyed v = Unit

  pub AreWellKeyed : Entries → Type 0
  AreWellKeyed no_entries = Unit
  AreWellKeyed (entry k v es) =
      (is_empty k ≡ false) × (find k es ≡ none) × WellKeyed v × AreWellKeyed es

-- No key of the second struct stands in the first.
abbrev Fresh : Entries → Entries → Type 0
Fresh old no_entries = Unit
Fresh old (entry k v es) = (find k old ≡ none) × Fresh old es

Fresh-put :
    (k : Bytes) (v : Value) (old es : Entries)
    → find k es ≡ none
    → Fresh old es
    → Fresh (put k v old) es
unfolding find
Fresh-put k v old no_entries h f = tt
Fresh-put k v old (entry j u es) h f = elim (Bool-cases (str_eq j k)) [
  | inl same ↦ absurd (some-ne-none u (rw same at h))
  | inr other ↦
      (find-put j k v old ∙ rw (differs j k other) f.0, Fresh-put k v old es (rw other at h) f.1)
]
  where
    differs : (j k : Bytes) → str_eq j k ≡ false → str_eq k j ≡ false
    differs j k h = ground (arith, str_eq_iff j k, str_eq_iff k j)

Fresh-nothing : (es : Entries) → Fresh no_entries es
unfolding find
Fresh-nothing no_entries = tt
Fresh-nothing (entry k v es) = (refl, Fresh-nothing es)

HasParts-append :
    (ps qs : List (List Bytes × Value)) → HasParts ps → HasParts qs → HasParts (ps ++ qs)
HasParts-append [] qs h k = k
HasParts-append (p ∷ ps) qs h k = (h.0, HasParts-append ps qs h.1 k)

under-HasParts : (k : Bytes) (ps : List (List Bytes × Value)) → HasParts (under k ps)
under-HasParts k [] = tt
under-HasParts k (p ∷ ps) = ((k, p.0, refl), under-HasParts k ps)

entry_leaves-HasParts : (es : Entries) → HasParts (entry_leaves es)
unfolding entry_leaves
entry_leaves-HasParts no_entries = tt
entry_leaves-HasParts (entry k v es) =
    HasParts-append (under k (leaves v)) (entry_leaves es) (under-HasParts k (leaves v))
      (entry_leaves-HasParts es)

join-nothing : (es : Entries) → es ≡ join es no_entries
unfolding join
join-nothing no_entries = refl
join-nothing (entry k v es) = ap (entry k v) (join-nothing es)

Cons-append : (k : Bytes) (ps qs : List (List Bytes × Value)) → Cons ps → Cons (under k ps ++ qs)
Cons-append k [] qs h = cc
Cons-append k (p ∷ ps) qs h = ((k ∷ p.0, p.1), under k ps ++ qs, refl)

leaves-Cons : (v : Value) → Cons (leaves v)
unfolding leaves entry_leaves
leaves-Cons (struct no_entries) = (([], struct no_entries), [], refl)
leaves-Cons (struct (entry k v es)) = Cons-append k (leaves v) (entry_leaves es) (leaves-Cons v)
leaves-Cons v = (([], v), [], refl)

mutual
  unfolding leaves entry_leaves insert_all join WellKeyed AreWellKeyed

  rebuild_value :
      (v : Value) (k : Bytes) (old : Entries)
      → is_empty k ≡ false
      → find k old ≡ none
      → WellKeyed v
      → insert_all old (under k (leaves v)) ≡ ok (put k v old)
  rebuild_value (struct no_entries) k old filled new w =
      rw (insert_one old k (struct no_entries) filled) refl
  rebuild_value (struct (entry j u es)) k old filled new w =
      insert_under_new k old (entry_leaves (entry j u es)) (entry j u es) filled new
        (entry_leaves-HasParts (entry j u es))
        (Cons-append j (leaves u) (entry_leaves es) (leaves-Cons u))
        (rebuild_entries (entry j u es) no_entries (Fresh-nothing (entry j u es)) w)
  rebuild_value v k old filled new w = rw (insert_one old k v filled) refl

  rebuild_entries :
      (es old : Entries)
      → Fresh old es
      → AreWellKeyed es
      → insert_all old (entry_leaves es) ≡ ok (join old es)
  rebuild_entries no_entries old f w = ap ok (join-nothing old)
  rebuild_entries (entry k v es) old f w =
      insert_all-append old (put k v old) (under k (leaves v)) (entry_leaves es)
        (rebuild_value v k old w.0 f.0 w.2)
      ∙ rebuild_entries es (put k v old) (Fresh-put k v old es w.1 f.1) w.3
      ∙ ap ok (join_new k v old es f.0)

-- The leaves of a struct, empty structs among them, inserted one by one in their order at the keys
-- that lead to them, make the struct again from an empty one without an error, where no key of it
-- or of a struct in it is empty or stands twice in one struct.
pub insert_all-entry_leaves :
    (es : Entries) → AreWellKeyed es → insert_all no_entries (entry_leaves es) ≡ ok es
unfolding join
insert_all-entry_leaves es w = rebuild_entries es no_entries (Fresh-nothing es) w
