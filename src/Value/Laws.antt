-- ===== src/Value/Laws.antt =====
-- What an insertion by path does to the paths of a struct.
use gbin.Prelude.{
  ◌≡◌, refl, ap, ◌∙◌, Bytes, List, [], ◌∷◌, Option, none, some, true, false, ◌⊎◌, inl, inr, str_eq,
  str_eq_refl, is_empty, Result, ok, err,
}
use mathlib.Core.Option.{some-ne-none}
use gbin.Value.{Value, struct, Entries}
use gbin.Error.{Error}
use gbin.Value.Struct.{find, put, set_entry, find-put}
use gbin.Value.Path.{split_path, step_into, insert_parts, struct_insert_path}

abbrev in_child : (Value → Option Value) → Option Value → Option Value
in_child f none = none
in_child f (some v) = f v

-- The value at a path of keys.
unfoldable pub lookup_path : List Bytes → Value → Option Value
lookup_path [] v = some v
lookup_path (key ∷ keys) (struct es) = in_child (lookup_path keys) (find key es)
lookup_path (key ∷ keys) _ = none

-- The two paths part at some key, and neither is a prefix of the other.
abbrev pub Apart : List Bytes → List Bytes → Type 0
Apart [] q = ⊥
Apart (k ∷ p) [] = ⊥
Apart (k ∷ p) (j ∷ q) = (str_eq k j ≡ false) ⊎ ((k ≡ j) × Apart p q)

lookup_path-put_self :
    (key : Bytes) (v : Value) (es : Entries) (keys : List Bytes)
    → lookup_path (key ∷ keys) (struct (put key v es)) ≡ lookup_path keys v
unfolding lookup_path
lookup_path-put_self key v es keys = rw (find-put key key v es, str_eq_refl key)

lookup_path-put_ne :
    (key j : Bytes) (v : Value) (es : Entries) (keys : List Bytes)
    → str_eq key j ≡ false
    → lookup_path (j ∷ keys) (struct (put key v es)) ≡ lookup_path (j ∷ keys) (struct es)
unfolding lookup_path
lookup_path-put_ne key j v es keys h = rw (find-put j key v es, h)

Result-cases : {E A : Type 0} (r : Result E A) → ((a : A) × (r ≡ ok a)) ⊎ ((e : E) × (r ≡ err e))
Result-cases (ok a) = inl (a, refl)
Result-cases (err e) = inr (e, refl)

set_entry_ok :
    (es : Entries) (key : Bytes) (child : Value)
    → (set_entry es key child ≡ ok (put key child es)) ⊎ (is_empty key ≡ true)
unfolding set_entry
set_entry_ok es [] child = inr refl
set_entry_ok es (c ∷ key) child = inl refl

ok_part : Entries → Result Error Entries → Entries
ok_part d (ok es) = es
ok_part d (err e) = d

ok-injective : {a b : Entries} → ◌≡◌ {A = Result Error Entries} (ok a) (ok b) → a ≡ b
unfolding ok_part
ok-injective {a} h = ap (ok_part a) h

-- After an insertion that reports no error, the leaf is found at its path.
pub insert_parts_found :
    (es : Entries) (parts : List Bytes) (leaf : Value)
    → (insert_parts es parts leaf).1 ≡ none
    → lookup_path parts (struct (insert_parts es parts leaf).0) ≡ some leaf
unfolding insert_parts
insert_parts_found es [] leaf h = cc
insert_parts_found es ([] ∷ []) leaf h = unfold set_entry in cc
insert_parts_found es ((c ∷ key) ∷ []) leaf h =
    unfold set_entry in lookup_path-put_self (c ∷ key) leaf es [] ∙ (unfold lookup_path in refl)
insert_parts_found es (key ∷ next ∷ parts) leaf h =
    elim (Result-cases (step_into key es (find key es))) [
      | inl (child, e) ↦ rw e (
          lookup_path-put_self key (struct (insert_parts child (next ∷ parts) leaf).0) es
            (next ∷ parts)
          ∙ insert_parts_found child (next ∷ parts) leaf (rw e at h))
      | inr (x, e) ↦ absurd (some-ne-none x (rw e at h))
    ]

-- The child that the walk goes into shows what the old struct shows below the key.
step_into_view :
    (key : Bytes) (es child : Entries) (o : Option Value) (p q : List Bytes)
    → step_into key es o ≡ ok child
    → Apart p q
    → lookup_path q (struct child) ≡ in_child (lookup_path q) o
unfolding step_into lookup_path find set_entry
step_into_view key es child o [] q e a = absurd a
step_into_view key es child o (k ∷ p) [] e a = absurd a
step_into_view [] es child none (k ∷ p) (j ∷ q) e a = cc
step_into_view (c ∷ key) es child none (k ∷ p) (j ∷ q) e a = rw (← ok-injective e)
step_into_view key es child (some (struct old)) (k ∷ p) (j ∷ q) e a = rw (ok-injective e)
step_into_view key es child (some _) (k ∷ p) (j ∷ q) e a = cc

-- An insertion, whether it reports an error or not, leaves alone every path that is apart from the
-- path inserted.
pub insert_parts_frame :
    (es : Entries) (parts q : List Bytes) (leaf : Value)
    → Apart parts q
    → lookup_path q (struct (insert_parts es parts leaf).0) ≡ lookup_path q (struct es)
unfolding insert_parts
insert_parts_frame es [] q leaf a = absurd a
insert_parts_frame es (key ∷ []) [] leaf a = absurd a
insert_parts_frame es (key ∷ []) (j ∷ q) leaf (inr a) = absurd a.1
insert_parts_frame es ([] ∷ []) (j ∷ q) leaf (inl ne) = unfold set_entry in refl
insert_parts_frame es ((c ∷ key) ∷ []) (j ∷ q) leaf (inl ne) =
    unfold set_entry in lookup_path-put_ne (c ∷ key) j leaf es q ne
insert_parts_frame es (key ∷ next ∷ parts) [] leaf a = absurd a
insert_parts_frame es (key ∷ next ∷ parts) (j ∷ q) leaf a =
    elim (Result-cases (step_into key es (find key es))) [
      | inr (x, e) ↦ rw e
      | inl (child, e) ↦ rw e (elim a [
        | inl ne ↦ lookup_path-put_ne key j _ es q ne
        | inr (same, apart) ↦ rw (← same) (
            lookup_path-put_self key _ es q
            ∙ insert_parts_frame child (next ∷ parts) q leaf apart
            ∙ step_into_view key es child (find key es) (next ∷ parts) q e apart
            ∙ (unfold lookup_path in refl))
      ])
    ]

-- An insertion by path into a struct that reports no error puts the leaf at its path.
pub struct_insert_path-found :
    (es : Entries) (path : Bytes) (leaf : Value)
    → (struct_insert_path (struct es) path leaf).1 ≡ none
    → lookup_path (split_path path) (struct_insert_path (struct es) path leaf).0 ≡ some leaf
unfolding struct_insert_path
struct_insert_path-found es [] leaf h = cc
struct_insert_path-found es (c ∷ path) leaf h = insert_parts_found es (split_path (c ∷ path)) leaf h

-- An insertion by path into a struct, also one that reports an error, leaves what stands at every
-- other path that is neither a prefix of its path nor prefixed by it.
pub struct_insert_path-frame :
    (es : Entries) (path q : Bytes) (leaf : Value)
    → Apart (split_path path) (split_path q)
    → lookup_path (split_path q) (struct_insert_path (struct es) path leaf).0
      ≡ lookup_path (split_path q) (struct es)
unfolding struct_insert_path
struct_insert_path-frame es [] q leaf a = refl
struct_insert_path-frame es (c ∷ path) q leaf a =
    insert_parts_frame es (split_path (c ∷ path)) (split_path q) leaf a
