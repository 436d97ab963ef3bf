-- ===== src/Easy/Written.antt =====
-- gbf_easy_write_file of C/src/gbf_easy.c: what it writes, and what it refuses.
use gbin.Prelude.{
  true, false, List, [], ◌∷◌, ◌++◌, map, Option, none, some, Option-cases, Bytes, All, ◌≡◌, refl,
  ap, Result, ok, err, Bool-cases, inl, inr,
}
use gbin.Error.{Error}
use gbin.Value.{Value}
use gbin.Payload.{Zlib, WriteOptions}
use gbin.Writer.{write_file}
use gbin.Easy.{Entry, EasyError, null_value}
use gbin.Easy.Access.{get}
use gbin.Easy.Insert.{struct_insert_by_path}
use gbin.Easy.File.{
  Building, after_insert, add_entry, add_entries, started, write_built, or_message, easy_write_file,
}
use gbin.Easy.Built.{named, PairwiseApart, add_entries-found}

-- An entry with a name.
abbrev pub entry_of : Bytes × Option Value → Entry
entry_of (name, value) = record { name = some name; value = value }

-- A file of gbf_write_file, of a root at whose paths stand the values of the entries.
pub data WrittenOf (z : Zlib) (opt : WriteOptions) (path : Bytes) (es : List (Bytes × Value))
    (file : Bytes) : Type 0 where
  written_of :
      (root : Value)
      → write_file z opt path root ≡ ok file
      → All (λ e. get (some root) (some e.0) ≡ some e.1) es
      → WrittenOf z opt path es file

no_file :
    {e : Option EasyError} {file : Bytes}
    → Path (Result (Option EasyError) Bytes) (err e) (ok file)
    → ⊥
no_file h = cc

or_message-ok :
    (old : Option EasyError) (r : Result Error Bytes) (file : Bytes)
    → or_message old r ≡ ok file
    → r ≡ ok file
or_message-ok old (ok f) file h = ap ok (same h)
  where
    same : {f g : Bytes} → Path (Result (Option EasyError) Bytes) (ok f) (ok g) → f ≡ g
    same h = cc
or_message-ok old (err e) file h = absurd (no_file h)

write_built-ok :
    (z : Zlib) (opt : WriteOptions) (path : Bytes) (b : Building) (file : Bytes)
    → write_built z opt path b ≡ ok file
    → (b.fine ≡ true) × (write_file z opt path b.root ≡ ok file)
write_built-ok z opt path b file h = elim (Bool-cases (b.fine)) [
  | inr failed ↦ absurd (no_file (rw failed at h))
  | inl fine ↦ (fine, or_message-ok b.message (write_file z opt path b.root) file (rw fine at h))
]

-- The file that gbf_easy_write_file writes of entries with names and values, where no path is a
-- prefix of a later one or prefixed by it, is the file that gbf_write_file writes of a root in which
-- gbf_easy_get finds every value at the path of its entry.
pub easy_write_file-WrittenOf :
    (z : Zlib) (opt : WriteOptions) (path : Bytes) (message : Option EasyError)
    (es : List (Bytes × Value)) (file : Bytes)
    → PairwiseApart es
    → easy_write_file z opt (some path) message (map named es) ≡ ok file
    → WrittenOf z opt path es file
unfolding easy_write_file
easy_write_file-WrittenOf z opt path message es file apart h =
    let b = add_entries (started message) (map named es) in
    let (fine, written) = write_built-ok z opt path b file h in
    written_of b.root written (add_entries-found (started message) es fine apart)

add_entries-ends :
    (b : Building) (es rest : List Entry) (value : Option Value)
    → add_entries b (es ++ record { name = none; value = value } ∷ rest) ≡ add_entries b es
unfolding add_entries
add_entries-ends b [] rest value = refl
add_entries-ends b (e ∷ es) rest value = elim (Option-cases (e.name)) [
  | inl unnamed ↦ rw (add_entries, unnamed) refl
  | inr (name, is_named) ↦
      rw (add_entries, is_named) (add_entries-ends (add_entry b name e.value) es rest value)
]

-- An entry without a name ends the entries: what stands behind it is neither written nor reported.
pub easy_write_file-ends :
    (z : Zlib) (opt : WriteOptions) (path : Bytes) (message : Option EasyError)
    (es rest : List Entry) (value : Option Value)
    → easy_write_file z opt (some path) message (es ++ record { name = none; value = value } ∷ rest)
      ≡ easy_write_file z opt (some path) message es
unfolding easy_write_file
easy_write_file-ends z opt path message es rest value =
    ap (write_built z opt path) (add_entries-ends (started message) es rest value)

-- The loop has failed, and has a message.
data Failed (b : Building) : Type 0 where
  failed : (e : EasyError) → b.fine ≡ false → b.message ≡ some e → Failed b

null-Failed : (b : Building) (name : Bytes) → Failed (add_entry b name none)
unfolding add_entry
null-Failed b name = elim (Option-cases (b.message)) [
  | inl silent ↦ failed (null_value name) refl (rw silent refl)
  | inr (e, told) ↦ failed e refl (rw told refl)
]

insert-Failed : (b : Building) (i : Value × Option EasyError) → Failed b → Failed (after_insert b i)
insert-Failed b (root, none) (failed e f m) = failed e f m
insert-Failed b (root, some x) (failed e f m) = failed x refl refl

add_entry-Failed :
    (b : Building) (name : Bytes) (o : Option Value) → Failed b → Failed (add_entry b name o)
unfolding add_entry
add_entry-Failed b name none h = unfold add_entry in null-Failed b name
add_entry-Failed b name (some v) h = insert-Failed b (struct_insert_by_path b.root name v) h

add_entries-Failed : (b : Building) (es : List Entry) → Failed b → Failed (add_entries b es)
unfolding add_entries
add_entries-Failed b [] h = h
add_entries-Failed b (e ∷ es) h = elim (Option-cases (e.name)) [
  | inl unnamed ↦ rw (add_entries, unnamed) h
  | inr (name, is_named) ↦
      rw (add_entries, is_named)
        (add_entries-Failed (add_entry b name e.value) es (add_entry-Failed b name e.value h))
]

null_entry-Failed :
    (b : Building) (es : List (Bytes × Option Value)) (name : Bytes) (rest : List Entry)
    → Failed (add_entries b (map entry_of es ++ record { name = some name; value = none } ∷ rest))
unfolding add_entries
null_entry-Failed b [] name rest =
    add_entries-Failed (add_entry b name none) rest (null-Failed b name)
null_entry-Failed b (e ∷ es) name rest = null_entry-Failed (add_entry b e.0 e.1) es name rest

refused :
    (z : Zlib) (opt : WriteOptions) (path : Bytes) (b : Building)
    → Failed b
    → (e : EasyError) × (write_built z opt path b ≡ err (some e))
refused z opt path b (failed e f m) = (e, rw (f, m) refl)

-- One entry with a name that has no value, behind entries with names and whatever follows it, is
-- enough for gbf_easy_write_file to write no file and to leave a message.
pub easy_write_file-null_value :
    (z : Zlib) (opt : WriteOptions) (path : Bytes) (message : Option EasyError)
    (es : List (Bytes × Option Value)) (name : Bytes) (rest : List Entry)
    → (e : EasyError) × (easy_write_file z opt
          (some path)
          message
          (map entry_of es ++ record { name = some name; value = none } ∷ rest)
        ≡ err (some e))
unfolding easy_write_file
easy_write_file-null_value z opt path message es name rest =
    refused z opt path
      (add_entries (started message)
        (map entry_of es ++ record { name = some name; value = none } ∷ rest))
      (null_entry-Failed (started message) es name rest)
