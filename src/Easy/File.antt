-- ===== src/Easy/File.antt =====
-- gbf_easy_write_file of C/src/gbf_easy.c. The variable
-- arguments are a list of entries; behind it stands GBF_EASY_END. A file that is written is its bytes.
use gbin.Prelude.{Bool, true, false, List, [], ◌∷◌, Option, none, some, Bytes, Result, ok, err}
use gbin.Error.{Error, silent}
use gbin.Value.{Value, no_entries, struct}
use gbin.Payload.{Zlib, WriteOptions}
use gbin.Writer.{write_file}
use gbin.Easy.{Entry, EasyError, path_null, null_value, core}
use gbin.Easy.Insert.{struct_insert_by_path}

-- The state of the loop over the entries: root, ok and the message in err.
pub record Building : Type 0 where
  pub root : Value
  pub fine : Bool
  pub message : Option EasyError

abbrev first_message : Option EasyError → EasyError → Option EasyError
first_message none e = some e
first_message (some old) e = some old

-- `struct_insert_by_path(root, e.name, e.value, err)` and what follows it.
abbrev pub after_insert : Building → Value × Option EasyError → Building
after_insert b (root, none) = record b { root = root }
after_insert b (root, some e) = record { root = root; fine = false; message = some e }

-- One turn for an entry with a name.
unfoldable pub add_entry : Building → Bytes → Option Value → Building
add_entry b name none = record b {
  fine = false;
  message = first_message b.message (null_value name);
}
add_entry b name (some v) = after_insert b (struct_insert_by_path b.root name v)

-- An entry without a name ends the loop.
unfoldable pub add_entries : Building → List Entry → Building
unfolding add_entry
add_entries b [] = b
add_entries b (e ∷ es) = elim (e.name) [
  | none ↦ b
  | some name ↦ add_entries (add_entry b name e.value) es
]

-- A failure of gbf_write_file leaves its message, or the one that was there.
abbrev core_message : Option EasyError → Error → Option EasyError
core_message old silent = old
core_message old e = some (core e)

abbrev pub or_message : Option EasyError → Result Error Bytes → Result (Option EasyError) Bytes
or_message old (ok file) = ok file
or_message old (err e) = err (core_message old e)

abbrev pub write_built : Zlib → WriteOptions → Bytes → Building → Result (Option EasyError) Bytes
write_built z opt path b = elim (b.fine) [
  | true ↦ or_message b.message (write_file z opt path b.root)
  | false ↦ err b.message
]

abbrev pub started : Option EasyError → Building
started message = record { root = struct no_entries; fine = true; message = message }

-- The bytes of the file, or, where the function returns 0, the message in err. `message` is the one
-- before the call.
unfoldable pub easy_write_file :
    Zlib
    → WriteOptions
    → Option Bytes
    → Option EasyError
    → List Entry
    → Result (Option EasyError) Bytes
unfolding add_entries
easy_write_file z opt none message entries = err (some path_null)
easy_write_file z opt (some path) message entries =
    write_built z opt path (add_entries (started message) entries)
