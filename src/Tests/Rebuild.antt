-- ===== src/Tests/Rebuild.antt =====
-- The theorem on the leaves of a struct, applied at a concrete input.
use gbin.Prelude.{◌≡◌, refl, codes, ok}
use gbin.Value.{Entries, struct, entry, no_entries}
use gbin.Value.Struct.{find}
use gbin.Value.Rebuild.{entry_leaves, insert_all}
use gbin.Value.Rebuild.Whole.{AreWellKeyed, WellKeyed, insert_all-entry_leaves}
use gbin.Tests.Writing.{three_flags}

abbrev two_levels : Entries
two_levels =
    entry (codes "a")
      (struct (entry (codes "b") three_flags (entry (codes "c") (struct no_entries) no_entries)))
      (entry (codes "d") three_flags no_entries)

insert_all-entry_leaves_example : insert_all no_entries (entry_leaves two_levels) ≡ ok two_levels
unfolding AreWellKeyed WellKeyed find
insert_all-entry_leaves_example =
    insert_all-entry_leaves two_levels
      (refl, refl, (refl, refl, tt, (refl, refl, tt, tt)), (refl, refl, tt, tt))
