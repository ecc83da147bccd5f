-- ===== src/Index/Tests.antt =====
-- The theorems on the index of files, applied to an index of one file.
use neural_file_system.Prelude.{
  ◌≡◌, ◌↔◌, refl, none, some, List, [], Bytes, text, ite, bytes_discrete, ok, arith, sym, if_pos,
  if_neg, ◌∙◌, subst,
}
use mathlib.Core.List.{Memᴰ}
use neural_file_system.FileEntry.{FileEntry}
use neural_file_system.Index
use neural_file_system.Index.{
  Store, key_of, upsert, touch_open, files_in, files_named, collect, put_entry, add_name_link,
  add_parent_link, prefix_of, key_bytes,
}
use neural_file_system.Index.Links.{some-none, some_injective}
use neural_file_system.Index.Sound.{IsSound, Puts, SameName, entry_at, new-IsSound}
use neural_file_system.Index.Calls.{upsert-Puts, remove-IsSound}
use neural_file_system.Index.Lookup.{NoNul, files_in_lem}
use neural_file_system.Sled.{list_sled}
use neural_file_system.Daemon.Samples.{host}

abbrev pub empty : Store host
empty = Index.new

abbrev pub file : FileEntry
file = record {
  path = text "/d/f";
  file_name = text "f";
  extension = [];
  parent = text "/d";
  size = 3;
  modified = 0;
  depth = 1;
  freq = 0;
  last_open = 0;
}

empty-SameName : SameName file empty
unfolding Index.new entry_at list_sled
empty-SameName old h = absurd (some-none (sym h))

upsert-Puts_example : ((upsert file empty).0 ≡ ok tt) × Puts file empty (upsert file empty).1
upsert-Puts_example = upsert-Puts file empty new-IsSound empty-SameName

abbrev pub indexed : Store host
indexed = (upsert file empty).1

pub indexed-IsSound : IsSound indexed
indexed-IsSound = (upsert-Puts file empty new-IsSound empty-SameName).1.sound

remove-IsSound_example :
    ((Index.remove (text "/d/f") indexed).0 ≡ ok tt)
    × IsSound (Index.remove (text "/d/f") indexed).1
    × ((j : Bytes)
        → entry_at j (Index.remove (text "/d/f") indexed).1
          ≡ ite (bytes_discrete (key_of host (text "/d/f")) j) none (entry_at j indexed))
remove-IsSound_example = remove-IsSound (text "/d/f") indexed indexed-IsSound

dir_NoNul : NoNul (text "/d")
dir_NoNul = ((λ h. omega arith), ((λ h. omega arith), tt))

empty_at : (k : Bytes) → entry_at k empty ≡ none
unfolding Index.new entry_at list_sled
empty_at k = refl

-- Every entry of the index is the one that was put.
only_file : (k : Bytes) (e : FileEntry) → entry_at k indexed ≡ some e → NoNul e.parent
only_file k e h =
    let at = (upsert-Puts file empty new-IsSound empty-SameName).1.at k in
    elim (bytes_discrete (key_of host file.path) k) [
      | yes p ↦
          let same : file ≡ e =
            some_injective (at ∙ if_pos (bytes_discrete (key_of host file.path) k) p _ _) h in
          subst (λ x. NoNul x.parent) same dir_NoNul
      | no n ↦ absurd (
          some-none
            (sym h ∙ at ∙ if_neg (bytes_discrete (key_of host file.path) k) n _ _ ∙ empty_at k))
    ]

files_in_lem_example :
    (es : List FileEntry) × (files_in (text "/d") indexed ≡ ok es)
    × ((e : FileEntry)
        → Memᴰ e es ↔ ((entry_at (key_of host e.path) indexed ≡ some e) × (e.parent ≡ text "/d")))
files_in_lem_example = files_in_lem (text "/d") indexed indexed-IsSound dir_NoNul only_file
