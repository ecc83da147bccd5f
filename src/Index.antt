-- ===== src/Index.antt =====
-- crates/neuralfs-daemon/src/store.rs: the index of the real files, by the hash of their path, with
-- two trees of links: by the directory and by the name of a file, in lower case. A method returns
-- its result and the new store. A failing decode gives an error and keeps the changes made before.
pub mod Links
pub mod Sound
pub mod Calls
pub mod Lookup
pub mod Hits
pub mod Tests
use neural_file_system.Prelude.{
  ℕ, ◌+◌, Option, none, some, List, [], ◌∷◌, ◌++◌, Bytes, text, bytes_discrete, ite, Result, ok,
  err, bad_encoding,
}
use neural_file_system.BlockStore.Codec.{to_be_bytes}
use neural_file_system.FileEntry.{FileEntry}
use neural_file_system.Host.{Host}
use neural_file_system.Platform.{Bincode}

pub record Store (H : Host) : Type 0 where
  pub index : H.volume.sled.Tree
  pub by_parent : H.volume.sled.Tree
  pub by_name : H.volume.sled.Tree
  pub model : H.volume.sled.Tree

unfoldable pub key_bytes : ℕ → Bytes
key_bytes hash = to_be_bytes 8 hash

abbrev pub model_key : Bytes
model_key = text "classifier"

-- The key of a path in the index; `prefix_of` is `parent_prefix` and `name_prefix`, which are alike.
unfoldable pub key_of : Host → Bytes → Bytes
key_of H path = key_bytes (H.hash path)

unfoldable pub prefix_of : Host → Bytes → Bytes
prefix_of H name = H.lower name ++ 0 ∷ []

abbrev pub with_stats : FileEntry → FileEntry → FileEntry
with_stats old e = record e { freq = old.freq; last_open = old.last_open }

decode_all : Bincode FileEntry → List (Bytes × Bytes) → Result (List FileEntry)
decode_all C [] = ok []
decode_all C ((_, v) ∷ kvs) = elim (C.deserialize v) [
  | none ↦ err bad_encoding
  | some e ↦ elim (decode_all C kvs) [ err x ↦ err x | ok es ↦ ok (e ∷ es) ]
]

module _ {H : Host} where
  -- `open` on empty trees.
  unfoldable pub new : Store H
  new = record {
    index = H.volume.sled.new;
    by_parent = H.volume.sled.new;
    by_name = H.volume.sled.new;
    model = H.volume.sled.new;
  }

  unfoldable pub add_parent_link : Bytes → Bytes → Store H → Store H
  add_parent_link parent kb s = record s {
    by_parent = H.volume.sled.insert (prefix_of H parent ++ kb) kb s.by_parent;
  }

  unfoldable pub remove_parent_link : Bytes → Bytes → Store H → Store H
  remove_parent_link parent kb s = record s {
    by_parent = (H.volume.sled.remove (prefix_of H parent ++ kb) s.by_parent).1;
  }

  unfoldable pub add_name_link : Bytes → Bytes → Store H → Store H
  add_name_link name kb s = record s {
    by_name = H.volume.sled.insert (prefix_of H name ++ kb) kb s.by_name;
  }

  unfoldable pub remove_name_link : Bytes → Bytes → Store H → Store H
  remove_name_link name kb s = record s {
    by_name = (H.volume.sled.remove (prefix_of H name ++ kb) s.by_name).1;
  }

  unfoldable pub put_entry : FileEntry → Store H → Store H
  put_entry e s =
      let kb = key_of H e.path in
      add_name_link e.file_name kb (
        add_parent_link e.parent kb
          (record s { index = H.volume.sled.insert kb (H.entry_code.serialize e) s.index }))

  -- The link of the entry that is replaced goes, if it was in another directory.
  unfoldable pub unlink_moved : FileEntry → FileEntry → Store H → Store H
  unlink_moved old e s =
      ite (bytes_discrete old.parent e.parent) s (remove_parent_link old.parent (key_of H e.path) s)

  unfoldable pub upsert : FileEntry → Store H → Result (Unit {0}) × Store H
  upsert e s = elim (H.volume.sled.get (key_of H e.path) s.index) [
    | none ↦ (ok tt, put_entry e s)
    | some v ↦ elim (H.entry_code.deserialize v) [
      | none ↦ (err bad_encoding, s)
      | some old ↦ (ok tt, put_entry e (unlink_moved old e s))
    ]
  ]

  unfoldable pub upsert_preserving_stats : FileEntry → Store H → Result (Unit {0}) × Store H
  upsert_preserving_stats e s = elim (H.volume.sled.get (key_of H e.path) s.index) [
    | none ↦ upsert e s
    | some v ↦ elim (H.entry_code.deserialize v) [
      | none ↦ (err bad_encoding, s)
      | some old ↦ upsert (with_stats old e) s
    ]
  ]

  unfoldable pub remove : Bytes → Store H → Result (Unit {0}) × Store H
  remove path s =
      let kb = key_of H path in
      let s₁ : Store H = record s { index = (H.volume.sled.remove kb s.index).1 } in
      elim (H.volume.sled.remove kb s.index).0 [
        | none ↦ (ok tt, s₁)
        | some v ↦ elim (H.entry_code.deserialize v) [
          | none ↦ (err bad_encoding, s₁)
          | some old ↦
              (ok tt, remove_name_link old.file_name kb (remove_parent_link old.parent kb s₁))
        ]
      ]

  -- The loop of `files_named` and of `files_in` over the links.
  unfoldable pub collect : Store H → List (Bytes × Bytes) → Result (List FileEntry)
  collect s [] = ok []
  collect s ((_, kb) ∷ links) = elim (H.volume.sled.get kb s.index) [
    | none ↦ collect s links
    | some v ↦ elim (H.entry_code.deserialize v) [
      | none ↦ err bad_encoding
      | some e ↦ elim (collect s links) [ err x ↦ err x | ok es ↦ ok (e ∷ es) ]
    ]
  ]

  unfoldable pub files_named : Bytes → Store H → Result (List FileEntry)
  files_named name s = collect s (H.volume.sled.scan_prefix (prefix_of H name) s.by_name)

  unfoldable pub files_in : Bytes → Store H → Result (List FileEntry)
  files_in parent s = collect s (H.volume.sled.scan_prefix (prefix_of H parent) s.by_parent)

  unfoldable pub touch_open : Bytes → ℕ → Store H → Result (Option FileEntry) × Store H
  touch_open path now s = elim (H.volume.sled.get (key_of H path) s.index) [
    | none ↦ (ok none, s)
    | some v ↦ elim (H.entry_code.deserialize v) [
      | none ↦ (err bad_encoding, s)
      | some e ↦
          let opened : FileEntry = record e { freq = e.freq + 1; last_open = now } in
          (
            ok (some opened),
            record s {
              index = H.volume.sled.insert (key_of H path) (H.entry_code.serialize opened) s.index;
            },
          )
    ]
  ]

  unfoldable pub all_entries : Store H → Result (List FileEntry)
  unfolding decode_all
  all_entries s = decode_all H.entry_code (H.volume.sled.iter s.index)

  unfoldable pub len : Store H → ℕ
  len s = H.volume.sled.len s.index

  unfoldable pub save_model : Bytes → Store H → Store H
  save_model bytes s = record s { model = H.volume.sled.insert model_key bytes s.model }

  unfoldable pub load_model : Store H → Option Bytes
  load_model s = H.volume.sled.get model_key s.model
