-- ===== src/Indexer.antt =====
-- crates/neuralfs-daemon/src/indexer.rs: the index is filled from the tree of files. What the
-- machine shows of the files is a parameter; a log line is left out, and an error that is logged
-- is skipped, as in the source.
use neural_file_system.Prelude.{
  ℕ, suc, ◌+◌, true, false, Option, none, some, List, [], ◌∷◌, Bytes, Result, ok, err,
}
use neural_file_system.FileEntry.{FileEntry}
use neural_file_system.Host.{Host, Paths, Disk, Dent}
use neural_file_system.Index.{Store, upsert_preserving_stats}
use neural_file_system.Index

abbrev or_empty : Option Bytes → Bytes
or_empty none = []
or_empty (some b) = b

unfoldable pub build_entry : Paths → Disk → Bytes → ℕ → Option FileEntry
build_entry P D path depth = elim (D.metadata path) [
  | none ↦ none
  | some m ↦ some (record {
    path = path;
    file_name = or_empty (P.file_name path);
    extension = or_empty (P.extension path);
    parent = or_empty (P.parent path);
    size = m.len;
    modified = m.modified;
    depth = depth;
    freq = 0;
    last_open = 0;
  })
]

module _ {H : Host} where
  -- An upsert whose error is logged: the count grows if it succeeds.
  unfoldable pub counted : ℕ → Result (Unit {0}) × Store H → ℕ × Store H
  counted count (ok x, s) = (suc count, s)
  counted count (err x, s) = (count, s)

  -- One round of the loop of `index_root`.
  unfoldable pub index_dent : Disk → Option Dent → ℕ × Store H → ℕ × Store H
  index_dent D none (count, s) = (count, s)
  index_dent D (some dent) (count, s) = elim dent.is_file [
    | false ↦ (count, s)
    | true ↦ elim (build_entry H.paths D dent.path dent.depth) [
      | none ↦ (count, s)
      | some e ↦ counted count (upsert_preserving_stats e s)
    ]
  ]

  unfoldable pub index_dents : Disk → List (Option Dent) → ℕ × Store H → ℕ × Store H
  index_dents D [] r = r
  index_dents D (dent ∷ dents) r = index_dents D dents (index_dent D dent r)

  unfoldable pub index_root : Disk → Bytes → Store H → ℕ × Store H
  index_root D root s = index_dents D (D.walk root) (0, s)

  unfoldable pub reindex_all : Disk → List Bytes → Store H → ℕ × Store H
  reindex_all D [] s = (0, s)
  reindex_all D (root ∷ roots) s =
      let r = index_root D root s in let rest = reindex_all D roots r.1 in (r.0 + rest.0, rest.1)

  unfoldable pub upsert_path : Disk → Bytes → Store H → Store H
  upsert_path D path s = elim (D.is_file path) [
    | false ↦ s
    | true ↦ elim (build_entry H.paths D path (H.paths.components path)) [
      | none ↦ s
      | some e ↦ (upsert_preserving_stats e s).1
    ]
  ]

  unfoldable pub remove_path : Bytes → Store H → Store H
  remove_path path s = (Index.remove path s).1
