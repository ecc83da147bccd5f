-- ===== src/Filesystem/Snapshots.antt =====
-- The opening of a volume and the snapshots of crates/neuralfs-fs/src/fs.rs. A volume on disk is
-- the data log and the four trees.
use neural_file_system.Prelude.{
  ℕ, max, none, some, List, [], ◌∷◌, Bytes, Result, ok, err, bad_encoding, no_such_snapshot,
}
use neural_file_system.Inode.{Name, dir, SuperBlock}
use neural_file_system.Platform.{Platform, Bincode}
use neural_file_system.BlockStore
use neural_file_system.Filesystem.{Filesystem, Action, ◌>>=◌, ◌>>◌, commit, super_key, id_key}
use neural_file_system.Filesystem.Files.{inode_cache_entries}

-- What a volume keeps on disk.
pub record Disk (P : Platform) : Type 0 where
  pub log : Bytes
  pub block_index : P.sled.Tree
  pub inodes : P.sled.Tree
  pub super_tree : P.sled.Tree
  pub snapshots : P.sled.Tree

abbrev pub fresh_super : SuperBlock
fresh_super = record { root = 0; next_inode = 1; txg = 0 }

decode_snapshots : Bincode SuperBlock → List (Bytes × Bytes) → Result (List (Name × ℕ))
decode_snapshots C [] = ok []
decode_snapshots C ((k, v) ∷ kvs) = elim (C.deserialize v) [
  | none ↦ err bad_encoding
  | some st ↦ elim (decode_snapshots C kvs) [ err e ↦ err e | ok rest ↦ ok ((k, st.txg) ∷ rest) ]
]

module _ {P : Platform} where
  -- A volume over the trees of a disk, with a given root pointer and empty caches.
  unfoldable pub mount : Disk P → ℕ → P.sled.Tree → P.sled.Tree → SuperBlock → Filesystem P
  mount d cache_bytes inodes super_tree st = record {
    blocks = BlockStore.open_store P.sled P.linked d.log d.block_index cache_bytes;
    inodes = inodes;
    super_tree = super_tree;
    snapshots = d.snapshots;
    state = st;
    inode_cache = P.lru.new inode_cache_entries;
  }

  unfoldable pub open_with_cache : Disk P → ℕ → Result (Filesystem P)
  unfolding mount
  open_with_cache d cache_bytes = elim (P.sled.get super_key d.super_tree) [
    | some v ↦ elim (P.super_code.deserialize v) [
      | some st ↦ ok (mount d cache_bytes d.inodes d.super_tree st)
      | none ↦ err bad_encoding
    ]
    | none ↦ ok (
        mount d cache_bytes
          (P.sled.insert (id_key 0) (P.inode_code.serialize (dir [] (P.now 0))) d.inodes)
          (P.sled.insert super_key (P.super_code.serialize fresh_super) d.super_tree) fresh_super)
  ]

  -- The state that `flush` leaves on disk.
  unfoldable pub unmount : Filesystem P → Disk P
  unmount s = record {
    log = s.blocks.log.file;
    block_index = s.blocks.index;
    inodes = s.inodes;
    super_tree = s.super_tree;
    snapshots = s.snapshots;
  }

  unfoldable pub snapshot : Name → Action P (Unit {0})
  snapshot name s = (
    ok tt,
    record s { snapshots = P.sled.insert name (P.super_code.serialize s.state) s.snapshots },
  )

  unfoldable pub list_snapshots : Filesystem P → Result (List (Name × ℕ))
  unfolding decode_snapshots
  list_snapshots s = decode_snapshots P.super_code (P.sled.iter s.snapshots)

  unfoldable pub find_snapshot : Name → Action P SuperBlock
  find_snapshot name s = elim (P.sled.get name s.snapshots) [
    | none ↦ (err no_such_snapshot, s)
    | some v ↦ elim (P.super_code.deserialize v) [
      | none ↦ (err bad_encoding, s)
      | some st ↦ (ok st, s)
    ]
  ]

  unfoldable pub set_root : SuperBlock → Action P (Unit {0})
  set_root snap s = (
    ok tt,
    record s {
      state = record s.state {
        root = snap.root;
        next_inode = max s.state.next_inode snap.next_inode;
      };
    },
  )

  unfoldable pub rollback : Name → Action P (Unit {0})
  unfolding find_snapshot set_root
  rollback name = do snap ← find_snapshot name; set_root snap; commit snap.root
