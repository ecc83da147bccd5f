-- ===== src/Filesystem/Collection.antt =====
-- The garbage collection and the statistics of crates/neuralfs-fs/src/fs.rs. The walks recur on
-- the height of the tree; the number of inodes is enough, since a directory is always younger than
-- what it holds. The dedup ratio, a quotient of floats, is kept as its two terms.
use neural_file_system.Prelude.{
  ℕ, zero, suc, ◌+◌, ◌-◌, Bool, true, false, Option, none, some, List, [], ◌∷◌, Bytes, ℕ_discrete,
  ite, Result, ok, err, out_of_fuel, bad_encoding, ◌==◌, if◌then◌else◌,
}
use neural_file_system.Blake3.{Hash}
use neural_file_system.Inode.{Entries, Inode, file, dir, SuperBlock}
use neural_file_system.Host.{F64, Floats}
use neural_file_system.Platform.{Platform, Bincode}
use neural_file_system.BlockStore
use neural_file_system.BlockStore.Compact
use neural_file_system.BlockStore.Compact.{CompactStats, contains_hash}
use neural_file_system.Filesystem.{Filesystem, Action, pure, bail, ◌>>=◌, read_inode}

-- The two sets that a walk extends: the inodes that were visited, and the live blocks.
pub record Marks : Type 0 where
  pub visited : List ℕ
  pub live : List Hash

contains_id : List ℕ → ℕ → Bool
contains_id [] i = false
contains_id (x ∷ xs) i = ite (ℕ_discrete x i) true (contains_id xs i)

insert_hash : Hash → List Hash → List Hash
insert_hash h hs = if contains_hash hs h then hs else h ∷ hs

insert_hashes : List Hash → List Hash → List Hash
insert_hashes [] live = live
insert_hashes (h ∷ hs) live = insert_hashes hs (insert_hash h live)

decode_roots : Bincode SuperBlock → List (Bytes × Bytes) → Result (List ℕ)
decode_roots C [] = ok []
decode_roots C ((k, v) ∷ kvs) = elim (C.deserialize v) [
  | none ↦ err bad_encoding
  | some st ↦ elim (decode_roots C kvs) [ err e ↦ err e | ok rest ↦ ok (st.root ∷ rest) ]
]

module _ {P : Platform} where
  -- The loop over the entries of a directory; `walk` is the call for a child.
  walk_entries : (ℕ → Marks → Action P Marks) → Entries → Marks → Action P Marks
  walk_entries walk [] m = pure m
  walk_entries walk ((name, child) ∷ entries) m = do m₁ ← walk child m; walk_entries walk entries m₁

  mark_inode : (ℕ → Marks → Action P Marks) → Inode → Marks → Action P Marks
  mark_inode walk (file size blocks inline mtime mode) m =
      pure (record m { live = insert_hashes blocks m.live })
  mark_inode walk (dir entries mtime) m = walk_entries walk entries m

  unfoldable pub walk_blocks : ℕ → ℕ → Marks → Action P Marks
  unfolding contains_id insert_hash insert_hashes walk_entries mark_inode
  walk_blocks zero id m = bail out_of_fuel
  walk_blocks (suc fuel) id m = elim (contains_id m.visited id) [
    | true ↦ pure m
    | false ↦ do
      inode ← read_inode id
      mark_inode (walk_blocks fuel) inode (record m { visited = id ∷ m.visited })
  ]

  -- The live root, and the root of every snapshot.
  gc_roots : Action P (List ℕ)
  gc_roots s = elim (decode_roots P.super_code (P.sled.iter s.snapshots)) [
    | err e ↦ (err e, s)
    | ok roots ↦ (ok (s.state.root ∷ roots), s)
  ]

  walk_roots : ℕ → List ℕ → Marks → Action P Marks
  walk_roots fuel [] m = pure m
  walk_roots fuel (r ∷ roots) m = do m₁ ← walk_blocks fuel r m; walk_roots fuel roots m₁

  get_fuel : Action P ℕ
  get_fuel s = (ok (suc s.state.next_inode), s)

  unfoldable pub collect_live_blocks : Action P (List Hash)
  unfolding decode_roots gc_roots walk_roots get_fuel
  collect_live_blocks = do
    roots ← gc_roots
    fuel ← get_fuel
    m ← walk_roots fuel roots (record { visited = []; live = [] })
    pure m.live

  compact_blocks : List Hash → Action P CompactStats
  compact_blocks live s = let r = Compact.compact live s.blocks in (r.0, record s { blocks = r.1 })

  unfoldable pub gc : Action P CompactStats
  unfolding compact_blocks
  gc = do live ← collect_live_blocks; compact_blocks live

  unfoldable pub scrub : Filesystem P → ℕ × List Bytes
  scrub s = BlockStore.scrub P.blake3 s.blocks

-- What `info` counts on its walk.
pub record Tally : Type 0 where
  pub files : ℕ
  pub dirs : ℕ
  pub logical : ℕ
  pub referenced : ℕ
  pub live : List Hash

pub record FsInfo : Type 0 where
  pub txg : ℕ
  pub files : ℕ
  pub dirs : ℕ
  pub unique_blocks : ℕ
  pub logical_bytes : ℕ
  pub referenced : ℕ
  pub physical_referenced : ℕ
  pub physical_total : ℕ
  pub reclaimable_bytes : ℕ

children_of : Inode → Entries
children_of (file size blocks inline mtime mode) = []
children_of (dir entries mtime) = entries

module _ {P : Platform} where
  -- The lengths of blocks, counted as often as they are named.
  lengths_of : List Hash → Filesystem P → ℕ
  lengths_of [] s = 0
  lengths_of (h ∷ hs) s = BlockStore.len_for h s.blocks + lengths_of hs s

  tally_inode : Inode → Tally → Action P Tally
  tally_inode (dir entries mtime) t s = (ok (record t { dirs = t.dirs + 1 }), s)
  tally_inode (file size blocks inline mtime mode) t s = (
    ok (record t {
      files = t.files + 1;
      logical = t.logical + size;
      referenced = t.referenced + lengths_of blocks s;
      live = insert_hashes blocks t.live;
    }),
    s,
  )

  tally_entries : (ℕ → Tally → Action P Tally) → Entries → Tally → Action P Tally
  tally_entries walk [] t = pure t
  tally_entries walk ((name, child) ∷ entries) t = do
    t₁ ← walk child t
    tally_entries walk entries t₁

  -- `walk`, with the closure of `info`.
  unfoldable pub walk : ℕ → ℕ → Tally → Action P Tally
  unfolding insert_hash insert_hashes lengths_of tally_inode children_of tally_entries
  walk zero id t = bail out_of_fuel
  walk (suc fuel) id t = do
    inode ← read_inode id
    t₁ ← tally_inode inode t
    tally_entries (walk fuel) (children_of inode) t₁

  info_of : SuperBlock → Tally → Action P FsInfo
  info_of st t s =
      let referenced = lengths_of t.live s in
      let total = BlockStore.physical_bytes s.blocks in
      (
        ok (record {
          txg = st.txg;
          files = t.files;
          dirs = t.dirs;
          unique_blocks = BlockStore.block_count s.blocks;
          logical_bytes = t.logical;
          referenced = t.referenced;
          physical_referenced = referenced;
          physical_total = total;
          reclaimable_bytes = total - referenced;
        }),
        s,
      )

  get_super : Action P SuperBlock
  get_super s = (ok s.state, s)

  unfoldable pub info : Action P FsInfo
  unfolding lengths_of info_of get_super get_fuel
  info = do
    st ← get_super
    fuel ← get_fuel
    t ← walk fuel st.root (record { files = 0; dirs = 0; logical = 0; referenced = 0; live = [] })
    info_of st t

  collected : Action P (Option CompactStats)
  collected = do r ← gc; pure (some r)

  -- The collection, if what is not used of the log is more than a share of it.
  unfoldable pub maybe_gc : Floats → F64 → Action P (Option CompactStats)
  unfolding collected
  maybe_gc F max_unused = do
    i ← info
    if i.physical_total == 0
        then pure none
        else if F.at_most (F.div (F.of_nat i.reclaimable_bytes) (F.of_nat i.physical_total))
            max_unused
        then pure none
        else collected
