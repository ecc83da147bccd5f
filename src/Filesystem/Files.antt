-- ===== src/Filesystem/Files.antt =====
-- The public calls of crates/neuralfs-fs/src/fs.rs on files and directories.
use neural_file_system.Prelude.{
  ℕ, zero, suc, Bool, true, false, none, some, List, [], ◌∷◌, ◌++◌, Bytes, length, take, drop,
  Result, ok, err, is_a_directory, is_a_file, cannot_write_root, cannot_remove_root,
  cannot_rename_root, if◌then◌else◌, leb,
}
use neural_file_system.Blake3.{Hash}
use neural_file_system.Inode.{
  Name, Entries, Inode, file, dir, Stat, Kind, file_kind, dir_kind, kind,
}
use neural_file_system.Platform.{Platform}
use neural_file_system.BlockStore
use neural_file_system.BlockStore.{BlockStore, block_size}
use neural_file_system.Filesystem.{
  Filesystem, Action, pure, bail, ◌>>=◌, ◌>>◌, split, alloc, read_inode, put_inode, new_dir,
  get_root, resolve, rebuild, rebuild_and_commit, commit,
}

abbrev pub inline_max : ℕ
inline_max = 4096

abbrev pub inode_cache_entries : ℕ
inode_cache_entries = 65536

-- `chunks(n)`: pieces of `n` bytes, the last one shorter. The length is enough fuel.
chunks_fuel : ℕ → ℕ → Bytes → List Bytes
chunks_fuel zero n b = []
chunks_fuel (suc fuel) n [] = []
chunks_fuel (suc fuel) n (x ∷ b) = take n (x ∷ b) ∷ chunks_fuel fuel n (drop n (x ∷ b))

unfoldable pub chunks : ℕ → Bytes → List Bytes
unfolding chunks_fuel
chunks n b = chunks_fuel (length b) n b

unfoldable pub stat_of : Inode → Stat
stat_of (file size blocks inline mtime mode) = record {
  kind_of = file_kind;
  size = size;
  mtime = mtime;
  blocks = length blocks;
  entries = 0;
}
stat_of (dir entries mtime) = record {
  kind_of = dir_kind;
  size = 0;
  mtime = mtime;
  blocks = 0;
  entries = length entries;
}

abbrev pub is_ok : {A : Type 0} → Result A → Bool
is_ok (ok a) = true
is_ok (err e) = false

module _ {P : Platform} where
  -- The calls of the block store, as actions.
  unfoldable pub put_block : Bytes → Action P Hash
  put_block b s = let r = BlockStore.put P.blake3 b s.blocks in (ok r.0, record s { blocks = r.1 })

  unfoldable pub get_block : Hash → Action P Bytes
  get_block h s = let r = BlockStore.get P.blake3 h s.blocks in (r.0, record s { blocks = r.1 })

  unfoldable pub put_blocks : List Bytes → Action P (List Hash)
  put_blocks [] = pure []
  put_blocks (b ∷ bs) = do h ← put_block b; hs ← put_blocks bs; pure (h ∷ hs)

  unfoldable pub get_blocks : List Hash → Action P Bytes
  get_blocks [] = pure []
  get_blocks (h ∷ hs) = do b ← get_block h; rest ← get_blocks hs; pure (b ++ rest)

  -- Where the bytes of a file go: inline, or into blocks. No chunk is empty.
  unfoldable pub store_data : Bytes → Action P (List Hash × Bytes)
  store_data bytes =
      if leb (length bytes) inline_max
      then pure ([], bytes)
      else do hs ← put_blocks (chunks block_size bytes); pure (hs, [])

  -- A file of mode 0o644, under a new number.
  unfoldable pub new_file : ℕ → List Hash × Bytes → Action P ℕ
  new_file size content = do
    id ← alloc
    put_inode id (file size content.0 content.1 (P.now id) 420)
    pure id

  write_comps : List Name → Bytes → Action P (Unit {0})
  write_comps [] bytes = bail cannot_write_root
  write_comps (name ∷ comps) bytes = do
    content ← store_data bytes
    id ← new_file (length bytes) content
    rebuild_and_commit name comps (some id)

  unfoldable pub write_file : Bytes → Bytes → Action P (Unit {0})
  unfolding write_comps
  write_file path bytes = write_comps (split path) bytes

  -- The bytes of an inode.
  unfoldable pub contents_of : Inode → Action P Bytes
  contents_of (dir entries mtime) = bail is_a_directory
  contents_of (file size [] inline mtime mode) = pure inline
  contents_of (file size (h ∷ hs) inline mtime mode) = get_blocks (h ∷ hs)

  unfoldable pub read_file : Bytes → Action P Bytes
  read_file path = do id ← resolve path; inode ← read_inode id; contents_of inode

  mkdir_comps : List Name → Action P (Unit {0})
  mkdir_comps [] = pure tt
  mkdir_comps (name ∷ comps) = do id ← new_dir []; rebuild_and_commit name comps (some id)

  unfoldable pub mkdir : Bytes → Action P (Unit {0})
  unfolding mkdir_comps
  mkdir path = mkdir_comps (split path)

  unfoldable pub kinds_of : Entries → Action P (List (Name × Kind))
  kinds_of [] = pure []
  kinds_of ((name, child) ∷ entries) = do
    inode ← read_inode child
    rest ← kinds_of entries
    pure ((name, kind inode) ∷ rest)

  unfoldable pub listing_of : Inode → Action P (List (Name × Kind))
  listing_of (file size blocks inline mtime mode) = bail is_a_file
  listing_of (dir entries mtime) = kinds_of entries

  unfoldable pub readdir : Bytes → Action P (List (Name × Kind))
  readdir path = do id ← resolve path; inode ← read_inode id; listing_of inode

  remove_comps : List Name → Action P (Unit {0})
  remove_comps [] = bail cannot_remove_root
  remove_comps (name ∷ comps) = rebuild_and_commit name comps none

  unfoldable pub remove : Bytes → Action P (Unit {0})
  unfolding remove_comps
  remove path = remove_comps (split path)

  rename_comps : Bytes → List Name → List Name → Action P (Unit {0})
  rename_comps from [] to_comps = bail cannot_rename_root
  rename_comps from (a ∷ as_) [] = bail cannot_rename_root
  rename_comps from (a ∷ as_) (b ∷ bs) = do
    id ← resolve from
    root ← get_root
    r₁ ← rebuild root b bs (some id)
    r₂ ← rebuild r₁ a as_ none
    commit r₂

  unfoldable pub rename : Bytes → Bytes → Action P (Unit {0})
  unfolding rename_comps
  rename from to = rename_comps from (split from) (split to)

  unfoldable pub stat : Bytes → Action P Stat
  stat path = do id ← resolve path; inode ← read_inode id; pure (stat_of inode)

  unfoldable pub exists : Bytes → Filesystem P → Bool × Filesystem P
  exists path s = let r = resolve path s in (is_ok r.0, r.1)
