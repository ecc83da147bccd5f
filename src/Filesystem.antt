-- ===== src/Filesystem.antt =====
-- crates/neuralfs-fs/src/fs.rs: the copy-on-write filesystem, its state and the internals on which
-- the public calls stand. A method is an action: it returns its result, or the error that it
-- raised, and the new state; an error keeps the changes made before it. The two locks are not
-- modelled: a call runs alone. The clock is read once for each inode that is written.
pub mod Nodes
pub mod Paths
pub mod Links
pub mod Rebuild
pub mod History
pub mod Calls
pub mod Renames
pub mod SelfRename
pub mod Samples
mod Tests
pub mod Files
pub mod Snapshots
pub mod Collection
use neural_file_system.Prelude.{
  ℕ, ◌+◌, Bool, ◌||◌, Option, none, some, List, [], ◌∷◌, ◌++◌, Bytes, bytes_discrete, Result, ok,
  err, Error, dangling_inode, bad_encoding, no_such_component, not_a_directory, traverses_a_file,
  no_such_entry, ◌==◌, split_by,
}
use neural_file_system.Inode.{
  Name, Entries, Inode, file, dir, SuperBlock, insert_entry, remove_entry, get_entry,
}
use neural_file_system.Platform.{Platform}
use neural_file_system.BlockStore.{BlockStore}
use neural_file_system.BlockStore.Codec.{to_be_bytes}

pub record Filesystem (P : Platform) : Type 0 where
  pub blocks : BlockStore P.sled P.linked
  pub inodes : P.sled.Tree
  pub super_tree : P.sled.Tree
  pub snapshots : P.sled.Tree
  pub state : SuperBlock
  pub inode_cache : P.lru.Cache

-- An action of a method on `&self`.
abbrev pub Action : Platform → Type 0 → Type 0
Action P A = Filesystem P → Result A × Filesystem P

abbrev pub pure : {P : Platform} {A : Type 0} → A → Action P A
pure a s = (ok a, s)

abbrev pub bail : {P : Platform} {A : Type 0} → Error → Action P A
bail e s = (err e, s)

infixl 5 ◌>>=◌ ◌>>◌
unfoldable pub ◌>>=◌ : {P : Platform} {A B : Type 0} → Action P A → (A → Action P B) → Action P B
◌>>=◌ m f s = elim (m s).0 [ ok a ↦ f a (m s).1 | err e ↦ (err e, (m s).1) ]

abbrev pub ◌>>◌ : {P : Platform} {B : Type 0} → Action P (Unit {0}) → Action P B → Action P B
m >> k = m >>= λ _. k

-- `split`: the parts between slashes and backslashes that are not empty.
is_separator : ℕ → Bool
is_separator c = c == b'/' || c == 92

drop_empty : List Name → List Name
drop_empty [] = []
drop_empty ([] ∷ parts) = drop_empty parts
drop_empty ((c ∷ cs) ∷ parts) = (c ∷ cs) ∷ drop_empty parts

unfoldable pub split : Bytes → List Name
unfolding is_separator drop_empty split_by
split path = drop_empty (split_by is_separator path)

-- `to_be_bytes` of 64 bits.
unfoldable pub id_key : ℕ → Bytes
id_key id = to_be_bytes 8 id

unfoldable pub super_key : Bytes
super_key = b'r' ∷ b'o' ∷ b'o' ∷ b't' ∷ []

module _ {P : Platform} where
  unfoldable pub alloc : Action P ℕ
  alloc s = (
    ok s.state.next_inode,
    record s { state = record s.state { next_inode = s.state.next_inode + 1 } },
  )

  unfoldable pub read_inode : ℕ → Action P Inode
  read_inode id s =
      let s₁ : Filesystem P = record s { inode_cache = (P.lru.get id s.inode_cache).1 } in
      elim (P.lru.get id s.inode_cache).0 [
        | some n ↦ (ok n, s₁)
        | none ↦ elim (P.sled.get (id_key id) s.inodes) [
          | none ↦ (err dangling_inode, s₁)
          | some v ↦ elim (P.inode_code.deserialize v) [
            | none ↦ (err bad_encoding, s₁)
            | some n ↦ (ok n, record s₁ { inode_cache = P.lru.insert id n s₁.inode_cache })
          ]
        ]
      ]

  unfoldable pub put_inode : ℕ → Inode → Action P (Unit {0})
  put_inode id n s = (
    ok tt,
    record s {
      inodes = P.sled.insert (id_key id) (P.inode_code.serialize n) s.inodes;
      inode_cache = P.lru.insert id n s.inode_cache;
    },
  )

  unfoldable pub commit : ℕ → Action P (Unit {0})
  commit new_root s =
      let st : SuperBlock = record s.state { root = new_root; txg = s.state.txg + 1 } in
      (
        ok tt,
        record s {
          state = st;
          super_tree = P.sled.insert super_key (P.super_code.serialize st) s.super_tree;
        },
      )

  -- A directory of the given entries, under a new number.
  unfoldable pub new_dir : Entries → Action P ℕ
  new_dir entries = do id ← alloc; put_inode id (dir entries (P.now id)); pure id

  unfoldable pub get_root : Action P ℕ
  get_root s = (ok s.state.root, s)

  -- One round of the loop of `resolve`.
  unfoldable pub child_of : Name → Inode → Action P ℕ
  child_of c (file size blocks inline mtime mode) = bail not_a_directory
  child_of c (dir entries mtime) = elim (get_entry c entries) [
    | none ↦ bail no_such_component
    | some id ↦ pure id
  ]

  unfoldable pub resolve_from : ℕ → List Name → Action P ℕ
  resolve_from id [] = pure id
  resolve_from id (c ∷ comps) = do
    inode ← read_inode id
    next ← child_of c inode
    resolve_from next comps

  unfoldable pub resolve : Bytes → Action P ℕ
  resolve path = do root ← get_root; resolve_from root (split path)

  unfoldable pub entries_of : Inode → Action P Entries
  entries_of (file size blocks inline mtime mode) = bail traverses_a_file
  entries_of (dir entries mtime) = pure entries

  -- The change to the directory that holds the final component.
  unfoldable pub set_leaf : Name → Option ℕ → Entries → Action P Entries
  set_leaf name (some id) entries = pure (insert_entry name id entries)
  set_leaf name none entries = elim (get_entry name entries) [
    | none ↦ bail no_such_entry
    | some id ↦ pure (remove_entry name entries)
  ]

  unfoldable pub child_or_new : Option ℕ → Action P ℕ
  child_or_new (some id) = pure id
  child_or_new none = new_dir []

  -- `rebuild`, over the first component and the rest: the callers give no empty path.
  unfoldable pub rebuild : ℕ → Name → List Name → Option ℕ → Action P ℕ
  rebuild dir_id name [] leaf = do
    inode ← read_inode dir_id
    entries ← entries_of inode
    changed ← set_leaf name leaf entries
    new_dir changed
  rebuild dir_id name (c ∷ comps) leaf = do
    inode ← read_inode dir_id
    entries ← entries_of inode
    child ← child_or_new (get_entry name entries)
    new_child ← rebuild child c comps leaf
    new_dir (insert_entry name new_child entries)

  -- The two last lines of each call that changes the tree.
  unfoldable pub rebuild_and_commit : Name → List Name → Option ℕ → Action P (Unit {0})
  rebuild_and_commit name comps leaf = do
    root ← get_root
    new_root ← rebuild root name comps leaf
    commit new_root
