-- ===== src/Mount/Names.antt =====
-- crates/neuralfs-daemon/src/mountfs.rs: the answers of the mount, and the calls on names.
use neural_file_system.Prelude.{
  ℕ, ◌+◌, ◌/◌, ◌%◌, ◌^◌, true, false, Option, none, some, List, [], ◌∷◌, ◌++◌, Bytes, take, drop,
  text, ℕ_discrete, if◌then◌else◌,
}
use neural_file_system.HashLink.{Linked}
use neural_file_system.Cache
use neural_file_system.Mount.{PassthroughFs, ino_for, path_of, forget_path}
use neural_file_system.Mount.Backing.{
  Backing, Io, good, bad, Meta, FileType, directory, symlink, regular_file, OpenOptions, DirEnt,
}

-- The codes that the mount answers with: its own, or that of the system.
pub data Errno : Type 0 where
  enoent enotdir eio : Errno
  os : ℕ → Errno

-- `e.raw_os_error().unwrap_or(libc::EIO)`.
unfoldable pub errno : Option ℕ → Errno
errno none = eio
errno (some n) = os n

pub record FileAttr : Type 0 where
  pub ino : ℕ
  pub size : ℕ
  pub blocks : ℕ
  pub atime : ℕ
  pub mtime : ℕ
  pub ctime : ℕ
  pub crtime : ℕ
  pub kind : FileType
  pub perm : ℕ
  pub nlink : ℕ
  pub uid : ℕ
  pub gid : ℕ
  pub rdev : ℕ
  pub flags : ℕ
  pub blksize : ℕ

abbrev or_zero : Option ℕ → ℕ
or_zero none = 0
or_zero (some n) = n

unfoldable pub attr_from_meta : ℕ → Meta → FileAttr
attr_from_meta ino m = record {
  ino = ino;
  size = m.len;
  blocks = (m.len + 511) / 512;
  atime = or_zero m.accessed;
  mtime = or_zero m.modified;
  ctime = or_zero m.changed;
  crtime = 0;
  kind = if m.is_dir then directory else if m.is_symlink then symlink else regular_file;
  perm = m.mode % 4096;
  nlink = m.nlink % 2 ^ 32;
  uid = m.uid;
  gid = m.gid;
  rdev = m.rdev % 2 ^ 32;
  flags = 0;
  blksize = 512;
}

-- For how many seconds the kernel may keep a name and the attributes.
abbrev pub entry_ttl : ℕ
entry_ttl = 5

abbrev pub attr_ttl : ℕ
attr_ttl = 5

-- What a call replies. An entry of a directory has the place where the next listing goes on.
pub data Answer : Type 0 where
  error : Errno → Answer
  entry : (ttl : ℕ) → FileAttr → Answer
  attr : (ttl : ℕ) → FileAttr → Answer
  listing : List (ℕ × (ℕ × (FileType × Bytes))) → Answer
  opened : (fh : ℕ) → Answer
  created : (ttl : ℕ) → FileAttr → (fh : ℕ) → Answer
  bytes_read : Bytes → Answer
  written : ℕ → Answer
  success : Answer
  statistics : List ℕ → Answer

abbrev pub for_writing : OpenOptions
for_writing = record {
  read = false;
  write = true;
  create = false;
  truncate = false;
  custom_flags = 0;
}

abbrev kind_of : Option FileType → FileType
kind_of none = regular_file
kind_of (some t) = t

unfoldable pub with_places : ℕ → List (ℕ × (FileType × Bytes)) → List (ℕ × (ℕ × (FileType × Bytes)))
with_places i [] = []
with_places i ((ino, e) ∷ es) = (ino, (i + 1, e)) ∷ with_places (i + 1) es

module _ (B : Backing) where
  -- The answer with the attributes of a path.
  unfoldable pub attr_answer : ℕ → Bytes → B.Disk → Answer
  attr_answer ino p d = elim (B.symlink_metadata p d) [
    | good meta ↦ attr attr_ttl (attr_from_meta ino meta)
    | bad e ↦ error enoent
  ]

  -- The file is opened for writing and cut, or nothing is done to it.
  unfoldable pub truncate_file : Bytes → ℕ → B.Disk → B.Disk
  truncate_file p size d = elim (B.open_file for_writing p d) [
    | good (f, d') ↦ B.set_len f size d'
    | bad e ↦ d
  ]

module _ (L : Linked ℕ_discrete Bytes) (B : Backing) where
  -- The mount and the real files below it, which a call changes.
  abbrev pub Mounted : Type 0
  Mounted = PassthroughFs L B.File × B.Disk

  unfoldable pub lookup_name : ℕ → Bytes → Mounted → Answer × Mounted
  lookup_name parent name (m, d) = elim (path_of parent m) [
    | none ↦ (error enoent, (m, d))
    | some pp ↦
        let child = B.join pp name in
        elim (B.symlink_metadata child d) [
          | good meta ↦
              let found = ino_for child m in
              (entry entry_ttl (attr_from_meta found.0 meta), (found.1, d))
          | bad e ↦ (error enoent, (m, d))
        ]
  ]

  unfoldable pub getattr : ℕ → Mounted → Answer × Mounted
  unfolding attr_answer
  getattr ino (m, d) = elim (path_of ino m) [
    | none ↦ (error enoent, (m, d))
    | some p ↦ (attr_answer B ino p d, (m, d))
  ]

  -- Only a new size is heeded.
  unfoldable pub setattr : ℕ → Option ℕ → Mounted → Answer × Mounted
  unfolding attr_answer truncate_file
  setattr ino size (m, d) = elim (path_of ino m) [
    | none ↦ (error enoent, (m, d))
    | some p ↦ elim size [
      | none ↦ (attr_answer B ino p d, (m, d))
      | some n ↦
          let d' = truncate_file B p n d in
          (attr_answer B ino p d', (record m { cache = Cache.invalidate ino m.cache }, d'))
    ]
  ]

  -- The entries of a directory, each with its number.
  unfoldable pub number_all :
      List DirEnt → PassthroughFs L B.File → List (ℕ × (FileType × Bytes)) × PassthroughFs L B.File
  number_all [] m = ([], m)
  number_all (e ∷ es) m =
      let found = ino_for e.path m in
      let rest = number_all es found.1 in
      ((found.0, (kind_of e.file_type, e.file_name)) ∷ rest.0, rest.1)

  -- The reply has room for some entries: those after `offset`, as many as fit.
  unfoldable pub readdir : ℕ → ℕ → ℕ → Mounted → Answer × Mounted
  unfolding number_all with_places
  readdir ino offset room (m, d) = elim (path_of ino m) [
    | none ↦ (error enoent, (m, d))
    | some p ↦ elim (B.read_dir p d) [
      | none ↦ (error enotdir, (m, d))
      | some es ↦
          let gets_number = number_all es m in
          let dots = (ino, (directory, text ".")) ∷ (ino, (directory, text "..")) ∷ [] in
          (
            listing (take room (drop offset (with_places 0 (dots ++ gets_number.0)))),
            (gets_number.1, d),
          )
    ]
  ]

  unfoldable pub mkdir : ℕ → Bytes → Mounted → Answer × Mounted
  unfolding errno
  mkdir parent name (m, d) = elim (path_of parent m) [
    | none ↦ (error enoent, (m, d))
    | some pp ↦
        let child = B.join pp name in
        elim (B.create_dir child d) [
          | bad e ↦ (error (errno e), (m, d))
          | good d' ↦
              let found = ino_for child m in
              elim (B.symlink_metadata child d') [
                | good meta ↦ (entry entry_ttl (attr_from_meta found.0 meta), (found.1, d'))
                | bad e ↦ (error (errno e), (found.1, d'))
              ]
        ]
  ]

  -- `unlink` and `rmdir`, which differ in the call of the system alone.
  unfoldable pub remove_by : (Bytes → B.Disk → Io B.Disk) → ℕ → Bytes → Mounted → Answer × Mounted
  unfolding errno
  remove_by remove parent name (m, d) = elim (path_of parent m) [
    | none ↦ (error enoent, (m, d))
    | some pp ↦
        let child = B.join pp name in
        elim (remove child d) [
          | good d' ↦ (success, (forget_path child m, d'))
          | bad e ↦ (error (errno e), (m, d))
        ]
  ]

  unfoldable pub unlink : ℕ → Bytes → Mounted → Answer × Mounted
  unfolding remove_by
  unlink = remove_by B.remove_file

  unfoldable pub rmdir : ℕ → Bytes → Mounted → Answer × Mounted
  unfolding remove_by
  rmdir = remove_by B.remove_dir

  unfoldable pub rename_path : ℕ → Bytes → ℕ → Bytes → Mounted → Answer × Mounted
  unfolding errno
  rename_path parent name new_parent new_name (m, d) = elim (path_of parent m) [
    | none ↦ (error enoent, (m, d))
    | some pp ↦ elim (path_of new_parent m) [
      | none ↦ (error enoent, (m, d))
      | some np ↦
          let from = B.join pp name in
          let to = B.join np new_name in
          elim (B.rename from to d) [
            | good d' ↦ (success, (forget_path to (forget_path from m), d'))
            | bad e ↦ (error (errno e), (m, d))
          ]
    ]
  ]

  unfoldable pub statfs : Mounted → Answer × Mounted
  statfs s = (statistics (2 ^ 30 ∷ 2 ^ 29 ∷ 2 ^ 29 ∷ 2 ^ 20 ∷ 2 ^ 19 ∷ 4096 ∷ 255 ∷ 4096 ∷ []), s)
