-- ===== src/Mount/Backing.antt =====
-- The real files below the mount of crates/neuralfs-daemon/src/mountfs.rs, as an interface: what
-- `std::fs` and the traits of Unix give, and the flags of libc. Times are seconds, and a time before
-- 1970 is none.
use neural_file_system.Prelude.{ℕ, ◌≡◌, Bool, Option, List, Bytes}

-- The code of a failed call, if the system gave one.
pub data Io {ℓ} (A : Type ℓ) : Type ℓ where
  good : A → Io A
  bad : Option ℕ → Io A

pub record Meta : Type 0 where
  pub is_dir : Bool
  pub is_symlink : Bool
  pub len : ℕ
  pub accessed : Option ℕ
  pub modified : Option ℕ
  pub changed : Option ℕ
  pub mode : ℕ
  pub nlink : ℕ
  pub uid : ℕ
  pub gid : ℕ
  pub rdev : ℕ

pub data FileType : Type 0 where
  directory symlink regular_file : FileType

pub data Access : Type 0 where
  write_only read_write other_access : Access

pub record OpenOptions : Type 0 where
  pub read : Bool
  pub write : Bool
  pub create : Bool
  pub truncate : Bool
  pub custom_flags : ℕ

-- An entry of a directory: its path, its name and its type, if the system knows it.
pub record DirEnt : Type 0 where
  pub path : Bytes
  pub file_name : Bytes
  pub file_type : Option FileType

pub record Backing : Type 1 where
  pub Disk : Type 0
  pub File : Type 0
  pub join : Bytes → Bytes → Bytes
  pub symlink_metadata : Bytes → Disk → Io Meta
  -- The length that `metadata` tells, and the whole file.
  pub file_len : Bytes → Disk → Option ℕ
  pub read_whole : Bytes → Disk → Option Bytes
  pub read_dir : Bytes → Disk → Option (List DirEnt)
  -- A call that fails changes nothing, but for a write.
  pub open_file : OpenOptions → Bytes → Disk → Io (File × Disk)
  -- As many bytes as are wanted at most.
  pub read_at : File → ℕ → ℕ → Disk → Io Bytes
  pub write_at : File → Bytes → ℕ → Disk → Io ℕ × Disk
  pub set_len : File → ℕ → Disk → Disk
  pub sync_data : File → Disk → Disk
  pub sync_all : File → Disk → Disk
  pub create_dir : Bytes → Disk → Io Disk
  pub remove_file : Bytes → Disk → Io Disk
  pub remove_dir : Bytes → Disk → Io Disk
  pub rename : Bytes → Bytes → Disk → Io Disk
  -- What was renamed is there under its new path.
  pub symlink_metadata-rename :
      (p q : Bytes) (d d' : Disk)
      → rename p q d ≡ good d'
      → (m : Meta) × (symlink_metadata q d' ≡ good m)
  -- `flags & O_ACCMODE`, `flags & !O_ACCMODE` and `flags & O_TRUNC`.
  pub access : ℕ → Access
  pub other_flags : ℕ → ℕ
  pub truncates : ℕ → Bool
