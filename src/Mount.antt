-- ===== src/Mount.antt =====
-- The tables of crates/neuralfs-daemon/src/mountfs.rs: the numbers that the mount gives to paths,
-- the files that are kept in RAM by their number, and the open files. Numbers are not wrapped: 64
-- bits are not used up.
pub mod Backing
pub mod Tables
pub mod Names
pub mod Files
pub mod Coherent
pub mod Steps
pub mod Reached
pub mod Lost
mod Tests
use neural_file_system.Prelude.{
  ℕ, ◌+◌, Option, none, some, List, [], ◌∷◌, ◌++◌, Bytes, lookup, erase, bytes_discrete, ℕ_discrete,
}
use neural_file_system.HashLink.{Linked}
use neural_file_system.Cache
use neural_file_system.Cache.{RamCache}

abbrev root_ino : ℕ
root_ino = 1

-- The open files are those of the real file system.
pub record PassthroughFs (L : Linked ℕ_discrete Bytes) (File : Type 0) : Type 0 where
  pub ino_to_path : List (ℕ × Bytes)
  pub path_to_ino : List (Bytes × ℕ)
  pub next_ino : ℕ
  pub handles : List (ℕ × File)
  pub next_fh : ℕ
  pub cache : RamCache L
  pub freq : List (ℕ × ℕ)

module _ {L : Linked ℕ_discrete Bytes} {File : Type 0} where
  unfoldable pub new : Bytes → ℕ → PassthroughFs L File
  new backing cache_bytes = record {
    ino_to_path = (root_ino, backing) ∷ [];
    path_to_ino = (backing, root_ino) ∷ [];
    next_ino = 2;
    handles = [];
    next_fh = 1;
    cache = Cache.new L cache_bytes;
    freq = [];
  }

  unfoldable pub ino_for : Bytes → PassthroughFs L File → ℕ × PassthroughFs L File
  ino_for path m = elim (lookup bytes_discrete path m.path_to_ino) [
    | some i ↦ (i, m)
    | none ↦ (
      m.next_ino,
      record m {
        next_ino = m.next_ino + 1;
        ino_to_path = erase ℕ_discrete m.next_ino m.ino_to_path ++ (m.next_ino, path) ∷ [];
        path_to_ino = erase bytes_discrete path m.path_to_ino ++ (path, m.next_ino) ∷ [];
      },
    )
  ]

  unfoldable pub path_of : ℕ → PassthroughFs L File → Option Bytes
  path_of ino m = lookup ℕ_discrete ino m.ino_to_path

  unfoldable pub forget_path : Bytes → PassthroughFs L File → PassthroughFs L File
  forget_path path m = elim (lookup bytes_discrete path m.path_to_ino) [
    | none ↦ m
    | some ino ↦ record m {
      path_to_ino = erase bytes_discrete path m.path_to_ino;
      ino_to_path = erase ℕ_discrete ino m.ino_to_path;
      cache = Cache.invalidate ino m.cache;
      freq = erase ℕ_discrete ino m.freq;
    }
  ]
