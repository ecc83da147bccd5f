-- ===== src/FileEntry.antt =====
-- `FileEntry` of crates/neuralfs-daemon/src/store.rs: what the index keeps of a file. Times are
-- seconds since the epoch, which the program never makes negative.
use neural_file_system.Prelude.{ℕ, Bytes}

pub record FileEntry : Type 0 where
  pub path : Bytes
  pub file_name : Bytes
  pub extension : Bytes
  pub parent : Bytes
  pub size : ℕ
  pub modified : ℕ
  pub depth : ℕ
  pub freq : ℕ
  pub last_open : ℕ
