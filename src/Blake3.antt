-- ===== src/Blake3.antt =====
-- The `blake3` crate, which crates/neuralfs-fs/src/blockstore.rs calls: a digest of 32 bytes.
use neural_file_system.Prelude.{◌≡◌, Bytes, length}

-- `Hash` of the source, `[u8; 32]`.
abbrev pub Hash : Type 0
Hash = Bytes

pub record Blake3 : Type 0 where
  pub digest : Bytes → Hash
  pub length-digest : (b : Bytes) → length (digest b) ≡ 32

-- The digest has no collision among the byte strings of `D`: what a content-addressed store
-- relies on, of the contents that it meets.
abbrev pub CollisionFree : Blake3 → (Bytes → Type 0) → Type 0
CollisionFree B D = (a b : Bytes) → D a → D b → B.digest a ≡ B.digest b → a ≡ b
