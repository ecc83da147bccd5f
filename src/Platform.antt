-- ===== src/Platform.antt =====
-- What crates/neuralfs-fs/src/fs.rs takes from other crates and from the machine: the stores, the
-- digest, the LRU cache of inodes (`hashlink::LruCache`), the encoding (`bincode`) and the clock.
use neural_file_system.Prelude.{
  ℕ, ◌≡◌, ◌⊎◌, Bytes, Option, none, some, bytes_discrete, ℕ_discrete, ite,
}
use neural_file_system.HashLink.{Linked}
use neural_file_system.Sled.{Sled}
use neural_file_system.Blake3.{Blake3}
use neural_file_system.Inode.{Inode, SuperBlock}

-- An LRU cache by numbers. A lookup changes the order only; an insertion may evict.
pub record Lru (V : Type 0) : Type 1 where
  pub Cache : Type 0
  pub new : ℕ → Cache
  pub peek : ℕ → Cache → Option V
  pub get : ℕ → Cache → Option V × Cache
  pub insert : ℕ → V → Cache → Cache
  pub peek-new : (n j : ℕ) → peek j (new n) ≡ none
  pub get-peek : (k : ℕ) (c : Cache) → (get k c).0 ≡ peek k c
  pub peek-get : (k j : ℕ) (c : Cache) → peek j (get k c).1 ≡ peek j c
  pub peek-insert :
      (k j : ℕ) (v : V) (c : Cache)
      → (peek j (insert k v c) ≡ ite (ℕ_discrete k j) (some v) (peek j c))
        ⊎ (peek j (insert k v c) ≡ none)

-- `bincode`, at one type: what was serialized is read back.
pub record Bincode (A : Type 0) : Type 0 where
  pub serialize : A → Bytes
  pub deserialize : Bytes → Option A
  pub deserialize-serialize : (a : A) → deserialize (serialize a) ≡ some a

-- All of it together.
pub record Platform : Type 1 where
  pub sled : Sled
  pub linked : Linked bytes_discrete Bytes
  pub blake3 : Blake3
  pub lru : Lru Inode
  pub inode_code : Bincode Inode
  pub super_code : Bincode SuperBlock
  -- What the clock shows when the inode of a number is written.
  pub now : ℕ → ℕ
