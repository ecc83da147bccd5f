-- ===== src/BlockStore.antt =====
-- crates/neuralfs-fs/src/blockstore.rs: the content-addressed, append-only, deduplicating block
-- store, over the index (a `sled::Tree`), the data log and the RAM cache. A method returns its
-- result and the new store. The locks are not modelled: each method is one step. Offsets are plain
-- numbers until they are packed by `enc`, which keeps 64 and 32 bits of them.
pub mod Codec
pub mod LogFile
pub mod Compact
pub mod Image
pub mod Entries
pub mod Collect
mod Tests
pub mod Contents
pub mod Reads
pub mod Writes
use neural_file_system.Prelude.{
  ℕ, ◌+◌, ◌*◌, ◌%◌, ◌^◌, Bool, Option, none, some, List, [], ◌∷◌, ◌++◌, Bytes, length,
  bytes_discrete, ite, ◌&&◌, true, Result, ok, err, block_not_found, integrity_check_failed,
  short_read, if◌then◌else◌, ◌==◌, false,
}
use neural_file_system.HashLink.{Linked}
use neural_file_system.Sled.{Sled, BatchOp, insert_op, remove_op}
use neural_file_system.Blake3.{Blake3, Hash}
use neural_file_system.Cache
use neural_file_system.Cache.{RamCache, CacheStats}
use Codec.{to_le_bytes, enc, dec, hash_hex}
use LogFile.{DataLog, write_at, read_exact}

abbrev pub block_size : ℕ
block_size = 64 * 1024

pub record BlockStore (S : Sled) (L : Linked bytes_discrete Bytes) : Type 0 where
  pub log : DataLog
  pub index : S.Tree
  pub cache : RamCache L

-- The length header and the bytes of a block in the log; the header keeps 32 bits of the length.
abbrev pub record_of : ℕ → Bytes → Bytes
record_of len bytes = to_le_bytes 4 len ++ bytes

module _ (S : Sled) (L : Linked bytes_discrete Bytes) where
  -- `open` over the bytes of the data log.
  unfoldable pub open_store : Bytes → S.Tree → ℕ → BlockStore S L
  open_store file index cache_bytes = record {
    log = record { file = file; len = length file };
    index = index;
    cache = Cache.new L cache_bytes;
  }

-- The body of the loop of `scrub`, for a key of 32 bytes: is the block corrupt?
pub is_corrupt : Blake3 → Bytes → Bytes → Bytes → Bool
is_corrupt B file k v = elim (read_exact (dec v).0 (dec v).1 file) [
  | none ↦ true
  | some buf ↦ ite (bytes_discrete (B.digest buf) k) false true
]

-- The loop: the count of the blocks that were checked, and the hex names of the corrupt ones.
pub scrub_entries : Blake3 → Bytes → List (Bytes × Bytes) → ℕ → List Bytes → ℕ × List Bytes
scrub_entries B file [] checked bad = (checked, bad)
scrub_entries B file ((k, v) ∷ kvs) checked bad =
    scrub_entries B file kvs (if length k == 32 then checked + 1 else checked)
      (if length k == 32 && is_corrupt B file k v then bad ++ hash_hex k ∷ [] else bad)

pub sum_lengths : List (Bytes × Bytes) → ℕ
sum_lengths [] = 0
sum_lengths ((k, v) ∷ kvs) = (dec v).1 + sum_lengths kvs

module _ {S : Sled} {L : Linked bytes_discrete Bytes} (B : Blake3) where
  -- The part of `put` behind the early return: append, index, cache.
  pub append_block : Hash → Bytes → BlockStore S L → BlockStore S L
  append_block hash bytes s =
      let write_at_offset = s.log.len in
      let rec = record_of (length bytes % 2 ^ 32) bytes in
      record {
        log = record {
          file = write_at write_at_offset rec s.log.file;
          len = s.log.len + length rec;
        };
        index = S.insert hash (enc (write_at_offset + 4) (length bytes % 2 ^ 32)) s.index;
        cache = Cache.insert hash bytes s.cache;
      }

  unfoldable pub put : Bytes → BlockStore S L → Hash × BlockStore S L
  unfolding append_block
  put bytes s =
      let hash = B.digest bytes in
      (hash, if S.contains_key hash s.index then s else append_block hash bytes s)

  -- The part of `get` behind the cache: look up, read, verify, cache.
  pub fetch : Hash → BlockStore S L → Result Bytes × BlockStore S L
  fetch hash s = elim (S.get hash s.index) [
    | none ↦ (err block_not_found, s)
    | some v ↦ elim (read_exact (dec v).0 (dec v).1 s.log.file) [
      | none ↦ (err short_read, s)
      | some buf ↦
          ite (bytes_discrete (B.digest buf) hash)
            (ok buf, record s { cache = Cache.insert hash buf s.cache })
            (err integrity_check_failed, s)
    ]
  ]

  unfoldable pub get : Hash → BlockStore S L → Result Bytes × BlockStore S L
  unfolding fetch
  get hash s = elim (Cache.get hash s.cache).0 [
    | some v ↦ (ok v, record s { cache = (Cache.get hash s.cache).1 })
    | none ↦ fetch hash (record s { cache = (Cache.get hash s.cache).1 })
  ]

  unfoldable pub scrub : BlockStore S L → ℕ × List Bytes
  unfolding is_corrupt scrub_entries
  scrub s = scrub_entries B s.log.file (S.iter s.index) 0 []

module _ {S : Sled} {L : Linked bytes_discrete Bytes} where
  unfoldable pub cache_stats : BlockStore S L → CacheStats
  cache_stats s = Cache.stats s.cache

  unfoldable pub block_count : BlockStore S L → ℕ
  block_count s = S.len s.index

  unfoldable pub physical_bytes : BlockStore S L → ℕ
  unfolding sum_lengths
  physical_bytes s = sum_lengths (S.iter s.index)

  unfoldable pub len_for : Hash → BlockStore S L → ℕ
  len_for hash s = elim (S.get hash s.index) [ none ↦ 0 | some v ↦ (dec v).1 ]
