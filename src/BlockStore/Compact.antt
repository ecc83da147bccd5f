-- ===== src/BlockStore/Compact.antt =====
-- The garbage collection of crates/neuralfs-fs/src/blockstore.rs, `compact`: the data log is
-- rewritten with the live blocks only. The files on the side (the temporary image and the
-- placeholder) are not modelled: the swap of the log is one step.
use neural_file_system.Prelude.{
  ℕ, ◌+◌, Bool, List, [], ◌∷◌, ◌++◌, Bytes, length, bytes_discrete, ite, Result, ok, err,
  short_read, if◌then◌else◌, ◌==◌, true, false, none, some,
}
use neural_file_system.HashLink.{Linked}
use neural_file_system.Sled.{Sled, BatchOp, insert_op, remove_op}
use neural_file_system.Blake3.{Hash}
use neural_file_system.Cache
use neural_file_system.Cache.{RamCache}
use neural_file_system.BlockStore.{BlockStore, record_of}
use neural_file_system.BlockStore.Codec.{enc, dec}
use neural_file_system.BlockStore.LogFile.{read_exact}

pub record CompactStats : Type 0 where
  pub kept_blocks : ℕ
  pub dropped_blocks : ℕ
  pub bytes_reclaimed : ℕ

-- Membership in the `HashSet` of live blocks.
unfoldable pub contains_hash : List Hash → Hash → Bool
contains_hash [] h = false
contains_hash (x ∷ xs) h = ite (bytes_discrete x h) true (contains_hash xs h)

-- The variables of the loop of `compact`: the compacted image, the new index and the statistics.
pub record Compaction : Type 0 where
  pub image : Bytes
  pub new_index : List (Hash × Bytes)
  pub drop_keys : List Hash
  pub new_len : ℕ
  pub stats : CompactStats

abbrev pub empty_compaction : Compaction
empty_compaction = record {
  image = [];
  new_index = [];
  drop_keys = [];
  new_len = 0;
  stats = record { kept_blocks = 0; dropped_blocks = 0; bytes_reclaimed = 0 };
}

-- A live block is copied to the end of the image.
unfoldable pub keep_block : Hash → ℕ → Bytes → Compaction → Compaction
keep_block h len buf c =
    let rec = record_of len buf in
    record c {
      image = c.image ++ rec;
      new_index = c.new_index ++ (h, enc (c.new_len + 4) len) ∷ [];
      new_len = c.new_len + length rec;
      stats = record c.stats { kept_blocks = c.stats.kept_blocks + 1 };
    }

unfoldable pub drop_block : Hash → ℕ → Compaction → Compaction
drop_block h len c = record c {
  drop_keys = c.drop_keys ++ h ∷ [];
  stats = record c.stats {
    dropped_blocks = c.stats.dropped_blocks + 1;
    bytes_reclaimed = c.stats.bytes_reclaimed + len;
  };
}

-- The loop over the snapshot of the index; keys that are no digests are passed over. A live block
-- that cannot be read stops it.
unfoldable pub compact_entries :
    Bytes → List Hash → List (Bytes × Bytes) → Compaction → Result Compaction
unfolding contains_hash keep_block drop_block
compact_entries file live [] c = ok c
compact_entries file live ((h, v) ∷ kvs) c =
    let skip = compact_entries file live kvs c in
    let dropped = compact_entries file live kvs (drop_block h (dec v).1 c) in
    let kept = λ (buf : Bytes). compact_entries file live kvs (keep_block h (dec v).1 buf c) in
    if length h == 32
    then (if contains_hash live h
        then elim (read_exact (dec v).0 (dec v).1 file) [
          | none ↦ err short_read
          | some buf ↦ kept buf
        ]
        else dropped)
    else skip

-- The batch that rewrites the index.
abbrev pub inserts_of : List (Hash × Bytes) → List BatchOp
inserts_of [] = []
inserts_of ((h, packed) ∷ l) = insert_op h packed ∷ inserts_of l

abbrev pub removes_of : List Hash → List BatchOp
removes_of [] = []
removes_of (h ∷ hs) = remove_op h ∷ removes_of hs

unfoldable pub invalidate_all :
    {L : Linked bytes_discrete Bytes} → List Hash → RamCache L → RamCache L
invalidate_all [] c = c
invalidate_all (h ∷ hs) c = invalidate_all hs (Cache.invalidate h c)

module _ {S : Sled} {L : Linked bytes_discrete Bytes} where
  -- The swap of the log, the rewrite of the index, and the eviction of the dropped blocks.
  unfoldable pub install : Compaction → BlockStore S L → BlockStore S L
  unfolding invalidate_all
  install c s = record {
    log = record { file = c.image; len = c.new_len };
    index = S.apply_batch (inserts_of c.new_index ++ removes_of c.drop_keys) s.index;
    cache = invalidate_all c.drop_keys s.cache;
  }

  unfoldable pub compact : List Hash → BlockStore S L → Result CompactStats × BlockStore S L
  unfolding compact_entries install
  compact live s = elim (compact_entries s.log.file live (S.iter s.index) empty_compaction) [
    | err e ↦ (err e, s)
    | ok c ↦ (ok c.stats, install c s)
  ]
