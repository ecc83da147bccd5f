-- ===== src/BlockStore/Contents.antt =====
-- The block store of crates/neuralfs-fs/src/blockstore.rs as a partial map from digests to
-- contents: `put` adds to it, `get` reads it, and corruption is never returned.
use neural_file_system.Prelude.{
  ℕ, ◌^◌, ◌<◌, ◌≡◌, ap, refl, Option, none, some, [], Bytes, length, bytes_discrete, ite, Result,
  ok, err, block_not_found, Option-cases, inl, inr, arith,
}
use neural_file_system.HashLink.{Linked}
use neural_file_system.Sled.{Sled}
use neural_file_system.Blake3.{Blake3, Hash}
use neural_file_system.Cache
use neural_file_system.Cache.{RamCache}
use neural_file_system.Cache.Segments.{peek}
use neural_file_system.Cache.Bounds.{IsBounded, new-IsBounded, insert-IsBounded, get-IsBounded}
use neural_file_system.Cache.Lookup.{get-Loses, insert-peek, peek-new}
use neural_file_system.BlockStore.{BlockStore, open_store, fetch}
use neural_file_system.BlockStore.Codec.{dec}
use neural_file_system.BlockStore.LogFile.{read_exact}

-- What an index value stands for: the bytes that it points to, if they hash to the key.
unfoldable pub verified : Blake3 → Bytes → Hash → Bytes → Option Bytes
verified B file hash v = elim (read_exact (dec v).0 (dec v).1 file) [
  | none ↦ none
  | some buf ↦ ite (bytes_discrete (B.digest buf) hash) (some buf) none
]

-- The answer of a sound store: the contents, or "block not found".
abbrev pub answer : Option Bytes → Result Bytes
answer none = err block_not_found
answer (some b) = ok b

module _ {S : Sled} {L : Linked bytes_discrete Bytes} (B : Blake3) where
  unfoldable pub stored : Hash → BlockStore S L → Option Bytes
  stored hash s = elim (S.get hash s.index) [ none ↦ none | some v ↦ verified B s.log.file hash v ]

  -- Every index value points to bytes of the log that hash to the key, and the cache agrees.
  pub record IsSound (s : BlockStore S L) : Type 0 where
    pub log_len : s.log.len ≡ length s.log.file
    pub narrow : (h v : Bytes) → S.get h s.index ≡ some v → (dec v).1 < 2 ^ 32
    pub indexed :
        (h v : Bytes)
        → S.get h s.index ≡ some v
        → (b : Bytes) × (verified B s.log.file h v ≡ some b)
    pub cached : (h b : Bytes) → peek h s.cache ≡ some b → stored h s ≡ some b
    pub bounded : IsBounded s.cache

  -- The contents hash to their address.
  pub stored-digest : (h b : Bytes) (s : BlockStore S L) → stored h s ≡ some b → B.digest b ≡ h
  unfolding stored verified
  stored-digest h b s e = ground arith

  pub stored_absent : (h : Hash) (s : BlockStore S L) → S.get h s.index ≡ none → stored h s ≡ none
  unfolding stored
  stored_absent h s e = ground arith

  module _ (h : Hash) (s : BlockStore S L) (w : IsSound s) where
    pub found :
        (v : Bytes)
        → S.get h s.index ≡ some v
        → (b : Bytes) × (read_exact (dec v).0 (dec v).1 s.log.file ≡ some b)
          × (B.digest b ≡ h)
          × (stored h s ≡ some b)
    unfolding verified stored
    found v e = let (b, g) = w.indexed h v e in (b, ground arith, ground arith, ground arith)

    pub fetch-answer : (fetch B h s).0 ≡ answer (stored h s)
    unfolding fetch stored
    fetch-answer = elim (Option-cases (S.get h s.index)) [
      | inl e ↦ ground arith
      | inr (v, e) ↦ let (b, r, d, g) = found v e in ground arith
    ]

  module _ (s : BlockStore S L) (c : RamCache L) (w : IsSound s) (b : IsBounded c) where
    -- Another cache that agrees with the contents.
    pub IsSound-cache :
        ((h b : Bytes) → peek h c ≡ some b → stored h s ≡ some b) → IsSound (record s { cache = c })
    unfolding stored
    IsSound-cache agrees = record {
      log_len = w.log_len;
      narrow = w.narrow;
      indexed = w.indexed;
      cached = agrees;
      bounded = b;
    }

  pub stored_of_cache :
      (h : Hash) (s : BlockStore S L) (c : RamCache L)
      → stored h (record s { cache = c }) ≡ stored h s
  unfolding stored
  stored_of_cache h s c = refl

  -- Caching what is stored keeps the store sound.
  pub cache_stored-IsSound :
      (h : Hash) (b : Bytes) (s : BlockStore S L)
      → IsSound s
      → stored h s ≡ some b
      → IsSound (record s { cache = Cache.insert h b s.cache })
  cache_stored-IsSound h b s w e =
      IsSound-cache s (Cache.insert h b s.cache) w (insert-IsBounded h b s.cache w.bounded)
        (λ j x p.
          ground (arith, insert-peek h b s.cache j, w.cached j x, ap (λ (k : Hash). stored k s)))

  pub lookup_cache-IsSound :
      (h : Hash) (s : BlockStore S L)
      → IsSound s
      → IsSound (record s { cache = (Cache.get h s.cache).1 })
  lookup_cache-IsSound h s w =
      IsSound-cache s (Cache.get h s.cache).1 w (get-IsBounded h s.cache w.bounded)
        (λ j x p. ground (arith, get-Loses h s.cache w.bounded j, w.cached j x))

  -- A new store holds nothing.
  pub open_store-IsSound : (cache_bytes : ℕ) → IsSound (open_store S L [] S.new cache_bytes)
  unfolding open_store
  open_store-IsSound cache_bytes = record {
    log_len = refl;
    narrow = λ h v e. absurd (ground (arith, S.get-new h));
    indexed = λ h v e. absurd (ground (arith, S.get-new h));
    cached = λ h b e. absurd (ground (arith, peek-new L h cache_bytes));
    bounded = new-IsBounded cache_bytes;
  }
