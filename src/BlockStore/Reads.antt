-- ===== src/BlockStore/Reads.antt =====
-- `get` of crates/neuralfs-fs/src/blockstore.rs: what it answers from a sound store, and that no
-- store, whatever the disk holds, makes it return bytes that do not hash to the address.
use neural_file_system.Prelude.{
  ◌⊎◌, ◌≡◌, ◌∙◌, sym, ap, none, some, Bytes, bytes_discrete, Result, ok, Option-cases, inl, inr,
  arith,
}
use neural_file_system.HashLink.{Linked}
use neural_file_system.Sled.{Sled}
use neural_file_system.Blake3.{Blake3, Hash}
use neural_file_system.Cache
use neural_file_system.Cache.{RamCache}
use neural_file_system.Cache.Segments.{peek}
use neural_file_system.Cache.Bounds.{IsBounded, insert-IsBounded, get-IsBounded}
use neural_file_system.Cache.Lookup.{get-peek, get-Loses, insert-peek}
use neural_file_system.BlockStore.{BlockStore, fetch, get}
use neural_file_system.BlockStore.Codec.{dec}
use neural_file_system.BlockStore.LogFile.{read_exact}
use neural_file_system.BlockStore.Contents.{
  stored, stored-digest, IsSound, answer, fetch-answer, stored_of_cache, cache_stored-IsSound,
  lookup_cache-IsSound,
}

module _ {S : Sled} {L : Linked bytes_discrete Bytes} (B : Blake3) where
  -- A read leaves the store as it is, or caches what it returns.
  fetch_state :
      (h : Hash) (s : BlockStore S L)
      → ((fetch B h s).1 ≡ s)
        ⊎ ((b : Bytes) × ((fetch B h s).0 ≡ ok b)
            × ((fetch B h s).1 ≡ record s { cache = Cache.insert h b s.cache }))
  unfolding fetch
  fetch_state h s = elim (Option-cases (S.get h s.index)) [
    | inl e ↦ inl (ground arith)
    | inr (v, e) ↦ elim (Option-cases (read_exact (dec v).0 (dec v).1 s.log.file)) [
      | inl r ↦ inl (ground arith)
      | inr (buf, r) ↦ elim (bytes_discrete (B.digest buf) h) [
        | yes p ↦ inr (buf, ground arith, ground arith)
        | no p ↦ inl (ground arith)
      ]
    ]
  ]

  fetch_digest :
      (h : Hash) (s : BlockStore S L) (b : Bytes) → (fetch B h s).0 ≡ ok b → B.digest b ≡ h
  unfolding fetch
  fetch_digest h s b e = ground arith

  module _ (h : Hash) (s : BlockStore S L) where
    abbrev looked : BlockStore S L
    looked = record s { cache = (Cache.get h s.cache).1 }

    get_hit : (v : Bytes) → (Cache.get h s.cache).0 ≡ some v → get B h s ≡ (ok v, looked)
    unfolding get
    get_hit v e = rw (e, get)

    get_miss : (Cache.get h s.cache).0 ≡ none → get B h s ≡ fetch B h looked
    unfolding get
    get_miss e = rw (e, get)

    -- On a sound store `get` answers with the stored contents, or that there is no block.
    pub get_lem : IsSound B s → (get B h s).0 ≡ answer (stored B h s)
    get_lem w = elim (Option-cases (Cache.get h s.cache).0) [
      | inr (v, e) ↦
          rw (get_hit v e) (sym (ap answer (w.cached h v (sym (get-peek h s.cache) ∙ e))))
      | inl e ↦ rw (get_miss e) (
          fetch-answer B h looked (lookup_cache-IsSound B h s w)
          ∙ ap answer (stored_of_cache B h s (Cache.get h s.cache).1))
    ]

    -- What a read leaves: the log and the index as they were, and a cache that is sound.
    fetch-IsSound : IsSound B s → IsSound B (fetch B h s).1
    fetch-IsSound w = elim (fetch_state h s) [
      | inl e ↦ rw e w
      | inr (b, r, e) ↦ rw e (cache_stored-IsSound B h b s w (ground (arith, fetch-answer B h s w)))
    ]

    stored-fetch : (j : Hash) → stored B j (fetch B h s).1 ≡ stored B j s
    stored-fetch j = elim (fetch_state h s) [
      | inl e ↦ ap (stored B j) e
      | inr (b, r, e) ↦ ap (stored B j) e ∙ stored_of_cache B j s (Cache.insert h b s.cache)
    ]

  -- `get` keeps a sound store sound.
  pub get-IsSound : (h : Hash) (s : BlockStore S L) → IsSound B s → IsSound B (get B h s).1
  get-IsSound h s w =
      let w' = lookup_cache-IsSound B h s w in
      elim (Option-cases (Cache.get h s.cache).0) [
        | inr (v, e) ↦ rw (get_hit h s v e) w'
        | inl e ↦ rw (get_miss h s e) (fetch-IsSound h (looked h s) w')
      ]

  -- A read changes no contents.
  pub stored-get : (h j : Hash) (s : BlockStore S L) → stored B j (get B h s).1 ≡ stored B j s
  stored-get h j s =
      let same = stored_of_cache B j s (Cache.get h s.cache).1 in
      elim (Option-cases (Cache.get h s.cache).0) [
        | inr (v, e) ↦ rw (get_hit h s v e) same
        | inl e ↦ rw (get_miss h s e) (stored-fetch h (looked h s) j ∙ same)
      ]

  -- A store whose cache holds only bytes that hash to their key; nothing is asked of the disk.
  pub record IsTrusted (s : BlockStore S L) : Type 0 where
    pub hashed : (h b : Bytes) → peek h s.cache ≡ some b → B.digest b ≡ h
    pub bounded : IsBounded s.cache

  -- Corruption is detected: whatever the log and the index hold, if the cache is within its caps
  -- and holds only bytes that hash to their key, bytes that `get` returns hash to the address
  -- that was asked for.
  pub get_verified :
      (h : Hash) (s : BlockStore S L) (b : Bytes)
      → IsTrusted s
      → (get B h s).0 ≡ ok b
      → B.digest b ≡ h
  get_verified h s b t e = elim (Option-cases (Cache.get h s.cache).0) [
    | inr (v, c) ↦ ground (
      arith,
      ap (λ (r : Result Bytes × BlockStore S L). r.0) (get_hit h s v c),
      t.hashed h v (sym (get-peek h s.cache) ∙ c),
    )
    | inl c ↦
        fetch_digest h (looked h s) b
          (sym (ap (λ (r : Result Bytes × BlockStore S L). r.0) (get_miss h s c)) ∙ e)
  ]

  looked-IsTrusted : (h : Hash) (s : BlockStore S L) → IsTrusted s → IsTrusted (looked h s)
  looked-IsTrusted h s t = record {
    hashed = λ j b p. ground (arith, get-Loses h s.cache t.bounded j, t.hashed j b);
    bounded = get-IsBounded h s.cache t.bounded;
  }

  fetch-IsTrusted : (h : Hash) (s : BlockStore S L) → IsTrusted s → IsTrusted (fetch B h s).1
  fetch-IsTrusted h s t = elim (fetch_state h s) [
    | inl e ↦ rw e t
    | inr (b, r, e) ↦
        let d = fetch_digest h s b r in
        rw e (record {
          hashed = λ j x p. ground (arith, insert-peek h b s.cache j, t.hashed j x, d);
          bounded = insert-IsBounded h b s.cache t.bounded;
        })
  ]

  -- A read keeps the cache trusted, so the next reads are verified as well.
  pub get-IsTrusted : (h : Hash) (s : BlockStore S L) → IsTrusted s → IsTrusted (get B h s).1
  get-IsTrusted h s t =
      let t' = looked-IsTrusted h s t in
      elim (Option-cases (Cache.get h s.cache).0) [
        | inr (v, e) ↦ rw (get_hit h s v e) t'
        | inl e ↦ rw (get_miss h s e) (fetch-IsTrusted h (looked h s) t')
      ]

  pub IsSound-IsTrusted : (s : BlockStore S L) → IsSound B s → IsTrusted s
  IsSound-IsTrusted s w = record {
    hashed = λ h b p. stored-digest B h b s (w.cached h b p);
    bounded = w.bounded;
  }
