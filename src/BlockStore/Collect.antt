-- ===== src/BlockStore/Collect.antt =====
-- `compact` of crates/neuralfs-fs/src/blockstore.rs on a sound store: it succeeds, keeps exactly
-- the contents of the live blocks, and leaves a sound store.
use neural_file_system.Prelude.{
  Distinct, ◌+◌, ◌*◌, ◌^◌, ◌<◌, ◌≡◌, ◌∙◌, sym, ap, refl, subst, Option, none, some, List, [], ◌∷◌,
  ◌++◌, Bytes, lookup, bytes_discrete, ite, Result, ok, Bool-cases, Option-cases, inl, inr, true,
  false, if◌then◌else◌, arith,
}
use neural_file_system.HashLink.{Linked}
use neural_file_system.Sled.{Sled, BatchOp, insert_op, remove_op, batched}
use neural_file_system.Blake3.{Blake3, Hash}
use neural_file_system.Cache
use neural_file_system.Cache.{RamCache}
use neural_file_system.Cache.Segments.{peek}
use neural_file_system.Cache.Bounds.{IsBounded}
use neural_file_system.BlockStore.{physical_bytes, block_count, BlockStore}
use neural_file_system.BlockStore.Codec.{dec}
use neural_file_system.Cache.Lookup.{peek-invalidate}
use neural_file_system.Cache.Bounds.{invalidate-IsBounded}
use neural_file_system.BlockStore.Compact.{
  Compaction, CompactStats, contains_hash, empty_compaction, compact_entries, inserts_of,
  removes_of, invalidate_all, install, compact,
}
use neural_file_system.BlockStore.Contents.{verified, stored, IsSound, stored_absent}
use neural_file_system.BlockStore.Image.{
  after_inserts, after_removes, AllVerified, compact_entries_total, compact_entries-Grown,
  compact_entries-absent,
}
use neural_file_system.BlockStore.Entries.{Moved, compact_entries-Moved, compact_entries-dropped}

batched-append :
    (j : Bytes) (a b : List BatchOp) (old : Option Bytes)
    → batched j (a ++ b) old ≡ batched j b (batched j a old)
batched-append j [] b old = refl
batched-append j (insert_op k v ∷ a) b old =
    batched-append j a b (ite (bytes_discrete k j) (some v) old)
batched-append j (remove_op k ∷ a) b old = batched-append j a b (ite (bytes_discrete k j) none old)

-- The eviction of the dropped blocks forgets what the batch removes.
peek-invalidate_all :
    {L : Linked bytes_discrete Bytes} (j : Hash) (ks : List Hash) (c : RamCache L)
    → peek j (invalidate_all ks c) ≡ batched j (removes_of ks) (peek j c)
unfolding invalidate_all
peek-invalidate_all j [] c = refl
peek-invalidate_all j (k ∷ ks) c =
    peek-invalidate_all j ks (Cache.invalidate k c)
    ∙ ap (batched j (removes_of ks)) (peek-invalidate k c j)

invalidate_all-IsBounded :
    {L : Linked bytes_discrete Bytes} (ks : List Hash) (c : RamCache L)
    → IsBounded c
    → IsBounded (invalidate_all ks c)
unfolding invalidate_all
invalidate_all-IsBounded [] c b = b
invalidate_all-IsBounded (k ∷ ks) c b =
    invalidate_all-IsBounded ks (Cache.invalidate k c) (invalidate-IsBounded k c b)

lookup_later :
    (j k v w : Bytes) (l : List (Bytes × Bytes))
    → lookup bytes_discrete k l ≡ none
    → lookup bytes_discrete j l ≡ some v
    → lookup bytes_discrete j ((k, w) ∷ l) ≡ some v
unfolding lookup
lookup_later j k v w l o e = ground (arith, ap (λ (x : Bytes). lookup bytes_discrete x l))

lookup_first :
    (k w : Bytes) (l : List (Bytes × Bytes)) → lookup bytes_discrete k ((k, w) ∷ l) ≡ some w
unfolding lookup
lookup_first k w l = ground arith

AllVerified-lookup :
    (B : Blake3) (file : Bytes) (l : List (Bytes × Bytes))
    → Distinct bytes_discrete l
    → ((h v : Bytes)
        → lookup bytes_discrete h l ≡ some v
        → ((dec v).1 < 2 ^ 32) × ((b : Bytes) × (verified B file h v ≡ some b)))
    → AllVerified B file l
AllVerified-lookup B file [] d f = tt
AllVerified-lookup B file ((k, w) ∷ l) d f =
    let (n, b) = f k w (lookup_first k w l) in
    (n, b, AllVerified-lookup B file l d.1 (λ h v e. f h v (lookup_later h k v w l d.0 e)))

module _ {S : Sled} {L : Linked bytes_discrete Bytes} (B : Blake3) (live : List Hash)
    (s : BlockStore S L) where
  -- The contents that a collection leaves under an address.
  abbrev pub surviving : Hash → Option Bytes
  surviving j = if contains_hash live j then stored B j s else none

  entries_verified : IsSound B s → AllVerified B s.log.file (S.iter s.index)
  entries_verified w =
      AllVerified-lookup B s.log.file (S.iter s.index) (S.distinct s.index)
        (λ h v e. let g = sym (S.lookup-iter h s.index) ∙ e in (w.narrow h v g, w.indexed h v g))

  module _ (w : IsSound B s) (c : Compaction)
      (r : compact_entries s.log.file live (S.iter s.index) empty_compaction ≡ ok c)
      (fits : c.new_len < 2 ^ 64) where
    index_install :
        (j : Hash)
        → S.get j (install c s).index ≡ after_removes j c (after_inserts j c (S.get j s.index))
    unfolding install
    index_install j =
        S.get-apply_batch j (inserts_of c.new_index ++ removes_of c.drop_keys) s.index
        ∙ batched-append j (inserts_of c.new_index) (removes_of c.drop_keys) (S.get j s.index)

    index_absent : (j : Hash) → S.get j s.index ≡ none → S.get j (install c s).index ≡ none
    index_absent j e =
        let a = λ (old : Option Bytes).
          compact_entries-absent B s.log.file live j old (S.iter s.index) empty_compaction c
            (entries_verified w) (S.lookup-iter j s.index ∙ e) r in
        index_install j ∙ (a (after_inserts j c (S.get j s.index))).1 ∙ (a (S.get j s.index)).0 ∙ e

    index_dead :
        (j v : Hash)
        → S.get j s.index ≡ some v
        → contains_hash live j ≡ false
        → S.get j (install c s).index ≡ none
    index_dead j v e d =
        index_install j
        ∙ compact_entries-dropped B s.log.file live j v (after_inserts j c (S.get j s.index))
            (S.iter s.index) empty_compaction c (entries_verified w) (S.distinct s.index)
            (S.lookup-iter j s.index ∙ e) d r

    moved :
        (j v b : Bytes)
        → S.get j s.index ≡ some v
        → verified B s.log.file j v ≡ some b
        → contains_hash live j ≡ true
        → Moved B s.log.file live j b empty_compaction c
    moved j v b e g d =
        compact_entries-Moved B s.log.file live j v b (S.iter s.index) empty_compaction c
          (entries_verified w) (S.distinct s.index) (S.lookup-iter j s.index ∙ e) g d refl fits r

    index_live :
        (j v b : Bytes)
        → S.get j s.index ≡ some v
        → verified B s.log.file j v ≡ some b
        → contains_hash live j ≡ true
        → (p : Bytes) × (S.get j (install c s).index ≡ some p)
          × (verified B c.image j p ≡ some b)
          × ((dec p).1 < 2 ^ 32)
    index_live j v b e g d =
        let m = moved j v b e g d in
        (
          m.value,
          index_install j
              ∙ m.untouched (after_inserts j c (S.get j s.index))
              ∙ m.inserted (S.get j s.index),
          m.readable,
          m.narrow,
        )

    stored-install : (j : Hash) → stored B j (install c s) ≡ surviving j
    unfolding stored install
    stored-install j = elim (Option-cases (S.get j s.index)) [
      | inl e ↦ ground (arith, index_absent j e)
      | inr (v, e) ↦ elim (Bool-cases (contains_hash live j)) [
        | inr d ↦ ground (arith, index_dead j v e d)
        | inl d ↦
            let (b, g) = w.indexed j v e in
            let (p, i, k, n) = index_live j v b e g d in ground (arith, i, k, g, d, e)
      ]
    ]

    installed :
        (j p : Bytes)
        → S.get j (install c s).index ≡ some p
        → ((dec p).1 < 2 ^ 32) × ((b : Bytes) × (verified B c.image j p ≡ some b))
    installed j p h = elim (Option-cases (S.get j s.index)) [
      | inl e ↦ absurd (ground (arith, index_absent j e))
      | inr (v, e) ↦ elim (Bool-cases (contains_hash live j)) [
        | inr d ↦ absurd (ground (arith, index_dead j v e d))
        | inl d ↦
            let (b, g) = w.indexed j v e in
            let (q, i, k, n) = index_live j v b e g d in
            let same : q ≡ p = cc (i, h) in
            (
              subst (λ (u : Bytes). (dec u).1 < 2 ^ 32) same n,
              (b, subst (λ (u : Bytes). verified B c.image j u ≡ some b) same k),
            )
      ]
    ]

    -- A dropped block is no longer cached.
    uncached_dead :
        (j v : Bytes)
        → S.get j s.index ≡ some v
        → contains_hash live j ≡ false
        → peek j (install c s).cache ≡ none
    unfolding install
    uncached_dead j v e d =
        peek-invalidate_all j c.drop_keys s.cache
        ∙ compact_entries-dropped B s.log.file live j v (peek j s.cache) (S.iter s.index)
            empty_compaction c (entries_verified w) (S.distinct s.index)
            (S.lookup-iter j s.index ∙ e) d r

    removes_keep :
        (ks : List Hash) (j x : Bytes) (o : Option Bytes)
        → batched j (removes_of ks) o ≡ some x
        → o ≡ some x
    removes_keep [] j x o e = e
    removes_keep (k ∷ ks) j x o e =
        let h = removes_keep ks j x (ite (bytes_discrete k j) none o) e in ground arith

    cached_install :
        (j x : Bytes) → peek j (install c s).cache ≡ some x → stored B j (install c s) ≡ some x
    unfolding install
    cached_install j x e =
        let old = w.cached j x (
          removes_keep c.drop_keys j x (peek j s.cache)
            (sym (peek-invalidate_all j c.drop_keys s.cache) ∙ e)) in
        elim (Option-cases (S.get j s.index)) [
          | inl a ↦ absurd (ground (arith, stored_absent B j s a))
          | inr (v, a) ↦ elim (Bool-cases (contains_hash live j)) [
            | inr d ↦ absurd (ground (arith, uncached_dead j v a d))
            | inl d ↦ ground (arith, stored-install j)
          ]
        ]

    install-IsSound : IsSound B (install c s)
    unfolding install
    install-IsSound = record {
      log_len =
          (compact_entries-Grown B s.log.file live (S.iter s.index) empty_compaction c
              (entries_verified w) r).whole
            refl;
      narrow = λ j p h. (installed j p h).0;
      indexed = λ j p h. (installed j p h).1;
      cached = cached_install;
      bounded = invalidate_all-IsBounded c.drop_keys s.cache w.bounded;
    }

  -- The compacted image is no larger than the records of all blocks.
  abbrev pub FitsLog : Type 0
  FitsLog = physical_bytes s + 4 * block_count s < 2 ^ 64

  -- The run of `compact`, with what it installs.
  compact_run :
      IsSound B s
      → FitsLog
      → (c : Compaction) × (compact_entries s.log.file live (S.iter s.index) empty_compaction
          ≡ ok c)
        × (compact live s ≡ (ok c.stats, install c s))
        × (c.new_len < 2 ^ 64)
  unfolding compact physical_bytes block_count
  compact_run w fits =
      let (c, r) =
        compact_entries_total B s.log.file live (S.iter s.index) empty_compaction
          (entries_verified w) in
      let g =
        compact_entries-Grown B s.log.file live (S.iter s.index) empty_compaction c
          (entries_verified w) r in
      (c, r, rw (r, compact), omega (arith, g.room, S.len-iter s.index))

  -- A collection of a sound store whose records fit 64-bit offsets succeeds.
  pub compact_succeeds : IsSound B s → FitsLog → (st : CompactStats) × ((compact live s).0 ≡ ok st)
  compact_succeeds w fits =
      let (c, r, e, f) = compact_run w fits in
      (c.stats, ap (λ (x : Result CompactStats × BlockStore S L). x.0) e)

  -- A collection of a sound store whose records fit 64-bit offsets leaves a sound store.
  pub compact-IsSound : IsSound B s → FitsLog → IsSound B (compact live s).1
  compact-IsSound w fits = let (c, r, e, f) = compact_run w fits in rw e (install-IsSound w c r f)

  -- A collection of a sound store whose records fit 64-bit offsets keeps the contents under the
  -- live addresses, and no other.
  pub stored-compact :
      (j : Hash) → IsSound B s → FitsLog → stored B j (compact live s).1 ≡ surviving j
  stored-compact j w fits = let (c, r, e, f) = compact_run w fits in rw e (stored-install w c r f j)
