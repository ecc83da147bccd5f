-- ===== src/BlockStore/Writes.antt =====
-- `put` of crates/neuralfs-fs/src/blockstore.rs: a new block is appended and indexed, a block that
-- is there is stored once, and every other content stays.
use neural_file_system.Prelude.{
  ◌≢◌, ℕ, ◌+◌, ◌%◌, ◌^◌, ◌<◌, ◌≡◌, ◌∙◌, ap, refl, Option, none, some, ◌++◌, Bytes, length,
  length-append, bytes_discrete, ite, ok, Option-cases, inl, inr, arith,
}
use neural_file_system.HashLink.{Linked}
use neural_file_system.Sled.{Sled}
use neural_file_system.Blake3.{Blake3, Hash, CollisionFree}
use neural_file_system.Cache.Segments.{peek}
use neural_file_system.Cache.Bounds.{insert-IsBounded}
use neural_file_system.Cache.Lookup.{insert-peek}
use neural_file_system.BlockStore.{BlockStore, record_of, append_block, put, get}
use neural_file_system.BlockStore.Codec.{enc, dec, dec-enc, to_le_bytes, length-to_le_bytes}
use neural_file_system.BlockStore.LogFile.{
  read_exact, write_at_end, read_exact-append, read_exact_record,
}
use neural_file_system.BlockStore.Contents.{
  verified, stored, IsSound, answer, found, stored-digest, stored_absent,
}
use neural_file_system.BlockStore.Reads.{get_lem}

-- What was verified stays so when the log grows.
pub verified-append :
    (B : Blake3) (file more h v b : Bytes)
    → verified B file h v ≡ some b
    → verified B (file ++ more) h v ≡ some b
unfolding verified
verified-append B file more h v b e = elim (Option-cases (read_exact (dec v).0 (dec v).1 file)) [
  | inl r ↦ absurd (ground arith)
  | inr (buf, r) ↦ ground (arith, read_exact-append (dec v).0 (dec v).1 file more buf r)
]

-- A record at the end of the log, under an index value that points behind its header.
pub verified_record :
    (B : Blake3) (file b : Bytes)
    → length b < 2 ^ 32
    → length file + 4 < 2 ^ 64
    → verified B (file ++ record_of (length b) b) (B.digest b) (enc (length file + 4) (length b))
      ≡ some b
unfolding verified
verified_record B file b p q = ground (
  arith,
  dec-enc (length file + 4) (length b) q p,
  read_exact_record (length file + 4) file (to_le_bytes 4 (length b)) b
      (omega (arith, length-to_le_bytes 4 (length b))),
)

-- The map after `b` is added under its digest; what is there stays.
abbrev pub added : Blake3 → Bytes → Hash → Option Bytes → Option Bytes
added B b j (some x) = some x
added B b j none = ite (bytes_discrete (B.digest b) j) (some b) none

-- The header holds the length, and the index the offset.
abbrev pub Fits : {S : Sled} {L : Linked bytes_discrete Bytes} → Bytes → BlockStore S L → Type 0
Fits b s = (length b < 2 ^ 32) × (s.log.len + 4 < 2 ^ 64)

module _ {S : Sled} {L : Linked bytes_discrete Bytes} (B : Blake3) where
  module _ (b : Bytes) (s : BlockStore S L) (w : IsSound B s) (f : Fits b s) where
    narrow_len : length b % 2 ^ 32 ≡ length b
    narrow_len = omega arith

    log_after : (append_block B (B.digest b) b s).log.file ≡ s.log.file ++ record_of (length b) b
    unfolding append_block
    log_after = rw (w.log_len, narrow_len) (write_at_end s.log.file (record_of (length b) b))

    index_after :
        (j : Hash)
        → S.get j (append_block B (B.digest b) b s).index
          ≡ ite
              (bytes_discrete (B.digest b) j)
              (some (enc (length s.log.file + 4) (length b)))
              (S.get j s.index)
    unfolding append_block
    index_after j = rw (S.get-insert, w.log_len, narrow_len) refl

    stored_after_self : stored B (B.digest b) (append_block B (B.digest b) b s) ≡ some b
    unfolding stored
    stored_after_self = ground (
      arith,
      index_after (B.digest b),
      ap (λ (x : Bytes). verified B x (B.digest b) (enc (length s.log.file + 4) (length b)))
          log_after,
      verified_record B s.log.file b f.0 (omega (arith, w.log_len)),
    )

    stored_after_ne :
        (j : Hash) → B.digest b ≢ j → stored B j (append_block B (B.digest b) b s) ≡ stored B j s
    unfolding stored
    stored_after_ne j ne = elim (Option-cases (S.get j s.index)) [
      | inl e ↦ ground (arith, index_after j)
      | inr (v, e) ↦
          let (x, g) = w.indexed j v e in
          ground (
            arith,
            index_after j,
            ap (λ (y : Bytes). verified B y j v) log_after,
            verified-append B s.log.file (record_of (length b) b) j v x g,
          )
    ]

    len_after :
        (append_block B (B.digest b) b s).log.len
        ≡ length (append_block B (B.digest b) b s).log.file
    unfolding append_block
    len_after = omega (
      arith,
      w.log_len,
      ap length log_after,
      length-append s.log.file (record_of (length b) b),
      ap (λ (n : ℕ). length (record_of n b)) narrow_len,
    )

    indexed_after :
        (j v : Bytes)
        → S.get j (append_block B (B.digest b) b s).index ≡ some v
        → (x : Bytes) × (verified B (append_block B (B.digest b) b s).log.file j v ≡ some x)
    indexed_after j v e = elim (bytes_discrete (B.digest b) j) [
      | yes p ↦ (
        b,
        ground (
          arith,
          index_after j,
          p,
          ap (λ (y : Bytes). verified B y (B.digest b) v) log_after,
          verified_record B s.log.file b f.0 (omega (arith, w.log_len)),
        ),
      )
      | no p ↦
          let (x, g) = w.indexed j v (ground (arith, index_after j)) in
          (
            x,
            ap (λ (y : Bytes). verified B y j v) log_after
                ∙ verified-append B s.log.file (record_of (length b) b) j v x g,
          )
    ]

    cached_after :
        (j x : Bytes)
        → peek j (append_block B (B.digest b) b s).cache ≡ some x
        → stored B j (append_block B (B.digest b) b s) ≡ some x
    unfolding append_block
    cached_after j x e = elim (bytes_discrete (B.digest b) j) [
      | yes p ↦ ground (
        arith,
        insert-peek (B.digest b) b s.cache j,
        stored_after_self,
        ap (λ (k : Hash). stored B k (append_block B (B.digest b) b s)) p,
      )
      | no p ↦
          ground (arith, insert-peek (B.digest b) b s.cache j, stored_after_ne j p, w.cached j x)
    ]

    append-IsSound : IsSound B (append_block B (B.digest b) b s)
    unfolding append_block
    append-IsSound = record {
      log_len = len_after;
      narrow = λ j v e. ground (
        arith,
        index_after j,
        w.narrow j v,
        dec-enc (length s.log.file + 4) (length b) (omega (arith, w.log_len)) f.0,
      );
      indexed = indexed_after;
      cached = cached_after;
      bounded = insert-IsBounded (B.digest b) b s.cache w.bounded;
    }

  put_old :
      (b : Bytes) (s : BlockStore S L) (v : Bytes)
      → S.get (B.digest b) s.index ≡ some v
      → put B b s ≡ (B.digest b, s)
  unfolding put
  put_old b s v e = ground (arith, S.contains_key-get (B.digest b) s.index)

  put_new :
      (b : Bytes) (s : BlockStore S L)
      → S.get (B.digest b) s.index ≡ none
      → put B b s ≡ (B.digest b, append_block B (B.digest b) b s)
  unfolding put
  put_new b s e = ground (arith, S.contains_key-get (B.digest b) s.index)

  -- `put` returns the digest.
  pub put-digest : (b : Bytes) (s : BlockStore S L) → (put B b s).0 ≡ B.digest b
  unfolding put
  put-digest b s = refl

  -- `put` keeps a sound store sound, with a length and a log that fit the encoding.
  pub put-IsSound :
      (b : Bytes) (s : BlockStore S L) → IsSound B s → Fits b s → IsSound B (put B b s).1
  put-IsSound b s w f = elim (Option-cases (S.get (B.digest b) s.index)) [
    | inr (v, e) ↦ rw (put_old b s v e) w
    | inl e ↦ rw (put_new b s e) (append-IsSound b s w f)
  ]

  -- `put` into a sound store, with a length and a log that fit the encoding, adds its block under
  -- its digest unless there is one, and changes no other content.
  pub stored-put :
      (b : Bytes) (s : BlockStore S L) (j : Hash)
      → IsSound B s
      → Fits b s
      → stored B j (put B b s).1 ≡ added B b j (stored B j s)
  stored-put b s j w f = elim (Option-cases (S.get (B.digest b) s.index)) [
    | inr (v, e) ↦
        let (x, r, d, g) = found B (B.digest b) s w v e in
        rw (put_old b s v e) (ground (arith, g, ap (λ (k : Hash). stored B k s)))
    | inl e ↦
        let absent = stored_absent B (B.digest b) s e in
        rw (put_new b s e) (elim (bytes_discrete (B.digest b) j) [
          | yes p ↦ ground (
            arith,
            stored_after_self b s w f,
            ap (λ (k : Hash). stored B k s) p,
            ap (λ (k : Hash). stored B k (append_block B (B.digest b) b s)) p,
          )
          | no p ↦ ground (arith, stored_after_ne b s w f j p)
        ])
  ]

  stored-put_self :
      (D : Bytes → Type 0) (b : Bytes) (s : BlockStore S L)
      → CollisionFree B D
      → IsSound B s
      → Fits b s
      → D b
      → ((x : Bytes) → stored B (B.digest b) s ≡ some x → D x)
      → stored B (B.digest b) (put B b s).1 ≡ some b
  stored-put_self D b s free w f db dx = elim (Option-cases (stored B (B.digest b) s)) [
    | inl e ↦ ground (arith, stored-put b s (B.digest b) w f)
    | inr (x, e) ↦ ground (
      arith,
      stored-put b s (B.digest b) w f,
      free x b (dx x e) db (stored-digest B (B.digest b) x s e),
    )
  ]

  -- What was put into a sound store, with a length and a log that fit the encoding, is read back
  -- through the digest that `put` returned, if the digest has no collision between the block and
  -- the content that the store holds under it.
  pub get-put :
      (D : Bytes → Type 0) (b : Bytes) (s : BlockStore S L)
      → CollisionFree B D
      → IsSound B s
      → Fits b s
      → D b
      → ((x : Bytes) → stored B (B.digest b) s ≡ some x → D x)
      → (get B (put B b s).0 (put B b s).1).0 ≡ ok b
  unfolding put
  get-put D b s free w f db dx =
      get_lem B (B.digest b) (put B b s).1 (put-IsSound b s w f)
      ∙ ap answer (stored-put_self D b s free w f db dx)

  indexed_put :
      (b : Bytes) (s : BlockStore S L)
      → (v : Bytes) × (S.get (B.digest b) (append_block B (B.digest b) b s).index ≡ some v)
  unfolding append_block
  indexed_put b s = (
    enc (s.log.len + 4) (length b % 2 ^ 32),
    ground (
      arith,
      S.get-insert (B.digest b) (B.digest b) (enc (s.log.len + 4) (length b % 2 ^ 32)) s.index,
    ),
  )

  -- Identical content is stored once: a second `put` of the same bytes changes nothing.
  pub put-put : (b : Bytes) (s : BlockStore S L) → (put B b (put B b s).1).1 ≡ (put B b s).1
  put-put b s = elim (Option-cases (S.get (B.digest b) s.index)) [
    | inr (v, e) ↦ ground (arith, put_old b s v e)
    | inl e ↦
        let (v, i) = indexed_put b s in
        ground (arith, put_new b s e, put_old b (append_block B (B.digest b) b s) v i)
  ]
