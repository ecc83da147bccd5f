-- ===== src/BlockStore/Image.antt =====
-- The loop of `compact` in crates/neuralfs-fs/src/blockstore.rs, one index entry at a time: where
-- the compacted image holds the block of a key, and which keys the batch removes.
use neural_file_system.Prelude.{
  ◌≢◌, ◌+◌, ◌*◌, ◌^◌, ◌<◌, ◌≤◌, ◌≡◌, ◌∙◌, sym, ap, refl, Option, none, some, List, [], ◌∷◌, ◌++◌,
  Bytes, length, length-append, lookup, bytes_discrete, ite, ok, Bool-cases, inl, inr, true, false,
  arith,
}
use neural_file_system.Blake3.{Blake3, Hash}
use neural_file_system.BlockStore.{sum_lengths, record_of}
use neural_file_system.BlockStore.Codec.{enc, dec, to_le_bytes, length-to_le_bytes}
use neural_file_system.BlockStore.LogFile.{length-read_exact, read_exact}
use neural_file_system.Sled.{batched}
use mathlib.Core.List.{append-nil, append_assoc}
use neural_file_system.BlockStore.Compact.{
  Compaction, contains_hash, keep_block, drop_block, compact_entries, inserts_of, removes_of,
}
use neural_file_system.BlockStore.Contents.{verified}

-- The effect of the two parts of the batch on one key.
abbrev pub after_inserts : Hash → Compaction → Option Bytes → Option Bytes
after_inserts j c old = batched j (inserts_of c.new_index) old

abbrev pub after_removes : Hash → Compaction → Option Bytes → Option Bytes
after_removes j c old = batched j (removes_of c.drop_keys) old

pub batched-inserts_snoc :
    (j h p : Bytes) (l : List (Hash × Bytes)) (old : Option Bytes)
    → batched j (inserts_of (l ++ (h, p) ∷ [])) old
      ≡ ite (bytes_discrete h j) (some p) (batched j (inserts_of l) old)
batched-inserts_snoc j h p [] old = refl
batched-inserts_snoc j h p ((k, q) ∷ l) old =
    batched-inserts_snoc j h p l (ite (bytes_discrete k j) (some q) old)

pub batched-removes_snoc :
    (j h : Bytes) (l : List Hash) (old : Option Bytes)
    → batched j (removes_of (l ++ h ∷ [])) old
      ≡ ite (bytes_discrete h j) none (batched j (removes_of l) old)
batched-removes_snoc j h [] old = refl
batched-removes_snoc j h (k ∷ l) old =
    batched-removes_snoc j h l (ite (bytes_discrete k j) none old)

-- Every entry of the index points to bytes of the log that hash to its key.
abbrev pub AllVerified : Blake3 → Bytes → List (Bytes × Bytes) → Type 0
AllVerified B file [] = Unit
AllVerified B file ((h, v) ∷ kvs) =
    ((dec v).1 < 2 ^ 32) × ((b : Bytes) × (verified B file h v ≡ some b)) × AllVerified B file kvs

module _ (B : Blake3) (file : Bytes) (live : List Hash) where
  -- What is read for a verified entry, and the length of its key.
  pub read_of :
      (h v b : Bytes)
      → verified B file h v ≡ some b
      → (read_exact (dec v).0 (dec v).1 file ≡ some b)
        × (B.digest b ≡ h)
        × (length h ≡ 32)
        × (length b ≡ (dec v).1)
  unfolding verified
  read_of h v b e =
      let d : B.digest b ≡ h = ground arith in
      let r : read_exact (dec v).0 (dec v).1 file ≡ some b = ground arith in
      (
        r,
        d,
        omega (arith, ap length d, B.length-digest b),
        length-read_exact (dec v).0 (dec v).1 file b r,
      )

  module _ (h v b : Bytes) (kvs : List (Bytes × Bytes)) (c : Compaction)
      (e : verified B file h v ≡ some b) where
    pub step_drop :
        contains_hash live h ≡ false
        → compact_entries file live ((h, v) ∷ kvs) c
          ≡ compact_entries file live kvs (drop_block h (dec v).1 c)
    unfolding compact_entries
    step_drop d = ground (arith, read_of h v b e)

    pub step_keep :
        contains_hash live h ≡ true
        → compact_entries file live ((h, v) ∷ kvs) c
          ≡ compact_entries file live kvs (keep_block h (dec v).1 b c)
    unfolding compact_entries
    step_keep d = ground (arith, read_of h v b e)

  -- A step of the loop, on a verified entry: it is kept or dropped.
  pub data Step (h v b : Bytes) (c c₁ : Compaction) : Type 0 where
    kept : contains_hash live h ≡ true → c₁ ≡ keep_block h (dec v).1 b c → Step h v b c c₁
    dropped : contains_hash live h ≡ false → c₁ ≡ drop_block h (dec v).1 c → Step h v b c c₁

  pub first-Step :
      (h v b : Bytes) (kvs : List (Bytes × Bytes)) (c c' : Compaction)
      → verified B file h v ≡ some b
      → compact_entries file live ((h, v) ∷ kvs) c ≡ ok c'
      → (c₁ : Compaction) × Step h v b c c₁ × (compact_entries file live kvs c₁ ≡ ok c')
  first-Step h v b kvs c c' e r = elim (Bool-cases (contains_hash live h)) [
    | inl l ↦ (keep_block h (dec v).1 b c, kept l refl, sym (step_keep h v b kvs c e l) ∙ r)
    | inr l ↦ (drop_block h (dec v).1 c, dropped l refl, sym (step_drop h v b kvs c e l) ∙ r)
  ]

  -- The loop reads every live block, so it ends with a compaction.
  pub compact_entries_total :
      (kvs : List (Bytes × Bytes)) (c : Compaction)
      → AllVerified B file kvs
      → (c' : Compaction) × (compact_entries file live kvs c ≡ ok c')
  unfolding compact_entries
  compact_entries_total [] c a = (c, refl)
  compact_entries_total ((h, v) ∷ kvs) c (n, (b, e), a) = elim (Bool-cases (contains_hash live h)) [
    | inl l ↦
        let (c', r) = compact_entries_total kvs (keep_block h (dec v).1 b c) a in
        (c', step_keep h v b kvs c e l ∙ r)
    | inr l ↦
        let (c', r) = compact_entries_total kvs (drop_block h (dec v).1 c) a in
        (c', step_drop h v b kvs c e l ∙ r)
  ]

  -- The sizes of a step: the length is that of the image, and grows by a header and a block.
  pub Step-sizes :
      {h v b : Bytes} {c c₁ : Compaction}
      → Step h v b c c₁
      → length b ≡ (dec v).1
      → ((more : Bytes) × (c₁.image ≡ c.image ++ more))
        × (c.new_len ≤ c₁.new_len)
        × (c₁.new_len ≤ c.new_len + ((dec v).1 + 4))
        × (c.new_len ≡ length c.image → c₁.new_len ≡ length c₁.image)
  unfolding keep_block drop_block
  Step-sizes {h} {v} {b} {c} {c₁} (kept l e) n = (
    (record_of (dec v).1 b, ap (λ (x : Compaction). x.image) e),
    omega (arith, ap (λ (x : Compaction). x.new_len) e),
    omega (
      arith,
      ap (λ (x : Compaction). x.new_len) e,
      length-append (to_le_bytes 4 (dec v).1) b,
      length-to_le_bytes 4 (dec v).1,
    ),
    λ g. omega (
      arith,
      ap (λ (x : Compaction). x.new_len) e,
      ap (λ (x : Compaction). length x.image) e,
      length-append c.image (record_of (dec v).1 b),
    ),
  )
  Step-sizes {h} {v} {b} {c} {c₁} (dropped l e) n = (
    ([], ap (λ (x : Compaction). x.image) e ∙ sym (append-nil c.image)),
    omega (arith, ap (λ (x : Compaction). x.new_len) e),
    omega (arith, ap (λ (x : Compaction). x.new_len) e),
    λ g.
        omega
          (arith, ap (λ (x : Compaction). x.new_len) e, ap (λ (x : Compaction). length x.image) e),
  )

  -- What a whole loop does to the sizes; `bound` is the room that the entries may take.
  pub record Grown (kvs : List (Bytes × Bytes)) (c c' : Compaction) : Type 0 where
    pub more : Bytes
    pub image : c'.image ≡ c.image ++ more
    pub grows : c.new_len ≤ c'.new_len
    pub room : c'.new_len ≤ c.new_len + (sum_lengths kvs + 4 * length kvs)
    pub whole : c.new_len ≡ length c.image → c'.new_len ≡ length c'.image

  pub compact_entries-Grown :
      (kvs : List (Bytes × Bytes)) (c c' : Compaction)
      → AllVerified B file kvs
      → compact_entries file live kvs c ≡ ok c'
      → Grown kvs c c'
  unfolding compact_entries sum_lengths
  compact_entries-Grown [] c c' a r =
      let e : c ≡ c' = cc in
      record {
        more = [];
        image = ap (λ (x : Compaction). x.image) (sym e) ∙ sym (append-nil c.image);
        grows = omega (arith, ap (λ (x : Compaction). x.new_len) e);
        room = omega (arith, ap (λ (x : Compaction). x.new_len) e);
        whole = λ g. omega (
          arith,
          ap (λ (x : Compaction). x.new_len) e,
          ap (λ (x : Compaction). length x.image) e,
        );
      }
  compact_entries-Grown ((h, v) ∷ kvs) c c' (n, (b, e), a) r =
      let (c₁, st, r₁) = first-Step h v b kvs c c' e r in
      let ((m₁, i₁), g₁, u₁, w₁) = Step-sizes st (read_of h v b e).3 in
      let rest = compact_entries-Grown kvs c₁ c' a r₁ in
      record {
        more = m₁ ++ rest.more;
        image = rw (rest.image, i₁) (append_assoc c.image m₁ rest.more);
        grows = omega (arith, rest.grows);
        room = omega (arith, rest.room);
        whole = λ g. rest.whole (w₁ g);
      }

  -- A step leaves the other keys alone.
  pub Step-other :
      {h v b : Bytes} {c c₁ : Compaction} (j : Hash) (old : Option Bytes)
      → Step h v b c c₁
      → h ≢ j
      → (after_inserts j c₁ old ≡ after_inserts j c old)
        × (after_removes j c₁ old ≡ after_removes j c old)
  unfolding keep_block drop_block
  Step-other {h} {v} {b} {c} j old (kept l e) ne = rw e (
    ground (arith, batched-inserts_snoc j h (enc (c.new_len + 4) (dec v).1) c.new_index old),
    refl,
  )
  Step-other {h} {v} {b} {c} j old (dropped l e) ne =
      rw e (refl, ground (arith, batched-removes_snoc j h c.drop_keys old))

  pub ne_of_absent :
      (j h v : Bytes) (kvs : List (Bytes × Bytes))
      → lookup bytes_discrete j ((h, v) ∷ kvs) ≡ none
      → (h ≢ j) × (lookup bytes_discrete j kvs ≡ none)
  unfolding lookup
  ne_of_absent j h v kvs e = (λ p. ground arith, ground arith)

  -- A key that no entry has is left alone.
  pub compact_entries-absent :
      (j : Hash) (old : Option Bytes) (kvs : List (Bytes × Bytes)) (c c' : Compaction)
      → AllVerified B file kvs
      → lookup bytes_discrete j kvs ≡ none
      → compact_entries file live kvs c ≡ ok c'
      → (after_inserts j c' old ≡ after_inserts j c old)
        × (after_removes j c' old ≡ after_removes j c old)
  unfolding compact_entries
  compact_entries-absent j old [] c c' a o r =
      let e : c ≡ c' = cc in
      (
        ap (λ (x : Compaction). after_inserts j x old) (sym e),
        ap (λ (x : Compaction). after_removes j x old) (sym e),
      )
  compact_entries-absent j old ((h, v) ∷ kvs) c c' (n, (b, e), a) o r =
      let (c₁, st, r₁) = first-Step h v b kvs c c' e r in
      let (ne, o₁) = ne_of_absent j h v kvs o in
      let (i₁, d₁) = Step-other j old st ne in
      let (i, d) = compact_entries-absent j old kvs c₁ c' a o₁ r₁ in (i ∙ i₁, d ∙ d₁)
