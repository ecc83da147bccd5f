-- ===== src/BlockStore/Entries.antt =====
-- The loop of `compact` in crates/neuralfs-fs/src/blockstore.rs, for the key of an entry: a live
-- block is moved with its bytes, any other is dropped.
use neural_file_system.Prelude.{
  ◌≤◌, ◌≢◌, Distinct, ℕ, ◌+◌, ◌^◌, ◌<◌, ◌≡◌, ◌∙◌, sym, ap, refl, subst, Option, none, some, List,
  [], ◌∷◌, Bytes, length, length-append, lookup, bytes_discrete, ok, true, false, arith,
}
use neural_file_system.Blake3.{Blake3, Hash}
use neural_file_system.BlockStore.Codec.{enc, dec, dec-enc, to_le_bytes, length-to_le_bytes}
use neural_file_system.BlockStore.Compact.{
  Compaction, contains_hash, keep_block, drop_block, compact_entries,
}
use neural_file_system.BlockStore.Contents.{verified}
use neural_file_system.BlockStore.Writes.{verified-append, verified_record}
use neural_file_system.BlockStore.Image.{
  after_inserts, after_removes, AllVerified, Step, kept, first-Step, step_keep, step_drop, read_of,
  Step-other, compact_entries-Grown, compact_entries-absent, batched-inserts_snoc,
  batched-removes_snoc, Step-sizes,
}

module _ (B : Blake3) (file : Bytes) (live : List Hash) where
  keep_block-len :
      (h : Hash) (n : ℕ) (b : Bytes) (c : Compaction) → c.new_len + 4 ≤ (keep_block h n b c).new_len
  unfolding keep_block
  keep_block-len h n b c = omega (arith, length-append (to_le_bytes 4 n) b, length-to_le_bytes 4 n)

  -- Where the key of the first entry ends up: in the new index, at its block.
  pub record Moved (j b : Bytes) (c c' : Compaction) : Type 0 where
    pub value : Bytes
    pub inserted : (old : Option Bytes) → after_inserts j c' old ≡ some value
    pub untouched : (old : Option Bytes) → after_removes j c' old ≡ after_removes j c old
    pub readable : verified B c'.image j value ≡ some b
    pub narrow : (dec value).1 < 2 ^ 32

  keep_block-Moved :
      (j v b : Bytes) (c : Compaction)
      → verified B file j v ≡ some b
      → (dec v).1 < 2 ^ 32
      → c.new_len ≡ length c.image
      → c.new_len + 4 < 2 ^ 64
      → Moved j b c (keep_block j (dec v).1 b c)
  unfolding keep_block
  keep_block-Moved j v b c e n g fits =
      let (r, d, l, len) = read_of B file live j v b e in
      record {
        value = enc (c.new_len + 4) (dec v).1;
        inserted = λ old.
            ground
              (arith, batched-inserts_snoc j j (enc (c.new_len + 4) (dec v).1) c.new_index old);
        untouched = λ old. refl;
        readable = rw (← d, ← len, g) (verified_record B c.image b (omega arith) (omega arith));
        narrow = omega (arith, ap (λ (x : ℕ × ℕ). x.1) (dec-enc (c.new_len + 4) (dec v).1 fits n));
      }

  -- What follows the entry leaves its block where it is.
  Moved-rest :
      (j b : Bytes) (c c₁ c' : Compaction) (kvs : List (Bytes × Bytes))
      → Moved j b c c₁
      → AllVerified B file kvs
      → lookup bytes_discrete j kvs ≡ none
      → compact_entries file live kvs c₁ ≡ ok c'
      → Moved j b c c'
  Moved-rest j b c c₁ c' kvs m a o r =
      let rest = λ (old : Option Bytes). compact_entries-absent B file live j old kvs c₁ c' a o r in
      let g = compact_entries-Grown B file live kvs c₁ c' a r in
      record {
        value = m.value;
        inserted = λ old. (rest old).0 ∙ m.inserted old;
        untouched = λ old. (rest old).1 ∙ m.untouched old;
        readable = rw g.image (verified-append B c₁.image g.more j m.value b m.readable);
        narrow = m.narrow;
      }

  -- What goes before the entry of another key makes no difference either.
  Moved-before :
      (j h v x b : Bytes) (c c₁ c' : Compaction)
      → Step B file live h v x c c₁
      → h ≢ j
      → Moved j b c₁ c'
      → Moved j b c c'
  Moved-before j h v x b c c₁ c' st ne m = record {
    value = m.value;
    inserted = m.inserted;
    untouched = λ old. m.untouched old ∙ (Step-other B file live j old st ne).1;
    readable = m.readable;
    narrow = m.narrow;
  }

  lookup_head :
      (j v w : Bytes) (kvs : List (Bytes × Bytes))
      → lookup bytes_discrete j ((j, w) ∷ kvs) ≡ some v
      → w ≡ v
  unfolding lookup
  lookup_head j v w kvs e = ground arith

  lookup_tail :
      (j h v w : Bytes) (kvs : List (Bytes × Bytes))
      → h ≢ j
      → lookup bytes_discrete j ((h, w) ∷ kvs) ≡ some v
      → lookup bytes_discrete j kvs ≡ some v
  unfolding lookup
  lookup_tail j h v w kvs ne e = ground arith

  first-Moved :
      (j v b : Bytes) (kvs : List (Bytes × Bytes)) (c c' : Compaction)
      → AllVerified B file kvs
      → (dec v).1 < 2 ^ 32
      → lookup bytes_discrete j kvs ≡ none
      → verified B file j v ≡ some b
      → contains_hash live j ≡ true
      → c.new_len ≡ length c.image
      → c'.new_len < 2 ^ 64
      → compact_entries file live ((j, v) ∷ kvs) c ≡ ok c'
      → Moved j b c c'
  first-Moved j v b kvs c c' a n o e l g fits r =
      let c₁ = keep_block j (dec v).1 b c in
      let r₁ = sym (step_keep B file live j v b kvs c e l) ∙ r in
      let sz =
        Step-sizes B file live {h = j} {v = v} {b = b} {c = c} (kept l refl)
          (read_of B file live j v b e).3 in
      let gr = compact_entries-Grown B file live kvs c₁ c' a r₁ in
      let room = keep_block-len j (dec v).1 b c in
      Moved-rest j b c c₁ c' kvs (keep_block-Moved j v b c e n g (omega (arith, room, gr.grows))) a
        o r₁

  -- A live block is moved.
  pub compact_entries-Moved :
      (j v b : Bytes) (kvs : List (Bytes × Bytes)) (c c' : Compaction)
      → AllVerified B file kvs
      → Distinct bytes_discrete kvs
      → lookup bytes_discrete j kvs ≡ some v
      → verified B file j v ≡ some b
      → contains_hash live j ≡ true
      → c.new_len ≡ length c.image
      → c'.new_len < 2 ^ 64
      → compact_entries file live kvs c ≡ ok c'
      → Moved j b c c'
  unfolding lookup
  compact_entries-Moved j v b [] c c' a d o e l g fits r = absurd (ground arith)
  compact_entries-Moved j v b ((h, w) ∷ kvs) c c' (n, (x, y), a) d o e l g fits r =
      let (c₁, st, r₁) = first-Step B file live h w x kvs c c' y r in
      let sz = Step-sizes B file live st (read_of B file live h w x y).3 in
      elim (bytes_discrete h j) [
        | no ne ↦ Moved-before j h w x b c c₁ c' st ne (
            compact_entries-Moved j v b kvs c₁ c' a d.1 (lookup_tail j h v w kvs ne o) e l (sz.3 g)
              fits r₁)
        | yes p ↦
            let o' = subst (λ (k : Bytes). lookup bytes_discrete j ((k, w) ∷ kvs) ≡ some v) p o in
            let q = lookup_head j v w kvs o' in
            first-Moved j v b kvs c c' a (subst (λ (u : Bytes). (dec u).1 < 2 ^ 32) q n)
              (subst (λ (k : Bytes). lookup bytes_discrete k kvs ≡ none) p d.0) e l g fits
              (subst (λ (u : Bytes). compact_entries file live ((j, u) ∷ kvs) c ≡ ok c') q
                (subst (λ (k : Bytes). compact_entries file live ((k, w) ∷ kvs) c ≡ ok c') p r))
      ]

  drop_block-removes :
      (j : Hash) (n : ℕ) (c : Compaction) (old : Option Bytes)
      → after_removes j (drop_block j n c) old ≡ none
  unfolding drop_block
  drop_block-removes j n c old = ground (arith, batched-removes_snoc j j c.drop_keys old)

  -- A block that is not live is dropped: the batch removes its key.
  pub compact_entries-dropped :
      (j v : Bytes) (old : Option Bytes) (kvs : List (Bytes × Bytes)) (c c' : Compaction)
      → AllVerified B file kvs
      → Distinct bytes_discrete kvs
      → lookup bytes_discrete j kvs ≡ some v
      → contains_hash live j ≡ false
      → compact_entries file live kvs c ≡ ok c'
      → after_removes j c' old ≡ none
  unfolding lookup
  compact_entries-dropped j v old [] c c' a d o l r = absurd (ground arith)
  compact_entries-dropped j v old ((h, w) ∷ kvs) c c' (n, (x, y), a) d o l r =
      elim (bytes_discrete h j) [
        | no ne ↦
            let (c₁, st, r₁) = first-Step B file live h w x kvs c c' y r in
            compact_entries-dropped j v old kvs c₁ c' a d.1 (lookup_tail j h v w kvs ne o) l r₁
        | yes p ↦
            let l' = subst (λ (k : Bytes). contains_hash live k ≡ false) (sym p) l in
            let r₁ = sym (step_drop B file live h w x kvs c y l') ∙ r in
            let o' = subst (λ (k : Bytes). lookup bytes_discrete k kvs ≡ none) p d.0 in
            (compact_entries-absent B file live j old kvs (drop_block h (dec w).1 c) c' a o' r₁).1
            ∙ subst (λ (k : Bytes). after_removes j (drop_block k (dec w).1 c) old ≡ none) (sym p)
                (drop_block-removes j (dec w).1 c old)
      ]
