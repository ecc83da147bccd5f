-- ===== src/Cache.antt =====
-- crates/neuralfs-fs/src/cache.rs: `RamCache`, the byte-bounded RAM cache with a probation and a
-- protected segment. Byte counts are plain numbers: no cache reaches 2^64 bytes. A subtraction
-- stops at 0 where the source would wrap; `IsValid`, which every operation preserves, makes each
-- subtracted size a part of the count, so this is never met.
pub mod Segments
pub mod Enforce
pub mod Bounds
pub mod Lookup
mod Tests
use neural_file_system.Prelude.{
  ℕ, suc, ◌+◌, ◌-◌, ◌*◌, ◌/◌, max, Bool, ◌||◌, Option, none, some, Bytes, length, ltb, iterate,
}
use neural_file_system.HashLink.{Linked}

pub record CacheStats : Type 0 where
  pub cap_bytes : ℕ
  pub resident_bytes : ℕ
  pub entries : ℕ
  pub protected_entries : ℕ
  pub probation_entries : ℕ
  pub hits : ℕ
  pub misses : ℕ
  pub evictions : ℕ
  pub promotions : ℕ

pub record RamCache {K : Type 0} {dec : Discrete K} (L : Linked dec Bytes) : Type 0 where
  pub probation : L.Map
  pub protected : L.Map
  pub bytes_prob : ℕ
  pub bytes_prot : ℕ
  pub cap : ℕ
  pub protected_cap : ℕ
  pub hits : ℕ
  pub misses : ℕ
  pub evictions : ℕ
  pub promotions : ℕ

module _ {K : Type 0} {dec : Discrete K} (L : Linked dec Bytes) where
  unfoldable pub new : ℕ → RamCache L
  new cap_bytes = record {
    probation = L.new;
    protected = L.new;
    bytes_prob = 0;
    bytes_prot = 0;
    cap = max cap_bytes 1;
    protected_cap = max (cap_bytes / 10 * 8) 1;
    hits = 0;
    misses = 0;
    evictions = 0;
    promotions = 0;
  }

module _ {K : Type 0} {dec : Discrete K} {L : Linked dec Bytes} where
  -- The tests of the two loops.
  pub over_protected_cap : RamCache L → Bool
  over_protected_cap c = ltb c.protected_cap c.bytes_prot

  pub over_cap : RamCache L → Bool
  over_cap c = ltb c.cap (c.bytes_prob + c.bytes_prot)

  -- One round of the loop of `enforce_protected_cap`; `none` is its `break`.
  pub demote : RamCache L → Option (RamCache L)
  demote c = elim (L.pop_front c.protected).0 [
    | none ↦ none
    | some (k, v) ↦ some (record c {
      protected = (L.pop_front c.protected).1;
      bytes_prot = c.bytes_prot - length v;
      probation = L.insert k v c.probation;
      bytes_prob = c.bytes_prob + length v;
    })
  ]

  -- A round takes one entry from the segment: its length and one more is enough fuel.
  unfoldable pub enforce_protected_cap : RamCache L → RamCache L
  unfolding demote iterate over_protected_cap
  enforce_protected_cap c = iterate (suc (L.len c.protected)) over_protected_cap demote c

  -- One round of the loop of `enforce_total_cap`; `none` is its `break`.
  pub evict : RamCache L → Option (RamCache L)
  evict c = elim (L.pop_front c.probation).0 [
    | some (_, v) ↦ some (record c {
      probation = (L.pop_front c.probation).1;
      bytes_prob = c.bytes_prob - length v;
      evictions = c.evictions + 1;
    })
    | none ↦ elim (L.pop_front c.protected).0 [
      | some (_, v) ↦ some (record c {
        probation = (L.pop_front c.probation).1;
        protected = (L.pop_front c.protected).1;
        bytes_prot = c.bytes_prot - length v;
        evictions = c.evictions + 1;
      })
      | none ↦ none
    ]
  ]

  -- A round takes one entry from the cache: the number of entries and one more is enough fuel.
  unfoldable pub enforce_total_cap : RamCache L → RamCache L
  unfolding evict iterate over_cap
  enforce_total_cap c = iterate (suc (L.len c.probation + L.len c.protected)) over_cap evict c

  -- The two parts of `get`: a hit in the protected segment, and a hit in probation or a miss.
  pub refresh : K → Bytes → L.Map → RamCache L → RamCache L
  refresh k v m c = record c { protected = L.insert k v m; hits = c.hits + 1 }

  pub promote : K → Bytes → L.Map → RamCache L → RamCache L
  promote k v m c = record c {
    probation = m;
    bytes_prob = c.bytes_prob - length v;
    protected = L.insert k v c.protected;
    bytes_prot = c.bytes_prot + length v;
    hits = c.hits + 1;
    promotions = c.promotions + 1;
  }

  unfoldable pub get : K → RamCache L → Option Bytes × RamCache L
  unfolding refresh promote
  get k c = elim (L.remove k c.protected).0 [
    | some v ↦ (some v, refresh k v (L.remove k c.protected).1 c)
    | none ↦
        let c₁ : RamCache L = record c { protected = (L.remove k c.protected).1 } in
        elim (L.remove k c₁.probation).0 [
          | some v ↦ (
            some v,
            enforce_total_cap (enforce_protected_cap (promote k v (L.remove k c₁.probation).1 c₁)),
          )
          | none ↦
              (none, record c₁ { probation = (L.remove k c₁.probation).1; misses = c₁.misses + 1 })
        ]
  ]

  -- The two `if let` of `invalidate`.
  pub drop_probation : K → RamCache L → RamCache L
  drop_probation k c = elim (L.remove k c.probation).0 [
    | some v ↦ record c {
      probation = (L.remove k c.probation).1;
      bytes_prob = c.bytes_prob - length v;
    }
    | none ↦ record c { probation = (L.remove k c.probation).1 }
  ]

  pub drop_protected : K → RamCache L → RamCache L
  drop_protected k c = elim (L.remove k c.protected).0 [
    | some v ↦ record c {
      protected = (L.remove k c.protected).1;
      bytes_prot = c.bytes_prot - length v;
    }
    | none ↦ record c { protected = (L.remove k c.protected).1 }
  ]

  unfoldable pub invalidate : K → RamCache L → RamCache L
  unfolding drop_probation drop_protected
  invalidate k c = drop_protected k (drop_probation k c)

  -- The new entry, before the cap is enforced.
  pub admit : K → Bytes → RamCache L → RamCache L
  admit k value c = record c {
    probation = L.insert k value c.probation;
    bytes_prob = c.bytes_prob + length value;
  }

  unfoldable pub insert : K → Bytes → RamCache L → RamCache L
  unfolding admit
  insert k value c = enforce_total_cap (admit k value (invalidate k c))

  unfoldable pub contains : K → RamCache L → Bool
  contains k c = L.contains_key k c.protected || L.contains_key k c.probation

  unfoldable pub clear : RamCache L → RamCache L
  clear c = record c { probation = L.new; protected = L.new; bytes_prob = 0; bytes_prot = 0 }

  unfoldable pub stats : RamCache L → CacheStats
  stats c = record {
    cap_bytes = c.cap;
    resident_bytes = c.bytes_prob + c.bytes_prot;
    entries = L.len c.probation + L.len c.protected;
    protected_entries = L.len c.protected;
    probation_entries = L.len c.probation;
    hits = c.hits;
    misses = c.misses;
    evictions = c.evictions;
    promotions = c.promotions;
  }
