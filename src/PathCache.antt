-- ===== src/PathCache.antt =====
-- crates/neuralfs-daemon/src/pathcache.rs: `PathTtlCache`, the cache of query results with a time
-- to live that each hit renews. The `HashMap` is a list of its entries; its order, which decides
-- between entries that expire together, is that of the list. An `Instant` or a `Duration` is a
-- number of nanoseconds. The lock is not modelled. `IsWithinBudget` makes each subtracted size a part of the count.
pub mod Sizes
pub mod Bounds
pub mod Lookup
mod Tests
use neural_file_system.Prelude.{
  ℕ, suc, ◌+◌, ◌-◌, ◌/◌, Bool, true, false, Option, none, some, List, [], ◌∷◌, Bytes, length,
  lookup, erase, bytes_discrete, ltb, leb, if◌then◌else◌, iterate,
}

-- `ScoredPath` of crates/neuralfs-daemon/src/protocol.rs; the score is the bits of the float.
pub record ScoredPath : Type 0 where
  pub path : Bytes
  pub score : ℕ

pub record Entry : Type 0 where
  pub paths : List ScoredPath
  pub expires_at : ℕ
  pub bytes : ℕ

abbrev pub Entries : Type 0
Entries = List (Bytes × Entry)

pub record PathTtlCache : Type 0 where
  pub map : Entries
  pub total_bytes : ℕ
  pub hits : ℕ
  pub misses : ℕ
  pub expired : ℕ
  pub evictions : ℕ
  pub ttl : ℕ
  pub cap_bytes : ℕ

path_bytes : List ScoredPath → ℕ
path_bytes [] = 0
path_bytes (p ∷ paths) = length p.path + 24 + path_bytes paths

unfoldable pub entry_bytes : Bytes → List ScoredPath → ℕ
unfolding path_bytes
entry_bytes query paths = length query + 64 + path_bytes paths

unfoldable pub new : ℕ → ℕ → PathTtlCache
new ttl cap_bytes = record {
  map = [];
  total_bytes = 0;
  hits = 0;
  misses = 0;
  expired = 0;
  evictions = 0;
  ttl = ttl;
  cap_bytes = cap_bytes;
}

-- `HashMap::insert`; a write through `get_mut` is the same.
abbrev pub set : Bytes → Entry → Entries → Entries
set k e l = (k, e) ∷ erase bytes_discrete k l

-- The three arms of `get`: alive, expired and absent.
abbrev pub renew : Bytes → Entry → ℕ → PathTtlCache → PathTtlCache
renew query e now c = record c {
  map = set query (record e { expires_at = now + c.ttl }) c.map;
  hits = c.hits + 1;
}

abbrev pub expire : Bytes → Entry → PathTtlCache → PathTtlCache
expire query e c = record c {
  map = erase bytes_discrete query c.map;
  total_bytes = c.total_bytes - e.bytes;
  expired = c.expired + 1;
}

abbrev pub miss : PathTtlCache → PathTtlCache
miss c = record c { misses = c.misses + 1 }

unfoldable pub get : Bytes → ℕ → PathTtlCache → Option (List ScoredPath) × PathTtlCache
get query now c = elim (lookup bytes_discrete query c.map) [
  | none ↦ (none, miss c)
  | some e ↦
      if ltb now e.expires_at
      then (some e.paths, renew query e now c)
      else (none, miss (expire query e c))
]

-- `min_by_key`: the first entry among those that expire first.
earlier : Bytes × Entry → Option (Bytes × Entry) → Option (Bytes × Entry)
earlier x none = some x
earlier x (some y) = if ltb y.1.expires_at x.1.expires_at then some y else some x

unfoldable pub soonest : Entries → Option (Bytes × Entry)
unfolding earlier
soonest [] = none
soonest (x ∷ l) = earlier x (soonest l)

abbrev pub evicted : Bytes → Entry → PathTtlCache → PathTtlCache
evicted k e c = record c {
  map = erase bytes_discrete k c.map;
  total_bytes = c.total_bytes - e.bytes;
  evictions = c.evictions + 1;
}

-- One round of the loop of `insert`; `none` is its `break`.
unfoldable pub evict : PathTtlCache → Option PathTtlCache
evict c = elim (soonest c.map) [
  | none ↦ none
  | some (k, e₀) ↦ elim (lookup bytes_discrete k c.map) [
    | none ↦ some c
    | some e ↦ some (evicted k e c)
  ]
]

unfoldable pub too_full : ℕ → PathTtlCache → Bool
too_full bytes c = ltb c.cap_bytes (c.total_bytes + bytes)

-- A round takes one entry: the number of entries and one more is enough fuel.
unfoldable pub make_room : ℕ → PathTtlCache → PathTtlCache
make_room bytes c = iterate (suc (length c.map)) (too_full bytes) evict c

unfoldable pub forget : Bytes → PathTtlCache → PathTtlCache
forget query c = elim (lookup bytes_discrete query c.map) [
  | none ↦ c
  | some old ↦ record c {
    map = erase bytes_discrete query c.map;
    total_bytes = c.total_bytes - old.bytes;
  }
]

unfoldable pub admit : Bytes → List ScoredPath → ℕ → PathTtlCache → PathTtlCache
admit query paths now c =
    let bytes = entry_bytes query paths in
    record c {
      total_bytes = c.total_bytes + bytes;
      map = set query (record { paths = paths; expires_at = now + c.ttl; bytes = bytes }) c.map;
    }

unfoldable pub insert : Bytes → List ScoredPath → ℕ → PathTtlCache → PathTtlCache
insert query [] now c = c
insert query (p ∷ ps) now c =
    if ltb c.cap_bytes (entry_bytes query (p ∷ ps))
    then c
    else admit query (p ∷ ps) now (make_room (entry_bytes query (p ∷ ps)) (forget query c))

dead_keys : ℕ → Entries → List Bytes
dead_keys now [] = []
dead_keys now ((k, e) ∷ l) =
    let rest = dead_keys now l in if leb e.expires_at now then k ∷ rest else rest

unfoldable pub drop_dead : List Bytes → PathTtlCache → PathTtlCache
drop_dead [] c = c
drop_dead (k ∷ ks) c = elim (lookup bytes_discrete k c.map) [
  | none ↦ drop_dead ks c
  | some e ↦ drop_dead ks (expire k e c)
]

unfoldable pub sweep : ℕ → PathTtlCache → PathTtlCache
unfolding dead_keys
sweep now c = drop_dead (dead_keys now c.map) c

pub record PathCacheStats : Type 0 where
  pub ttl_secs : ℕ
  pub cap_bytes : ℕ
  pub resident_bytes : ℕ
  pub entries : ℕ
  pub hits : ℕ
  pub misses : ℕ
  pub expired : ℕ
  pub evictions : ℕ

unfoldable pub stats : PathTtlCache → PathCacheStats
stats c = record {
  ttl_secs = c.ttl / 1000000000;
  cap_bytes = c.cap_bytes;
  resident_bytes = c.total_bytes;
  entries = length c.map;
  hits = c.hits;
  misses = c.misses;
  expired = c.expired;
  evictions = c.evictions;
}
