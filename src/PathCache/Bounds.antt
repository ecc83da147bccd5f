-- ===== src/PathCache/Bounds.antt =====
-- The budget of crates/neuralfs-daemon/src/pathcache.rs: every operation keeps the count exact and
-- the cache within its cap.
use neural_file_system.Prelude.{
  ℕ, suc, ◌+◌, ◌<◌, ◌≤◌, ◌≡◌, refl, ap, subst, none, some, List, [], ◌∷◌, Bytes, length, lookup,
  erase, bytes_discrete, Distinct, Distinct-erase, lookup-erase, ltb, Option-cases, Bool-cases, inl,
  inr, arith, iterate_inv, iterate_end_inv,
}
use neural_file_system.PathCache.{
  ScoredPath, Entry, PathTtlCache, new, set, renew, expire, get, soonest, evict, evicted, too_full,
  make_room, forget, admit, insert, entry_bytes, drop_dead, sweep,
}
use neural_file_system.PathCache.Sizes.{
  total, size_of, total-erase, length-erase, soonest-some, soonest-none,
}

-- No query stands twice, the count is the sum of the sizes, and it is within the cap.
pub record IsWithinBudget (c : PathTtlCache) : Type 0 where
  pub distinct : Distinct bytes_discrete c.map
  pub exact : c.total_bytes ≡ total c.map
  pub capped : c.total_bytes ≤ c.cap_bytes

Distinct-set :
    (k : Bytes) (e : Entry) (c : PathTtlCache)
    → Distinct bytes_discrete c.map
    → Distinct bytes_discrete (set k e c.map)
Distinct-set k e c d =
    (ground (arith, lookup-erase bytes_discrete k k c.map), Distinct-erase bytes_discrete k c.map d)

module _ (k : Bytes) (e : Entry) (c : PathTtlCache) (w : IsWithinBudget c)
    (h : lookup bytes_discrete k c.map ≡ some e) where
  sum : total (erase bytes_discrete k c.map) + e.bytes ≡ c.total_bytes
  sum = omega (arith, w.exact, total-erase k c.map w.distinct, ap size_of h)

  expire-IsWithinBudget : IsWithinBudget (expire k e c)
  expire-IsWithinBudget = record {
    distinct = Distinct-erase bytes_discrete k c.map w.distinct;
    exact = omega (arith, sum);
    capped = omega (arith, w.capped);
  }

  renew-IsWithinBudget : (now : ℕ) → IsWithinBudget (renew k e now c)
  renew-IsWithinBudget now = record {
    distinct = Distinct-set k (record e { expires_at = now + c.ttl }) c w.distinct;
    exact = omega (arith, sum);
    capped = w.capped;
  }

-- A lookup keeps the query cache within its cap and its count exact, whether the entry is alive,
-- expired or absent.
pub get-IsWithinBudget :
    (query : Bytes) (now : ℕ) (c : PathTtlCache)
    → IsWithinBudget c
    → IsWithinBudget (get query now c).1
unfolding get
get-IsWithinBudget query now c w = elim (Option-cases (lookup bytes_discrete query c.map)) [
  | inl h ↦ rw (h, get) (record { distinct = w.distinct; exact = w.exact; capped = w.capped })
  | inr (e, h) ↦
      let x = expire-IsWithinBudget query e c w h in
      elim (Bool-cases (ltb now e.expires_at)) [
        | inl l ↦ rw (h, l, get) (renew-IsWithinBudget query e c w h now)
        | inr l ↦
            rw (h, l, get) (record { distinct = x.distinct; exact = x.exact; capped = x.capped })
      ]
]

forget-IsWithinBudget :
    (query : Bytes) (c : PathTtlCache) → IsWithinBudget c → IsWithinBudget (forget query c)
unfolding forget
forget-IsWithinBudget query c w = elim (Option-cases (lookup bytes_discrete query c.map)) [
  | inl h ↦ rw (h, forget) w
  | inr (e, h) ↦
      let x = expire-IsWithinBudget query e c w h in
      rw (h, forget) (record { distinct = x.distinct; exact = x.exact; capped = x.capped })
]

-- A round of the eviction takes the entry that expires first.
evict-some :
    (k : Bytes) (e : Entry) (c : PathTtlCache)
    → IsWithinBudget c
    → soonest c.map ≡ some (k, e)
    → evict c ≡ some (evicted k e c)
unfolding evict
evict-some k e c w h = rw (h, soonest-some k e c.map w.distinct h, evict) refl

evict_popped :
    (c c' : PathTtlCache)
    → IsWithinBudget c
    → evict c ≡ some c'
    → (k : Bytes) × (e : Entry) × (lookup bytes_discrete k c.map ≡ some e) × (evicted k e c ≡ c')
unfolding evict
evict_popped c c' w h = elim (Option-cases (soonest c.map)) [
  | inl n ↦ absurd (ground arith)
  | inr ((k, e), n) ↦ (k, e, soonest-some k e c.map w.distinct n, cc (evict-some k e c w n, h))
]

evict_stuck : (c : PathTtlCache) → IsWithinBudget c → evict c ≡ none → c.total_bytes ≡ 0
evict_stuck c w h = elim (Option-cases (soonest c.map)) [
  | inl n ↦ omega (arith, w.exact, ap total (soonest-none c.map n))
  | inr ((k, e), n) ↦ absurd (ground (arith, evict-some k e c w n))
]

evict-length :
    (c c' : PathTtlCache) → IsWithinBudget c → evict c ≡ some c' → length c'.map < length c.map
evict-length c c' w h =
    let (k, e, f, same) = evict_popped c c' w h in
    subst (λ x. length x.map < length c.map) same (length-erase k e c.map w.distinct f)

module _ (query : Bytes) (c : PathTtlCache) where
  -- What the loop keeps: a cache within its budget that has no entry for the query.
  abbrev Keeps : PathTtlCache → Type 0
  Keeps s =
      IsWithinBudget s × (s.cap_bytes ≡ c.cap_bytes) × (lookup bytes_discrete query s.map ≡ none)

  evict-Keeps : (s s' : PathTtlCache) → evict s ≡ some s' → Keeps s → Keeps s'
  evict-Keeps s s' h k =
      let (j, e, f, same) = evict_popped s s' k.0 h in
      let x = expire-IsWithinBudget j e s k.0 f in
      subst Keeps same (
        record { distinct = x.distinct; exact = x.exact; capped = x.capped },
        k.1,
        ground (arith, lookup-erase bytes_discrete query j s.map, k.2),
      )

  make_room-Keeps : (bytes : ℕ) → Keeps c → Keeps (make_room bytes c)
  unfolding make_room
  make_room-Keeps bytes k =
      iterate_inv Keeps (too_full bytes) evict (λ s s' _ h. evict-Keeps s s' h) (suc (length c.map))
        c k

  -- A size within the cap fits after the loop.
  make_room-fits :
      (bytes : ℕ)
      → bytes ≤ c.cap_bytes
      → Keeps c
      → (make_room bytes c).total_bytes + bytes ≤ c.cap_bytes
  unfolding make_room too_full
  make_room-fits bytes le k =
      let r = make_room-Keeps bytes k in
      elim (iterate_end_inv Keeps (too_full bytes) evict (λ s s' _ h. evict-Keeps s s' h)
        (λ s. length s.map) (λ s s' p. evict-length s s' p.0) (suc (length c.map)) c k
        (omega arith)) [
          | inl stop ↦ ground (arith, r.1, stop)
          | inr stuck ↦ omega (arith, evict_stuck (make_room bytes c) r.0 stuck)
        ]

admit-IsWithinBudget :
    (query : Bytes) (paths : List ScoredPath) (now : ℕ) (c : PathTtlCache)
    → IsWithinBudget c
    → lookup bytes_discrete query c.map ≡ none
    → c.total_bytes + entry_bytes query paths ≤ c.cap_bytes
    → IsWithinBudget (admit query paths now c)
unfolding admit
admit-IsWithinBudget query paths now c w absent fits =
    let bytes = entry_bytes query paths in
    record {
      distinct =
          Distinct-set query (record { paths = paths; expires_at = now + c.ttl; bytes = bytes }) c
            w.distinct;
      exact = omega (arith, w.exact, total-erase query c.map w.distinct, ap size_of absent);
      capped = fits;
    }

forget-Keeps :
    (query : Bytes) (c : PathTtlCache) → IsWithinBudget c → Keeps query c (forget query c)
unfolding forget
forget-Keeps query c w = elim (Option-cases (lookup bytes_discrete query c.map)) [
  | inl h ↦ (forget-IsWithinBudget query c w, rw (h, forget) refl, rw (h, forget) h)
  | inr (e, h) ↦ (
    forget-IsWithinBudget query c w,
    rw (h, forget) refl,
    rw (h, forget) (ground (arith, lookup-erase bytes_discrete query query c.map)),
  )
]

-- An insertion keeps the query cache within its cap and its count exact, whatever the size of the
-- results.
pub insert-IsWithinBudget :
    (query : Bytes) (paths : List ScoredPath) (now : ℕ) (c : PathTtlCache)
    → IsWithinBudget c
    → IsWithinBudget (insert query paths now c)
unfolding insert
insert-IsWithinBudget query [] now c w = w
insert-IsWithinBudget query (p ∷ ps) now c w =
    let bytes = entry_bytes query (p ∷ ps) in
    elim (Bool-cases (ltb c.cap_bytes bytes)) [
      | inl l ↦ rw (l, insert) w
      | inr l ↦
          let f = forget query c in
          let (fw, cap, absent) = forget-Keeps query c w in
          let small : bytes ≤ f.cap_bytes = ground (arith, cap, l) in
          let k : Keeps query f f = (fw, refl, absent) in
          let (rw_, rcap, rabsent) = make_room-Keeps query f bytes k in
          rw (l, insert)
            (admit-IsWithinBudget query (p ∷ ps) now (make_room bytes f) rw_ rabsent
              (omega (arith, make_room-fits query f bytes small k)))
    ]

drop_dead-IsWithinBudget :
    (ks : List Bytes) (c : PathTtlCache) → IsWithinBudget c → IsWithinBudget (drop_dead ks c)
unfolding drop_dead
drop_dead-IsWithinBudget [] c w = w
drop_dead-IsWithinBudget (k ∷ ks) c w = elim (Option-cases (lookup bytes_discrete k c.map)) [
  | inl h ↦ rw (h, drop_dead) (drop_dead-IsWithinBudget ks c w)
  | inr (e, h) ↦
      rw (h, drop_dead)
        (drop_dead-IsWithinBudget ks (expire k e c) (expire-IsWithinBudget k e c w h))
]

-- A sweep keeps the query cache within its cap and its count exact.
pub sweep-IsWithinBudget :
    (now : ℕ) (c : PathTtlCache) → IsWithinBudget c → IsWithinBudget (sweep now c)
unfolding sweep
sweep-IsWithinBudget now c w = drop_dead-IsWithinBudget _ c w

pub new-IsWithinBudget : (ttl cap_bytes : ℕ) → IsWithinBudget (new ttl cap_bytes)
unfolding new
new-IsWithinBudget ttl cap_bytes = record { distinct = tt; exact = refl; capped = omega arith }
