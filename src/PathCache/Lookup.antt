-- ===== src/PathCache/Lookup.antt =====
-- The answers of crates/neuralfs-daemon/src/pathcache.rs: what was inserted is found until its time
-- is over, and each hit renews that time.
use neural_file_system.Prelude.{
  ℕ, suc, ◌+◌, ◌<◌, ◌≤◌, ◌≡◌, ◌∙◌, refl, ap, true, false, some, List, [], ◌∷◌, Bytes, length,
  lookup, bytes_discrete, if_pos, ltb, Bool-cases, inl, inr, arith, iterate_inv,
}
use neural_file_system.PathCache.{
  ScoredPath, Entry, PathTtlCache, get, evict, too_full, make_room, forget, admit, insert,
  entry_bytes,
}

-- An entry that is alive at `now`.
abbrev pub Alive : Bytes → List ScoredPath → ℕ → PathTtlCache → Type 0
Alive query paths now c =
    (e : Entry) × (lookup bytes_discrete query c.map ≡ some e)
    × (now < e.expires_at)
    × (e.paths ≡ paths)

pub get_hit :
    (query : Bytes) (paths : List ScoredPath) (now : ℕ) (c : PathTtlCache)
    → Alive query paths now c
    → (get query now c).0 ≡ some paths
unfolding get
get_hit query paths now c (e, h, l, same) =
    let t : ltb now e.expires_at ≡ true = ground arith in rw (h, t, get) (ap some same)

get-Alive :
    (query : Bytes) (paths : List ScoredPath) (now later : ℕ) (c : PathTtlCache)
    → Alive query paths now c
    → later < now + c.ttl
    → Alive query paths later (get query now c).1
unfolding get lookup
get-Alive query paths now later c (e, h, l, same) f =
    let t : ltb now e.expires_at ≡ true = ground arith in
    rw (h, t, get)
      (record e { expires_at = now + c.ttl }, if_pos (bytes_discrete query query) refl _ _, f, same)

evict-ttl : (c c' : PathTtlCache) → evict c ≡ some c' → c'.ttl ≡ c.ttl
unfolding evict
evict-ttl c c' h = ground arith

make_room-ttl : (bytes : ℕ) (c : PathTtlCache) → (make_room bytes c).ttl ≡ c.ttl
unfolding make_room
make_room-ttl bytes c =
    iterate_inv (λ s. s.ttl ≡ c.ttl) (too_full bytes) evict (λ s s' _ h e. evict-ttl s s' h ∙ e)
      (suc (length c.map)) c refl

forget-ttl : (query : Bytes) (c : PathTtlCache) → (forget query c).ttl ≡ c.ttl
unfolding forget
forget-ttl query c = ground arith

pub insert-Alive :
    (query : Bytes) (p : ScoredPath) (ps : List ScoredPath) (now later : ℕ) (c : PathTtlCache)
    → entry_bytes query (p ∷ ps) ≤ c.cap_bytes
    → later < now + c.ttl
    → Alive query (p ∷ ps) later (insert query (p ∷ ps) now c)
unfolding insert admit lookup
insert-Alive query p ps now later c fits f =
    let bytes = entry_bytes query (p ∷ ps) in
    let small : ltb c.cap_bytes bytes ≡ false = ground arith in
    let same = make_room-ttl bytes (forget query c) ∙ forget-ttl query c in
    rw (small, insert)
      (
        record {
          paths = p ∷ ps;
          expires_at = now + (make_room bytes (forget query c)).ttl;
          bytes = bytes;
        },
        if_pos (bytes_discrete query query) refl _ _,
        omega (arith, same),
        refl,
      )

insert-ttl :
    (query : Bytes) (paths : List ScoredPath) (now : ℕ) (c : PathTtlCache)
    → (insert query paths now c).ttl ≡ c.ttl
unfolding insert admit
insert-ttl query [] now c = refl
insert-ttl query (p ∷ ps) now c =
    let bytes = entry_bytes query (p ∷ ps) in
    elim (Bool-cases (ltb c.cap_bytes bytes)) [
      | inl l ↦ rw (l, insert) refl
      | inr l ↦ rw (l, insert) (make_room-ttl bytes (forget query c) ∙ forget-ttl query c)
    ]

-- Results that are not empty and fit the cap are found by a lookup within the time to live, and
-- again by a second lookup within the time to live from the first one.
pub get-insert :
    (query : Bytes) (p : ScoredPath) (ps : List ScoredPath) (now first second : ℕ)
    (c : PathTtlCache)
    → entry_bytes query (p ∷ ps) ≤ c.cap_bytes
    → first < now + c.ttl
    → second < first + c.ttl
    → ((get query first (insert query (p ∷ ps) now c)).0 ≡ some (p ∷ ps))
      × ((get query second (get query first (insert query (p ∷ ps) now c)).1).0 ≡ some (p ∷ ps))
get-insert query p ps now first second c fits f g =
    let s = insert query (p ∷ ps) now c in
    let alive = insert-Alive query p ps now first c fits f in
    (
      get_hit query (p ∷ ps) first s alive,
      get_hit query (p ∷ ps) second (get query first s).1 (
          get-Alive query (p ∷ ps) first second s alive
            (omega (arith, insert-ttl query (p ∷ ps) now c))),
    )
