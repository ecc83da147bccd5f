-- ===== src/Cache/Enforce.antt =====
-- The two loops of crates/neuralfs-fs/src/cache.rs, `enforce_protected_cap` and
-- `enforce_total_cap`: what a round does, and what holds after the loop.
use neural_file_system.Prelude.{
  ℕ, suc, ◌+◌, ◌≤◌, ◌<◌, ◌≡◌, refl, ap, ◌⊎◌, inl, inr, none, some, Bytes, Option-cases, arith,
  iterate_inv, iterate_end,
}
use neural_file_system.HashLink.{Linked}
use neural_file_system.HashLink.Laws.{
  lookup-insert, lookup-pop_front, items-pop_front_none, len-pop_front, len-pop_front_none,
}
use neural_file_system.Cache.{
  RamCache, demote, over_protected_cap, over_cap, enforce_protected_cap, evict, enforce_total_cap,
}
use neural_file_system.Cache.Segments.{IsValid, total, total-insert, total-pop_front}

module _ {K : Type 0} {dec : Discrete K} {L : Linked dec Bytes} where
  demote-some-IsValid :
      (c c' : RamCache L) (k : K) (v : Bytes)
      → (L.pop_front c.protected).0 ≡ some (k, v)
      → demote c ≡ some c'
      → IsValid c
      → IsValid c'
  unfolding demote
  demote-some-IsValid c c' k v p h w = record {
    prob =
        ground
          (arith, lookup-pop_front L k c.protected k v, w.apart k, total-insert L k v c.probation);
    prot = ground (arith, total-pop_front L c.protected k v);
    apart = λ j.
        ground (
          arith,
          lookup-pop_front L j c.protected k v,
          lookup-insert L j k v c.probation,
          w.apart j,
        );
  }

  pub demote_popped :
      (c c' : RamCache L)
      → demote c ≡ some c'
      → (k : K) × (v : Bytes) × ((L.pop_front c.protected).0 ≡ some (k, v))
  unfolding demote
  demote_popped c c' h = elim (Option-cases (L.pop_front c.protected).0) [
    | inl p ↦ absurd (ground arith)
    | inr ((k, v), p) ↦ (k, v, p)
  ]

  pub demote-IsValid : (c c' : RamCache L) → demote c ≡ some c' → IsValid c → IsValid c'
  demote-IsValid c c' h w =
      let (k, v, p) = demote_popped c c' h in demote-some-IsValid c c' k v p h w

  demote-len : (c c' : RamCache L) → demote c ≡ some c' → L.len c'.protected < L.len c.protected
  unfolding demote
  demote-len c c' h =
      let (k, v, p) = demote_popped c c' h in ground (arith, len-pop_front L c.protected (k, v) p)

  demote-caps :
      (c c' : RamCache L)
      → demote c ≡ some c'
      → (c'.cap ≡ c.cap) × (c'.protected_cap ≡ c.protected_cap)
  unfolding demote
  demote-caps c c' h = ground arith

  -- An empty segment counts no bytes.
  demote_stuck : (c : RamCache L) → demote c ≡ none → IsValid c → c.bytes_prot ≡ 0
  unfolding demote
  demote_stuck c h w =
      ground (arith, w.prot, ap total (items-pop_front_none L c.protected (ground arith)).0)

  -- What the loops keep: a valid cache with the caps of `c`.
  abbrev pub Keeps : RamCache L → RamCache L → Type 0
  Keeps c s = IsValid s × (s.cap ≡ c.cap) × (s.protected_cap ≡ c.protected_cap)

  pub enforce_protected_cap-Keeps : (c : RamCache L) → IsValid c → Keeps c (enforce_protected_cap c)
  unfolding enforce_protected_cap
  enforce_protected_cap-Keeps c w =
      iterate_inv (Keeps c) over_protected_cap demote
        (λ s s' _ h k. (
          demote-IsValid s s' h k.0,
          ground (arith, demote-caps s s' h),
          ground (arith, demote-caps s s' h),
        ))
        (suc (L.len c.protected)) c (w, refl, refl)

  pub enforce_protected_cap-le :
      (c : RamCache L) → IsValid c → (enforce_protected_cap c).bytes_prot ≤ c.protected_cap
  unfolding enforce_protected_cap
  enforce_protected_cap-le c w =
      let k = enforce_protected_cap-Keeps c w in
      elim (iterate_end (λ s. L.len s.protected) over_protected_cap demote demote-len
        (suc (L.len c.protected)) c (omega arith)) [
          | inl stop ↦ ground (arith, k, stop)
          | inr stuck ↦ ground (arith, demote_stuck (enforce_protected_cap c) stuck k.0)
        ]

  -- The entry that `evict` takes, and the segment that it is taken from.
  pub evict_popped :
      (c c' : RamCache L)
      → evict c ≡ some c'
      → ((k : K) × (v : Bytes) × ((L.pop_front c.probation).0 ≡ some (k, v)))
        ⊎ (((L.pop_front c.probation).0 ≡ none)
            × ((k : K) × (v : Bytes) × ((L.pop_front c.protected).0 ≡ some (k, v))))
  unfolding evict
  evict_popped c c' h = elim (Option-cases (L.pop_front c.probation).0) [
    | inr ((k, v), p) ↦ inl (k, v, p)
    | inl p ↦ elim (Option-cases (L.pop_front c.protected).0) [
      | inl q ↦ absurd (ground arith)
      | inr ((k, v), q) ↦ inr (p, (k, v, q))
    ]
  ]

  module _ (c c' : RamCache L) (k : K) (v : Bytes) (h : evict c ≡ some c') (w : IsValid c) where
    evict_probation-IsValid : (L.pop_front c.probation).0 ≡ some (k, v) → IsValid c'
    unfolding evict
    evict_probation-IsValid p = record {
      prob = ground (arith, total-pop_front L c.probation k v);
      prot = ground arith;
      apart = λ j. ground (arith, lookup-pop_front L j c.probation k v, w.apart j);
    }

    evict_protected-IsValid :
        (L.pop_front c.probation).0 ≡ none → (L.pop_front c.protected).0 ≡ some (k, v) → IsValid c'
    unfolding evict
    evict_protected-IsValid q p = record {
      prob = ground (arith, items-pop_front_none L c.probation q);
      prot = ground (arith, total-pop_front L c.protected k v);
      apart = λ j. ground (
        arith,
        lookup-pop_front L j c.protected k v,
        items-pop_front_none L c.probation q,
        w.apart j,
      );
    }

  pub evict-IsValid : (c c' : RamCache L) → evict c ≡ some c' → IsValid c → IsValid c'
  evict-IsValid c c' h w = elim (evict_popped c c' h) [
    | inl (k, v, p) ↦ evict_probation-IsValid c c' k v h w p
    | inr (q, (k, v, p)) ↦ evict_protected-IsValid c c' k v h w q p
  ]

  abbrev entries : RamCache L → ℕ
  entries c = L.len c.probation + L.len c.protected

  evict-len : (c c' : RamCache L) → evict c ≡ some c' → entries c' < entries c
  unfolding evict
  evict-len c c' h = elim (evict_popped c c' h) [
    | inl (k, v, p) ↦ ground (arith, len-pop_front L c.probation (k, v) p)
    | inr (q, (k, v, p)) ↦
        ground (arith, len-pop_front L c.protected (k, v) p, len-pop_front_none L c.probation q)
  ]

  evict-caps :
      (c c' : RamCache L)
      → evict c ≡ some c'
      → (c'.cap ≡ c.cap) × (c'.protected_cap ≡ c.protected_cap) × (c'.bytes_prot ≤ c.bytes_prot)
  unfolding evict
  evict-caps c c' h = ground arith

  evict_stuck : (c : RamCache L) → evict c ≡ none → IsValid c → c.bytes_prob + c.bytes_prot ≡ 0
  unfolding evict
  evict_stuck c h w = ground (
    arith,
    w.prob,
    w.prot,
    ap total (items-pop_front_none L c.probation (ground arith)).0,
    ap total (items-pop_front_none L c.protected (ground arith)).0,
  )

  abbrev pub KeepsTotal : RamCache L → RamCache L → Type 0
  KeepsTotal c s =
      IsValid s
      × (s.cap ≡ c.cap)
      × (s.protected_cap ≡ c.protected_cap)
      × (s.bytes_prot ≤ c.bytes_prot)

  pub enforce_total_cap-KeepsTotal :
      (c : RamCache L) → IsValid c → KeepsTotal c (enforce_total_cap c)
  unfolding enforce_total_cap
  enforce_total_cap-KeepsTotal c w =
      iterate_inv (KeepsTotal c) over_cap evict
        (λ s s' _ h k.
          let caps = evict-caps s s' h in
          (evict-IsValid s s' h k.0, omega arith, omega arith, omega arith))
        (suc (entries c)) c (w, refl, refl, omega arith)

  pub enforce_total_cap-le :
      (c : RamCache L)
      → IsValid c
      → (enforce_total_cap c).bytes_prob + (enforce_total_cap c).bytes_prot ≤ c.cap
  unfolding enforce_total_cap
  enforce_total_cap-le c w =
      let k = enforce_total_cap-KeepsTotal c w in
      elim (iterate_end entries over_cap evict evict-len (suc (entries c)) c (omega arith)) [
        | inl stop ↦ ground (arith, k, stop)
        | inr stuck ↦ ground (arith, evict_stuck (enforce_total_cap c) stuck k.0)
      ]
