-- ===== src/Cache/Lookup.antt =====
-- What the cache of crates/neuralfs-fs/src/cache.rs answers: a lookup returns what was last
-- inserted under the key or nothing, and frequently read entries outlive an insertion.
use neural_file_system.Prelude.{
  ℕ, suc, ◌+◌, ◌≤◌, ◌≡◌, refl, ap, ◌∙◌, ◌⊎◌, inl, inr, none, some, Bytes, true, lookup,
  Option-cases, arith, ite, iterate_inv, ◌≢◌,
}
use neural_file_system.HashLink.{Linked}
use neural_file_system.HashLink.Laws.{
  lookup-insert, lookup-remove, lookup-pop_front, items-pop_front_none,
}
use neural_file_system.Cache.{
  RamCache, new, enforce_protected_cap, enforce_total_cap, over_cap, over_protected_cap, refresh,
  promote, get, invalidate, admit, insert, demote, evict,
}
use neural_file_system.Cache.Segments.{IsValid, peek, total}
use neural_file_system.Cache.Enforce.{demote_popped, evict_popped, demote-IsValid, evict-IsValid}
use neural_file_system.Cache.Bounds.{
  IsBounded, invalidate-IsValid, invalidate-IsBounded, invalidate-absent, admit-IsValid,
  promote-IsValid, probe, probe-IsBounded, probe-absent,
}

module _ {K : Type 0} {dec : Discrete K} {L : Linked dec Bytes} where
  -- Nothing that `s` answers differs from what `c` answers; some answers may be lost.
  abbrev pub Loses : RamCache L → RamCache L → Type 0
  Loses c s = (j : K) → (peek j s ≡ peek j c) ⊎ (peek j s ≡ none)

  demote-peek :
      (c c' : RamCache L) → demote c ≡ some c' → IsValid c → (j : K) → peek j c' ≡ peek j c
  unfolding demote peek
  demote-peek c c' h w j =
      let (k, v, p) = demote_popped c c' h in
      ground (
        arith,
        lookup-pop_front L j c.protected k v p,
        lookup-insert L j k v c.probation,
        w.apart j,
        w.apart k,
      )

  evict-Loses : (c c' : RamCache L) → evict c ≡ some c' → Loses c c'
  unfolding evict peek lookup
  evict-Loses c c' h j = elim (evict_popped c c' h) [
    | inl (k, v, p) ↦ ground (arith, lookup-pop_front L j c.probation k v p)
    | inr (q, (k, v, p)) ↦ ground (
      arith,
      lookup-pop_front L j c.protected k v p,
      ap (lookup dec j) (items-pop_front_none L c.probation q).1,
    )
  ]

  Loses-trans : (a b c : RamCache L) → Loses a b → Loses b c → Loses a c
  Loses-trans a b c f g j = ground (arith, f j, g j)

  -- Demotion moves entries and loses none.
  pub enforce_protected_cap-peek :
      (c : RamCache L) → IsValid c → (j : K) → peek j (enforce_protected_cap c) ≡ peek j c
  unfolding enforce_protected_cap
  enforce_protected_cap-peek c w =
      (iterate_inv (λ s. IsValid s × ((j : K) → peek j s ≡ peek j c)) over_protected_cap demote
        (λ s s' _ h k. (demote-IsValid s s' h k.0, λ j. demote-peek s s' h k.0 j ∙ k.1 j))
        (suc (L.len c.protected)) c (w, λ j. refl)).1

  pub enforce_total_cap-Loses : (c : RamCache L) → Loses c (enforce_total_cap c)
  unfolding enforce_total_cap
  enforce_total_cap-Loses c =
      iterate_inv (Loses c) over_cap evict (λ s s' _ h k. Loses-trans c s s' k (evict-Loses s s' h))
        (suc (L.len c.probation + L.len c.protected)) c (λ j. inl refl)

  -- `invalidate` forgets one key and nothing else.
  pub peek-invalidate :
      (k : K) (c : RamCache L) (j : K) → peek j (invalidate k c) ≡ ite (dec k j) none (peek j c)
  unfolding invalidate peek
  peek-invalidate k c j =
      ground (arith, lookup-remove L j k c.probation, lookup-remove L j k c.protected)

  -- A lookup answers what the two segments hold.
  pub get-peek : (k : K) (c : RamCache L) → (get k c).0 ≡ peek k c
  unfolding get peek
  get-peek k c = ground (arith, L.remove-value k c.protected, L.remove-value k c.probation)

  peek-admit :
      (k : K) (v : Bytes) (c : RamCache L)
      → lookup dec k (L.items c.protected) ≡ none
      → (j : K) → peek j (admit k v c) ≡ ite (dec k j) (some v) (peek j c)
  unfolding admit peek
  peek-admit k v c h j = ground (arith, lookup-insert L j k v c.probation)

  -- After an insertion each key answers as in a map after it, or not at all.
  pub insert-peek :
      (k : K) (v : Bytes) (c : RamCache L) (j : K)
      → (peek j (insert k v c) ≡ ite (dec k j) (some v) (peek j c)) ⊎ (peek j (insert k v c) ≡ none)
  unfolding insert
  insert-peek k v c j = ground (
    arith,
    enforce_total_cap-Loses (admit k v (invalidate k c)) j,
    peek-admit k v (invalidate k c) (invalidate-absent k c).1 j,
    peek-invalidate k c j,
  )

  peek-refresh :
      (k : K) (v : Bytes) (c : RamCache L) (j : K)
      → (L.remove k c.protected).0 ≡ some v
      → peek j (refresh k v (L.remove k c.protected).1 c) ≡ peek j c
  unfolding refresh peek
  peek-refresh k v c j h = ground (
    arith,
    lookup-insert L j k v (L.remove k c.protected).1,
    lookup-remove L j k c.protected,
    L.remove-value k c.protected,
  )

  peek-promote :
      (k : K) (v : Bytes) (c : RamCache L) (j : K)
      → lookup dec k (L.items c.protected) ≡ none
      → (L.remove k c.probation).0 ≡ some v
      → peek j (promote k v (L.remove k c.probation).1 c) ≡ peek j c
  unfolding promote peek
  peek-promote k v c j g h = ground (
    arith,
    lookup-insert L j k v c.protected,
    lookup-remove L j k c.probation,
    L.remove-value k c.probation,
  )

  peek-probe :
      (k : K) (c : RamCache L) (j : K)
      → (L.remove k c.protected).0 ≡ none
      → peek j (probe k c) ≡ peek j c
  unfolding peek
  peek-probe k c j h = ground (arith, lookup-remove L j k c.protected, L.remove-value k c.protected)

  peek_miss :
      (k : K) (c : RamCache L) (j : K)
      → (L.remove k c.probation).0 ≡ none
      → peek j (record c { probation = (L.remove k c.probation).1; misses = c.misses + 1 })
        ≡ peek j c
  unfolding peek
  peek_miss k c j h = ground (arith, lookup-remove L j k c.probation, L.remove-value k c.probation)

  -- After a lookup in a cache within its caps each key answers as before, or not at all.
  pub get-Loses : (k : K) (c : RamCache L) → IsBounded c → Loses c (get k c).1
  unfolding get
  get-Loses k c b = elim (Option-cases (L.remove k c.protected).0) [
    | inr (v, h) ↦ rw (h, get) (λ j. inl (peek-refresh k v c j h))
    | inl g ↦ elim (Option-cases (L.remove k c.probation).0) [
      | inr (v, h) ↦
          let b₁ = probe-IsBounded k c g b in
          let p = promote k v (L.remove k c.probation).1 (probe k c) in
          let w = promote-IsValid k v (probe k c) b₁ (probe-absent k c) h in
          rw (g, h, get)
            (λ j. ground (
              arith,
              enforce_total_cap-Loses (enforce_protected_cap p) j,
              enforce_protected_cap-peek p w j,
              peek-promote k v (probe k c) j (probe-absent k c) h,
              peek-probe k c j g,
            ))
      | inl h ↦ rw (g, h, get) (λ j. inl (peek_miss k (probe k c) j h ∙ peek-probe k c j g))
    ]
  ]

  -- What the loop of an insertion keeps: the protected segment, as it was in `c`.
  abbrev SameProtected : RamCache L → RamCache L → Type 0
  SameProtected c s =
      IsValid s
      × (s.cap ≡ c.cap)
      × (s.bytes_prot ≡ c.bytes_prot)
      × (L.items s.protected ≡ L.items c.protected)

  evict-SameProtected :
      (c s s' : RamCache L)
      → c.bytes_prot ≤ c.cap
      → over_cap s ≡ true
      → evict s ≡ some s'
      → SameProtected c s
      → SameProtected c s'
  unfolding evict over_cap
  evict-SameProtected c s s' fits over h (w, e, f, g) = elim (evict_popped s s' h) [
    | inl (k, v, p) ↦ (evict-IsValid s s' h w, ground arith, ground arith, ground arith)
    | inr (q, (k, v, p)) ↦
        absurd (ground (arith, w.prob, ap total (items-pop_front_none L s.probation q).0))
  ]

  enforce_total_cap-protected :
      (c : RamCache L)
      → IsValid c
      → c.bytes_prot ≤ c.cap
      → L.items (enforce_total_cap c).protected ≡ L.items c.protected
  unfolding enforce_total_cap
  enforce_total_cap-protected c w fits =
      (iterate_inv (SameProtected c) over_cap evict
        (λ s s' over h k. evict-SameProtected c s s' fits over h k)
        (suc (L.len c.probation + L.len c.protected)) c (w, refl, refl, refl)).3

  invalidate-protected :
      (k : K) (c : RamCache L) (j : K)
      → lookup dec j (L.items (invalidate k c).protected)
        ≡ ite (dec k j) none (lookup dec j (L.items c.protected))
  unfolding invalidate
  invalidate-protected k c j = ground (arith, lookup-remove L j k c.protected)

  -- An insertion into a cache within its caps evicts no protected entry of another key, whatever
  -- the size of the value.
  pub insert_keeps_protected :
      (k : K) (v : Bytes) (c : RamCache L) (j : K)
      → IsBounded c
      → k ≢ j
      → lookup dec j (L.items (insert k v c).protected) ≡ lookup dec j (L.items c.protected)
  unfolding insert admit
  insert_keeps_protected k v c j b ne =
      let i = invalidate k c in
      let w =
        admit-IsValid k v i (invalidate-absent k c).0 (invalidate-absent k c).1
          (invalidate-IsValid k c b.valid) in
      let bi = invalidate-IsBounded k c b in
      ground (
        arith,
        ap (lookup dec j)
            (enforce_total_cap-protected (admit k v i) w (omega (arith, bi.resident))),
        invalidate-protected k c j,
      )

pub peek-new :
    {K : Type 0} {dec : Discrete K} (L : Linked dec Bytes) (j : K) (cap_bytes : ℕ)
    → peek j (new L cap_bytes) ≡ none
unfolding peek new lookup
peek-new {dec = dec} L j cap_bytes = ground (arith, L.items-new, ap (lookup dec j) L.items-new)
