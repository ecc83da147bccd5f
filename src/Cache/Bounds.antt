-- ===== src/Cache/Bounds.antt =====
-- The byte caps of crates/neuralfs-fs/src/cache.rs: every operation keeps the counts exact and the
-- cache within its caps.
use neural_file_system.Prelude.{
  ℕ, ◌+◌, ◌≤◌, ◌≡◌, refl, ap, inl, inr, none, some, Bytes, lookup, Option-cases, arith,
}
use neural_file_system.HashLink.{Linked}
use neural_file_system.HashLink.Laws.{lookup-insert, lookup-remove}
use neural_file_system.Cache.{
  RamCache, new, enforce_protected_cap, enforce_total_cap, clear, refresh, promote, get,
  drop_probation, drop_protected, invalidate, admit, insert,
}
use neural_file_system.Cache.Segments.{
  IsValid, size_of, total-insert, total-remove, items-remove_absent,
}
use neural_file_system.Cache.Enforce.{
  enforce_protected_cap-Keeps, enforce_protected_cap-le, enforce_total_cap-KeepsTotal,
  enforce_total_cap-le,
}

module _ {K : Type 0} {dec : Discrete K} {L : Linked dec Bytes} where
  -- A cache as its clients find it: valid, and within both caps.
  pub record IsBounded (c : RamCache L) : Type 0 where
    pub valid : IsValid c
    pub resident : c.bytes_prob + c.bytes_prot ≤ c.cap
    pub hot : c.bytes_prot ≤ c.protected_cap

  drop_probation-IsValid : (k : K) (c : RamCache L) → IsValid c → IsValid (drop_probation k c)
  unfolding drop_probation
  drop_probation-IsValid k c w = record {
    prob = ground (arith, w.prob, total-remove L k c.probation);
    prot = ground (arith, w.prot);
    apart = λ j. ground (arith, lookup-remove L j k c.probation, w.apart j);
  }

  drop_protected-IsValid : (k : K) (c : RamCache L) → IsValid c → IsValid (drop_protected k c)
  unfolding drop_protected
  drop_protected-IsValid k c w = record {
    prob = ground (arith, w.prob);
    prot = ground (arith, w.prot, total-remove L k c.protected);
    apart = λ j. ground (arith, lookup-remove L j k c.protected, w.apart j);
  }

  pub invalidate-IsValid : (k : K) (c : RamCache L) → IsValid c → IsValid (invalidate k c)
  unfolding invalidate
  invalidate-IsValid k c w = drop_protected-IsValid k _ (drop_probation-IsValid k c w)

  -- After `invalidate` neither segment holds the key.
  pub invalidate-absent :
      (k : K) (c : RamCache L)
      → (lookup dec k (L.items (invalidate k c).probation) ≡ none)
        × (lookup dec k (L.items (invalidate k c).protected) ≡ none)
  unfolding invalidate
  invalidate-absent k c = (
    ground (arith, lookup-remove L k k c.probation),
    ground (arith, lookup-remove L k k c.protected),
  )

  pub admit-IsValid :
      (k : K) (v : Bytes) (c : RamCache L)
      → lookup dec k (L.items c.probation) ≡ none
      → lookup dec k (L.items c.protected) ≡ none
      → IsValid c
      → IsValid (admit k v c)
  unfolding admit
  admit-IsValid k v c p q w = record {
    prob = ground (arith, w.prob, total-insert L k v c.probation);
    prot = ground (arith, w.prot);
    apart = λ j. ground (arith, lookup-insert L j k v c.probation, w.apart j);
  }

  pub enforce_total_cap-IsBounded :
      (c : RamCache L)
      → IsValid c
      → c.bytes_prot ≤ c.protected_cap
      → IsBounded (enforce_total_cap c)
  enforce_total_cap-IsBounded c w h =
      let (v, e, f, g) = enforce_total_cap-KeepsTotal c w in
      record { valid = v; resident = omega (arith, enforce_total_cap-le c w); hot = omega arith }

  invalidate-caps :
      (k : K) (c : RamCache L)
      → ((invalidate k c).cap ≡ c.cap)
        × ((invalidate k c).protected_cap ≡ c.protected_cap)
        × ((invalidate k c).bytes_prot ≤ c.bytes_prot)
        × ((invalidate k c).bytes_prob ≤ c.bytes_prob)
  unfolding invalidate
  invalidate-caps k c = (ground arith, ground arith, ground arith, ground arith)

  pub invalidate-IsBounded : (k : K) (c : RamCache L) → IsBounded c → IsBounded (invalidate k c)
  invalidate-IsBounded k c b =
      let caps = invalidate-caps k c in
      record {
        valid = invalidate-IsValid k c b.valid;
        resident = omega (arith, b.resident);
        hot = omega (arith, b.hot);
      }

  -- An insertion keeps a cache within its caps and its counts exact, whatever the size of the
  -- value.
  pub insert-IsBounded :
      (k : K) (v : Bytes) (c : RamCache L) → IsBounded c → IsBounded (insert k v c)
  unfolding insert admit
  insert-IsBounded k v c b =
      enforce_total_cap-IsBounded (admit k v (invalidate k c))
        (admit-IsValid k v (invalidate k c) (invalidate-absent k c).0 (invalidate-absent k c).1
          (invalidate-IsValid k c b.valid))
        (invalidate-IsBounded k c b).hot

  module _ (k : K) (v : Bytes) (c : RamCache L) (b : IsBounded c) where
    refresh-IsBounded :
        (L.remove k c.protected).0 ≡ some v → IsBounded (refresh k v (L.remove k c.protected).1 c)
    unfolding refresh
    refresh-IsBounded h =
        let m = (L.remove k c.protected).1 in
        let gone : lookup dec k (L.items m) ≡ none =
          ground (arith, lookup-remove L k k c.protected) in
        record {
          valid = record {
            prob = b.valid.prob;
            prot = omega (
              arith,
              b.valid.prot,
              total-remove L k c.protected,
              ap size_of h,
              total-insert L k v m gone,
            );
            apart = λ j. ground (
              arith,
              lookup-insert L j k v m,
              lookup-remove L j k c.protected,
              L.remove-value k c.protected,
              b.valid.apart j,
            );
          };
          resident = b.resident;
          hot = b.hot;
        }

    pub promote-IsValid :
        lookup dec k (L.items c.protected) ≡ none
        → (L.remove k c.probation).0 ≡ some v
        → IsValid (promote k v (L.remove k c.probation).1 c)
    unfolding promote
    promote-IsValid g h = record {
      prob = omega (arith, b.valid.prob, total-remove L k c.probation, ap size_of h);
      prot = omega (arith, b.valid.prot, total-insert L k v c.protected g);
      apart = λ j. ground (
        arith,
        lookup-insert L j k v c.protected,
        lookup-remove L j k c.probation,
        b.valid.apart j,
      );
    }

  -- The state of `get` after a miss in the protected segment.
  abbrev pub probe : K → RamCache L → RamCache L
  probe k c = record c { protected = (L.remove k c.protected).1 }

  pub probe-IsBounded :
      (k : K) (c : RamCache L)
      → (L.remove k c.protected).0 ≡ none
      → IsBounded c
      → IsBounded (probe k c)
  probe-IsBounded k c h b =
      let same = items-remove_absent L k c.protected h in
      record {
        valid = record {
          prob = b.valid.prob;
          prot = rw same b.valid.prot;
          apart = λ j. rw same (b.valid.apart j);
        };
        resident = b.resident;
        hot = b.hot;
      }

  pub probe-absent : (k : K) (c : RamCache L) → lookup dec k (L.items (probe k c).protected) ≡ none
  probe-absent k c = ground (arith, lookup-remove L k k c.protected)

  hit-IsBounded :
      (k : K) (v : Bytes) (c : RamCache L)
      → IsBounded c
      → lookup dec k (L.items c.protected) ≡ none
      → (L.remove k c.probation).0 ≡ some v
      → IsBounded
          (enforce_total_cap (enforce_protected_cap (promote k v (L.remove k c.probation).1 c)))
  hit-IsBounded k v c b g h =
      let p = promote k v (L.remove k c.probation).1 c in
      let (w, e, f) = enforce_protected_cap-Keeps p (promote-IsValid k v c b g h) in
      enforce_total_cap-IsBounded (enforce_protected_cap p) w
        (omega (arith, enforce_protected_cap-le p (promote-IsValid k v c b g h)))

  miss-IsBounded :
      (k : K) (c : RamCache L)
      → IsBounded c
      → (L.remove k c.probation).0 ≡ none
      → IsBounded (record c { probation = (L.remove k c.probation).1; misses = c.misses + 1 })
  miss-IsBounded k c b h =
      let same = items-remove_absent L k c.probation h in
      record {
        valid = record {
          prob = rw same b.valid.prob;
          prot = b.valid.prot;
          apart = λ j. rw same (b.valid.apart j);
        };
        resident = b.resident;
        hot = b.hot;
      }

  -- A lookup keeps a cache within its caps and its counts exact, on a hit in either segment and
  -- on a miss.
  pub get-IsBounded : (k : K) (c : RamCache L) → IsBounded c → IsBounded (get k c).1
  unfolding get
  get-IsBounded k c b = elim (Option-cases (L.remove k c.protected).0) [
    | inr (v, h) ↦ rw (h, get) (refresh-IsBounded k v c b h)
    | inl g ↦
        let b₁ = probe-IsBounded k c g b in
        elim (Option-cases (L.remove k c.probation).0) [
          | inr (v, h) ↦ rw (g, h, get) (hit-IsBounded k v (probe k c) b₁ (probe-absent k c) h)
          | inl h ↦ rw (g, h, get) (miss-IsBounded k (probe k c) b₁ h)
        ]
  ]

  pub clear-IsBounded : (c : RamCache L) → IsBounded (clear c)
  unfolding clear lookup
  clear-IsBounded c = record {
    valid = record {
      prob = rw L.items-new;
      prot = rw L.items-new;
      apart = λ j. rw L.items-new (inl refl);
    };
    resident = omega arith;
    hot = omega arith;
  }

  pub new-IsBounded : (cap_bytes : ℕ) → IsBounded (new L cap_bytes)
  unfolding new lookup
  new-IsBounded cap_bytes = record {
    valid = record {
      prob = rw L.items-new;
      prot = rw L.items-new;
      apart = λ j. rw L.items-new (inl refl);
    };
    resident = omega arith;
    hot = omega arith;
  }
