-- ===== src/Cache/Segments.antt =====
-- What the segments of crates/neuralfs-fs/src/cache.rs hold: their sizes, the well-formedness of a
-- cache, and the view of it as a partial map.
use neural_file_system.Prelude.{
  ap, Option-cases, inl, inr, ℕ, ◌+◌, ◌≡◌, sym, ap, ◌∙◌, ◌⊎◌, Option, none, some, List, [], ◌∷◌,
  ◌++◌, Bytes, length, lookup, erase, Distinct, erase_absent, arith,
}
use neural_file_system.HashLink.{Linked}
use neural_file_system.HashLink.Laws.{items-pop_front_some}
use neural_file_system.Cache.{RamCache}

-- The bytes of the values of a segment.
abbrev pub total : {K : Type 0} → List (K × Bytes) → ℕ
total [] = 0
total ((k, v) ∷ l) = length v + total l

abbrev pub size_of : Option Bytes → ℕ
size_of none = 0
size_of (some v) = length v

pub total-snoc :
    {K : Type 0} (l : List (K × Bytes)) (k : K) (v : Bytes)
    → total (l ++ (k, v) ∷ []) ≡ total l + length v
total-snoc [] k v = omega arith
total-snoc ((j, w) ∷ l) k v = omega (arith, total-snoc l k v)

module _ {K : Type 0} (dec : Discrete K) where
  pub total-erase :
      (k : K) (l : List (K × Bytes)) (v : Bytes)
      → Distinct dec l
      → lookup dec k l ≡ some v
      → total (erase dec k l) + length v ≡ total l
  unfolding lookup erase
  total-erase k [] v d h = cc
  total-erase k ((j, w) ∷ l) v d h =
      ground (arith, total-erase k l v d.1, erase_absent dec k l, ap (λ (x : K). lookup dec x l))

module _ {K : Type 0} {dec : Discrete K} {L : Linked dec Bytes} where
  -- The counts are the sizes of the segments, and no key is in both.
  pub record IsValid (c : RamCache L) : Type 0 where
    pub prob : c.bytes_prob ≡ total (L.items c.probation)
    pub prot : c.bytes_prot ≡ total (L.items c.protected)
    pub apart :
        (k : K)
        → (lookup dec k (L.items c.probation) ≡ none) ⊎ (lookup dec k (L.items c.protected) ≡ none)

  -- The value that the cache holds for a key.
  unfoldable pub peek : K → RamCache L → Option Bytes
  peek k c = elim (lookup dec k (L.items c.protected)) [
    | some v ↦ some v
    | none ↦ lookup dec k (L.items c.probation)
  ]

module _ {K : Type 0} {dec : Discrete K} (L : Linked dec Bytes) where
  pub total-insert :
      (k : K) (v : Bytes) (m : L.Map)
      → lookup dec k (L.items m) ≡ none
      → total (L.items (L.insert k v m)) ≡ total (L.items m) + length v
  total-insert k v m h =
      rw (L.items-insert k v m, erase_absent dec k (L.items m) h) (total-snoc (L.items m) k v)

  pub items-remove_absent :
      (k : K) (m : L.Map) → (L.remove k m).0 ≡ none → L.items (L.remove k m).1 ≡ L.items m
  items-remove_absent k m h =
      L.items-remove k m ∙ erase_absent dec k (L.items m) (sym (L.remove-value k m) ∙ h)

  total-remove_some :
      (k : K) (m : L.Map) (v : Bytes)
      → (L.remove k m).0 ≡ some v
      → total (L.items (L.remove k m).1) + length v ≡ total (L.items m)
  total-remove_some k m v h =
      rw (L.items-remove k m)
        (total-erase dec k (L.items m) v (L.distinct m) (sym (L.remove-value k m) ∙ h))

  -- What a removal returns is what the segment loses.
  pub total-remove :
      (k : K) (m : L.Map)
      → total (L.items (L.remove k m).1) + size_of (L.remove k m).0 ≡ total (L.items m)
  total-remove k m = elim (Option-cases (L.remove k m).0) [
    | inl e ↦ omega (arith, ap size_of e, ap total (items-remove_absent k m e))
    | inr (v, e) ↦ omega (arith, ap size_of e, total-remove_some k m v e)
  ]

  pub total-pop_front :
      (m : L.Map) (k : K) (v : Bytes)
      → (L.pop_front m).0 ≡ some (k, v)
      → total (L.items m) ≡ total (L.items (L.pop_front m).1) + length v
  total-pop_front m k v h = omega (arith, ap total (items-pop_front_some L m (k, v) h))
