-- ===== src/PathCache/Sizes.antt =====
-- The count of bytes of crates/neuralfs-daemon/src/pathcache.rs: the sum of the sizes of the
-- entries.
use neural_file_system.Prelude.{
  ℕ, ◌+◌, ◌<◌, ◌≡◌, refl, ap, subst, Option, none, some, [], ◌∷◌, Bytes, length, lookup, erase,
  bytes_discrete, Distinct, erase_absent, Option-cases, inl, inr, arith,
}
use neural_file_system.PathCache.{Entry, Entries, soonest, earlier}

abbrev pub total : Entries → ℕ
total [] = 0
total ((k, e) ∷ l) = e.bytes + total l

abbrev pub size_of : Option Entry → ℕ
size_of none = 0
size_of (some e) = e.bytes

pub total-erase :
    (k : Bytes) (l : Entries)
    → Distinct bytes_discrete l
    → total (erase bytes_discrete k l) + size_of (lookup bytes_discrete k l) ≡ total l
unfolding erase lookup
total-erase k [] d = refl
total-erase k ((j, e) ∷ l) d = elim (bytes_discrete j k) [
  | yes p ↦
      let absent : lookup bytes_discrete k l ≡ none =
        subst (λ x. lookup bytes_discrete x l ≡ none) p d.0 in
      ground (arith, ap total (erase_absent bytes_discrete k l absent))
  | no p ↦ ground (arith, total-erase k l d.1)
]

pub length-erase :
    (k : Bytes) (e : Entry) (l : Entries)
    → Distinct bytes_discrete l
    → lookup bytes_discrete k l ≡ some e
    → length (erase bytes_discrete k l) < length l
unfolding erase lookup
length-erase k e [] d h = absurd (ground arith)
length-erase k e ((j, x) ∷ l) d h = elim (bytes_discrete j k) [
  | yes p ↦
      let absent : lookup bytes_discrete k l ≡ none =
        subst (λ x. lookup bytes_discrete x l ≡ none) p d.0 in
      ground (arith, ap length (erase_absent bytes_discrete k l absent))
  | no p ↦ ground (arith, length-erase k e l d.1)
]

-- The entry that is evicted is there; there is none only in an empty map.
pub soonest-some :
    (k : Bytes) (e : Entry) (l : Entries)
    → Distinct bytes_discrete l
    → soonest l ≡ some (k, e)
    → lookup bytes_discrete k l ≡ some e
unfolding soonest earlier lookup
soonest-some k e [] d h = absurd (ground arith)
soonest-some k e ((j, x) ∷ l) d h = elim (Option-cases (soonest l)) [
  | inl n ↦ ground (arith, n)
  | inr ((i, y), n) ↦ ground (arith, n, d.0, soonest-some i y l d.1 n)
]

pub soonest-none : (l : Entries) → soonest l ≡ none → l ≡ []
unfolding soonest earlier
soonest-none [] h = refl
soonest-none (x ∷ l) h = elim (Option-cases (soonest l)) [
  | inl n ↦ absurd (ground arith)
  | inr (y, n) ↦ absurd (ground arith)
]
