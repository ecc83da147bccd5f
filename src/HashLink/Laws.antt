-- ===== src/HashLink/Laws.antt =====
-- Consequences of the laws of `LinkedHashMap`, for one key at a time.
use neural_file_system.Prelude.{
  suc, ap, length, subst, sym, ◌∙◌, Distinct, ite, ◌≡◌, refl, none, some, List, [], ◌∷◌, lookup,
  lookup-erase, lookup-snoc, arith, ite, inl, inr, ◌⊎◌,
}
use neural_file_system.HashLink.{Linked}

module _ {K V : Type 0} {dec : Discrete K} (L : Linked dec V) where
  pub lookup-insert :
      (j k : K) (v : V) (m : L.Map)
      → lookup dec j (L.items (L.insert k v m)) ≡ ite (dec k j) (some v) (lookup dec j (L.items m))
  lookup-insert j k v m = ground (arith, L.items-insert k v m, lookup-snoc dec j k v (L.items m))

  pub lookup-remove :
      (j k : K) (m : L.Map)
      → lookup dec j (L.items (L.remove k m).1) ≡ ite (dec k j) none (lookup dec j (L.items m))
  lookup-remove j k m = ground (arith, L.items-remove k m, lookup-erase dec j k (L.items m))

  -- The list of entries is read through its first entry.
  items-cases :
      (m : L.Map) → (L.items m ≡ []) ⊎ ((e : K × V) × (r : List (K × V)) × (L.items m ≡ e ∷ r))
  items-cases m = go (L.items m) refl
    where
      go :
          (l : List (K × V))
          → L.items m ≡ l
          → (L.items m ≡ []) ⊎ ((e : K × V) × (r : List (K × V)) × (L.items m ≡ e ∷ r))
      go [] h = inl h
      go (e ∷ r) h = inr (e, r, h)

  pub items-pop_front_some :
      (m : L.Map) (e : K × V)
      → (L.pop_front m).0 ≡ some e
      → L.items m ≡ e ∷ L.items (L.pop_front m).1
  items-pop_front_some m e h =
      ground (arith, items-cases m, L.pop_front-value m, L.items-pop_front m)

  pub items-pop_front_none :
      (m : L.Map) → (L.pop_front m).0 ≡ none → (L.items m ≡ []) × (L.items (L.pop_front m).1 ≡ [])
  items-pop_front_none m h = ground (arith, items-cases m, L.pop_front-value m, L.items-pop_front m)

  -- The entry that is popped was there, and nothing else is lost.
  pub lookup-pop_front :
      (j : K) (m : L.Map) (k : K) (v : V)
      → (L.pop_front m).0 ≡ some (k, v)
      → (lookup dec j (L.items m)
          ≡ ite (dec k j) (some v) (lookup dec j (L.items (L.pop_front m).1)))
        × (lookup dec k (L.items (L.pop_front m).1) ≡ none)
  unfolding lookup
  lookup-pop_front j m k v h =
      let e = items-pop_front_some m (k, v) h in
      (rw e refl, (subst (Distinct dec) e (L.distinct m)).0)

  pub len-pop_front :
      (m : L.Map) (e : K × V) → (L.pop_front m).0 ≡ some e → L.len m ≡ suc (L.len (L.pop_front m).1)
  len-pop_front m e h = ground (
    arith,
    L.len-items m,
    L.len-items (L.pop_front m).1,
    ap (length {A = K × V}) (items-pop_front_some m e h),
  )

  pub len-pop_front_none :
      (m : L.Map) → (L.pop_front m).0 ≡ none → L.len (L.pop_front m).1 ≡ L.len m
  len-pop_front_none m h =
      let (a, b) = items-pop_front_none m h in
      L.len-items (L.pop_front m).1 ∙ ap length (b ∙ sym a) ∙ sym (L.len-items m)
