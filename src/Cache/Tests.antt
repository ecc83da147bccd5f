-- ===== src/Cache/Tests.antt =====
-- The theorems on the cache, applied to small caches.
use neural_file_system.Prelude.{
  ◌≡◌, refl, ◌⊎◌, ite, none, some, [], ◌∷◌, Bytes, ℕ_discrete, lookup, erase, arith, replicate,
  iterate,
}
use neural_file_system.HashLink.{Linked, list_linked}
use neural_file_system.Cache.{
  RamCache, new, insert, get, contains, stats, enforce_total_cap, invalidate, enforce_protected_cap,
}
use neural_file_system.Cache.Segments.{peek}
use neural_file_system.Cache.Bounds.{IsBounded, new-IsBounded, insert-IsBounded, get-IsBounded}
use neural_file_system.Cache.Lookup.{insert-peek, insert_keeps_protected}

abbrev linked : Linked ℕ_discrete Bytes
linked = list_linked ℕ_discrete

-- A cache of ten bytes with a value that was read again and one that was not.
warm : RamCache linked
warm = insert 2 (7 ∷ 8 ∷ []) (get 1 (insert 1 (5 ∷ 6 ∷ []) (new linked 10))).1

warm-IsBounded : IsBounded warm
unfolding warm
warm-IsBounded =
    insert-IsBounded 2 (7 ∷ 8 ∷ []) _
      (get-IsBounded 1 _ (insert-IsBounded 1 (5 ∷ 6 ∷ []) _ (new-IsBounded 10)))

promoted_is_kept :
    (contains 1 (insert 3 (replicate 9 0) warm) ≡ contains 1 warm) × ((stats warm).promotions ≡ 1)
unfolding warm contains insert get new stats lookup erase ℕ_discrete iterate enforce_total_cap
    invalidate enforce_protected_cap
promoted_is_kept = (refl, refl)

insert-IsBounded_example : IsBounded (insert 3 (1 ∷ 2 ∷ 3 ∷ []) warm)
insert-IsBounded_example = insert-IsBounded 3 (1 ∷ 2 ∷ 3 ∷ []) warm warm-IsBounded

insert-peek_example :
    (peek 1 (insert 3 (9 ∷ []) warm) ≡ ite (ℕ_discrete 3 1) (some (9 ∷ [])) (peek 1 warm))
    ⊎ (peek 1 (insert 3 (9 ∷ []) warm) ≡ none)
insert-peek_example = insert-peek 3 (9 ∷ []) warm 1

insert_keeps_protected_example :
    lookup ℕ_discrete 1 (linked.items (insert 3 (1 ∷ []) warm).protected)
    ≡ lookup ℕ_discrete 1 (linked.items warm.protected)
insert_keeps_protected_example =
    insert_keeps_protected 3 (1 ∷ []) warm 1 warm-IsBounded (omega arith)
