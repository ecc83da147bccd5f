-- ===== src/Daemon/Finds.antt =====
-- `Request::Find` of crates/neuralfs-daemon/src/ipc.rs, over the cache of results.
use neural_file_system.Prelude.{
  ℕ, ◌+◌, ◌<◌, ◌≤◌, ◌≡◌, ◌∙◌, ap, refl, none, some, List, ◌∷◌, Bytes, arith,
}
use neural_file_system.Host.{Host}
use neural_file_system.Protocol.{default}
use neural_file_system.PathCache
use neural_file_system.PathCache.{ScoredPath, PathTtlCache, entry_bytes}
use neural_file_system.PathCache.Lookup.{get_hit, insert-Alive}
use neural_file_system.Search.{find}
use neural_file_system.Daemon.{handle_find}
use neural_file_system.Daemon.State.{DaemonState, Moment}

get-limits :
    (query : Bytes) (now : ℕ) (c : PathTtlCache)
    → ((PathCache.get query now c).1.ttl ≡ c.ttl)
      × ((PathCache.get query now c).1.cap_bytes ≡ c.cap_bytes)
unfolding PathCache.get
get-limits query now c = ground arith

module _ {H : Host} where
  -- If a query has no answer in the cache of results, and the search for it gives results that
  -- are not empty and fit the cap of the cache, then it is answered with these; and the same
  -- query within the time to live is answered with them again, in any state with the cache that
  -- the first one left, whatever else changed in between.
  pub handle_find-handle_find :
      (now later : Moment) (query : Bytes) (p : ScoredPath) (ps : List ScoredPath)
      (s t : DaemonState H)
      → (PathCache.get query now.instant s.path_cache).0 ≡ none
      → find s.store s.classifier query now.seconds s.config.lambda s.config.max_results ≡ p ∷ ps
      → entry_bytes query (p ∷ ps) ≤ s.path_cache.cap_bytes
      → later.instant < now.instant + s.path_cache.ttl
      → t.path_cache ≡ (handle_find now query s).1.path_cache
      → ((handle_find now query s).0 ≡ record default { results = some (p ∷ ps) })
        × ((handle_find later query t).0 ≡ record default { results = some (p ∷ ps) })
  unfolding handle_find
  handle_find-handle_find now later query p ps s t absent found fits soon same =
      let c = (PathCache.get query now.instant s.path_cache).1 in
      let limits = get-limits query now.instant s.path_cache in
      let kept : t.path_cache ≡ PathCache.insert query (p ∷ ps) now.instant c =
        same ∙ rw (absent, found, handle_find) refl in
      let hit : (PathCache.get query later.instant t.path_cache).0 ≡ some (p ∷ ps) =
        ap (λ x. (PathCache.get query later.instant x).0) kept
        ∙ get_hit query (p ∷ ps) later.instant (PathCache.insert query (p ∷ ps) now.instant c) (
            insert-Alive query p ps now.instant later.instant c (omega (arith, limits.1))
              (omega (arith, limits.0))) in
      (rw (absent, found, handle_find) refl, rw (hit, handle_find) refl)
