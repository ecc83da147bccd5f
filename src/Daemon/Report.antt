-- ===== src/Daemon/Report.antt =====
-- The requests of crates/neuralfs-daemon/src/ipc.rs that only report: the model and the caches.
use neural_file_system.Prelude.{
  ℕ, ◌+◌, ◌*◌, Bool, true, false, none, some, List, [], ◌∷◌, ◌++◌, map, Bytes, text, print, ◌==◌,
}
use neural_file_system.Host.{Host, Floats}
use neural_file_system.Cache.{CacheStats}
use neural_file_system.PathCache
use neural_file_system.PathCache.{PathCacheStats}
use neural_file_system.BlockStore
use neural_file_system.Index
use neural_file_system.Classifier.{is_trained}
use neural_file_system.Prelude.{length}
use neural_file_system.Protocol.{Response, default, lines_response}
use neural_file_system.Daemon.State.{DaemonState}

bool_text : Bool → Bytes
bool_text true = text "true"
bool_text false = text "false"

-- `CacheStats::hit_rate` of crates/neuralfs-fs/src/cache.rs.
unfoldable pub hit_rate : Floats → CacheStats → ℕ
hit_rate F s = elim (s.hits + s.misses == 0) [
  | true ↦ F.of_nat 0
  | false ↦ F.div (F.of_nat s.hits) (F.of_nat (s.hits + s.misses))
]

mib : Floats → ℕ → Bytes
mib F b = F.fixed 1 (F.div (F.of_nat b) (F.of_nat (1024 * 1024))) ++ text " MiB"

block_cache_lines : Floats → CacheStats → List Bytes
block_cache_lines F s =
    text "[block cache: frequency-aware ARC, file data]"
    ∷ (text "  cap:             " ++ mib F s.cap_bytes)
    ∷ (text "  resident:        " ++ mib F s.resident_bytes)
    ∷ (text "  entries:         "
        ++ print s.entries
        ++ text " (protected "
        ++ print s.protected_entries
        ++ text ", probation "
        ++ print s.probation_entries
        ++ text ")")
    ∷ (text "  hits / misses:   " ++ print s.hits ++ text " / " ++ print s.misses)
    ∷ (text "  hit rate:        " ++ F.fixed 1 (F.mul (hit_rate F s) (F.of_nat 100)) ++ text "%")
    ∷ (text "  promotions:      " ++ print s.promotions)
    ∷ (text "  evictions:       " ++ print s.evictions)
    ∷ []

path_cache_lines : Floats → PathCacheStats → List Bytes
path_cache_lines F p =
    text "[path TTL cache: found/AI-guessed query results]"
    ∷ (text "  ttl:             " ++ print p.ttl_secs ++ text "s (sliding)")
    ∷ (text "  cap:             " ++ mib F p.cap_bytes)
    ∷ (text "  resident:        " ++ mib F p.resident_bytes)
    ∷ (text "  entries:         " ++ print p.entries)
    ∷ (text "  hits / misses:   " ++ print p.hits ++ text " / " ++ print p.misses)
    ∷ (text "  expired:         " ++ print p.expired)
    ∷ (text "  evictions:       " ++ print p.evictions)
    ∷ []

module _ {H : Host} where
  unfoldable pub cache_report : DaemonState H → Response
  unfolding mib block_cache_lines path_cache_lines
  cache_report s = lines_response (
      block_cache_lines H.floats (BlockStore.cache_stats s.vfs.blocks)
      ++ [] ∷ path_cache_lines H.floats (PathCache.stats s.path_cache))

  unfoldable pub ai_report : DaemonState H → Response
  unfolding bool_text
  ai_report s =
      let c = s.classifier in
      lines_response (
        (text "trained:        " ++ bool_text (is_trained c))
        ∷ (text "model version:  " ++ print c.version)
        ∷ (text "online updates: " ++ print c.updates)
        ∷ (text "saved version:  " ++ print s.saved_version)
        ∷ (text "classes (dirs): " ++ print (length c.classes))
        ∷ (text "vocabulary:     " ++ print (length c.vocab))
        ∷ (text "last full train: " ++ elim s.last_retrain [ none ↦ text "never" | some at ↦ at ])
        ∷ [])

  unfoldable pub status_report : DaemonState H → Response
  status_report s = record default {
    status = some (text "running");
    indexed_files = some (Index.len s.store);
    last_retrain = s.last_retrain;
  }

  unfoldable pub hook_report : DaemonState H → Response
  hook_report s = lines_response (
      (text "indexed files: " ++ print (Index.len s.store))
      ∷ text "hooked directories:"
      ∷ map (λ d. text "  " ++ d) s.config.root_dirs)
