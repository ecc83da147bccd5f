-- ===== src/Daemon.antt =====
-- crates/neuralfs-daemon/src/ipc.rs and state.rs: the state of the daemon, and what it does with
-- each request. A request runs alone; which requests may overlap is in Gate. What the clocks and
-- the real files show to the call is given to it.
pub mod State
pub mod Volume
pub mod Bench
pub mod Report
pub mod Gate
pub mod Errors
pub mod Finds
pub mod Writes
pub mod Loops
pub mod Steady
pub mod Kept
pub mod Models
pub mod Samples
pub mod Entry
pub mod Tests
pub mod Connection
use neural_file_system.Prelude.{
  ℕ, Bool, true, false, Option, none, some, List, [], ◌∷◌, ◌++◌, Bytes, text, print, bytes_discrete,
  ite, Result, ok, err, ◌+◌, length, drop, starts_with, if◌then◌else◌,
}
use neural_file_system.Host.{Host, Disk, F64}
use neural_file_system.Protocol.{
  Request, find_request, open_request, status_request, reindex_request, config_get, config_set,
  fs_write, fs_read, fs_ls, fs_mkdir, fs_rm, fs_stat, fs_info, fs_snapshot, fs_snapshots,
  fs_rollback, fs_scrub, fs_gc, hook, hook_status, ai, cache, bench, Response, said, raised,
  default, error_response, ok_response, lines_response,
}
use neural_file_system.PathCache
use neural_file_system.PathCache.{ScoredPath}
use neural_file_system.Index
use neural_file_system.Config
use neural_file_system.Config.{Config}
use neural_file_system.Filesystem.{Filesystem}
use neural_file_system.Indexer.{index_root, reindex_all}
use neural_file_system.Search.{find}
use neural_file_system.Classifier.{online_update}
use State.{DaemonState, Moment}
use Volume.{
  em_dash, write_volume, read_volume, ls_volume, mkdir_volume, rm_volume, stat_volume, info_volume,
  snapshot_volume, snapshots_volume, rollback_volume, scrub_volume, gc_volume,
}
use Bench.{bench_volume}
use Report.{ai_report, cache_report, status_report, hook_report}

contains_dir : List Bytes → Bytes → Bool
contains_dir [] d = false
contains_dir (x ∷ xs) d = ite (bytes_discrete x d) true (contains_dir xs d)

-- The prefix of the long paths of Windows, `\\?\`.
abbrev verbatim : Bytes
verbatim = 92 ∷ 92 ∷ 63 ∷ 92 ∷ []

strip_verbatim : Bytes → Bytes
strip_verbatim c = if starts_with verbatim c then drop (length verbatim) c else c

canonical : Disk → Bytes → Bytes
canonical D dir = strip_verbatim (elim (D.canonicalize dir) [ none ↦ dir | some c ↦ c ])

watch_dir : Disk → Bytes → Option (List Bytes) → Option (List Bytes)
watch_dir D dir none = none
watch_dir D dir (some dirs) = elim (D.watch dir) [
  | none ↦ some (dirs ++ dir ∷ [])
  | some e ↦ some dirs
]

module _ {H : Host} where
  -- `Request::Find`: from the cache of results, or by a search that fills it.
  unfoldable pub handle_find : Moment → Bytes → DaemonState H → Response × DaemonState H
  handle_find now query s =
      let r = PathCache.get query now.instant s.path_cache in
      elim r.0 [
        | some cached ↦ (record default { results = some cached }, record s { path_cache = r.1 })
        | none ↦
            let results =
              find s.store s.classifier query now.seconds s.config.lambda s.config.max_results in
            (
              record default { results = some results },
              record s { path_cache = PathCache.insert query results now.instant r.1 },
            )
      ]

  -- The model learns the directory of the file that was opened.
  learn : Bytes → Bytes → DaemonState H → DaemonState H
  learn query path s = elim (H.paths.parent path) [
    | none ↦ s
    | some parent ↦ record s {
      classifier = (online_update query parent (H.floats.ratio 3 10) s.classifier).1;
    }
  ]

  unfoldable pub handle_open : Moment → Bytes → DaemonState H → Response × DaemonState H
  unfolding learn
  handle_open now query s = elim (find s.store s.classifier query now.seconds s.config.lambda 1) [
    | [] ↦ (error_response (said (text "no match found")), s)
    | top ∷ rest ↦ (
      record default { opened_path = some top.path },
      learn query top.path (record s { store = (Index.touch_open top.path now.seconds s.store).1 }),
    )
  ]

  unfoldable pub handle_reindex : Disk → DaemonState H → Response × DaemonState H
  handle_reindex D s =
      let r = reindex_all D s.config.root_dirs s.store in
      (
        ok_response (text "reindexed " ++ print r.0 ++ text " files"),
        record s { store = r.1; retrains = s.retrains + 1 },
      )

  unfoldable pub handle_config_get : Bytes → DaemonState H → Response × DaemonState H
  handle_config_get key s = elim (Config.get H.floats key s.config) [
    | some v ↦ (ok_response v, s)
    | none ↦ (error_response (said (text "unknown key: " ++ key)), s)
  ]

  unfoldable pub handle_config_set : Bytes → Bytes → DaemonState H → Response × DaemonState H
  handle_config_set key value s = elim (Config.set H.floats key value s.config) [
    | err e ↦ (error_response (raised e), s)
    | ok c ↦
        (ok_response (key ++ text " = " ++ value), record s { config = c; saved_config = some c })
  ]

  -- A directory is added to the roots once, and the settings are saved if it is new.
  add_root : Bytes → DaemonState H → DaemonState H
  add_root dir s = elim (contains_dir s.config.root_dirs dir) [
    | true ↦ s
    | false ↦
        let c : Config = record s.config { root_dirs = s.config.root_dirs ++ dir ∷ [] } in
        record s { config = c; saved_config = some c }
  ]

  hook_dir : Disk → Bytes → DaemonState H → Response × DaemonState H
  hook_dir D dir s₀ =
      let s = add_root dir s₀ in
      let r = index_root D dir s.store in
      (
        ok_response (
            text "hooked onto "
            ++ dir
            ++ text " "
            ++ em_dash
            ++ text " indexed "
            ++ print r.0
            ++ text " files, learning enabled"),
        record s { watcher = watch_dir D dir s.watcher; store = r.1; retrains = s.retrains + 1 },
      )

  unfoldable pub handle_hook : Disk → Bytes → DaemonState H → Response × DaemonState H
  unfolding contains_dir strip_verbatim canonical add_root watch_dir hook_dir
  handle_hook D dir s = elim (D.is_dir dir) [
    | false ↦ (error_response (said (text "not a directory: " ++ dir)), s)
    | true ↦ hook_dir D (canonical D dir) s
  ]

  -- A response of the volume, in the state of the daemon.
  unfoldable pub on_volume :
      (Filesystem H.volume → Response × Filesystem H.volume)
      → DaemonState H
      → Response × DaemonState H
  on_volume f s = let r = f s.vfs in (r.0, record s { vfs = r.1 })

  unfoldable pub handle_request : Disk → Moment → Request → DaemonState H → Response × DaemonState H
  handle_request D now (find_request query) s = handle_find now query s
  handle_request D now (open_request query) s = handle_open now query s
  handle_request D now status_request s = (status_report s, s)
  handle_request D now reindex_request s = handle_reindex D s
  handle_request D now (config_get key) s = handle_config_get key s
  handle_request D now (config_set key value) s = handle_config_set key value s
  handle_request D now (fs_write path data_b64) s =
      on_volume (write_volume H.b64_decode path data_b64) s
  handle_request D now (fs_read path) s = on_volume (read_volume H.b64_encode path) s
  handle_request D now (fs_ls path) s = on_volume (ls_volume path) s
  handle_request D now (fs_mkdir path) s = on_volume (mkdir_volume path) s
  handle_request D now (fs_rm path) s = on_volume (rm_volume path) s
  handle_request D now (fs_stat path) s = on_volume (stat_volume path) s
  handle_request D now fs_info s = on_volume (info_volume H.floats) s
  handle_request D now (fs_snapshot name) s = on_volume (snapshot_volume name) s
  handle_request D now fs_snapshots s = on_volume snapshots_volume s
  handle_request D now (fs_rollback name) s = on_volume (rollback_volume name) s
  handle_request D now fs_scrub s = on_volume scrub_volume s
  handle_request D now fs_gc s = on_volume gc_volume s
  handle_request D now (hook dir) s = handle_hook D dir s
  handle_request D now hook_status s = (hook_report s, s)
  handle_request D now ai s = (ai_report s, s)
  handle_request D now cache s = (cache_report s, s)
  handle_request D now (bench mb) s =
      on_volume (bench_volume H.floats mb now.write_time now.read_time) s
