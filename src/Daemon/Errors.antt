-- ===== src/Daemon/Errors.antt =====
-- crates/neuralfs-daemon/src/ipc.rs: what a request that is answered with an error leaves behind.
use neural_file_system.Prelude.{
  ◌≡◌, ◌∙◌, sym, refl, Bool, true, false, Bool-cases, true-false, none, some, Option-cases, inl,
  inr, Bytes,
}
use neural_file_system.Host.{Host, Disk}
use neural_file_system.Protocol.{
  Request, find_request, open_request, status_request, reindex_request, config_get, config_set,
  fs_write, fs_read, fs_ls, fs_mkdir, fs_rm, fs_stat, fs_info, fs_snapshot, fs_snapshots,
  fs_rollback, fs_scrub, fs_gc, hook, hook_status, ai, cache, bench, Failure,
}
use neural_file_system.PathCache
use neural_file_system.Config
use neural_file_system.Search.{find}
use neural_file_system.Index.Links.{some-none}
use neural_file_system.Search.Found.{List-cases}
use neural_file_system.Index.Hits.{Result-cases}
use neural_file_system.Daemon.{
  handle_find, handle_open, handle_reindex, handle_config_get, handle_config_set, handle_hook,
  handle_request,
}
use neural_file_system.Daemon.State.{DaemonState, Moment}

-- The requests that work on the volume.
unfoldable pub is_of_volume : Request → Bool
is_of_volume (fs_write path data_b64) = true
is_of_volume (fs_read path) = true
is_of_volume (fs_ls path) = true
is_of_volume (fs_mkdir path) = true
is_of_volume (fs_rm path) = true
is_of_volume (fs_stat path) = true
is_of_volume fs_info = true
is_of_volume (fs_snapshot name) = true
is_of_volume fs_snapshots = true
is_of_volume (fs_rollback name) = true
is_of_volume fs_scrub = true
is_of_volume fs_gc = true
is_of_volume (bench mb) = true
is_of_volume _ = false

module _ {H : Host} (D : Disk) (now : Moment) (s : DaemonState H) where
  find_answers : (query : Bytes) → (handle_find now query s).0.error ≡ none
  unfolding handle_find
  find_answers query = elim (Option-cases (PathCache.get query now.instant s.path_cache).0) [
    | inl h ↦ rw (h, handle_find) refl
    | inr (ps, h) ↦ rw (h, handle_find) refl
  ]

  open_fails :
      (query : Bytes) (msg : Failure)
      → (handle_open now query s).0.error ≡ some msg
      → (handle_open now query s).1 ≡ s
  unfolding handle_open
  open_fails query msg =
      elim (List-cases (find s.store s.classifier query now.seconds s.config.lambda 1)) [
        | inl h ↦ rw (h, handle_open) (λ e. refl)
        | inr (top, rest, h) ↦ rw (h, handle_open) (λ e. absurd (some-none (sym e)))
      ]

  config_get_keeps : (key : Bytes) → (handle_config_get key s).1 ≡ s
  unfolding handle_config_get
  config_get_keeps key = elim (Option-cases (Config.get H.floats key s.config)) [
    | inl h ↦ rw (h, handle_config_get) refl
    | inr (v, h) ↦ rw (h, handle_config_get) refl
  ]

  config_set_fails :
      (key value : Bytes) (msg : Failure)
      → (handle_config_set key value s).0.error ≡ some msg
      → (handle_config_set key value s).1 ≡ s
  unfolding handle_config_set
  config_set_fails key value msg = elim (Result-cases (Config.set H.floats key value s.config)) [
    | inl (c, h) ↦ rw (h, handle_config_set) (λ e. absurd (some-none (sym e)))
    | inr (x, h) ↦ rw (h, handle_config_set) (λ e. refl)
  ]

  hook_fails :
      (dir : Bytes) (msg : Failure)
      → (handle_hook D dir s).0.error ≡ some msg
      → (handle_hook D dir s).1 ≡ s
  unfolding handle_hook
  hook_fails dir msg = elim (Bool-cases (D.is_dir dir)) [
    | inl h ↦ rw (h, handle_hook) (λ e. absurd (some-none (sym e)))
    | inr h ↦ rw (h, handle_hook) (λ e. refl)
  ]

  -- A request that does not work on the volume and is answered with an error leaves the state of
  -- the daemon as it was.
  pub failed_lem :
      (req : Request) (msg : Failure)
      → is_of_volume req ≡ false
      → (handle_request D now req s).0.error ≡ some msg
      → (handle_request D now req s).1 ≡ s
  unfolding handle_request handle_reindex is_of_volume
  failed_lem (find_request query) msg v e = absurd (some-none (sym e ∙ find_answers query))
  failed_lem (open_request query) msg v e = open_fails query msg e
  failed_lem status_request msg v e = refl
  failed_lem reindex_request msg v e = absurd (some-none (sym e))
  failed_lem (config_get key) msg v e = config_get_keeps key
  failed_lem (config_set key value) msg v e = config_set_fails key value msg e
  failed_lem (hook dir) msg v e = hook_fails dir msg e
  failed_lem hook_status msg v e = refl
  failed_lem ai msg v e = refl
  failed_lem cache msg v e = refl
  failed_lem _ msg v e = absurd (true-false v)
