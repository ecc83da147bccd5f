-- ===== src/Watcher.antt =====
-- crates/neuralfs-daemon/src/watcher.rs: what the thread of the watcher does with the events that
-- reach it, one after the other.
pub mod Training
use neural_file_system.Prelude.{
  ℕ, ◌+◌, Bool, true, false, Option, none, some, List, [], ◌∷◌, Bytes, leb, if◌then◌else◌,
}
use neural_file_system.Host.{Host, Disk}
use neural_file_system.Index.{Store}
use neural_file_system.Indexer.{upsert_path, remove_path}

-- `notify::Event` by the kinds that are told apart, with its paths.
pub data Event : Type 0 where
  create modify removal other : (paths : List Bytes) → Event

-- The index, the count of events since a training was asked for, and how often it was.
pub record Watch (H : Host) : Type 0 where
  pub store : Store H
  pub event_count : ℕ
  pub retrains : ℕ

module _ {H : Host} where
  upsert_paths : Disk → List Bytes → Store H → Store H
  upsert_paths D [] s = s
  upsert_paths D (path ∷ paths) s = upsert_paths D paths (upsert_path D path s)

  remove_paths : List Bytes → Store H → Store H
  remove_paths [] s = s
  remove_paths (path ∷ paths) s = remove_paths paths (remove_path path s)

  unfoldable pub handle_event : Disk → Event → Store H → Store H
  unfolding upsert_paths remove_paths
  handle_event D (create paths) s = upsert_paths D paths s
  handle_event D (modify paths) s = upsert_paths D paths s
  handle_event D (removal paths) s = remove_paths paths s
  handle_event D (other paths) s = s

  -- The real files are those at the time of the event.
  unfoldable pub on_event : ℕ → Disk → Event → Watch H → Watch H
  on_event retrain_threshold D event w =
      let store = handle_event D event w.store in
      let count = w.event_count + 1 in
      if leb retrain_threshold count
      then record { store = store; event_count = 0; retrains = w.retrains + 1 }
      else record { store = store; event_count = count; retrains = w.retrains }

  -- The loop of `spawn_watcher`. A message that is an error is only logged.
  unfoldable pub on_events : ℕ → List (Option (Disk × Event)) → Watch H → Watch H
  on_events retrain_threshold [] w = w
  on_events retrain_threshold (none ∷ events) w = on_events retrain_threshold events w
  on_events retrain_threshold (some (D, event) ∷ events) w =
      on_events retrain_threshold events (on_event retrain_threshold D event w)
