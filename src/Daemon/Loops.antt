-- ===== src/Daemon/Loops.antt =====
-- crates/neuralfs-daemon/src/lib.rs: what the daemon does beside the requests: the model that it
-- loads when it starts, and one round of each of its loops. A model is kept as `bincode` writes it;
-- the clock shows the seconds and a printed date. What only waits for the disk is left out.
use neural_file_system.Prelude.{
  Bool, List, [], ◌∷◌, ◌+◌, ℕ, Option, none, some, Bytes, ok, err, ◌==◌, if◌then◌else◌,
}
use neural_file_system.Host.{Host, Disk}
use neural_file_system.Platform.{Bincode}
use neural_file_system.PathCache.{sweep}
use neural_file_system.Index.{Store, all_entries, save_model, load_model}
use neural_file_system.Search.{or_none}
use neural_file_system.Indexer.{reindex_all}
use neural_file_system.Classifier.{Classifier, is_trained}
use neural_file_system.Classifier.Train.{train}
use neural_file_system.Daemon.State.{DaemonState, Moment}

module _ {H : Host} (C : Bincode (Classifier H)) where
  -- The persisted model, if there is one that can be read and was trained.
  unfoldable pub loaded_model : Store H → Option (Classifier H)
  loaded_model store = elim (load_model store) [
    | none ↦ none
    | some bytes ↦ elim (C.deserialize bytes) [
      | none ↦ none
      | some c ↦ if is_trained c then some c else none
    ]
  ]

  -- What `run` makes of it. Without a model the classifier stays the default.
  unfoldable pub start_model : Bytes → DaemonState H → DaemonState H
  start_model date s = elim (loaded_model s.store) [
    | none ↦ s
    | some c ↦ record s { saved_version = c.version; classifier = c; last_retrain = some date }
  ]

  abbrev pub install_model : Classifier H → Bytes → DaemonState H → DaemonState H
  install_model c date s = record s {
    store = save_model (C.serialize c) s.store;
    saved_version = c.version;
    classifier = c;
    last_retrain = some date;
  }

  -- The training after the first indexing, when no model was loaded.
  unfoldable pub first_train : ℕ → Bytes → DaemonState H → DaemonState H
  first_train now date s = install_model (train now (or_none (all_entries s.store))) date s

  -- The task of `run` after the start: the roots of the settings are indexed, and then a training is
  -- asked for, or made at once if no model was loaded.
  unfoldable pub initial_index :
      Disk → List Bytes → Bool → ℕ → Bytes → DaemonState H → DaemonState H
  initial_index D roots had_model now date s =
      let indexed : DaemonState H = record s { store = (reindex_all D roots s.store).1 } in
      if had_model
      then record indexed { retrains = indexed.retrains + 1 }
      else first_train now date indexed

  -- A round of `retrain_loop`. A failing listing is logged.
  unfoldable pub retrain : ℕ → Bytes → DaemonState H → DaemonState H
  retrain now date s = elim (all_entries s.store) [
    | err e ↦ s
    | ok entries ↦ install_model (train now entries) date s
  ]

  -- A round of `ai_checkpoint_loop`.
  unfoldable pub checkpoint : DaemonState H → DaemonState H
  checkpoint s = if s.classifier.version == s.saved_version then s else record s {
    store = save_model (C.serialize s.classifier) s.store;
    saved_version = s.classifier.version;
  }

-- The roots that a new watcher watches: an error is logged, and the root left out.
watched : Disk → List Bytes → List Bytes
watched D [] = []
watched D (root ∷ roots) = elim (D.watch root) [
  | none ↦ root ∷ watched D roots
  | some e ↦ watched D roots
]

unfoldable pub start_watcher : {H : Host} → Disk → List Bytes → DaemonState H → DaemonState H
unfolding watched
start_watcher D roots s = record s { watcher = some (watched D roots) }

-- A round of `path_cache_sweeper`.
unfoldable pub sweep_round : {H : Host} → Moment → DaemonState H → DaemonState H
sweep_round now s = record s { path_cache = sweep now.instant s.path_cache }
