-- ===== src/Daemon/Models.antt =====
-- crates/neuralfs-daemon/src/lib.rs: what a restart of the daemon finds of the model that it had.
use neural_file_system.Prelude.{Bool, List, ℕ, ◌≡◌, ◌∙◌, refl, true, false, inl, inr, Bytes}
use neural_file_system.Host.{Disk, Host}
use neural_file_system.Platform.{Bincode}
use neural_file_system.Index.{Store, all_entries}
use neural_file_system.Index.Hits.{Result-cases}
use neural_file_system.Search.{or_none}
use neural_file_system.Filesystem.{Filesystem}
use neural_file_system.Config.{Config}
use neural_file_system.Classifier.{Classifier}
use neural_file_system.Classifier.Train.{train, train-untrained}
use neural_file_system.Daemon.{handle_request}
use neural_file_system.Daemon.State
use neural_file_system.Daemon.State.{DaemonState, Moment}
use neural_file_system.Indexer.{reindex_all}
use neural_file_system.Protocol.{Request, open_request}
use neural_file_system.Daemon.Steady.{is_open, handle_request-SameModel, reindex_all-model}
use neural_file_system.Daemon.Loops.{
  start_model, start_watcher, sweep_round, first_train, initial_index, retrain, checkpoint,
}
use neural_file_system.Daemon.Kept.{
  IsKept, restored, install_model-IsKept, checkpoint_lem, handle_open-IsKept, SameModel-IsKept,
  start_model-IsKept, checkpoint-classifier,
}

module _ {H : Host} (C : Bincode (Classifier H)) where
  -- The changes of the model while the daemon runs.
  pub data Evolves : DaemonState H → DaemonState H → Type 0 where
    answered :
        (D : Disk) (now : Moment) (req : Request) (s : DaemonState H)
        → Evolves s (handle_request D now req s).1
    indexed :
        (D : Disk) (roots : List Bytes) (had_model : Bool) (now : ℕ) (date : Bytes)
        (s : DaemonState H)
        → Evolves s (initial_index C D roots had_model now date s)
    retrained : (now : ℕ) (date : Bytes) (s : DaemonState H) → Evolves s (retrain C now date s)
    watching :
        (D : Disk) (roots : List Bytes) (s : DaemonState H) → Evolves s (start_watcher D roots s)
    swept : (now : Moment) (s : DaemonState H) → Evolves s (sweep_round now s)
    checkpointed : (s : DaemonState H) → Evolves s (checkpoint C s)

  pub data Reaches (s : DaemonState H) : DaemonState H → Type 0 where
    here : Reaches s s
    next : {t u : DaemonState H} → Reaches s t → Evolves t u → Reaches s u

  handle_request-IsKept :
      (D : Disk) (now : Moment) (req : Request) (s : DaemonState H)
      → IsKept C s
      → IsKept C (handle_request D now req s).1
  unfolding handle_request is_open
  handle_request-IsKept D now (open_request query) s k = handle_open-IsKept C now query s k
  handle_request-IsKept D now req s k =
      SameModel-IsKept C s (handle_request D now req s).1
        (handle_request-SameModel D now req s refl) k

  initial_index-IsKept :
      (D : Disk) (roots : List Bytes) (had_model : Bool) (now : ℕ) (date : Bytes)
      (s : DaemonState H)
      → IsKept C s
      → IsKept C (initial_index C D roots had_model now date s)
  unfolding initial_index first_train
  initial_index-IsKept D roots true now date s k =
      SameModel-IsKept C s _
        (record { on_disk = reindex_all-model D roots s.store; in_memory = refl; version = refl }) k
  initial_index-IsKept D roots false now date s k =
      install_model-IsKept C _ date (record s { store = (reindex_all D roots s.store).1 })
        (train-untrained now (or_none (all_entries (reindex_all D roots s.store).1)))

  Evolves-IsKept : {s t : DaemonState H} → Evolves s t → IsKept C s → IsKept C t
  unfolding retrain start_watcher sweep_round
  Evolves-IsKept (answered D now req s) k = handle_request-IsKept D now req s k
  Evolves-IsKept (indexed D roots had_model now date s) k =
      initial_index-IsKept D roots had_model now date s k
  Evolves-IsKept (checkpointed s) k = (checkpoint_lem C s k).0
  Evolves-IsKept (watching D roots s) k =
      SameModel-IsKept C s (start_watcher D roots s)
        (record { on_disk = refl; in_memory = refl; version = refl }) k
  Evolves-IsKept (swept now s) k =
      SameModel-IsKept C s (sweep_round now s)
        (record { on_disk = refl; in_memory = refl; version = refl }) k
  Evolves-IsKept (retrained now date s) k = elim (Result-cases (all_entries s.store)) [
    | inl (es, h) ↦
        rw (h, retrain) (install_model-IsKept C (train now es) date s (train-untrained now es))
    | inr (e, h) ↦ rw (h, retrain) k
  ]

  Reaches-IsKept : {s t : DaemonState H} → IsKept C s → Reaches s t → IsKept C t
  Reaches-IsKept k here = k
  Reaches-IsKept k (next r e) = Evolves-IsKept e (Reaches-IsKept k r)

  -- In every state that a started daemon reaches, by requests of any kind, the first indexing,
  -- the start of a watcher, sweeps, trainings and checkpoints, one after the other, a checkpoint
  -- leaves a model on disk from which a restart gets the classifier of that moment, whether the
  -- checkpoint wrote it or found nothing to write.
  pub restored-checkpoint :
      (store : Store H) (vfs : Filesystem H.volume) (config : Config) (date : Bytes)
      (t : DaemonState H)
      → Reaches (start_model C date (State.new store vfs config)) t
      → restored C (checkpoint C t).store ≡ t.classifier
  restored-checkpoint store vfs config date t r =
      (checkpoint_lem C t (Reaches-IsKept (start_model-IsKept C store vfs config date) r)).1
      ∙ checkpoint-classifier C t
