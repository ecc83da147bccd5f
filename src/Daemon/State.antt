-- ===== src/Daemon/State.antt =====
-- `DaemonState` of crates/neuralfs-daemon/src/state.rs, without its locks, and what the clocks show
-- during a call.
use neural_file_system.Prelude.{ℕ, none, Option, List, Bytes, ◌*◌}
use neural_file_system.Host.{Host, F64}
use neural_file_system.Filesystem.{Filesystem}
use neural_file_system.PathCache
use neural_file_system.PathCache.{PathTtlCache}
use neural_file_system.Index.{Store}
use neural_file_system.Config.{Config}
use neural_file_system.Classifier
use neural_file_system.Classifier.{Classifier}

pub record DaemonState (H : Host) : Type 0 where
  pub store : Store H
  pub vfs : Filesystem H.volume
  pub classifier : Classifier H
  pub config : Config
  -- What `save` was last called with; the source passes over its failure.
  pub saved_config : Option Config
  pub last_retrain : Option Bytes
  -- The directories that the watcher was told to watch, if there is a watcher.
  pub watcher : Option (List Bytes)
  pub saved_version : ℕ
  pub path_cache : PathTtlCache
  -- How often a training was asked for.
  pub retrains : ℕ

-- The monotonic clock in nanoseconds, the seconds since the epoch, and the seconds that the two
-- measured steps of a benchmark take.
pub record Moment : Type 0 where
  pub instant : ℕ
  pub seconds : ℕ
  pub write_time : F64
  pub read_time : F64

-- `DaemonState::new`, with a cache of results for 5 minutes and 500 MiB.
unfoldable pub new : {H : Host} → Store H → Filesystem H.volume → Config → DaemonState H
new store vfs config = record {
  store = store;
  vfs = vfs;
  classifier = Classifier.default;
  config = config;
  saved_config = none;
  last_retrain = none;
  watcher = none;
  saved_version = 0;
  path_cache = PathCache.new (300 * 1000000000) (500 * 1024 * 1024);
  retrains = 0;
}
