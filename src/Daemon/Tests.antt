-- ===== src/Daemon/Tests.antt =====
-- The theorems on the daemon and its parts, applied to small states.
use neural_file_system.Prelude.{
  ◌+◌, ◌*◌, ◌<◌, ◌≤◌, ◌≡◌, ◌⊎◌, refl, Option, none, some, List, [], ◌∷◌, Bytes, text, length,
  bytes_discrete, ok, err, unknown_key, arith, ℕ_discrete, erase, starts_with, lookup,
}
use neural_file_system.Host.{Disk, is_nan}
use neural_file_system.Index
use neural_file_system.Index.{
  Store, key_of, upsert, touch_open, files_in, files_named, collect, put_entry, add_name_link,
  add_parent_link, prefix_of, key_bytes,
}
use neural_file_system.Config
use neural_file_system.Config.{Config}
use neural_file_system.Config.RoundTrip.{IsPrintable, set-get}
use neural_file_system.Filesystem.Samples.{machine}
use neural_file_system.Filesystem.History.{open_blank_lem}
use neural_file_system.Index.Hits.{All}
use neural_file_system.BlockStore.Codec.{to_be_bytes, to_le_bytes}
use neural_file_system.Classifier
use neural_file_system.Classifier.{sort_by}
use neural_file_system.Sled.{list_sled, with_prefix}
use neural_file_system.Search.{find, exact, or_none, score, scored}
use neural_file_system.Search.Found.{IsIndexed, find-IsIndexed}
use neural_file_system.PathCache
use neural_file_system.PathCache.{ScoredPath, entry_bytes}
use neural_file_system.Protocol.{config_set, open_request, raised, default}
use neural_file_system.Daemon.{handle_request, handle_find, handle_config_set}
use neural_file_system.Daemon.State
use neural_file_system.Daemon.State.{DaemonState, Moment}
use neural_file_system.Daemon.Errors.{is_of_volume, failed_lem}
use neural_file_system.Daemon.Finds.{handle_find-handle_find}
use neural_file_system.Watcher.{Watch, Event, create, on_events}
use neural_file_system.Watcher.Training.{delivered, on_events_lem}
use neural_file_system.Filesystem.Calls.{Room}
use neural_file_system.Daemon.Loops.{start_model, checkpoint}
use neural_file_system.Daemon.Models
use neural_file_system.Daemon.Models.{restored-checkpoint}
use neural_file_system.Daemon.Kept.{restored}
use neural_file_system.Index.Tests.{empty, indexed, indexed-IsSound}
use neural_file_system.Daemon.Samples.{host, disk, floats, model_code, entry_code}

-- Settings with one root.
abbrev pub settings : Config
settings = Config.default (some (text "/home"))

settings-IsPrintable : IsPrintable settings
unfolding Config.default is_nan
settings-IsPrintable = record {
  lambda_fits = omega arith;
  lambda_number = refl;
  threshold_fits = omega arith;
  results_fit = omega arith;
  root = text "/home";
  roots = [];
  some_root = refl;
  clean = (
    (
      (λ h. omega arith),
      ((λ h. omega arith), ((λ h. omega arith), ((λ h. omega arith), ((λ h. omega arith), tt)))),
    ),
    tt,
  );
}

set-get_example :
    ((v : Bytes) × (Config.get floats (text "lambda") settings ≡ some v)
      × (Config.set floats (text "lambda") v settings ≡ ok settings))
    ⊎ ((Config.get floats (text "lambda") settings ≡ none)
        × ((v : Bytes) → Config.set floats (text "lambda") v settings ≡ err unknown_key))
set-get_example = set-get floats (text "lambda") settings settings-IsPrintable

-- A daemon that indexed the file.
abbrev pub state : DaemonState host
state = State.new indexed (open_blank_lem machine 100).0 settings

abbrev pub moment : Moment
moment = record { instant = 5; seconds = 9; write_time = 1; read_time = 1 }

abbrev later : Moment
later = record { instant = 6; seconds = 9; write_time = 1; read_time = 1 }

find-IsIndexed_example :
    (length (find indexed Classifier.default (text "f") 9 1 10) ≤ 10)
    × All (IsIndexed indexed) (find indexed Classifier.default (text "f") 9 1 10)
find-IsIndexed_example = find-IsIndexed indexed indexed-IsSound Classifier.default (text "f") 9 1 10

failed_lem_example :
    (handle_request disk moment (config_set (text "no") (text "1")) state).1 ≡ state
unfolding is_of_volume handle_request handle_config_set Config.set Config.key_of bytes_discrete
    ℕ_discrete
failed_lem_example =
    failed_lem disk moment state (config_set (text "no") (text "1")) (raised unknown_key) refl refl

find_now :
    find indexed Classifier.default (text "f") 9 Config.tenth 10
    ≡ record { path = text "/d/f"; score = 1 } ∷ []
unfolding find exact files_named collect upsert put_entry add_name_link add_parent_link key_of
    prefix_of with_prefix starts_with or_none list_sled entry_code score scored Index.new erase
    bytes_discrete key_bytes to_be_bytes to_le_bytes ℕ_discrete sort_by
find_now = refl

abbrev hit : ScoredPath
hit = record { path = text "/d/f"; score = 1 }

nothing_cached : (PathCache.get (text "f") 5 state.path_cache).0 ≡ none
unfolding PathCache.get State.new PathCache.new lookup
nothing_cached = refl

handle_find-handle_find_example :
    ((handle_find moment (text "f") state).0 ≡ record default { results = some (hit ∷ []) })
    × ((handle_find later (text "f") (handle_find moment (text "f") state).1).0
        ≡ record default { results = some (hit ∷ []) })
unfolding State.new Config.default entry_bytes PathCache.new
handle_find-handle_find_example =
    handle_find-handle_find moment later (text "f") hit [] state
      (handle_find moment (text "f") state).1 nothing_cached find_now (omega arith) (omega arith)
      refl

pub volume_Room : Room (text "a" ∷ []) state.vfs
unfolding State.new
volume_Room = omega (arith, (open_blank_lem machine 100).4)

abbrev watching : Watch host
watching = record { store = empty; event_count = 1; retrains = 0 }

abbrev events : List (Option (Disk × Event))
events = none ∷ some (disk, create (text "/d/f" ∷ [])) ∷ []

on_events_lem_example :
    ((on_events 2 events watching).event_count < 2)
    × ((on_events 2 events watching).retrains * 2 + (on_events 2 events watching).event_count
        ≡ 0 * 2 + 1 + delivered events)
on_events_lem_example = on_events_lem 2 events watching (omega arith)

abbrev started : DaemonState host
started = start_model model_code (text "today") state

restored-checkpoint_example :
    restored model_code
      (checkpoint model_code (handle_request disk moment (open_request (text "f")) started).1).store
    ≡ (handle_request disk moment (open_request (text "f")) started).1.classifier
restored-checkpoint_example =
    restored-checkpoint model_code indexed (open_blank_lem machine 100).0 settings (text "today")
      (handle_request disk moment (open_request (text "f")) started).1
      (Models.next Models.here (Models.answered disk moment (open_request (text "f")) started))
