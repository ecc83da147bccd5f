-- ===== src/Cli.antt =====
-- crates/neuralfs-cli/src/main.rs and client.rs: the commands of the program `nfs`, the requests
-- that they send and what they print. clap, which reads the arguments, is left out. The requests
-- and the responses of client.rs mirror those of the daemon, which stand for them here.
pub mod Stored
pub mod Wire
mod Tests
use neural_file_system.Prelude.{
  ℕ, ◌-◌, Bool, true, false, Option, none, some, List, [], ◌∷◌, ◌++◌, Bytes, length, replicate,
  text, join, print, bytes_discrete, ite,
}
use neural_file_system.Host.{Floats}
use neural_file_system.PathCache.{ScoredPath}
use neural_file_system.Protocol.{
  Failure, Request, find_request, open_request, status_request, reindex_request, config_get,
  config_set, fs_write, fs_read, fs_ls, fs_mkdir, fs_rm, fs_stat, fs_info, fs_snapshot,
  fs_snapshots, fs_rollback, fs_scrub, fs_gc, hook, hook_status, ai, cache, bench, Response,
}

pub data ConfigAction : Type 0 where
  set_key : (key value : Bytes) → ConfigAction
  get_key : (key : Bytes) → ConfigAction

pub data FsAction : Type 0 where
  write : (vpath source : Bytes) → FsAction
  read : (vpath : Bytes) (dest : Option Bytes) → FsAction
  ls mkdir rm stat : (vpath : Bytes) → FsAction
  info : FsAction
  snapshot : (name : Bytes) → FsAction
  snapshots : FsAction
  rollback : (name : Bytes) → FsAction
  scrub gc : FsAction

pub data Command : Type 0 where
  find open_top : (query : List Bytes) → Command
  status reindex : Command
  config : ConfigAction → Command
  fs : FsAction → Command
  hook_on : (dir : Option Bytes) → Command
  ai_status cache_stats : Command
  bench_for : (mb : ℕ) → Command

-- What goes to the standard output: a line, a line that ends with the text of an error, or bytes.
pub data Output : Type 0 where
  line : Bytes → Output
  failure_line : Bytes → Failure → Output
  raw : Bytes → Output

-- The daemon as the client sees it, the files of the user and what else the commands call. A request
-- that is not answered, since there is no daemon or it is too slow, has no response.
pub record Shell (S Files : Type 0) : Type 0 where
  pub send : Request → S → Option Response × S
  pub read_local : Bytes → Files → Option Bytes
  pub stdin : Files → Option Bytes
  pub write_local : Bytes → Bytes → Files → Option Files
  pub open_in_os : Bytes → Files → Option Files
  pub encode : Bytes → Bytes
  pub decode : Bytes → Option Bytes
  pub floats : Floats

pub record World (S Files : Type 0) : Type 0 where
  pub daemon : S
  pub files : Files
  pub printed : List Output

-- `{:>8.3}`.
unfoldable pub score_text : Floats → ℕ → Bytes
score_text F score = let t = F.fixed 3 score in replicate (8 - length t) b' ' ++ t

unfoldable pub result_lines : Floats → List ScoredPath → List Output
unfolding score_text
result_lines F [] = []
result_lines F (r ∷ rs) = line (score_text F r.score ++ text "  " ++ r.path) ∷ result_lines F rs

unfoldable pub results_output : Floats → Response → List Output
unfolding result_lines
results_output F resp = elim resp.error [
  | some e ↦ failure_line (text "error: ") e ∷ []
  | none ↦ elim resp.results [
    | none ↦ line (text "no matches found") ∷ []
    | some rs ↦ elim rs [
      | [] ↦ line (text "no matches found") ∷ []
      | r ∷ more ↦ result_lines F (r ∷ more)
    ]
  ]
]

unfoldable pub message_output : Response → List Output
message_output resp = elim resp.message [
  | some m ↦ line m ∷ []
  | none ↦ elim resp.error [
    | none ↦ line (text "unknown error") ∷ []
    | some e ↦ failure_line [] e ∷ []
  ]
]

unfoldable pub each_line : List Bytes → List Output
each_line [] = []
each_line (l ∷ more) = line l ∷ each_line more

unfoldable pub lines_output : Response → List Output
unfolding message_output each_line
lines_output resp = elim resp.error [
  | some e ↦ failure_line (text "error: ") e ∷ []
  | none ↦ elim resp.lines [ none ↦ message_output resp | some list ↦ each_line list ]
]

abbrev or_text : Bytes → Option Bytes → Bytes
or_text t none = t
or_text t (some b) = b

abbrev or_zero : Option ℕ → ℕ
or_zero none = 0
or_zero (some n) = n

unfoldable pub status_output : Response → List Output
status_output resp =
    line (text "status: " ++ or_text (text "unknown") resp.status)
    ∷ line (text "indexed_files: " ++ print (or_zero resp.indexed_files))
    ∷ line (text "last_retrain: " ++ or_text (text "never") resp.last_retrain)
    ∷ []

unfoldable pub reindex_output : Response → List Output
reindex_output resp = line (or_text (text "reindex triggered") resp.message) ∷ []

module _ {S Files : Type 0} (sh : Shell S Files) where
  -- `send`: the daemon may change, also where no response comes.
  unfoldable pub ask : Request → World S Files → Option Response × World S Files
  ask req w = let r = sh.send req w.daemon in (r.0, record w { daemon = r.1 })

  unfoldable pub say : List Output → World S Files → World S Files
  say out w = record w { printed = w.printed ++ out }

  -- A command that prints what comes back; it fails where nothing does.
  unfoldable pub show : (Response → List Output) → Request → World S Files → Bool × World S Files
  unfolding ask say
  show out req w =
      let r = ask req w in elim r.0 [ none ↦ (false, r.1) | some resp ↦ (true, say (out resp) r.1) ]

  unfoldable pub open_found : Response → World S Files → Bool × World S Files
  unfolding say
  open_found resp w = elim resp.opened_path [
    | some path ↦
        let w' = say (line (text "opening " ++ path) ∷ []) w in
        elim (sh.open_in_os path w'.files) [
          | none ↦ (false, w')
          | some files' ↦ (true, record w' { files = files' })
        ]
    | none ↦ elim resp.error [
      | none ↦ (true, say (line (text "no match found") ∷ []) w)
      | some e ↦ (true, say (failure_line [] e ∷ []) w)
    ]
  ]

  unfoldable pub open_command : Bytes → World S Files → Bool × World S Files
  unfolding ask open_found
  open_command query w =
      let r = ask (open_request query) w in
      elim r.0 [ none ↦ (false, r.1) | some resp ↦ open_found resp r.1 ]

  -- The bytes to write: a file of the user, or the standard input.
  unfoldable pub source_bytes : Bytes → Files → Option Bytes
  source_bytes source files =
      ite (bytes_discrete source (text "-")) (sh.stdin files) (sh.read_local source files)

  unfoldable pub write_command : Bytes → Bytes → World S Files → Bool × World S Files
  unfolding source_bytes show message_output
  write_command vpath source w = elim (source_bytes source w.files) [
    | none ↦ (false, w)
    | some bytes ↦ show message_output (fs_write vpath (sh.encode bytes)) w
  ]

  -- Where the bytes go to: a file of the user, or the standard output.
  unfoldable pub deliver : Option Bytes → Bytes → World S Files → Bool × World S Files
  unfolding say
  deliver dest bytes w = elim dest [
    | none ↦ (true, say (raw bytes ∷ []) w)
    | some path ↦ elim (sh.write_local path bytes w.files) [
      | none ↦ (false, w)
      | some files' ↦ (
        true,
        say (line (text "wrote " ++ print (length bytes) ++ text " bytes to " ++ path) ∷ [])
            (record w { files = files' }),
      )
    ]
  ]

  unfoldable pub read_found : Option Bytes → Response → World S Files → Bool × World S Files
  unfolding say deliver
  read_found dest resp w = elim resp.error [
    | some e ↦ (true, say (failure_line (text "error: ") e ∷ []) w)
    | none ↦ elim (sh.decode (or_text [] resp.data_b64)) [
      | none ↦ (false, w)
      | some bytes ↦ deliver dest bytes w
    ]
  ]

  unfoldable pub read_command : Bytes → Option Bytes → World S Files → Bool × World S Files
  unfolding ask read_found
  read_command vpath dest w =
      let r = ask (fs_read vpath) w in
      elim r.0 [ none ↦ (false, r.1) | some resp ↦ read_found dest resp r.1 ]

  unfoldable pub run_fs : FsAction → World S Files → Bool × World S Files
  run_fs (write vpath source) = write_command vpath source
  run_fs (read vpath dest) = read_command vpath dest
  run_fs (ls vpath) = show lines_output (fs_ls vpath)
  run_fs (mkdir vpath) = show message_output (fs_mkdir vpath)
  run_fs (rm vpath) = show message_output (fs_rm vpath)
  run_fs (stat vpath) = show lines_output (fs_stat vpath)
  run_fs info = show lines_output fs_info
  run_fs (snapshot name) = show message_output (fs_snapshot name)
  run_fs snapshots = show lines_output fs_snapshots
  run_fs (rollback name) = show message_output (fs_rollback name)
  run_fs scrub = show lines_output fs_scrub
  run_fs gc = show lines_output fs_gc

  unfoldable pub run_config : ConfigAction → World S Files → Bool × World S Files
  run_config (get_key key) = show message_output (config_get key)
  run_config (set_key key value) = show message_output (config_set key value)

  unfoldable pub run_hook : Option Bytes → World S Files → Bool × World S Files
  run_hook (some dir) = show message_output (hook dir)
  run_hook none = show lines_output hook_status

  -- A query of several words is one text.
  unfoldable pub run : Command → World S Files → Bool × World S Files
  run (find query) = show (results_output sh.floats) (find_request (join (text " ") query))
  run (open_top query) = open_command (join (text " ") query)
  run status = show status_output status_request
  run reindex = show reindex_output reindex_request
  run (config action) = run_config action
  run (fs action) = run_fs action
  run (hook_on dir) = run_hook dir
  run ai_status = show lines_output ai
  run cache_stats = show lines_output cache
  run (bench_for mb) = show lines_output (bench mb)

  -- The exit code of the program.
  unfoldable pub exit_code : Bool × World S Files → ℕ
  exit_code (true, w) = 0
  exit_code (false, w) = 1
