-- ===== src/Protocol.antt =====
-- crates/neuralfs-daemon/src/protocol.rs: the requests and the responses of the daemon. How they
-- are written as JSON is not modelled.
use neural_file_system.Prelude.{ℕ, Bool, true, Option, none, some, List, Bytes, Error}
use neural_file_system.PathCache.{ScoredPath}

pub data Request : Type 0 where
  find_request : (query : Bytes) → Request
  open_request : (query : Bytes) → Request
  status_request : Request
  reindex_request : Request
  config_get : (key : Bytes) → Request
  config_set : (key value : Bytes) → Request
  fs_write : (path data_b64 : Bytes) → Request
  fs_read fs_ls fs_mkdir fs_rm fs_stat : (path : Bytes) → Request
  fs_info : Request
  fs_snapshot : (name : Bytes) → Request
  fs_snapshots : Request
  fs_rollback : (name : Bytes) → Request
  fs_scrub fs_gc : Request
  hook : (dir : Bytes) → Request
  hook_status ai cache : Request
  bench : (mb : ℕ) → Request

-- The text of an error: one that the daemon writes, or what an error of a component, of the
-- base64 decoder or of the JSON parser says, which is not rendered.
pub data Failure : Type 0 where
  said : Bytes → Failure
  raised : Error → Failure
  bad_base64 bad_request : Failure

pub record Response : Type 0 where
  pub results : Option (List ScoredPath)
  pub status : Option Bytes
  pub indexed_files : Option ℕ
  pub last_retrain : Option Bytes
  pub success : Option Bool
  pub message : Option Bytes
  pub opened_path : Option Bytes
  pub lines : Option (List Bytes)
  pub data_b64 : Option Bytes
  pub error : Option Failure

-- `Response::default`, `Response::error` and `Response::ok`.
abbrev pub default : Response
default = record {
  results = none;
  status = none;
  indexed_files = none;
  last_retrain = none;
  success = none;
  message = none;
  opened_path = none;
  lines = none;
  data_b64 = none;
  error = none;
}

abbrev pub error_response : Failure → Response
error_response msg = record default { error = some msg }

abbrev pub ok_response : Bytes → Response
ok_response msg = record default { success = some true; message = some msg }

abbrev pub lines_response : List Bytes → Response
lines_response v = record default { lines = some v }
