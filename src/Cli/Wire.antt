-- ===== src/Cli/Wire.antt =====
-- crates/neuralfs-cli/src/client.rs against crates/neuralfs-daemon/src/protocol.rs: the requests on
-- the wire. `serde` writes a request as an object: the name of the variant in lower case under `cmd`,
-- and the fields under their names; it reads one by the same rule. The text of the JSON is left out.
use neural_file_system.Prelude.{
  ℕ, ◌≡◌, refl, Option, none, some, List, [], ◌∷◌, Bytes, text, lookup, bytes_discrete, ℕ_discrete,
}
use neural_file_system.Protocol
use neural_file_system.Protocol.{
  find_request, open_request, status_request, reindex_request, config_get, config_set, fs_write,
  fs_read, fs_ls, fs_mkdir, fs_rm, fs_stat, fs_info, fs_snapshot, fs_snapshots, fs_rollback,
  fs_scrub, fs_gc, hook, hook_status, ai, cache, bench,
}

-- The requests of the client, with the variants of its own type.
pub data Query : Type 0 where
  find open_best : (query : Bytes) → Query
  status reindex : Query
  get_config : (key : Bytes) → Query
  set_config : (key value : Bytes) → Query
  store : (path data_b64 : Bytes) → Query
  read ls mkdir rm stat : (path : Bytes) → Query
  info : Query
  snapshot : (name : Bytes) → Query
  snapshots : Query
  rollback : (name : Bytes) → Query
  scrub gc : Query
  hook_on : (dir : Bytes) → Query
  hooks model caches : Query
  measure : (mb : ℕ) → Query

pub data Value : Type 0 where
  string : Bytes → Value
  number : ℕ → Value

-- An object: its `cmd` and its other fields.
pub record Object : Type 0 where
  pub cmd : Bytes
  pub fields : List (Bytes × Value)

abbrev bare : Bytes → Object
bare cmd = record { cmd = cmd; fields = [] }

abbrev one : Bytes → Bytes → Bytes → Object
one cmd name value = record { cmd = cmd; fields = (name, string value) ∷ [] }

-- What `serde_json::to_string` writes.
unfoldable pub serialize : Query → Object
serialize (find query) = one (text "find") (text "query") query
serialize (open_best query) = one (text "open") (text "query") query
serialize status = bare (text "status")
serialize reindex = bare (text "reindex")
serialize (get_config key) = one (text "configget") (text "key") key
serialize (set_config key value) = record {
  cmd = text "configset";
  fields = (text "key", string key) ∷ (text "value", string value) ∷ [];
}
serialize (store path data_b64) = record {
  cmd = text "fswrite";
  fields = (text "path", string path) ∷ (text "data_b64", string data_b64) ∷ [];
}
serialize (read path) = one (text "fsread") (text "path") path
serialize (ls path) = one (text "fsls") (text "path") path
serialize (mkdir path) = one (text "fsmkdir") (text "path") path
serialize (rm path) = one (text "fsrm") (text "path") path
serialize (stat path) = one (text "fsstat") (text "path") path
serialize info = bare (text "fsinfo")
serialize (snapshot name) = one (text "fssnapshot") (text "name") name
serialize snapshots = bare (text "fssnapshots")
serialize (rollback name) = one (text "fsrollback") (text "name") name
serialize scrub = bare (text "fsscrub")
serialize gc = bare (text "fsgc")
serialize (hook_on dir) = one (text "hook") (text "dir") dir
serialize hooks = bare (text "hookstatus")
serialize model = bare (text "ai")
serialize caches = bare (text "cache")
serialize (measure mb) = record { cmd = text "bench"; fields = (text "mb", number mb) ∷ [] }

-- A field of text, and one with a number.
unfoldable pub string_at : Bytes → Object → Option Bytes
string_at name o = elim (lookup bytes_discrete name o.fields) [
  | none ↦ none
  | some v ↦ elim v [ string b ↦ some b | number n ↦ none ]
]

unfoldable pub number_at : Bytes → Object → Option ℕ
number_at name o = elim (lookup bytes_discrete name o.fields) [
  | none ↦ none
  | some v ↦ elim v [ string b ↦ none | number n ↦ some n ]
]

-- How a variant is read from the fields.
pub data Shape : Type 0 where
  plain : Protocol.Request → Shape
  texted : (name : Bytes) → (Bytes → Protocol.Request) → Shape
  two_texts : (first second : Bytes) → (Bytes → Bytes → Protocol.Request) → Shape
  numbered_by : (name : Bytes) → (ℕ → Protocol.Request) → Shape

-- The variants of the daemon by their names on the wire.
unfoldable pub variants : List (Bytes × Shape)
variants =
    (text "find", texted (text "query") find_request)
    ∷ (text "open", texted (text "query") open_request)
    ∷ (text "status", plain status_request)
    ∷ (text "reindex", plain reindex_request)
    ∷ (text "configget", texted (text "key") config_get)
    ∷ (text "configset", two_texts (text "key") (text "value") config_set)
    ∷ (text "fswrite", two_texts (text "path") (text "data_b64") fs_write)
    ∷ (text "fsread", texted (text "path") fs_read)
    ∷ (text "fsls", texted (text "path") fs_ls)
    ∷ (text "fsmkdir", texted (text "path") fs_mkdir)
    ∷ (text "fsrm", texted (text "path") fs_rm)
    ∷ (text "fsstat", texted (text "path") fs_stat)
    ∷ (text "fsinfo", plain fs_info)
    ∷ (text "fssnapshot", texted (text "name") fs_snapshot)
    ∷ (text "fssnapshots", plain fs_snapshots)
    ∷ (text "fsrollback", texted (text "name") fs_rollback)
    ∷ (text "fsscrub", plain fs_scrub)
    ∷ (text "fsgc", plain fs_gc)
    ∷ (text "hook", texted (text "dir") hook)
    ∷ (text "hookstatus", plain hook_status)
    ∷ (text "ai", plain ai)
    ∷ (text "cache", plain cache)
    ∷ (text "bench", numbered_by (text "mb") bench)
    ∷ []

unfoldable pub read_shape : Shape → Object → Option Protocol.Request
unfolding string_at number_at
read_shape (plain r) o = some r
read_shape (texted name f) o = elim (string_at name o) [ none ↦ none | some b ↦ some (f b) ]
read_shape (two_texts first second f) o = elim (string_at first o) [
  | none ↦ none
  | some a ↦ elim (string_at second o) [ none ↦ none | some b ↦ some (f a b) ]
]
read_shape (numbered_by name f) o = elim (number_at name o) [ none ↦ none | some n ↦ some (f n) ]

-- What `serde_json::from_str` reads: an unknown name is an error, and so is a missing field.
unfoldable pub deserialize : Object → Option Protocol.Request
unfolding variants read_shape
deserialize o = elim (lookup bytes_discrete o.cmd variants) [
  | none ↦ none
  | some shape ↦ read_shape shape o
]

-- The request of the daemon that mirrors one of the client.
unfoldable pub mirror : Query → Protocol.Request
mirror (find query) = find_request query
mirror (open_best query) = open_request query
mirror status = status_request
mirror reindex = reindex_request
mirror (get_config key) = config_get key
mirror (set_config key value) = config_set key value
mirror (store path data_b64) = fs_write path data_b64
mirror (read path) = fs_read path
mirror (ls path) = fs_ls path
mirror (mkdir path) = fs_mkdir path
mirror (rm path) = fs_rm path
mirror (stat path) = fs_stat path
mirror info = fs_info
mirror (snapshot name) = fs_snapshot name
mirror snapshots = fs_snapshots
mirror (rollback name) = fs_rollback name
mirror scrub = fs_scrub
mirror gc = fs_gc
mirror (hook_on dir) = hook dir
mirror hooks = hook_status
mirror model = ai
mirror caches = cache
mirror (measure mb) = bench mb

-- The daemon's type of a request reads each variant of the client's type, as serde writes it
-- under the names of the client, as the variant that mirrors it, with the same fields.
pub deserialize-serialize : (q : Query) → deserialize (serialize q) ≡ some (mirror q)
unfolding deserialize serialize mirror lookup bytes_discrete ℕ_discrete
deserialize-serialize (find query) = refl
deserialize-serialize (open_best query) = refl
deserialize-serialize status = refl
deserialize-serialize reindex = refl
deserialize-serialize (get_config key) = refl
deserialize-serialize (set_config key value) = refl
deserialize-serialize (store path data_b64) = refl
deserialize-serialize (read path) = refl
deserialize-serialize (ls path) = refl
deserialize-serialize (mkdir path) = refl
deserialize-serialize (rm path) = refl
deserialize-serialize (stat path) = refl
deserialize-serialize info = refl
deserialize-serialize (snapshot name) = refl
deserialize-serialize snapshots = refl
deserialize-serialize (rollback name) = refl
deserialize-serialize scrub = refl
deserialize-serialize gc = refl
deserialize-serialize (hook_on dir) = refl
deserialize-serialize hooks = refl
deserialize-serialize model = refl
deserialize-serialize caches = refl
deserialize-serialize (measure mb) = refl
