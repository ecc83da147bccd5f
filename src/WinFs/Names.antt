-- ===== src/WinFs/Names.antt =====
-- crates/neuralfs-daemon/src/winfsphost.rs: the calls on the names, and the volume.
use neural_file_system.Prelude.{
  ℕ, ◌+◌, ◌-◌, ◌^◌, Bool, true, not, ◌&&◌, Option, none, some, List, [], ◌∷◌, ◌++◌, Bytes, length,
  drop, lookup, erase, bytes_discrete, ite, if◌then◌else◌, is_some, starts_with, text,
}
use neural_file_system.Inode.{name_lt}
use neural_file_system.WinFs.{
  Node, FileInfo, file_info, State, Reply, done, failed, panic, object_name_collision, get_node,
  key_of, parent_of, basename_of, separator,
}

-- The key itself, or one whose text goes on after it and a separator.
unfoldable pub is_within : Bytes → Bytes → Bool
is_within from k = ite (bytes_discrete k from) true (starts_with (from ++ separator ∷ []) k)

unfoldable pub keys_within : Bytes → List (Bytes × Node) → List Bytes
unfolding is_within
keys_within from [] = []
keys_within from ((k, n) ∷ l) =
    let rest = keys_within from l in if is_within from k then k ∷ rest else rest

-- The new key: the rest of the old one goes on after the new name.
unfoldable pub moved_key : Bytes → Bytes → Bytes → Bytes
moved_key from to k = to ++ drop (length from) k

-- `remove(&k).unwrap()`, then the insertion: `none` stands for the panic of `unwrap`.
unfoldable pub move_all :
    Bytes → Bytes → List Bytes → List (Bytes × Node) → Option (List (Bytes × Node))
unfolding moved_key
move_all from to [] nodes = some nodes
move_all from to (k ∷ ks) nodes = elim (lookup bytes_discrete k nodes) [
  | none ↦ none
  | some n ↦
      let removed = erase bytes_discrete k nodes in
      let new_key = moved_key from to k in
      move_all from to ks (erase bytes_discrete new_key removed ++ (new_key, n) ∷ [])
]

unfoldable pub rename : Bytes → Bytes → Bool → State → State × Reply (Unit {0})
unfolding keys_within move_all
rename file_name new_file_name replace_if_exists s =
    let from = key_of file_name in
    let to = key_of new_file_name in
    if is_some (get_node to s) && not replace_if_exists
    then (s, failed object_name_collision)
    else elim (move_all from to (keys_within from s.nodes) s.nodes) [
      | none ↦ (s, panic)
      | some nodes ↦ (record s { nodes = nodes }, done tt)
    ]

-- `sort_by` on the names: stable.
unfoldable pub insert_by_name : Bytes × FileInfo → List (Bytes × FileInfo) → List (Bytes × FileInfo)
insert_by_name e [] = e ∷ []
insert_by_name e (f ∷ l) =
    let later = insert_by_name e l in if name_lt f.0 e.0 then f ∷ later else e ∷ f ∷ l

unfoldable pub sort_by_name : List (Bytes × FileInfo) → List (Bytes × FileInfo)
unfolding insert_by_name
sort_by_name [] = []
sort_by_name (e ∷ l) = insert_by_name e (sort_by_name l)

unfoldable pub children : Bytes → List (Bytes × Node) → List (Bytes × FileInfo)
children dir [] = []
children dir ((k, n) ∷ l) =
    let rest = children dir l in
    ite (bytes_discrete k dir) rest
      (ite (bytes_discrete (parent_of k) dir) ((basename_of k, file_info n) ∷ rest) rest)

abbrev entry_at : Bytes → Bytes → State → List (Bytes × FileInfo)
entry_at name k s = elim (get_node k s) [ some n ↦ (name, file_info n) ∷ [] | none ↦ [] ]

unfoldable pub dir_entries : Bytes → State → List (Bytes × FileInfo)
unfolding sort_by_name children
dir_entries dir s =
    entry_at (text ".") dir s
    ++ (entry_at (text "..") (parent_of dir) s ++ sort_by_name (children dir s.nodes))

-- The buffer of a directory is the host library's: a lock may be refused, and a name or an entry
-- too. `filled` is the loop that writes the entries.
module _ {Buffer : Type 0} (acquire : Bool → Buffer → Option Buffer)
    (write : Bytes → FileInfo → Buffer → Option Buffer)
    (read : Option Bytes → ℕ → Buffer → Bytes) where
  unfoldable pub filled : List (Bytes × FileInfo) → Buffer → Option Buffer
  filled [] b = some b
  filled ((name, fi) ∷ l) b = elim (write name fi b) [ none ↦ none | some b' ↦ filled l b' ]

  -- The bytes that the buffer gives from the marker on; `none` is a refused entry.
  unfoldable pub read_directory :
      Bytes → Option Bytes → ℕ → Buffer → State → Option (Buffer × Bytes)
  unfolding filled
  read_directory dir marker size b s = elim (acquire (not (is_some marker)) b) [
    | none ↦ some (b, read marker size b)
    | some b' ↦ elim (filled (dir_entries dir s) b') [
      | none ↦ none
      | some b'' ↦ some (b'', read marker size b'')
    ]
  ]

unfoldable pub used_bytes : List (Bytes × Node) → ℕ
used_bytes [] = 0
used_bytes ((k, n) ∷ l) = length n.bytes + used_bytes l

pub record VolumeInfo : Type 0 where
  pub total_size : ℕ
  pub free_size : ℕ
  pub volume_label : Bytes

unfoldable pub get_volume_info : State → VolumeInfo
unfolding used_bytes
get_volume_info s = record {
  total_size = 2 ^ 32;
  free_size = 2 ^ 32 - used_bytes s.nodes;
  volume_label = text "NeuralFS";
}
