-- ===== src/WinFs.antt =====
-- crates/neuralfs-daemon/src/winfsphost.rs: the file system in memory behind the Windows drive
-- letter. Names are the bytes of their text. A number of a file is not wrapped: 64 bits are not
-- used up. A buffer and the bytes of a file are shorter than 2 ^ 63.
pub mod Calls
pub mod Names
pub mod Tree
pub mod Contents
pub mod Within
pub mod Moves
pub mod Parents
pub mod Renamed
pub mod Reached
pub mod Tests
use Prim.Native.Nat.{bit_and, bit_or}
use neural_file_system.Prelude.{
  ℕ, zero, suc, ◌+◌, ◌-◌, ◌*◌, ◌/◌, ◌%◌, ◌^◌, Bool, true, false, not, ◌&&◌, Option, none, some,
  List, [], ◌∷◌, ◌++◌, Bytes, length, take, drop, lookup, erase, bytes_discrete, ite, ltb, leb,
  ◌==◌, if◌then◌else◌, is_some,
}

abbrev file_attribute_directory : ℕ
file_attribute_directory = 0x10

abbrev file_attribute_archive : ℕ
file_attribute_archive = 0x20

abbrev file_directory_file : ℕ
file_directory_file = 0x1

-- `now_filetime`, of the nanoseconds since 1970 if the clock stands after it.
unfoldable pub now_filetime : Option ℕ → ℕ
now_filetime clock =
    (elim clock [ none ↦ 0 | some nanos ↦ nanos / 100 % 2 ^ 64 ] + 116444736000000000) % 2 ^ 64

pub record Node : Type 0 where
  pub is_dir : Bool
  pub attributes : ℕ
  pub bytes : Bytes
  pub creation_time : ℕ
  pub last_access_time : ℕ
  pub last_write_time : ℕ
  pub change_time : ℕ
  pub index_number : ℕ

pub record FileInfo : Type 0 where
  pub file_attributes : ℕ
  pub allocation_size : ℕ
  pub file_size : ℕ
  pub creation_time : ℕ
  pub last_access_time : ℕ
  pub last_write_time : ℕ
  pub change_time : ℕ
  pub index_number : ℕ

-- The size on the disk is rounded up to whole pages.
unfoldable pub file_info : Node → FileInfo
file_info n = record {
  file_attributes = n.attributes;
  allocation_size = (length n.bytes + 4095) / 4096 * 4096;
  file_size = length n.bytes;
  creation_time = n.creation_time;
  last_access_time = n.last_access_time;
  last_write_time = n.last_write_time;
  change_time = n.change_time;
  index_number = n.index_number;
}

pub record State : Type 0 where
  pub nodes : List (Bytes × Node)
  pub security : Bytes
  pub next_index : ℕ

-- The codes of Windows that a call fails with.
pub data Status : Type 0 where
  access_denied end_of_file object_name_collision object_name_not_found : Status

-- A call ends with its answer, with a code, or by a panic.
pub data Reply {ℓ} (A : Type ℓ) : Type ℓ where
  done : A → Reply A
  failed : Status → Reply A
  panic : Reply A

abbrev pub separator : ℕ
separator = 92

abbrev pub root : Bytes
root = separator ∷ []

-- `nodes.get` and `nodes.insert`.
abbrev pub get_node : Bytes → State → Option Node
get_node k s = lookup bytes_discrete k s.nodes

unfoldable pub set_node : Bytes → Node → State → State
set_node k n s = record s { nodes = erase bytes_discrete k s.nodes ++ (k, n) ∷ [] }

unfoldable pub fresh : Bool → ℕ → ℕ → ℕ → Node
fresh dir attributes now index = record {
  is_dir = dir;
  attributes = attributes;
  bytes = [];
  creation_time = now;
  last_access_time = now;
  last_write_time = now;
  change_time = now;
  index_number = index;
}

-- The security descriptor is that which Windows makes from its text.
unfoldable pub new : Bytes → Option ℕ → State
unfolding fresh
new security clock = record {
  nodes = (root, fresh true file_attribute_directory (now_filetime clock) 1) ∷ [];
  security = security;
  next_index = 2;
}

-- `key_of`, of a name that is decoded.
unfoldable pub key_of : Bytes → Bytes
key_of [] = root
key_of (c ∷ cs) = c ∷ cs

-- `rfind('\\')`.
unfoldable pub rfind : Bytes → Option ℕ
rfind [] = none
rfind (c ∷ cs) = elim (rfind cs) [
  | some i ↦ some (suc i)
  | none ↦ if c == separator then some 0 else none
]

unfoldable pub parent_of : Bytes → Bytes
unfolding rfind
parent_of key =
    ite (bytes_discrete key root) root
      (elim (rfind key) [ none ↦ root | some zero ↦ root | some (suc i) ↦ take (suc i) key ])

unfoldable pub basename_of : Bytes → Bytes
unfolding rfind
basename_of key = elim (rfind key) [ some i ↦ drop (i + 1) key | none ↦ key ]

abbrev pub is_dir_at : Bytes → State → Bool
is_dir_at k s = elim (get_node k s) [ some p ↦ p.is_dir | none ↦ false ]

unfoldable pub wants_dir : ℕ → Bool
wants_dir create_options = not (bit_and create_options file_directory_file == 0)

unfoldable pub create_attributes : Bool → ℕ → ℕ
create_attributes dir file_attributes =
    if dir
    then file_attribute_directory
    else bit_or (bit_and file_attributes (2 ^ 32 - 1 - file_attribute_directory))
        file_attribute_archive

-- An open or a new file is answered with its key, which the handle holds, and what is known of it.
unfoldable pub open_node : Bytes → State → Reply (Bytes × FileInfo)
open_node file_name s =
    let key = key_of file_name in
    elim (get_node key s) [ none ↦ failed object_name_not_found | some n ↦ done (key, file_info n) ]

unfoldable pub create : Bytes → ℕ → ℕ → Option ℕ → State → State × Reply (Bytes × FileInfo)
unfolding wants_dir create_attributes fresh set_node
create file_name create_options file_attributes clock s =
    let key = key_of file_name in
    let dir = wants_dir create_options in
    let attributes = create_attributes dir file_attributes in
    let node = fresh dir attributes (now_filetime clock) s.next_index in
    if is_some (get_node key s)
    then (s, failed object_name_collision)
    else if is_dir_at (parent_of key) s
    then (
      set_node key node (record s { next_index = s.next_index + 1 }),
      done (key, file_info node),
    )
    else (s, failed object_name_not_found)

-- Some other key stands below this one.
unfoldable pub has_child : Bytes → List (Bytes × Node) → Bool
unfolding parent_of
has_child key [] = false
has_child key ((k, n) ∷ l) =
    let rest = has_child key l in
    ite (bytes_discrete k key) rest (ite (bytes_discrete (parent_of k) key) true rest)

-- `cleanup`, told if the flags ask for a removal, which the host library reads from them.
unfoldable pub cleanup : Bytes → Bool → State → State
unfolding has_child
cleanup key delete s =
    if delete && not (has_child key s.nodes)
    then record s { nodes = erase bytes_discrete key s.nodes }
    else s
