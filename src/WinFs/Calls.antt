-- ===== src/WinFs/Calls.antt =====
-- crates/neuralfs-daemon/src/winfsphost.rs: the calls on the bytes and the times of an open file.
use neural_file_system.Prelude.{
  ℕ, ◌+◌, ◌-◌, ◌^◌, ◌%◌, Bool, false, ◌&&◌, ◌||◌, Option, none, some, ◌++◌, Bytes, length, take,
  drop, replicate, ltb, leb, ◌==◌, if◌then◌else◌, min,
}
use neural_file_system.WinFs.{
  Node, FileInfo, file_info, State, Reply, done, failed, panic, access_denied, end_of_file,
  object_name_not_found, get_node, set_node, now_filetime,
}

pub record FileSecurity : Type 0 where
  pub reparse : Bool
  pub sz_security_descriptor : ℕ
  pub attributes : ℕ

-- The buffer is filled if the descriptor fits, and the answer has its length either way.
unfoldable pub fill_security : Bytes → Bytes → Bytes
fill_security sd buffer =
    if leb (length sd) (length buffer) then sd ++ drop (length sd) buffer else buffer

unfoldable pub get_security_by_name :
    Bytes → Option Bytes → State → Reply (Option Bytes × FileSecurity)
unfolding fill_security
get_security_by_name key buffer s = elim (get_node key s) [
  | none ↦ failed object_name_not_found
  | some n ↦ done (
    elim buffer [ none ↦ none | some b ↦ some (fill_security s.security b) ],
    record {
      reparse = false;
      sz_security_descriptor = length s.security;
      attributes = n.attributes;
    },
  )
]

-- The answered number, which is `len as u32`, and the bytes that are copied to a buffer of `size`
-- bytes.
unfoldable pub read : Bytes → ℕ → ℕ → State → Reply (ℕ × Bytes)
read key size offset s = elim (get_node key s) [
  | none ↦ failed object_name_not_found
  | some n ↦
      let end = min (offset + size) (length n.bytes) in
      let len = end - offset in
      if leb (length n.bytes) offset
      then failed end_of_file
      else done (len % 2 ^ 32, take len (drop offset n.bytes))
]

-- `Vec::resize` with zeros.
unfoldable pub resize : ℕ → Bytes → Bytes
resize n bytes = take n bytes ++ replicate (n - length bytes) 0

-- The bytes with some of them written over.
unfoldable pub overwrite : ℕ → Bytes → Bytes → Bytes
overwrite start new bytes = take start bytes ++ (new ++ drop (start + length new) bytes)

-- The start and the end of a write.
unfoldable pub write_start : ℕ → Bool → Bytes → ℕ
write_start offset write_to_eof bytes = if write_to_eof then length bytes else offset

unfoldable pub write_end : ℕ → ℕ → Bool → Bytes → ℕ
write_end start size constrained bytes =
    if constrained then min (start + size) (length bytes) else start + size

-- The sum of the start and the size has 64 bits, and no vector is as long as 2 ^ 63.
unfoldable pub too_far : ℕ → ℕ → ℕ → Bytes → Bool
too_far start size end bytes =
    leb (2 ^ 64) (start + size) || (ltb (length bytes) end && leb (2 ^ 63) end)

unfoldable pub write_node : Bytes → ℕ → ℕ → ℕ → Node → Node
unfolding resize overwrite
write_node buffer start end now n =
    let bytes = if ltb (length n.bytes) end then resize end n.bytes else n.bytes in
    record n { bytes = overwrite start (take (end - start) buffer) bytes; last_write_time = now }

-- The answered number is `len as u32`.
unfoldable pub write :
    Bytes → Bytes → ℕ → Bool → Bool → Option ℕ → State → State × Reply (ℕ × FileInfo)
unfolding write_start write_end too_far write_node set_node
write key buffer offset write_to_eof constrained_io clock s = elim (get_node key s) [
  | none ↦ (s, failed access_denied)
  | some n ↦
      let start = write_start offset write_to_eof n.bytes in
      let end = write_end start (length buffer) constrained_io n.bytes in
      let n' = write_node buffer start end (now_filetime clock) n in
      if constrained_io && leb (length n.bytes) start
      then (s, done (0, file_info n))
      else if too_far start (length buffer) end n.bytes
      then (s, panic)
      else (set_node key n' s, done ((end - start) % 2 ^ 32, file_info n'))
]

unfoldable pub get_file_info : Bytes → State → Reply FileInfo
get_file_info key s = elim (get_node key s) [
  | none ↦ failed object_name_not_found
  | some n ↦ done (file_info n)
]

unfoldable pub set_file_size : Bytes → ℕ → Option ℕ → State → State × Reply FileInfo
unfolding resize set_node
set_file_size key new_size clock s = elim (get_node key s) [
  | none ↦ (s, failed object_name_not_found)
  | some n ↦
      let n' = record n { bytes = resize new_size n.bytes; last_write_time = now_filetime clock } in
      if ltb (length n.bytes) new_size && leb (2 ^ 63) new_size
      then (s, panic)
      else (set_node key n' s, done (file_info n'))
]

-- A zero leaves what stands, and so do attributes of all ones.
abbrev unless_zero : ℕ → ℕ → ℕ
unless_zero new old = if new == 0 then old else new

unfoldable pub basic_info : ℕ → ℕ → ℕ → ℕ → ℕ → Node → Node
basic_info attributes creation access last_write change n = record n {
  attributes =
      if attributes == 2 ^ 32 - 1 then n.attributes else unless_zero attributes n.attributes;
  creation_time = unless_zero creation n.creation_time;
  last_access_time = unless_zero access n.last_access_time;
  last_write_time = unless_zero last_write n.last_write_time;
  change_time = unless_zero change n.change_time;
}

unfoldable pub set_basic_info : Bytes → ℕ → ℕ → ℕ → ℕ → ℕ → State → State × Reply FileInfo
unfolding basic_info set_node
set_basic_info key attributes creation access last_write change s = elim (get_node key s) [
  | none ↦ (s, failed object_name_not_found)
  | some n ↦
      let n' = basic_info attributes creation access last_write change n in
      (set_node key n' s, done (file_info n'))
]
