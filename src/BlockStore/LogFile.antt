-- ===== src/BlockStore/LogFile.antt =====
-- The data log of crates/neuralfs-fs/src/blockstore.rs: a file as its bytes, with the calls of
-- `std::fs::File` that the block store makes. A seek and the read or write after it are one step,
-- since both stand under the log's lock.
use neural_file_system.Prelude.{
  ℕ, ◌+◌, ◌-◌, ◌≡◌, ap, Option, none, some, ◌++◌, Bytes, length, take, drop, replicate, drop-append,
  take-append_of_le, drop-append_of_le, take_all, drop_all, length-append, length-take, length-drop,
  leb, if◌then◌else◌, arith,
}
use mathlib.Core.List.{append-nil, append_assoc}

pub record DataLog : Type 0 where
  pub file : Bytes
  pub len : ℕ

-- `seek(Start(offset))` and `write_all(data)`; a gap before the offset reads as zeros.
unfoldable pub write_at : ℕ → Bytes → Bytes → Bytes
write_at offset bytes file =
    take offset file
    ++ (replicate (offset - length file) 0 ++ (bytes ++ drop (offset + length bytes) file))

-- `seek(Start(offset))` and `read_exact` of a buffer of `n` bytes; `none` is the error of a file
-- that ends too soon.
unfoldable pub read_exact : ℕ → ℕ → Bytes → Option Bytes
read_exact offset n file =
    if leb (offset + n) (length file) then some (take n (drop offset file)) else none

-- A write at the end of a file appends.
pub write_at_end : (file bytes : Bytes) → write_at (length file) bytes file ≡ file ++ bytes
unfolding write_at
write_at_end file bytes =
    let gap : length file - length file ≡ 0 = omega arith in
    rw (
      take_all file (length file) (omega arith),
      gap,
      drop_all file (length file + length bytes) (omega arith),
      append-nil,
    )

-- What was read is read again after an append.
pub read_exact-append :
    (offset n : ℕ) (file more b : Bytes)
    → read_exact offset n file ≡ some b
    → read_exact offset n (file ++ more) ≡ some b
unfolding read_exact
read_exact-append offset n file more b h = ground (
  arith,
  length-append file more,
  drop-append_of_le offset file more,
  take-append_of_le n (drop offset file) more,
  length-drop offset file,
)

-- A record that is appended reads back behind its header.
pub read_exact_record :
    (offset : ℕ) (file header bytes : Bytes)
    → length file + length header ≡ offset
    → read_exact offset (length bytes) (file ++ (header ++ bytes)) ≡ some bytes
unfolding read_exact
read_exact_record offset file header bytes h =
    let all = ap (λ (f : Bytes). drop offset f) (append_assoc file header bytes) in
    let tail_is =
      drop-append offset (file ++ header) bytes (omega (arith, length-append file header)) in
    let whole = take_all bytes (length bytes) (omega arith) in
    ground
      (arith, length-append file (header ++ bytes), length-append header bytes, all, tail_is, whole)

pub length-read_exact :
    (offset n : ℕ) (file b : Bytes) → read_exact offset n file ≡ some b → length b ≡ n
unfolding read_exact
length-read_exact offset n file b h =
    ground (arith, length-take n (drop offset file), length-drop offset file)
