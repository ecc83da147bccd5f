-- ===== src/Mount/Files.antt =====
-- crates/neuralfs-daemon/src/mountfs.rs: the calls on the bytes of files, and the promotion of a file
-- that is opened often. Offsets are not negative here: the source takes a negative one as zero. The
-- count of the opens is not wrapped.
use neural_file_system.Prelude.{
  ℕ, ◌+◌, ◌-◌, ◌*◌, ◌%◌, ◌^◌, Bool, true, false, not, ◌&&◌, Option, none, some, List, [], ◌∷◌, ◌++◌,
  Bytes, length, take, drop, lookup, erase, ℕ_discrete, ltb, leb, min, if◌then◌else◌,
}
use neural_file_system.HashLink.{Linked}
use neural_file_system.Cache
use neural_file_system.Mount.{PassthroughFs, ino_for, path_of}
use neural_file_system.Mount.Backing.{
  Backing, Io, good, bad, OpenOptions, Access, write_only, read_write, other_access,
}
use neural_file_system.Mount.Names.{
  enoent, errno, attr_from_meta, Answer, error, opened, created, bytes_read, written, success,
  entry_ttl, Mounted, for_writing,
}

abbrev max_cache_file : ℕ
max_cache_file = 256 * 1024 * 1024

abbrev hot_threshold : ℕ
hot_threshold = 2

abbrev for_reading : OpenOptions
for_reading = record {
  read = true;
  write = false;
  create = false;
  truncate = false;
  custom_flags = 0;
}

unfoldable pub open_options : Access → ℕ → OpenOptions
open_options write_only flags = record for_writing { custom_flags = flags }
open_options read_write flags = record for_writing { read = true; custom_flags = flags }
open_options other_access flags = record for_reading { custom_flags = flags }

abbrev pub is_for_reading : Access → Bool
is_for_reading write_only = false
is_for_reading read_write = true
is_for_reading other_access = true

abbrev pub opens_of : ℕ → List (ℕ × ℕ) → ℕ
opens_of ino freq = elim (lookup ℕ_discrete ino freq) [ none ↦ 0 | some c ↦ c ]

-- The part of the cached bytes that is wanted.
unfoldable pub slice : ℕ → ℕ → Bytes → Bytes
slice off want buf =
    let end = min (off + want) (length buf) in
    if ltb off (length buf) then take (end - off) (drop off buf) else []

unfoldable pub read_answer : Io Bytes → Answer
unfolding errno
read_answer (good b) = bytes_read b
read_answer (bad e) = error (errno e)

module _ (B : Backing) where
  -- The whole file, if it is small enough and can be read.
  unfoldable pub eligible : Bytes → B.Disk → Option Bytes
  eligible p d = elim (B.file_len p d) [
    | none ↦ none
    | some len ↦ if leb len max_cache_file then B.read_whole p d else none
  ]

  -- The range is read from the open file, or from the file that the path names.
  unfoldable pub read_cold : Bytes → ℕ → ℕ → ℕ → List (ℕ × B.File) → B.Disk → Answer × B.Disk
  unfolding read_answer errno
  read_cold p fh off want handles d = elim (lookup ℕ_discrete fh handles) [
    | some f ↦ (read_answer (B.read_at f off want d), d)
    | none ↦ elim (B.open_file for_reading p d) [
      | good (f, d') ↦ (read_answer (B.read_at f off want d'), d')
      | bad e ↦ (error (errno e), d)
    ]
  ]

module _ (L : Linked ℕ_discrete Bytes) (B : Backing) where
  -- `handles.insert` of a file under the next number.
  unfoldable pub keep_handle : B.File → PassthroughFs L B.File → PassthroughFs L B.File
  keep_handle f m = record m {
    next_fh = m.next_fh + 1;
    handles = erase ℕ_discrete m.next_fh m.handles ++ (m.next_fh, f) ∷ [];
  }

  -- One more open is counted, and a file that is opened often goes to the RAM.
  unfoldable pub count_open : ℕ → Bytes → B.Disk → PassthroughFs L B.File → PassthroughFs L B.File
  unfolding eligible
  count_open ino p d m =
      let c = opens_of ino m.freq + 1 in
      let counted : PassthroughFs L B.File = record m {
        freq = erase ℕ_discrete ino m.freq ++ (ino, c) ∷ [];
      } in
      if leb hot_threshold c && not (Cache.contains ino m.cache)
      then elim (eligible B p d) [
        | none ↦ counted
        | some whole ↦ record counted { cache = Cache.insert ino whole m.cache }
      ]
      else counted

  unfoldable pub open_path : ℕ → ℕ → Mounted L B → Answer × Mounted L B
  unfolding open_options keep_handle count_open errno
  open_path ino flags (m, d) = elim (path_of ino m) [
    | none ↦ (error enoent, (m, d))
    | some p ↦ elim (B.open_file (open_options (B.access flags) (B.other_flags flags)) p d) [
      | bad e ↦ (error (errno e), (m, d))
      | good (f, d') ↦
          let kept = keep_handle f m in
          let after = if is_for_reading (B.access flags) then count_open ino p d' kept else kept in
          (opened m.next_fh, (after, d'))
    ]
  ]

  unfoldable pub create_file : ℕ → Bytes → ℕ → Mounted L B → Answer × Mounted L B
  unfolding keep_handle errno
  create_file parent name flags (m, d) = elim (path_of parent m) [
    | none ↦ (error enoent, (m, d))
    | some pp ↦
        let child = B.join pp name in
        let options = record for_writing {
          read = true;
          create = true;
          truncate = B.truncates flags;
        } in
        elim (B.open_file options child d) [
          | bad e ↦ (error (errno e), (m, d))
          | good (f, d') ↦
              let found = ino_for child m in
              let kept = keep_handle f found.1 in
              let after : PassthroughFs L B.File = record kept {
                cache = Cache.invalidate found.0 kept.cache;
              } in
              (
                elim (B.symlink_metadata child d') [
                  | good meta ↦ created entry_ttl (attr_from_meta found.0 meta) found.1.next_fh
                  | bad e ↦ error (errno e)
                ],
                (after, d'),
              )
        ]
  ]

  unfoldable pub read_path : ℕ → ℕ → ℕ → ℕ → Mounted L B → Answer × Mounted L B
  unfolding slice read_cold
  read_path ino fh off want (m, d) =
      let cached = Cache.get ino m.cache in
      let m' : PassthroughFs L B.File = record m { cache = cached.1 } in
      elim cached.0 [
        | some buf ↦ (bytes_read (slice off want buf), (m', d))
        | none ↦ elim (path_of ino m) [
          | none ↦ (error enoent, (m', d))
          | some p ↦ let cold = read_cold B p fh off want m.handles d in (cold.0, (m', cold.1))
        ]
      ]

  -- The cached copy and the count are dropped, whatever became of the write.
  unfoldable pub after_write : ℕ → Io ℕ × B.Disk → PassthroughFs L B.File → Answer × Mounted L B
  unfolding errno
  after_write ino res m = (
    elim res.0 [ good n ↦ written (n % 2 ^ 32) | bad e ↦ error (errno e) ],
    (record m { cache = Cache.invalidate ino m.cache; freq = erase ℕ_discrete ino m.freq }, res.1),
  )

  unfoldable pub write_path : ℕ → ℕ → ℕ → Bytes → Mounted L B → Answer × Mounted L B
  unfolding after_write errno
  write_path ino fh off bytes (m, d) = elim (lookup ℕ_discrete fh m.handles) [
    | some f ↦ after_write ino (B.write_at f bytes off d) m
    | none ↦ elim (path_of ino m) [
      | none ↦ (error enoent, (m, d))
      | some p ↦ elim (B.open_file for_writing p d) [
        | bad e ↦ (error (errno e), (m, d))
        | good (f, d') ↦ after_write ino (B.write_at f bytes off d') m
      ]
    ]
  ]

  -- `flush` and `fsync`, which differ in the call of the system alone.
  unfoldable pub sync_by : (B.File → B.Disk → B.Disk) → ℕ → Mounted L B → Answer × Mounted L B
  sync_by sync fh (m, d) = elim (lookup ℕ_discrete fh m.handles) [
    | none ↦ (success, (m, d))
    | some f ↦ (success, (m, sync f d))
  ]

  unfoldable pub flush : ℕ → Mounted L B → Answer × Mounted L B
  unfolding sync_by
  flush = sync_by B.sync_data

  unfoldable pub fsync : ℕ → Mounted L B → Answer × Mounted L B
  unfolding sync_by
  fsync = sync_by B.sync_all

  unfoldable pub release : ℕ → Mounted L B → Answer × Mounted L B
  release fh (m, d) = (success, (record m { handles = erase ℕ_discrete fh m.handles }, d))
