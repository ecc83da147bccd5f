-- ===== src/Mount/Tests.antt =====
-- crates/neuralfs-daemon/src/mountfs.rs: a directory of files in memory, a mount of it, and the
-- theorems at it.
use neural_file_system.Prelude.{
  ◌+◌, ◌≡◌, refl, true, false, Option, none, some, List, [], ◌∷◌, ◌++◌, Bytes, text, length, take,
  drop, lookup, lookup-snoc, erase, arith, bytes_discrete, ℕ_discrete, is_some, if◌then◌else◌,
  iterate,
}
use neural_file_system.HashLink.{Linked, list_linked}
use neural_file_system.Cache
use neural_file_system.Cache.Segments.{peek}
use neural_file_system.Mount.{new, path_of, ino_for}
use neural_file_system.Mount.Backing.{Io, Backing, good, bad, Meta, other_access}
use neural_file_system.Mount.Names.{Mounted, bytes_read, lookup_name}
use neural_file_system.Mount.Files.{open_path, slice, read_path, keep_handle, count_open}
use neural_file_system.Mount.Reached.{Reached, mounts, looks_up, opens, read_path_lem}

abbrev Files : Type 0
Files = List (Bytes × Bytes)

abbrev meta_of : Bytes → Meta
meta_of b = record {
  is_dir = false;
  is_symlink = false;
  len = length b;
  accessed = none;
  modified = some 5;
  changed = some 5;
  mode = 420;
  nlink = 1;
  uid = 0;
  gid = 0;
  rdev = 0;
}

abbrev contents : Bytes → Files → Option Bytes
contents p d = lookup bytes_discrete p d

abbrev put : Bytes → Bytes → Files → Files
put p b d = erase bytes_discrete p d ++ (p, b) ∷ []

abbrev bytes_of : Bytes → Files → Bytes
bytes_of p d = elim (contents p d) [ none ↦ [] | some b ↦ b ]

-- What the metadata of a path is, and that a file that was put is there.
abbrev stat_file : Bytes → Files → Io Meta
stat_file p d = elim (contents p d) [ none ↦ bad none | some b ↦ good (meta_of b) ]

there_after :
    (p q : Bytes) (d d' : Files)
    → good (put q (bytes_of p d) (erase bytes_discrete p d)) ≡ good d'
    → (m : Meta) × (stat_file q d' ≡ good m)
unfolding lookup
there_after p q d d' h =
    let b = bytes_of p d in
    let here = lookup-snoc bytes_discrete q q b (erase bytes_discrete p d) in
    (meta_of b, ground (arith, h, here))

-- An open file is its path, and a directory is not kept.
abbrev in_memory : Backing
in_memory = record {
  Disk = Files;
  File = Bytes;
  join = λ p n. p ++ text "/" ++ n;
  symlink_metadata = stat_file;
  file_len = λ p d. elim (contents p d) [ none ↦ none | some b ↦ some (length b) ];
  read_whole = contents;
  read_dir = λ p d. some [];
  open_file = λ o p d. elim (contents p d) [
    | none ↦ if o.create then good (p, put p [] d) else bad none
    | some b ↦ good (p, if o.truncate then put p [] d else d)
  ];
  read_at = λ f off want d. good (slice off want (bytes_of f d));
  write_at = λ f b off d. (
    good (length b),
    put f (take off (bytes_of f d) ++ (b ++ drop (off + length b) (bytes_of f d))) d,
  );
  set_len = λ f n d. put f (take n (bytes_of f d)) d;
  sync_data = λ f d. d;
  sync_all = λ f d. d;
  create_dir = λ p d. good d;
  remove_file = λ p d. good (erase bytes_discrete p d);
  remove_dir = λ p d. good d;
  rename = λ p q d. good (put q (bytes_of p d) (erase bytes_discrete p d));
  symlink_metadata-rename = λ p q d d' h. there_after p q d d' h;
  access = λ flags. other_access;
  other_flags = λ flags. flags;
  truncates = λ flags. false;
}

abbrev linked : Linked ℕ_discrete Bytes
linked = list_linked ℕ_discrete

abbrev disk : Files
disk = (text "/b/f", 1 ∷ 2 ∷ 3 ∷ []) ∷ []

abbrev renamed : Files
renamed = put (text "/b/g") (1 ∷ 2 ∷ 3 ∷ []) (erase bytes_discrete (text "/b/f") disk)

start : Mounted linked in_memory
start = (new (text "/b") 100, disk)

found_once : Mounted linked in_memory
found_once = (lookup_name linked in_memory 1 (text "f") start).1

opened_once : Mounted linked in_memory
opened_once = (open_path linked in_memory 2 0 found_once).1

opened_twice : Mounted linked in_memory
opened_twice = (open_path linked in_memory 2 0 opened_once).1

-- The second open has brought the file to the RAM.
opened_twice_lem :
    (is_some (peek 2 opened_once.0.cache) ≡ false) × (is_some (peek 2 opened_twice.0.cache) ≡ true)
unfolding start found_once opened_once opened_twice new lookup_name open_path count_open keep_handle
    ino_for path_of lookup erase bytes_discrete ℕ_discrete iterate peek Cache.new Cache.contains
    Cache.insert Cache.enforce_total_cap Cache.invalidate
opened_twice_lem = (refl, refl)

opened_twice-Reached : Reached linked in_memory opened_twice
unfolding start found_once opened_once opened_twice new lookup_name open_path count_open keep_handle
    ino_for path_of lookup erase bytes_discrete ℕ_discrete
opened_twice-Reached =
    opens 2 0 (λ q. refl)
      (opens 2 0 (λ q. refl) (looks_up 1 (text "f") (mounts (text "/b") 100 disk)))

read_path_lem_example :
    (read_path linked in_memory 2 2 1 5 opened_twice).0 ≡ bytes_read (slice 1 5 (1 ∷ 2 ∷ 3 ∷ []))
unfolding start found_once opened_once opened_twice new lookup_name open_path count_open keep_handle
    ino_for path_of lookup erase bytes_discrete ℕ_discrete Cache.contains Cache.new
read_path_lem_example =
    read_path_lem linked in_memory 2 2 1 5 (text "/b/f") (1 ∷ 2 ∷ 3 ∷ []) (text "/b/f") opened_twice
      opened_twice-Reached refl refl refl refl
