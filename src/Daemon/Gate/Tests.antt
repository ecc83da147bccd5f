-- ===== src/Daemon/Gate/Tests.antt =====
-- The gate of crates/neuralfs-daemon/src/state.rs with a lock that counts its guards, and the
-- theorem on it at a collection after a write.
use neural_file_system.Prelude.{
  ℕ, ◌+◌, ◌-◌, ◌≤◌, ◌≡◌, ◌⊎◌, ◌==◌, if◌then◌else◌, refl, Option, none, some, [], ◌∷◌, text, arith,
}
use neural_file_system.Protocol.{Request, fs_gc, fs_write}
use neural_file_system.Daemon.Gate.{
  RwLock, Running, Reachable, gate_use, take_gate, drop_gate, is_collection, is_file_write, count,
  start, next, begins, ends, Reachable-IsExclusive,
}

take_reader : ℕ × ℕ → Option (ℕ × ℕ)
take_reader (r, w) = if w == 0 then some (r + 1, w) else none

take_writer : ℕ × ℕ → Option (ℕ × ℕ)
take_writer (r, w) = if r + w == 0 then some (r, 1) else none

take_reader_lem : (l k : ℕ × ℕ) → take_reader l ≡ some k → (l.1 ≡ 0) × (k.0 ≡ l.0 + 1) × (k.1 ≡ 0)
unfolding take_reader
take_reader_lem l k h = ground arith

take_writer_lem :
    (l k : ℕ × ℕ) → take_writer l ≡ some k → (l.0 ≡ 0) × (l.1 ≡ 0) × (k.0 ≡ 0) × (k.1 ≡ 1)
unfolding take_writer
take_writer_lem l k h = ground arith

abbrev counters : RwLock
counters = record {
  Lock = ℕ × ℕ;
  new = (0, 0);
  readers = λ l. l.0;
  writers = λ l. l.1;
  read = take_reader;
  write = take_writer;
  drop_reader = λ l. (l.0 - 1, l.1);
  drop_writer = λ l. (l.0, l.1 - 1);
  new_lem = (refl, refl);
  read_lem = take_reader_lem;
  write_lem = take_writer_lem;
  drop_reader_lem = λ l. (refl, refl);
  drop_writer_lem = λ l. (refl, refl);
}

-- A file is written, and then a collection begins.
abbrev file_write : Request
file_write = fs_write (text "/a") []

abbrev collecting : Running counters
collecting = record { gate = (0, 1); working = fs_gc ∷ [] }

collecting-Reachable : Reachable counters collecting
unfolding gate_use take_gate drop_gate take_reader take_writer
collecting-Reachable =
    next (next (next start (begins _ file_write (1, 0) refl)) (ends _ [] file_write [] refl))
      (begins _ fs_gc (0, 1) refl)

Reachable-IsExclusive_example :
    (count is_collection collecting.working ≤ 1)
    × ((count is_collection collecting.working ≡ 0) ⊎ (count is_file_write collecting.working ≡ 0))
Reachable-IsExclusive_example = Reachable-IsExclusive counters collecting-Reachable
