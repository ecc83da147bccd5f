-- ===== src/Daemon/Bench.antt =====
-- `run_bench` of crates/neuralfs-daemon/src/ipc.rs. The times that it measures are given.
use neural_file_system.Prelude.{
  ℕ, zero, suc, ◌*◌, ◌/◌, min, max, List, [], ◌∷◌, ◌++◌, Bytes, text, print, length, Result, ok,
  err, ◌==◌, if◌then◌else◌, Bool,
}
use neural_file_system.Classifier.Reservoir.{xorshift64}
use neural_file_system.Host.{Floats, F64}
use neural_file_system.Platform.{Platform}
use neural_file_system.BlockStore.Codec.{to_le_bytes}
use neural_file_system.Filesystem.{Filesystem, Action, pure, ◌>>=◌, ◌>>◌}
use neural_file_system.Filesystem.Files
use neural_file_system.Filesystem.Files.{write_file, read_file}
use neural_file_system.Filesystem.Collection.{FsInfo, info}
use neural_file_system.Protocol.{Response, lines_response}
use neural_file_system.Daemon.Volume.{respond}

-- Words of eight bytes: the length of the payload is a multiple of eight.
fill : ℕ → ℕ → Bytes
fill zero x = []
fill (suc n) x = to_le_bytes 8 (xorshift64 x) ++ fill n (xorshift64 x)

unfoldable pub bench_payload : ℕ → Bytes
unfolding fill
bench_payload total = fill (total / 8) 0x9E3779B97F4A7C15

unique_of : Result FsInfo → ℕ
unique_of (ok i) = i.unique_blocks
unique_of (err e) = 0

-- Two lines of measured times: seconds, and megabytes in a second.
timed : Floats → Bytes → ℕ → ℕ → Bytes
timed F name mb seconds =
    name
    ++ F.fixed 3 seconds
    ++ text " s  ->  "
    ++ F.fixed 1 (F.div (F.of_nat mb) seconds)
    ++ text " MB/s"

bench_lines : Floats → ℕ → ℕ → ℕ → ℕ → ℕ → Bool → List Bytes
bench_lines F mb total unique write_s read_s same =
    (text "payload:            " ++ print mb ++ text " MiB (" ++ print total ++ text " bytes)")
    ∷ (text "unique blocks:      " ++ print unique ++ text " (dedup-resistant fill)")
    ∷ timed F (text "write (to disk):    ") mb write_s
    ∷ timed F (text "read (cache-warm):  ") mb read_s
    ∷ (text "integrity:          " ++ (if same then text "verified" else text "MISMATCH"))
    ∷ []

abbrev bench_path : Bytes
bench_path = text "/_bench/data.bin"

-- A call whose error is looked at instead of passed on.
attempt : {P : Platform} {A : Type 0} → Action P A → Action P (Result A)
attempt m s = let r = m s in (ok r.0, r.1)

module _ {P : Platform} where
  unfoldable pub run_bench : Floats → ℕ → F64 → F64 → Action P (List Bytes)
  unfolding unique_of timed bench_lines attempt
  run_bench F mb₀ write_s read_s =
      let mb = min (max mb₀ 1) 1024 in
      let total = mb * 1024 * 1024 in
      let payload = bench_payload total in
      do
        write_file bench_path payload
        read_back ← read_file bench_path
        i ← attempt info
        removed ← attempt (Files.remove (text "/_bench"))
        pure (
            bench_lines F mb total (unique_of i) write_s read_s
              (length read_back == length payload))

  unfoldable pub bench_volume : Floats → ℕ → F64 → F64 → Filesystem P → Response × Filesystem P
  unfolding respond
  bench_volume F mb write_s read_s v = respond lines_response (run_bench F mb write_s read_s v)
