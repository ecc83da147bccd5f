-- ===== src/Daemon/Volume.antt =====
-- The requests of crates/neuralfs-daemon/src/ipc.rs on the volume.
use neural_file_system.Prelude.{
  ℕ, true, false, Option, none, some, List, [], ◌∷◌, ◌++◌, map, Bytes, text, print, length,
  replicate, ◌-◌, ◌*◌, Result, ok, err, leb, ltb, if◌then◌else◌,
}
use neural_file_system.Host.{Floats}
use neural_file_system.Platform.{Platform}
use neural_file_system.Inode.{Name, Kind, file_kind, dir_kind, Stat}
use neural_file_system.Filesystem.{Filesystem}
use neural_file_system.Filesystem.Files
use neural_file_system.Filesystem.Files.{write_file, read_file, readdir, mkdir, stat}
use neural_file_system.Filesystem.Snapshots.{snapshot, list_snapshots, rollback}
use neural_file_system.Filesystem.Collection
use neural_file_system.Filesystem.Collection.{FsInfo, info, gc}
use neural_file_system.BlockStore.Compact.{CompactStats}
use neural_file_system.Protocol.{
  Response, said, raised, bad_base64, default, error_response, ok_response, lines_response,
}

abbrev pub max_ipc_bytes : ℕ
max_ipc_bytes = 16 * 1024 * 1024

-- The response to a result, and the volume after the call.
unfoldable pub respond : {V A : Type 0} → (A → Response) → Result A × V → Response × V
respond f (ok a, v) = (f a, v)
respond f (err e, v) = (error_response (raised e), v)

-- `{:<4}`.
pad : ℕ → Bytes → Bytes
pad n b = b ++ replicate (n - length b) b' '

kind_text : Kind → Bytes
kind_text file_kind = text "file"
kind_text dir_kind = text "dir"

entry_line : Name × Kind → Bytes
entry_line (name, kind) = pad 4 (kind_text kind) ++ text "  " ++ name

ls_response : List (Name × Kind) → Response
ls_response [] = lines_response (text "(empty)" ∷ [])
ls_response (e ∷ es) = lines_response (map entry_line (e ∷ es))

stat_response : Stat → Response
stat_response s = lines_response (
    (text "kind:    " ++ kind_text s.kind_of)
    ∷ (text "size:    " ++ print s.size ++ text " bytes")
    ∷ (text "blocks:  " ++ print s.blocks)
    ∷ (text "entries: " ++ print s.entries)
    ∷ (text "mtime:   " ++ print s.mtime)
    ∷ [])

snapshot_line : Name × ℕ → Bytes
snapshot_line (name, txg) = name ++ text "  (txg " ++ print txg ++ text ")"

snapshots_response : List (Name × ℕ) → Response
snapshots_response [] = lines_response (text "(no snapshots)" ∷ [])
snapshots_response (e ∷ es) = lines_response (map snapshot_line (e ∷ es))

-- The dash of the source, in UTF-8.
abbrev pub em_dash : Bytes
em_dash = 226 ∷ 128 ∷ 148 ∷ []

scrub_response : ℕ × List Bytes → Response
scrub_response (checked, []) = lines_response (
    (text "scrubbed " ++ print checked ++ text " blocks")
    ∷ (text "no errors " ++ em_dash ++ text " all checksums valid")
    ∷ [])
scrub_response (checked, h ∷ bad) = lines_response (
    (text "scrubbed " ++ print checked ++ text " blocks")
    ∷ (print (length (h ∷ bad)) ++ text " CORRUPT block(s):")
    ∷ h
    ∷ bad)

gc_response : CompactStats → Response
gc_response r = lines_response (
    (text "blocks kept:        " ++ print r.kept_blocks)
    ∷ (text "blocks dropped:     " ++ print r.dropped_blocks)
    ∷ (text "bytes reclaimed:    " ++ print r.bytes_reclaimed)
    ∷ [])

-- The quotient that `info` reports for deduplication.
dedup_ratio : Floats → FsInfo → ℕ
dedup_ratio F i = elim (leb i.physical_referenced 0) [
  | true ↦ F.of_nat 1
  | false ↦ F.div (F.of_nat i.referenced) (F.of_nat i.physical_referenced)
]

info_response : Floats → FsInfo → Response
info_response F i = lines_response (
    (text "transaction (txg):   " ++ print i.txg)
    ∷ (text "files:               " ++ print i.files)
    ∷ (text "directories:         " ++ print i.dirs)
    ∷ (text "unique blocks:       " ++ print i.unique_blocks)
    ∷ (text "logical bytes:       " ++ print i.logical_bytes)
    ∷ (text "physical (live):     " ++ print i.physical_referenced)
    ∷ (text "physical (total):    " ++ print i.physical_total)
    ∷ (text "reclaimable bytes:   " ++ print i.reclaimable_bytes)
    ∷ (text "dedup ratio:         " ++ F.fixed 2 (dedup_ratio F i) ++ text "x")
    ∷ [])

unfoldable pub read_response : (Bytes → Bytes) → Bytes → Response
read_response encode bytes =
    if ltb max_ipc_bytes (length bytes)
    then error_response (said (text "file exceeds 16 MiB IPC limit; too large to read over IPC"))
    else record default { data_b64 = some (encode bytes) }

module _ {P : Platform} where
  unfoldable pub write_volume :
      (Bytes → Option Bytes) → Bytes → Bytes → Filesystem P → Response × Filesystem P
  unfolding respond
  write_volume decode path data_b64 v = elim (decode data_b64) [
    | none ↦ (error_response bad_base64, v)
    | some bytes ↦
        if leb (length bytes) max_ipc_bytes
        then respond (λ _. ok_response (text "wrote " ++ print (length bytes) ++ text " bytes"))
            (write_file path bytes v)
        else (error_response (said (text "payload exceeds 16 MiB IPC limit")), v)
  ]

  unfoldable pub read_volume : (Bytes → Bytes) → Bytes → Filesystem P → Response × Filesystem P
  unfolding respond read_response
  read_volume encode path v = respond (read_response encode) (read_file path v)

  unfoldable pub ls_volume : Bytes → Filesystem P → Response × Filesystem P
  unfolding respond pad kind_text entry_line ls_response
  ls_volume path v = respond ls_response (readdir path v)

  unfoldable pub mkdir_volume : Bytes → Filesystem P → Response × Filesystem P
  unfolding respond
  mkdir_volume path v =
      respond (λ _. ok_response (text "created directory " ++ path)) (mkdir path v)

  unfoldable pub rm_volume : Bytes → Filesystem P → Response × Filesystem P
  unfolding respond
  rm_volume path v = respond (λ _. ok_response (text "removed " ++ path)) (Files.remove path v)

  unfoldable pub stat_volume : Bytes → Filesystem P → Response × Filesystem P
  unfolding respond kind_text stat_response
  stat_volume path v = respond stat_response (stat path v)

  unfoldable pub info_volume : Floats → Filesystem P → Response × Filesystem P
  unfolding respond dedup_ratio info_response
  info_volume F v = respond (info_response F) (info v)

  unfoldable pub snapshot_volume : Name → Filesystem P → Response × Filesystem P
  unfolding respond
  snapshot_volume name v =
      respond (λ _. ok_response (text "snapshot '" ++ name ++ text "' created")) (snapshot name v)

  unfoldable pub snapshots_volume : Filesystem P → Response × Filesystem P
  unfolding respond snapshot_line snapshots_response
  snapshots_volume v = respond snapshots_response (list_snapshots v, v)

  unfoldable pub rollback_volume : Name → Filesystem P → Response × Filesystem P
  unfolding respond
  rollback_volume name v =
      respond (λ _. ok_response (text "rolled back to snapshot '" ++ name ++ text "'"))
        (rollback name v)

  unfoldable pub scrub_volume : Filesystem P → Response × Filesystem P
  unfolding scrub_response
  scrub_volume v = (scrub_response (Collection.scrub v), v)

  unfoldable pub gc_volume : Filesystem P → Response × Filesystem P
  unfolding respond gc_response
  gc_volume v = respond gc_response (gc v)
