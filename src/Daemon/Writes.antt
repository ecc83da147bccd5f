-- ===== src/Daemon/Writes.antt =====
-- `Request::FsWrite` and `Request::FsRead` of crates/neuralfs-daemon/src/ipc.rs, one after the other.
use neural_file_system.Prelude.{
  ◌≤◌, ◌≡◌, ◌∙◌, ◌⊎◌, inl, inr, ap, refl, true, some, List, ◌∷◌, ◌++◌, Bytes, text, print, length,
  leb, ltb, false, Result, ok, Error, arith,
}
use neural_file_system.Host.{Host, Disk}
use neural_file_system.Inode.{Name}
use neural_file_system.Protocol.{
  fs_write, fs_read, Response, default, raised, error_response, ok_response,
}
use neural_file_system.Filesystem.{split, Filesystem}
use neural_file_system.Filesystem.Files.{write_file, read_file, inline_max}
use neural_file_system.Filesystem.Nodes.{IsSound}
use neural_file_system.Filesystem.Paths.{blocked}
use neural_file_system.Filesystem.Calls.{Room, read_file-write_file}
use neural_file_system.Daemon.{handle_request, on_volume}
use neural_file_system.Daemon.Volume.{
  write_volume, read_volume, respond, read_response, max_ipc_bytes,
}
use neural_file_system.Daemon.State.{DaemonState, Moment}

abbrev wrote_response : Bytes → Unit {0} → Response
wrote_response bytes _ = ok_response (text "wrote " ++ print (length bytes) ++ text " bytes")

respond_ok :
    {V A : Type 0} (f : A → Response) (a : A) (r : Result A × V)
    → r.0 ≡ ok a
    → (respond f r).0 ≡ f a
unfolding respond
respond_ok f a r h = rw (h, respond) refl

module _ (H : Host) where
  write_volume_lem :
      (path bytes : Bytes) (v : Filesystem H.volume)
      → length bytes ≤ inline_max
      → write_volume H.b64_decode path (H.b64_encode bytes) v
        ≡ respond (wrote_response bytes) (write_file path bytes v)
  unfolding write_volume
  write_volume_lem path bytes v small =
      let fits : leb (length bytes) max_ipc_bytes ≡ true = ground arith in
      rw (H.decode-encode bytes, fits, write_volume) refl

  read_response_lem :
      (bytes : Bytes)
      → length bytes ≤ inline_max
      → read_response H.b64_encode bytes ≡ record default { data_b64 = some (H.b64_encode bytes) }
  unfolding read_response
  read_response_lem bytes small =
      let fits : ltb max_ipc_bytes (length bytes) ≡ false = ground arith in
      rw (fits, read_response) refl

module _ {H : Host} (D : Disk) (now later : Moment) where
  -- On a sound volume with room for the inodes along the path, a request to write at most 4096
  -- bytes, in base64, to a path other than the root is either answered with the number of bytes,
  -- and then a request to read the path is answered with the same bytes in base64; or it is
  -- answered with an error, which it is only where a file is in the way of the path.
  pub fs_read-fs_write :
      (path bytes : Bytes) (name : Name) (comps : List Name) (s : DaemonState H)
      → IsSound s.vfs
      → split path ≡ name ∷ comps
      → length bytes ≤ inline_max
      → Room (name ∷ comps) s.vfs
      → let r = handle_request D now (fs_write path (H.b64_encode bytes)) s in
        ((r.0 ≡ ok_response (text "wrote " ++ print (length bytes) ++ text " bytes"))
          × ((handle_request D later (fs_read path) r.1).0
              ≡ record default { data_b64 = some (H.b64_encode bytes) }))
        ⊎ ((e : Error) × (r.0 ≡ error_response (raised e))
            × (blocked s.vfs.state.root (name ∷ comps) s.vfs ≡ true))
  unfolding handle_request on_volume read_volume respond
  fs_read-fs_write path bytes name comps s w parts small room =
      elim (read_file-write_file path bytes name comps s.vfs w parts small room) [
        | inl (u, wrote, read, c) ↦
            let run =
              write_volume_lem H path bytes s.vfs small
              ∙ ap (respond (wrote_response bytes)) wrote in
            let back : (read_volume H.b64_encode path u).0
                ≡ record default { data_b64 = some (H.b64_encode bytes) } =
              respond_ok (read_response H.b64_encode) bytes (read_file path u) read
              ∙ read_response_lem H bytes small in
            inl (ap (λ r. r.0) run, ap (λ r. (read_volume H.b64_encode path r.1).0) run ∙ back)
        | inr (e, u, failed, g, b) ↦
            let run =
              write_volume_lem H path bytes s.vfs small
              ∙ ap (respond (wrote_response bytes)) failed in
            inr (e, ap (λ r. r.0) run, b)
      ]
