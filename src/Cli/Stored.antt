-- ===== src/Cli/Stored.antt =====
-- crates/neuralfs-cli/src/main.rs against crates/neuralfs-daemon/src/ipc.rs: a file that `nfs fs write`
-- stores is what `nfs fs read` prints.
use neural_file_system.Prelude.{
  ◌≤◌, ◌≡◌, ◌∙◌, ◌⊎◌, inl, inr, ap, refl, sym, true, some, none, List, [], ◌∷◌, ◌++◌, Bytes, text,
  print, length, Error,
}
use neural_file_system.Host.{Host, Disk}
use neural_file_system.Inode.{Name}
use neural_file_system.Protocol.{Request, Response, fs_write, fs_read, default, raised}
use neural_file_system.Filesystem.{split}
use neural_file_system.Filesystem.Files.{inline_max}
use neural_file_system.Filesystem.Nodes.{IsSound}
use neural_file_system.Filesystem.Paths.{blocked}
use neural_file_system.Filesystem.Calls.{Room}
use neural_file_system.Daemon.{handle_request}
use neural_file_system.Daemon.State.{DaemonState, Moment}
use neural_file_system.Daemon.Writes.{fs_read-fs_write}
use neural_file_system.Cli.{
  Shell, World, line, failure_line, raw, fs, write, read, run, run_fs, write_command, read_command,
  read_found, deliver, source_bytes, show, ask, say, message_output, exit_code,
}

module _ {S Files : Type 0} (sh : Shell S Files) where
  -- What a write prints, when the daemon answers.
  write_command_lem :
      (vpath source bytes : Bytes) (resp : Response) (s' : S) (w : World S Files)
      → source_bytes sh source w.files ≡ some bytes
      → sh.send (fs_write vpath (sh.encode bytes)) w.daemon ≡ (some resp, s')
      → run sh (fs (write vpath source)) w
        ≡ (true, record w { daemon = s'; printed = w.printed ++ message_output resp })
  unfolding run run_fs write_command show ask say
  write_command_lem vpath source bytes resp s' w h e =
      rw (h, write_command) (rw (e, show) (rw (e, ask) refl))

  -- What a read prints, when the daemon answers with bytes.
  read_command_lem :
      (vpath code bytes : Bytes) (s' : S) (w : World S Files)
      → sh.send (fs_read vpath) w.daemon ≡ (some (record default { data_b64 = some code }), s')
      → sh.decode code ≡ some bytes
      → run sh (fs (read vpath none)) w
        ≡ (true, record w { daemon = s'; printed = w.printed ++ raw bytes ∷ [] })
  unfolding run run_fs read_command read_found deliver ask say
  read_command_lem vpath code bytes s' w e d = rw (e, d, read_command) (rw (e, ask) refl)

module _ {H : Host} {Files : Type 0} (sh : Shell (DaemonState H) Files) (D : Disk) (now : Moment)
    (answers : (req : Request) (s : DaemonState H)
      → sh.send req s ≡ (some (handle_request D now req s).0, (handle_request D now req s).1))
    (decoded : (b : Bytes) → sh.decode (sh.encode b) ≡ some b)
    (encoded : (b : Bytes) → H.b64_encode b ≡ sh.encode b) where
  -- Against a daemon with a sound volume and room for the inodes along the path, `nfs fs write`
  -- of a source of at most 4096 bytes to a path other than the root either prints the number of
  -- bytes, and then `nfs fs read` of the path prints the bytes of the source, both with exit code
  -- 0; or it prints the error, which it does only where a file is in the way of the path. The
  -- daemon answers every request, and the base64 of the client is that of the daemon and reads
  -- back what it wrote.
  pub read-write_command :
      (path source bytes : Bytes) (name : Name) (comps : List Name)
      (w : World (DaemonState H) Files)
      → source_bytes sh source w.files ≡ some bytes
      → IsSound w.daemon.vfs
      → split path ≡ name ∷ comps
      → length bytes ≤ inline_max
      → Room (name ∷ comps) w.daemon.vfs
      → let wrote = run sh (fs (write path source)) w in
        let back = run sh (fs (read path none)) wrote.1 in
        ((wrote.1.printed
            ≡ w.printed ++ line (text "wrote " ++ print (length bytes) ++ text " bytes") ∷ [])
          × (back.1.printed ≡ wrote.1.printed ++ raw bytes ∷ [])
          × (exit_code sh wrote ≡ 0)
          × (exit_code sh back ≡ 0))
        ⊎ ((e : Error) × (wrote.1.printed ≡ w.printed ++ failure_line [] (raised e) ∷ [])
            × (blocked w.daemon.vfs.state.root (name ∷ comps) w.daemon.vfs ≡ true))
  unfolding exit_code message_output
  read-write_command path source bytes name comps w h sound parts small room =
      let request = fs_write path (sh.encode bytes) in
      let r = handle_request D now request w.daemon in
      let wrote = write_command_lem sh path source bytes r.0 r.1 w h (answers request w.daemon) in
      let w₁ : World (DaemonState H) Files = record w {
        daemon = r.1;
        printed = w.printed ++ message_output r.0;
      } in
      let code = encoded bytes in
      let asked = λ (c : Bytes). handle_request D now (fs_write path c) w.daemon in
      let reading = fs (read path none) in
      elim (fs_read-fs_write {H = H} D now now path bytes name comps w.daemon sound parts small
        room) [
          | inl (reply, found) ↦
              let s₂ = (handle_request D now (fs_read path) r.1).1 in
              let reply' = ap (λ c. (asked c).0) (sym code) ∙ reply in
              let found' =
                ap (λ c. (handle_request D now (fs_read path) (asked c).1).0) (sym code)
                ∙ found
                ∙ ap (λ c. record default { data_b64 = some c }) code in
              let sent : sh.send (fs_read path) r.1
                  ≡ (some (record default { data_b64 = some (sh.encode bytes) }), s₂) =
                answers (fs_read path) r.1 ∙ ap (λ q. (some q, s₂)) found' in
              let back =
                read_command_lem sh path (sh.encode bytes) bytes s₂ w₁ sent (decoded bytes) in
              inl (
                ap (λ x. x.1.printed) wrote ∙ ap (λ q. w.printed ++ message_output q) reply',
                ap (λ x. (run sh reading x.1).1.printed) wrote
                    ∙ ap (λ x. x.1.printed) back
                    ∙ sym (ap (λ x. x.1.printed ++ raw bytes ∷ []) wrote),
                ap (exit_code sh) wrote,
                ap (λ x. exit_code sh (run sh reading x.1)) wrote ∙ ap (exit_code sh) back,
              )
          | inr (e, reply, b) ↦ inr (
            e,
            ap (λ x. x.1.printed) wrote
                ∙ ap (λ q. w.printed ++ message_output q)
                    (ap (λ c. (asked c).0) (sym code) ∙ reply),
            b,
          )
        ]
