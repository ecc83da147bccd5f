-- ===== src/Daemon/Connection.antt =====
-- `handle_connection` of crates/neuralfs-daemon/src/ipc.rs: the lines of a client, one after the
-- other. The parser of a request is `serde_json`'s; a response goes out as one line.
use neural_file_system.Prelude.{
  ℕ, suc, ◌≡◌, ap, refl, Option, none, some, List, [], ◌∷◌, Bytes, length, inl, inr,
}
use neural_file_system.Host.{Host, Disk}
use neural_file_system.Protocol.{Request, Response, bad_request, error_response}
use neural_file_system.Search.Found.{List-cases}
use neural_file_system.Daemon.{handle_request}
use neural_file_system.Daemon.State.{DaemonState, Moment}

-- The lines that are not blank.
unfoldable pub asked : (Bytes → Bytes) → List (Bytes × Disk × Moment) → ℕ
asked trim [] = 0
asked trim ((line, D, now) ∷ lines) = elim (trim line) [
  | [] ↦ asked trim lines
  | c ∷ cs ↦ suc (asked trim lines)
]

module _ {H : Host} (parse : Bytes → Option Request) where
  unfoldable pub handle_line : Disk → Moment → Bytes → DaemonState H → Response × DaemonState H
  handle_line D now line s = elim (parse line) [
    | none ↦ (error_response bad_request, s)
    | some req ↦ handle_request D now req s
  ]

  -- A line that is empty once it is trimmed has no response.
  unfoldable pub handle_connection :
      List (Bytes × Disk × Moment) → DaemonState H → List Response × DaemonState H
  handle_connection [] s = ([], s)
  handle_connection ((line, D, now) ∷ lines) s = elim (H.trim line) [
    | [] ↦ handle_connection lines s
    | c ∷ cs ↦
        let r = handle_line D now line s in
        let rest = handle_connection lines r.1 in (r.0 ∷ rest.0, rest.1)
  ]

  -- Each line that is not blank has exactly one response, even one that is no request.
  length-handle_connection :
      (lines : List (Bytes × Disk × Moment)) (s : DaemonState H)
      → length (handle_connection lines s).0 ≡ asked H.trim lines
  unfolding handle_connection asked
  length-handle_connection [] s = refl
  length-handle_connection ((line, D, now) ∷ lines) s = elim (List-cases (H.trim line)) [
    | inl h ↦ rw (h, handle_connection, asked) (length-handle_connection lines s)
    | inr (c, cs, h) ↦
        rw (h, handle_connection, asked)
          (ap suc (length-handle_connection lines (handle_line D now line s).1))
  ]
