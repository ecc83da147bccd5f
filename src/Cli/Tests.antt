-- ===== src/Cli/Tests.antt =====
-- crates/neuralfs-cli/src/main.rs: the commands at a small volume.
use neural_file_system.Prelude.{
  ◌≡◌, ◌⊎◌, refl, true, some, none, [], ◌∷◌, ◌++◌, text, print, Error, arith, bytes_discrete,
  ℕ_discrete,
}
use neural_file_system.Protocol.{raised}
use neural_file_system.Filesystem.{split}
use neural_file_system.Filesystem.History.{open_blank_lem}
use neural_file_system.Filesystem.Paths.{blocked}
use neural_file_system.Filesystem.Samples.{machine}
use neural_file_system.Daemon.{handle_request}
use neural_file_system.Daemon.State
use neural_file_system.Daemon.State.{DaemonState}
use neural_file_system.Daemon.Samples.{host, disk, floats}
use neural_file_system.Daemon.Tests.{state, moment, volume_Room}
use neural_file_system.Cli.{
  Shell, World, line, failure_line, raw, fs, write, read, run, exit_code, source_bytes,
}
use neural_file_system.Cli.Wire.{store, serialize, deserialize, mirror, deserialize-serialize}
use neural_file_system.Cli.Stored.{read-write_command}

-- A user without files, whose standard input holds two bytes.
abbrev shell : Shell (DaemonState host) (Unit {0})
shell = record {
  send = λ req s. (some (handle_request disk moment req s).0, (handle_request disk moment req s).1);
  read_local = λ path files. none;
  stdin = λ files. some (text "hi");
  write_local = λ path bytes files. none;
  open_in_os = λ path files. none;
  encode = λ b. b;
  decode = λ b. some b;
  floats = floats;
}

abbrev world : World (DaemonState host) (Unit {0})
world = record { daemon = state; files = tt; printed = [] }

read-write_command_example :
    (((run shell (fs (write (text "/a") (text "-"))) world).1.printed
        ≡ line (text "wrote " ++ print 2 ++ text " bytes") ∷ [])
      × ((run shell
            (fs (read (text "/a") none))
            (run shell (fs (write (text "/a") (text "-"))) world).1).1.printed
          ≡ (run shell (fs (write (text "/a") (text "-"))) world).1.printed ++ raw (text "hi") ∷ [])
      × (exit_code shell (run shell (fs (write (text "/a") (text "-"))) world) ≡ 0)
      × (exit_code shell (
            run shell
              (fs (read (text "/a") none))
              (run shell (fs (write (text "/a") (text "-"))) world).1)
          ≡ 0))
    ⊎ ((e : Error) × ((run shell (fs (write (text "/a") (text "-"))) world).1.printed
          ≡ failure_line [] (raised e) ∷ [])
        × (blocked state.vfs.state.root (text "a" ∷ []) state.vfs ≡ true))
unfolding State.new split source_bytes bytes_discrete ℕ_discrete
read-write_command_example =
    read-write_command shell disk moment (λ req s. refl) (λ b. refl) (λ b. refl) (text "/a")
      (text "-") (text "hi") (text "a") [] world refl (open_blank_lem machine 100).2 refl
      (omega arith) volume_Room

deserialize-serialize_example :
    deserialize (serialize (store (text "/a") (text "aGk=")))
    ≡ some (mirror (store (text "/a") (text "aGk=")))
deserialize-serialize_example = deserialize-serialize (store (text "/a") (text "aGk="))
