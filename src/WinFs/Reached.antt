-- ===== src/WinFs/Reached.antt =====
-- crates/neuralfs-daemon/src/winfsphost.rs: the states that the calls of a volume lead to.
use neural_file_system.Prelude.{ℕ, ◌≡◌, ◌≢◌, Bool, true, false, Option, Bytes}
use neural_file_system.WinFs.{State, root, new, create, cleanup, key_of, parent_of, is_dir_at}
use neural_file_system.WinFs.Calls.{write, set_file_size, set_basic_info}
use neural_file_system.WinFs.Names.{is_within, rename}
use neural_file_system.WinFs.Moves.{IsFree}
use neural_file_system.WinFs.Renamed.{rename-IsTree}
use neural_file_system.WinFs.Tree.{
  IsTree, new-IsTree, create-IsTree, cleanup-IsTree, write-IsTree, set_file_size-IsTree,
  set_basic_info-IsTree,
}

-- What the calls lead to from a new volume. The root is neither removed nor renamed, and a new name
-- is free and stands in a directory that does not itself move.
pub data Reached (security : Bytes) : State → Type 0 where
  start : (clock : Option ℕ) → Reached security (new security clock)
  creates :
      {s : State} (name : Bytes) (options attributes : ℕ) (clock : Option ℕ)
      → Reached security s
      → Reached security (create name options attributes clock s).0
  cleans :
      {s : State} (key : Bytes) (delete : Bool)
      → key ≢ root
      → Reached security s
      → Reached security (cleanup key delete s)
  writes :
      {s : State} (key buffer : Bytes) (offset : ℕ) (eof constrained : Bool) (clock : Option ℕ)
      → Reached security s
      → Reached security (write key buffer offset eof constrained clock s).0
  sizes :
      {s : State} (key : Bytes) (size : ℕ) (clock : Option ℕ)
      → Reached security s
      → Reached security (set_file_size key size clock s).0
  sets :
      {s : State} (key : Bytes) (attributes creation access last_write change : ℕ)
      → Reached security s
      → Reached security (set_basic_info key attributes creation access last_write change s).0
  renames :
      {s : State} (name new_name : Bytes) (replace_if_exists : Bool)
      → key_of name ≢ root
      → IsFree (key_of new_name) s
      → is_dir_at (parent_of (key_of new_name)) s ≡ true
      → is_within (key_of name) (parent_of (key_of new_name)) ≡ false
      → Reached security s
      → Reached security (rename name new_name replace_if_exists s).0

-- In every state that the calls lead to from a new volume, where the root is neither removed nor
-- renamed and a rename goes to a free name in a directory outside what moves, the root is a
-- directory, the parent of every name is a directory of the volume, and no two names share a
-- number or stand twice.
pub Reached-IsTree : {security : Bytes} {s : State} → Reached security s → IsTree s
Reached-IsTree (start clock) = new-IsTree _ clock
Reached-IsTree (creates name options attributes clock r) =
    create-IsTree name options attributes clock _ (Reached-IsTree r)
Reached-IsTree (cleans key delete ne r) = cleanup-IsTree key delete _ ne (Reached-IsTree r)
Reached-IsTree (writes key buffer offset eof constrained clock r) =
    write-IsTree key buffer offset eof constrained clock _ (Reached-IsTree r)
Reached-IsTree (sizes key size clock r) = set_file_size-IsTree key size clock _ (Reached-IsTree r)
Reached-IsTree (sets key attributes creation access last_write change r) =
    set_basic_info-IsTree key attributes creation access last_write change _ (Reached-IsTree r)
Reached-IsTree (renames name new_name replace_if_exists named free dir apart r) =
    rename-IsTree name new_name replace_if_exists _ (Reached-IsTree r) named free dir apart
