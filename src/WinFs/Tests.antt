-- ===== src/WinFs/Tests.antt =====
-- crates/neuralfs-daemon/src/winfsphost.rs: a small volume, and the theorems at it.
use neural_file_system.Prelude.{
  ◌≡◌, refl, true, false, none, some, [], ◌∷◌, Bytes, text, lookup, erase, ite, if◌then◌else◌,
  Distinct, bytes_discrete, ℕ_discrete, arith, starts_with,
}
use neural_file_system.WinFs.{
  file_info, State, Node, done, get_node, new, fresh, create, key_of, rfind, parent_of,
  now_filetime,
}
use neural_file_system.WinFs.Calls.{read, write, write_start, write_end}
use neural_file_system.WinFs.Names.{is_within, rename, moved_key}
use neural_file_system.WinFs.Contents.{write_lem, read-write, Written}
use neural_file_system.WinFs.Moves.{IsFree, rename_lem}
use neural_file_system.WinFs.Tree.{IsTree}
use neural_file_system.WinFs.Reached.{start, creates, renames, Reached-IsTree}

abbrev dir_name : Bytes
dir_name = text "\\a"

abbrev file_name : Bytes
file_name = text "\\a\\f"

abbrev empty_volume : State
unfolding new
empty_volume = new [] (some 0)

with_dir : State
with_dir = (create dir_name 1 0 none empty_volume).0

with_file : State
with_file = (create file_name 0 32 none with_dir).0

parent_of_file : parent_of file_name ≡ dir_name
unfolding parent_of rfind bytes_discrete ℕ_discrete
parent_of_file = refl

abbrev made_file : Node
unfolding fresh
made_file = fresh false 32 (now_filetime none) 3

file_there : get_node file_name with_file ≡ some made_file
unfolding with_file with_dir empty_volume create fresh lookup parent_of bytes_discrete ℕ_discrete
    key_of made_file erase
file_there = refl

-- The new name of the directory.
abbrev other_name : Bytes
other_name = text "\\b"

other_name-IsFree : IsFree (key_of other_name) with_file
unfolding with_file with_dir empty_volume create fresh lookup parent_of bytes_discrete ℕ_discrete
    key_of is_within starts_with erase
other_name-IsFree k h = ground arith

Reached-IsTree_example : IsTree (rename dir_name other_name false with_file).0
unfolding with_file with_dir empty_volume create fresh lookup parent_of bytes_discrete ℕ_discrete
    key_of erase is_within starts_with
Reached-IsTree_example = Reached-IsTree (
    renames dir_name other_name false (λ e. cc e) other_name-IsFree refl refl
      (creates file_name 0 32 none (creates dir_name 1 0 none (start (some 0)))))

once_each : Distinct bytes_discrete with_file.nodes
unfolding with_file with_dir empty_volume create fresh lookup parent_of bytes_discrete ℕ_discrete
    key_of erase
once_each = (refl, (refl, (refl, tt)))

rename_lem_example :
    ((rename dir_name other_name false with_file).1 ≡ done tt)
    × ((k : Bytes)
        → is_within (key_of dir_name) k ≡ true
        → get_node
            (moved_key (key_of dir_name) (key_of other_name) k)
            (rename dir_name other_name false with_file).0
          ≡ get_node k with_file)
    × ((k : Bytes)
        → is_within (key_of other_name) k ≡ false
        → get_node k (rename dir_name other_name false with_file).0
          ≡ (if is_within (key_of dir_name) k then none else get_node k with_file))
rename_lem_example = rename_lem dir_name other_name false with_file once_each other_name-IsFree

read-write_example :
    ((n' : Node) × (get_node file_name (write file_name (7 ∷ 8 ∷ []) 1 false false none with_file).0
        ≡ some n')
      × ((write file_name (7 ∷ 8 ∷ []) 1 false false none with_file).1 ≡ done (2, file_info n')))
    × (read file_name 2 1 (write file_name (7 ∷ 8 ∷ []) 1 false false none with_file).0
        ≡ done (2, 7 ∷ 8 ∷ []))
unfolding write_start
read-write_example =
    read-write file_name (7 ∷ 8 ∷ []) 1 false none with_file made_file file_there (omega arith)
      (omega arith) (omega arith)

write_lem_example :
    (n' : Node) × Written (7 ∷ 8 ∷ []) 1 3 made_file n'
    × ((write file_name (7 ∷ 8 ∷ []) 1 false false none with_file).1 ≡ done (2, file_info n'))
    × ((k : Bytes)
        → get_node k (write file_name (7 ∷ 8 ∷ []) 1 false false none with_file).0
          ≡ ite (bytes_discrete file_name k) (some n') (get_node k with_file))
unfolding write_start write_end
write_lem_example =
    write_lem file_name (7 ∷ 8 ∷ []) 1 false false none with_file made_file file_there (omega arith)
