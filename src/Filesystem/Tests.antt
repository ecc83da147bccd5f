-- ===== src/Filesystem/Tests.antt =====
-- The theorems on the filesystem, applied to a volume that was just opened.
use neural_file_system.Prelude.{
  ℕ, ◌<◌, ◌≡◌, ◌⊎◌, refl, none, some, Bytes, ok, err, Error, true, List, [], ◌∷◌, lookup, arith,
}
use neural_file_system.Inode.{Name, Inode, file, dir}
use neural_file_system.Filesystem.{Filesystem, split, resolve, rebuild, commit}
use neural_file_system.Filesystem.Files.{write_file, read_file, mkdir, remove, rename}
use neural_file_system.Filesystem.Snapshots.{open_with_cache, snapshot, rollback}
use neural_file_system.Filesystem.Nodes.{
  node, IsSound, Grows, Reads, Younger, with_inode, with_inode-next, with_inode-Grows,
}
use neural_file_system.Filesystem.Paths.{look, blocked, resolve_lem}
use neural_file_system.Filesystem.Rebuild.{Outcome, Diverges, rebuild_lem}
use neural_file_system.Filesystem.Renames.{Renames, rename-Renames}
use neural_file_system.Filesystem.SelfRename.{rename-Commits}
use neural_file_system.Filesystem.History.{
  Later, commit-Later, snapshot-IsSound, rollback-snapshot, blank, open_blank_lem,
}
use neural_file_system.Filesystem.Calls.{
  Changed, Commits, Puts, Room, remove_lem, mkdir_lem, read_file-write_file,
}
use neural_file_system.Filesystem.Samples.{machine}

abbrev volume : Filesystem machine
volume = (open_blank_lem machine 100).0

abbrev volume-IsSound : IsSound volume
volume-IsSound = (open_blank_lem machine 100).2

one_inode : volume.state.next_inode ≡ 1
one_inode = (open_blank_lem machine 100).4

open_blank_lem_example :
    (s : Filesystem machine) × (open_with_cache blank 100 ≡ ok s)
    × IsSound s
    × (node s.state.root s ≡ some (dir [] (machine.now 0)))
    × (s.state.next_inode ≡ 1)
open_blank_lem_example = open_blank_lem machine 100

-- "/a", and its only part.
abbrev path : Bytes
path = b'/' ∷ b'a' ∷ []

abbrev part : Name
part = b'a' ∷ []

split-path : split path ≡ part ∷ []
unfolding split
split-path = refl

volume-Room : Room (part ∷ []) volume
volume-Room = omega (arith, one_inode)

abbrev content : Bytes
content = 104 ∷ 105 ∷ []

read_file-write_file_example :
    ((u : Filesystem machine) × (write_file path content volume ≡ (ok tt, u))
      × ((read_file path u).0 ≡ ok content)
      × Changed volume u (part ∷ []) (some volume.state.next_inode))
    ⊎ ((e : Error) × (t : Filesystem machine) × (write_file path content volume ≡ (err e, t))
        × Grows volume t
        × (blocked volume.state.root (part ∷ []) volume ≡ true))
read_file-write_file_example =
    read_file-write_file path content part [] volume volume-IsSound split-path (omega arith)
      volume-Room

mkdir_lem_example :
    Puts volume (part ∷ []) (dir [] (machine.now volume.state.next_inode)) (mkdir path volume)
mkdir_lem_example = mkdir_lem path part [] volume volume-IsSound split-path volume-Room

remove_lem_example : Commits volume (part ∷ []) none (remove path volume)
remove_lem_example = remove_lem path part [] volume volume-IsSound split-path volume-Room

leaf_old : (i : ℕ) → some 0 ≡ some i → i < volume.state.next_inode
leaf_old i h = ground (arith, one_inode)

rebuild_lem_example :
    Outcome volume volume.state.root
      (part ∷ part ∷ [])
      (some 0)
      (rebuild volume.state.root part (part ∷ []) (some 0) volume)
rebuild_lem_example =
    rebuild_lem volume.state.root part (part ∷ []) (some 0) volume volume-IsSound
      volume-IsSound.rooted leaf_old (omega (arith, one_inode))

resolve_lem_example :
    (t : Filesystem machine) × Reads volume t
    × (((i : ℕ) × (look volume.state.root (split path) volume ≡ some i)
          × (resolve path volume ≡ (ok i, t)))
        ⊎ ((look volume.state.root (split path) volume ≡ none)
            × ((e : Error) × (resolve path volume ≡ (err e, t)))))
resolve_lem_example = resolve_lem path volume volume-IsSound

-- A snapshot, and a commit after it.
abbrev saved : Filesystem machine
saved = (snapshot part volume).1

saved_old : 0 < saved.state.next_inode
unfolding snapshot
saved_old = omega (arith, one_inode)

abbrev since : Later saved (commit 0 saved).1
since = commit-Later 0 saved (snapshot-IsSound part volume volume-IsSound) saved_old

rollback-snapshot_example :
    (u : Filesystem machine) × (rollback part (commit 0 saved).1 ≡ (ok tt, u))
    × IsSound u
    × ((q : List Name) → look u.state.root q u ≡ look volume.state.root q volume)
    × ((j : ℕ) → j < volume.state.next_inode → node j u ≡ node j volume)
rollback-snapshot_example = rollback-snapshot part volume (commit 0 saved).1 volume-IsSound since

-- A volume with a file under "/a": its inode, its directory and the commit of that.
abbrev note : Inode
note = file 2 [] content 5 420

abbrev with_note : Filesystem machine
with_note = with_inode note volume

with_note-Grows : Grows volume with_note
with_note-Grows = with_inode-Grows note volume volume-IsSound (omega (arith, one_inode)) tt

next_of_note : with_note.state.next_inode ≡ 2
next_of_note = omega (arith, one_inode, with_inode-next note volume)

abbrev home : Inode
home = dir ((part, 1) ∷ []) 6

home-Younger : Younger with_note.state.next_inode home
unfolding lookup
home-Younger k i h = ground (arith, next_of_note)

abbrev with_home : Filesystem machine
with_home = with_inode home with_note

with_home-Grows : Grows with_note with_home
with_home-Grows =
    with_inode-Grows home with_note with_note-Grows.sound (omega (arith, next_of_note)) home-Younger

abbrev filled : Filesystem machine
filled = (commit 2 with_home).1

filled-Later : Later with_home filled
filled-Later =
    commit-Later 2 with_home with_home-Grows.sound
      (omega (arith, next_of_note, with_inode-next home with_note))

next_of_filled : filled.state.next_inode ≡ 3
unfolding commit
next_of_filled = omega (arith, next_of_note, with_inode-next home with_note)

-- "/b".
abbrev other_path : Bytes
other_path = b'/' ∷ b'b' ∷ []

abbrev other_part : Name
other_part = b'b' ∷ []

split-other_path : split other_path ≡ other_part ∷ []
unfolding split
split-other_path = refl

parts_differ : Diverges (part ∷ []) (other_part ∷ [])
parts_differ h = absurd (ground arith)

rename-Renames_example :
    Renames filled (part ∷ []) (other_part ∷ []) (rename path other_path filled)
rename-Renames_example =
    rename-Renames path other_path part other_part [] [] filled filled-Later.sound split-path
      split-other_path parts_differ (omega (arith, next_of_filled))

rename-Commits_example : Commits filled (part ∷ []) none (rename path path filled)
rename-Commits_example =
    rename-Commits path part [] filled filled-Later.sound split-path (omega (arith, next_of_filled))
