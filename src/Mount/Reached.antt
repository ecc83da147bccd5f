-- ===== src/Mount/Reached.antt =====
-- crates/neuralfs-daemon/src/mountfs.rs: the states that the calls of a mount lead to, and what a read
-- answers in them.
use neural_file_system.Prelude.{
  arith, ℕ, ◌≡◌, ◌≢◌, refl, sym, ap, ◌∙◌, Option, some, inl, inr, Option-cases, Bytes, lookup,
  ℕ_discrete,
}
use neural_file_system.HashLink.{Linked}
use neural_file_system.Cache
use neural_file_system.Cache.Bounds.{new-IsBounded}
use neural_file_system.Cache.Lookup.{get-peek, peek-new}
use neural_file_system.Index.Links.{some_injective}
use neural_file_system.Mount.{new, path_of}
use neural_file_system.Mount.Backing.{Backing, good}
use neural_file_system.Mount.Tables.{new-IsInverse}
use neural_file_system.Mount.Names.{
  Mounted, bytes_read, lookup_name, setattr, readdir, mkdir, unlink, rmdir, rename_path,
}
use neural_file_system.Mount.Files.{
  open_path, create_file, slice, read_cold, read_path, write_path, flush, fsync, release,
  read_answer,
}
use neural_file_system.Mount.Coherent.{IsCoherent, KeepsFiles, KeepsOthers, disk_after, unchanged}
use neural_file_system.Mount.Steps.{
  lookup_name-IsCoherent, setattr-IsCoherent, readdir-IsCoherent, mkdir-IsCoherent,
  remove_by-IsCoherent, rename_path-IsCoherent, open_path-IsCoherent, create_file-IsCoherent,
  read_path-IsCoherent, write_path-IsCoherent, sync_by-IsCoherent,
}

module _ (L : Linked ℕ_discrete Bytes) (B : Backing) where
  -- From a new mount, by calls. Each changes the files of the paths that it is about and no others:
  -- so no directory with files is renamed, and no two paths are one file.
  pub data Reached : Mounted L B → Type 0 where
    mounts : (backing : Bytes) (cache_bytes : ℕ) (d : B.Disk) → Reached (new backing cache_bytes, d)
    looks_up :
        {s : Mounted L B} (parent : ℕ) (name : Bytes)
        → Reached s
        → Reached (lookup_name L B parent name s).1
    sets :
        {s : Mounted L B} (ino : ℕ) (size : Option ℕ) (p : Bytes)
        → path_of ino s.0 ≡ some p
        → KeepsOthers L B p s.1 (disk_after L B (setattr L B ino size s))
        → Reached s
        → Reached (setattr L B ino size s).1
    lists :
        {s : Mounted L B} (ino offset room : ℕ)
        → Reached s
        → Reached (readdir L B ino offset room s).1
    makes_dir :
        {s : Mounted L B} (parent : ℕ) (name : Bytes)
        → KeepsFiles L B s.1 (disk_after L B (mkdir L B parent name s))
        → Reached s
        → Reached (mkdir L B parent name s).1
    unlinks :
        {s : Mounted L B} (parent : ℕ) (name pp : Bytes)
        → path_of parent s.0 ≡ some pp
        → KeepsOthers L B (B.join pp name) s.1 (disk_after L B (unlink L B parent name s))
        → Reached s
        → Reached (unlink L B parent name s).1
    removes_dir :
        {s : Mounted L B} (parent : ℕ) (name pp : Bytes)
        → path_of parent s.0 ≡ some pp
        → KeepsOthers L B (B.join pp name) s.1 (disk_after L B (rmdir L B parent name s))
        → Reached s
        → Reached (rmdir L B parent name s).1
    renames :
        {s : Mounted L B} (parent new_parent : ℕ) (name new_name pp np : Bytes)
        → path_of parent s.0 ≡ some pp
        → path_of new_parent s.0 ≡ some np
        → ((q : Bytes)
            → q ≢ B.join pp name
            → q ≢ B.join np new_name
            → B.read_whole q (disk_after L B (rename_path L B parent name new_parent new_name s))
              ≡ B.read_whole q s.1)
        → Reached s
        → Reached (rename_path L B parent name new_parent new_name s).1
    opens :
        {s : Mounted L B} (ino flags : ℕ)
        → KeepsFiles L B s.1 (disk_after L B (open_path L B ino flags s))
        → Reached s
        → Reached (open_path L B ino flags s).1
    creates :
        {s : Mounted L B} (parent : ℕ) (name pp : Bytes) (flags : ℕ)
        → path_of parent s.0 ≡ some pp
        → KeepsOthers L B
            (B.join pp name)
            s.1
            (disk_after L B (create_file L B parent name flags s))
        → Reached s
        → Reached (create_file L B parent name flags s).1
    reads :
        {s : Mounted L B} (ino fh off want : ℕ)
        → KeepsFiles L B s.1 (disk_after L B (read_path L B ino fh off want s))
        → Reached s
        → Reached (read_path L B ino fh off want s).1
    writes :
        {s : Mounted L B} (ino fh off : ℕ) (bytes p : Bytes)
        → path_of ino s.0 ≡ some p
        → KeepsOthers L B p s.1 (disk_after L B (write_path L B ino fh off bytes s))
        → Reached s
        → Reached (write_path L B ino fh off bytes s).1
    flushes :
        {s : Mounted L B} (fh : ℕ)
        → KeepsFiles L B s.1 (disk_after L B (flush L B fh s))
        → Reached s
        → Reached (flush L B fh s).1
    syncs :
        {s : Mounted L B} (fh : ℕ)
        → KeepsFiles L B s.1 (disk_after L B (fsync L B fh s))
        → Reached s
        → Reached (fsync L B fh s).1
    releases : {s : Mounted L B} (fh : ℕ) → Reached s → Reached (release L B fh s).1

  new-IsCoherent :
      (backing : Bytes) (cache_bytes : ℕ) (d : B.Disk) → IsCoherent L B (new backing cache_bytes, d)
  unfolding new
  new-IsCoherent backing cache_bytes d = record {
    cached = λ i b h. absurd (ground (arith, peek-new L i cache_bytes));
    bounded = new-IsBounded cache_bytes;
    inverse = new-IsInverse backing cache_bytes;
  }

  pub Reached-IsCoherent : {s : Mounted L B} → Reached s → IsCoherent L B s
  unfolding unlink rmdir release flush fsync
  Reached-IsCoherent (mounts backing cache_bytes d) = new-IsCoherent backing cache_bytes d
  Reached-IsCoherent (looks_up parent name r) =
      lookup_name-IsCoherent L B parent name _ _ (Reached-IsCoherent r)
  Reached-IsCoherent (sets ino size p h k r) =
      setattr-IsCoherent L B ino size p _ _ h k (Reached-IsCoherent r)
  Reached-IsCoherent (lists ino offset room r) =
      readdir-IsCoherent L B ino offset room _ _ (Reached-IsCoherent r)
  Reached-IsCoherent (makes_dir parent name k r) =
      mkdir-IsCoherent L B parent name _ _ k (Reached-IsCoherent r)
  Reached-IsCoherent (unlinks parent name pp h k r) =
      remove_by-IsCoherent L B B.remove_file parent name pp _ _ h k (Reached-IsCoherent r)
  Reached-IsCoherent (removes_dir parent name pp h k r) =
      remove_by-IsCoherent L B B.remove_dir parent name pp _ _ h k (Reached-IsCoherent r)
  Reached-IsCoherent (renames parent new_parent name new_name pp np h g k r) =
      rename_path-IsCoherent L B parent new_parent name new_name pp np _ _ h g k
        (Reached-IsCoherent r)
  Reached-IsCoherent (opens ino flags k r) =
      open_path-IsCoherent L B ino flags _ _ k (Reached-IsCoherent r)
  Reached-IsCoherent (creates parent name pp flags h k r) =
      create_file-IsCoherent L B parent name pp flags _ _ h k (Reached-IsCoherent r)
  Reached-IsCoherent (reads ino fh off want k r) =
      read_path-IsCoherent L B ino fh off want _ _ k (Reached-IsCoherent r)
  Reached-IsCoherent (writes ino fh off bytes p h k r) =
      write_path-IsCoherent L B ino fh off bytes p _ _ h k (Reached-IsCoherent r)
  Reached-IsCoherent (flushes fh k r) =
      sync_by-IsCoherent L B B.sync_data fh _ _ k (Reached-IsCoherent r)
  Reached-IsCoherent (syncs fh k r) =
      sync_by-IsCoherent L B B.sync_all fh _ _ k (Reached-IsCoherent r)
  Reached-IsCoherent (releases fh r) =
      unchanged L B _ _ _ _ refl refl refl refl (λ q. refl) (Reached-IsCoherent r)

  -- In every state that calls of the mount lead to from a new one, each of which changes the
  -- files of its own paths and no others, a read of a number that has a path, through a handle
  -- that the system reads the file by, answers with the wanted range of the file as it is on the
  -- disk, whether it comes from the RAM or from the disk.
  pub read_path_lem :
      (ino fh off want : ℕ) (p whole : Bytes) (f : B.File) (s : Mounted L B)
      → Reached s
      → path_of ino s.0 ≡ some p
      → B.read_whole p s.1 ≡ some whole
      → lookup ℕ_discrete fh s.0.handles ≡ some f
      → B.read_at f off want s.1 ≡ good (slice off want whole)
      → (read_path L B ino fh off want s).0 ≡ bytes_read (slice off want whole)
  unfolding read_path read_cold read_answer
  read_path_lem ino fh off want p whole f (m, d) r here file handle reads_it =
      elim (Option-cases (Cache.get ino m.cache).0) [
        | inl h ↦ rw (h, here, read_path) (rw (handle, reads_it, read_cold) refl)
        | inr (b, h) ↦
            let (q, g, e) = (Reached-IsCoherent r).cached ino b (sym (get-peek ino m.cache) ∙ h) in
            let same : q ≡ p = some_injective g here in
            let bytes : b ≡ whole =
              some_injective {o = some b} refl (sym e ∙ ap (λ q. B.read_whole q d) same ∙ file) in
            rw (h, read_path) (ap (λ b. bytes_read (slice off want b)) bytes)
      ]
