-- ===== src/Mount/Steps.antt =====
-- crates/neuralfs-daemon/src/mountfs.rs: every call keeps the files in RAM those of the disk, as long
-- as the disk changes through the mount and no directory is renamed.
use neural_file_system.Prelude.{
  ℕ, ◌≡◌, ◌≢◌, ◌⊎◌, refl, sym, ap, ◌∙◌, subst, true, not, ◌&&◌, Option, none, some, List, [], ◌∷◌,
  inl, inr, Bool-cases, Option-cases, Bytes, lookup, ℕ_discrete, arith, leb, ◌+◌,
}
use neural_file_system.HashLink.{Linked}
use neural_file_system.Cache
use neural_file_system.Cache.Bounds.{IsBounded, get-IsBounded}
use neural_file_system.Cache.Lookup.{get-Loses}
use neural_file_system.Cache.Segments.{peek}
use neural_file_system.Mount.{PassthroughFs, ino_for, path_of, forget_path}
use neural_file_system.Mount.Backing.{DirEnt, Backing, Io, good, bad}
use neural_file_system.Mount.Tables.{ino_for-IsInverse, forget_path-IsInverse}
use neural_file_system.Mount.Names.{
  for_writing, lookup_name, setattr, mkdir, remove_by, rename_path, number_all, readdir,
}
use neural_file_system.Mount.Files.{
  keep_handle, eligible, count_open, opens_of, open_options, is_for_reading, open_path, create_file,
  read_path, after_write, write_path, sync_by,
}
use neural_file_system.Mount.Coherent.{
  IsCoherent, KeepsFiles, KeepsOthers, disk_after, carried, changed_one, same_tables, unchanged,
  put_whole, path_of-ino_for, cache-ino_for, forgotten, cache-forget_path,
}

Io-cases {ℓ} : {A : Type ℓ} (r : Io A) → ((a : A) × (r ≡ good a)) ⊎ ((e : Option ℕ) × (r ≡ bad e))
Io-cases (good a) = inl (a, refl)
Io-cases (bad e) = inr (e, refl)

module _ (L : Linked ℕ_discrete Bytes) (B : Backing) where
  pub write_path-IsCoherent :
      (ino fh off : ℕ) (bytes p : Bytes) (m : PassthroughFs L B.File) (d : B.Disk)
      → path_of ino m ≡ some p
      → KeepsOthers L B p d (disk_after L B (write_path L B ino fh off bytes (m, d)))
      → IsCoherent L B (m, d)
      → IsCoherent L B (write_path L B ino fh off bytes (m, d)).1
  unfolding write_path after_write
  write_path-IsCoherent ino fh off bytes p m d here =
      elim (Option-cases (lookup ℕ_discrete fh m.handles)) [
        | inr (f, h) ↦
            rw (h, write_path)
              (λ frame c.
                changed_one L B m _ d _ ino p here refl refl
                  (same_tables L B m _ refl refl refl c.inverse) frame c)
        | inl h ↦ elim (Io-cases (B.open_file for_writing p d)) [
          | inl ((f, d₁), o) ↦
              rw (h, here, o, write_path)
                (λ frame c.
                  changed_one L B m _ d _ ino p here refl refl
                    (same_tables L B m _ refl refl refl c.inverse) frame c)
          | inr (e, o) ↦ rw (h, here, o, write_path) (λ frame c. c)
        ]
      ]

  pub setattr-IsCoherent :
      (ino : ℕ) (size : Option ℕ) (p : Bytes) (m : PassthroughFs L B.File) (d : B.Disk)
      → path_of ino m ≡ some p
      → KeepsOthers L B p d (disk_after L B (setattr L B ino size (m, d)))
      → IsCoherent L B (m, d)
      → IsCoherent L B (setattr L B ino size (m, d)).1
  unfolding setattr
  setattr-IsCoherent ino none p m d here = rw (here, setattr) (λ frame c. c)
  setattr-IsCoherent ino (some n) p m d here =
      rw (here, setattr)
        (λ frame c.
          changed_one L B m _ d _ ino p here refl refl
            (same_tables L B m _ refl refl refl c.inverse) frame c)

  eligible_whole :
      (p whole : Bytes) (d : B.Disk) → eligible B p d ≡ some whole → B.read_whole p d ≡ some whole
  unfolding eligible
  eligible_whole p whole d h = ground arith

  promoted :
      (ino : ℕ) (p : Bytes) (m : PassthroughFs L B.File) (d : B.Disk)
      → path_of ino m ≡ some p
      → IsCoherent L B (m, d)
      → IsCoherent L B (count_open L B ino p d m, d)
  unfolding count_open
  promoted ino p m d here c =
      elim (Bool-cases (leb 2 (opens_of ino m.freq + 1) && not (Cache.contains ino m.cache))) [
        | inr cold ↦ rw (cold, count_open) (unchanged L B m _ d d refl refl refl refl (λ q. refl) c)
        | inl hot ↦ elim (Option-cases (eligible B p d)) [
          | inl fails ↦
              rw (hot, fails, count_open) (unchanged L B m _ d d refl refl refl refl (λ q. refl) c)
          | inr (whole, e) ↦
              rw (hot, e, count_open)
                (put_whole L B m _ d ino p whole here (eligible_whole p whole d e) refl refl refl
                  refl c)
        ]
      ]

  pub open_path-IsCoherent :
      (ino flags : ℕ) (m : PassthroughFs L B.File) (d : B.Disk)
      → KeepsFiles L B d (disk_after L B (open_path L B ino flags (m, d)))
      → IsCoherent L B (m, d)
      → IsCoherent L B (open_path L B ino flags (m, d)).1
  unfolding open_path keep_handle path_of
  open_path-IsCoherent ino flags m d = elim (Option-cases (path_of ino m)) [
    | inl h ↦ rw (h, open_path) (λ frame c. c)
    | inr (p, h) ↦
        elim (Io-cases (B.open_file (open_options (B.access flags) (B.other_flags flags)) p d)) [
          | inr (e, o) ↦ rw (h, o, open_path) (λ frame c. c)
          | inl ((f, d₁), o) ↦
              rw (h, o, open_path)
                (λ frame c.
                  let kept =
                    unchanged L B m (keep_handle L B f m) d d₁ refl refl refl refl frame c in
                  elim (Bool-cases (is_for_reading (B.access flags))) [
                    | inl reads ↦ rw reads (promoted ino p (keep_handle L B f m) d₁ h kept)
                    | inr writes ↦ rw writes kept
                  ])
        ]
  ]

  -- A path gets a number.
  gets_number :
      (m : PassthroughFs L B.File) (d d' : B.Disk) (path : Bytes)
      → KeepsFiles L B d d'
      → IsCoherent L B (m, d)
      → IsCoherent L B ((ino_for path m).1, d')
  gets_number m d d' path frame c =
      carried L B m (ino_for path m).1 d d' (λ i. inl (ap (peek i) (cache-ino_for L B m path)))
        (λ i b p h g. (path_of-ino_for L B m i p path c.inverse g, frame p))
        (subst IsBounded (sym (cache-ino_for L B m path)) c.bounded)
        (ino_for-IsInverse path m c.inverse).0 c

  pub lookup_name-IsCoherent :
      (parent : ℕ) (name : Bytes) (m : PassthroughFs L B.File) (d : B.Disk)
      → IsCoherent L B (m, d)
      → IsCoherent L B (lookup_name L B parent name (m, d)).1
  unfolding lookup_name
  lookup_name-IsCoherent parent name m d c = elim (Option-cases (path_of parent m)) [
    | inl h ↦ rw (h, lookup_name) c
    | inr (pp, h) ↦ elim (Io-cases (B.symlink_metadata (B.join pp name) d)) [
      | inr (e, o) ↦ rw (h, o, lookup_name) c
      | inl (meta, o) ↦ rw (h, o, lookup_name) (gets_number m d d (B.join pp name) (λ q. refl) c)
    ]
  ]

  all_numbered :
      (es : List DirEnt) (m : PassthroughFs L B.File) (d : B.Disk)
      → IsCoherent L B (m, d)
      → IsCoherent L B ((number_all L B es m).1, d)
  unfolding number_all
  all_numbered [] m d c = c
  all_numbered (e ∷ es) m d c =
      all_numbered es (ino_for e.path m).1 d (gets_number m d d e.path (λ q. refl) c)

  pub readdir-IsCoherent :
      (ino offset room : ℕ) (m : PassthroughFs L B.File) (d : B.Disk)
      → IsCoherent L B (m, d)
      → IsCoherent L B (readdir L B ino offset room (m, d)).1
  unfolding readdir
  readdir-IsCoherent ino offset room m d c = elim (Option-cases (path_of ino m)) [
    | inl h ↦ rw (h, readdir) c
    | inr (p, h) ↦ elim (Option-cases (B.read_dir p d)) [
      | inl o ↦ rw (h, o, readdir) c
      | inr (es, o) ↦ rw (h, o, readdir) (all_numbered es m d c)
    ]
  ]

  pub mkdir-IsCoherent :
      (parent : ℕ) (name : Bytes) (m : PassthroughFs L B.File) (d : B.Disk)
      → KeepsFiles L B d (disk_after L B (mkdir L B parent name (m, d)))
      → IsCoherent L B (m, d)
      → IsCoherent L B (mkdir L B parent name (m, d)).1
  unfolding mkdir
  mkdir-IsCoherent parent name m d = elim (Option-cases (path_of parent m)) [
    | inl h ↦ rw (h, mkdir) (λ _ c. c)
    | inr (pp, h) ↦ elim (Io-cases (B.create_dir (B.join pp name) d)) [
      | inr (e, o) ↦ rw (h, o, mkdir) (λ _ c. c)
      | inl (d₁, o) ↦ elim (Io-cases (B.symlink_metadata (B.join pp name) d₁)) [
        | inl (meta, r) ↦
            rw (h, o, r, mkdir) (λ frame c. gets_number m d d₁ (B.join pp name) frame c)
        | inr (e, r) ↦ rw (h, o, r, mkdir) (λ frame c. gets_number m d d₁ (B.join pp name) frame c)
      ]
    ]
  ]

  pub create_file-IsCoherent :
      (parent : ℕ) (name pp : Bytes) (flags : ℕ) (m : PassthroughFs L B.File) (d : B.Disk)
      → path_of parent m ≡ some pp
      → KeepsOthers L B
          (B.join pp name)
          d
          (disk_after L B (create_file L B parent name flags (m, d)))
      → IsCoherent L B (m, d)
      → IsCoherent L B (create_file L B parent name flags (m, d)).1
  unfolding create_file keep_handle
  create_file-IsCoherent parent name pp flags m d h =
      let child = B.join pp name in
      let options = record for_writing {
        read = true;
        create = true;
        truncate = B.truncates flags;
      } in
      elim (Io-cases (B.open_file options child d)) [
        | inr (e, o) ↦ rw (h, o, create_file) (λ _ c. c)
        | inl ((f, d₁), o) ↦
            rw (h, o, create_file)
              (λ frame c.
                let m₁ = (ino_for child m).1 in
                let c₁ = gets_number m d d child (λ q. refl) c in
                changed_one L B m₁ _ d d₁ (ino_for child m).0 child
                  (ino_for-IsInverse child m c.inverse).1 refl refl
                  (same_tables L B m₁ _ refl refl refl c₁.inverse) frame c₁)
      ]

  pub remove_by-IsCoherent :
      (remove : Bytes → B.Disk → Io B.Disk) (parent : ℕ) (name pp : Bytes)
      (m : PassthroughFs L B.File) (d : B.Disk)
      → path_of parent m ≡ some pp
      → KeepsOthers L B
          (B.join pp name)
          d
          (disk_after L B (remove_by L B remove parent name (m, d)))
      → IsCoherent L B (m, d)
      → IsCoherent L B (remove_by L B remove parent name (m, d)).1
  unfolding remove_by
  remove_by-IsCoherent remove parent name pp m d h =
      let child = B.join pp name in
      elim (Io-cases (remove child d)) [
        | inr (e, o) ↦ rw (h, o, remove_by) (λ _ c. c)
        | inl (d₁, o) ↦
            rw (h, o, remove_by)
              (λ frame c.
                let (lost, b) = cache-forget_path L B m child c.bounded in
                carried L B m (forget_path child m) d d₁ lost
                  (λ i w q g e.
                    let (k, ne) = forgotten L B m child i w q c.inverse g e in (k, frame q ne))
                  b (forget_path-IsInverse child m c.inverse) c)
      ]

  pub rename_path-IsCoherent :
      (parent new_parent : ℕ) (name new_name pp np : Bytes) (m : PassthroughFs L B.File)
      (d : B.Disk)
      → path_of parent m ≡ some pp
      → path_of new_parent m ≡ some np
      → ((q : Bytes)
          → q ≢ B.join pp name
          → q ≢ B.join np new_name
          → B.read_whole q (disk_after L B (rename_path L B parent name new_parent new_name (m, d)))
            ≡ B.read_whole q d)
      → IsCoherent L B (m, d)
      → IsCoherent L B (rename_path L B parent name new_parent new_name (m, d)).1
  unfolding rename_path
  rename_path-IsCoherent parent new_parent name new_name pp np m d h g =
      let from = B.join pp name in
      let to = B.join np new_name in
      elim (Io-cases (B.rename from to d)) [
        | inr (e, o) ↦ rw (h, g, o, rename_path) (λ _ c. c)
        | inl (d₁, o) ↦
            rw (h, g, o, rename_path)
              (λ frame c.
                let m₁ = forget_path from m in
                let w₁ = forget_path-IsInverse from m c.inverse in
                let (lost, b) = cache-forget_path L B m from c.bounded in
                let (lost₁, b₁) = cache-forget_path L B m₁ to b in
                carried L B m (forget_path to m₁) d d₁ (λ i. ground (arith, lost i, lost₁ i))
                  (λ i w q r e. elim (lost₁ i) [
                    | inr gone ↦ absurd (ground arith)
                    | inl same ↦
                        let (k, ne) = forgotten L B m from i w q c.inverse (sym same ∙ r) e in
                        let (k₁, ne₁) = forgotten L B m₁ to i w q w₁ r k in (k₁, frame q ne ne₁)
                  ])
                  b₁ (forget_path-IsInverse to m₁ w₁) c)
      ]

  -- A lookup in the RAM may lose copies, and changes none.
  looked_up :
      (m : PassthroughFs L B.File) (d d' : B.Disk) (ino : ℕ)
      → KeepsFiles L B d d'
      → IsCoherent L B (m, d)
      → IsCoherent L B (record m { cache = (Cache.get ino m.cache).1 }, d')
  unfolding path_of
  looked_up m d d' ino frame c =
      let m' : PassthroughFs L B.File = record m { cache = (Cache.get ino m.cache).1 } in
      carried L B m m' d d' (get-Loses ino m.cache c.bounded) (λ i b p h g. (g, frame p))
        (get-IsBounded ino m.cache c.bounded) (same_tables L B m m' refl refl refl c.inverse) c

  pub read_path-IsCoherent :
      (ino fh off want : ℕ) (m : PassthroughFs L B.File) (d : B.Disk)
      → KeepsFiles L B d (disk_after L B (read_path L B ino fh off want (m, d)))
      → IsCoherent L B (m, d)
      → IsCoherent L B (read_path L B ino fh off want (m, d)).1
  unfolding read_path
  read_path-IsCoherent ino fh off want m d = elim (Option-cases (Cache.get ino m.cache).0) [
    | inr (b, h) ↦ rw (h, read_path) (λ frame c. looked_up m d d ino frame c)
    | inl h ↦ elim (Option-cases (path_of ino m)) [
      | inl g ↦ rw (h, g, read_path) (λ frame c. looked_up m d d ino frame c)
      | inr (p, g) ↦ rw (h, g, read_path) (λ frame c. looked_up m d _ ino frame c)
    ]
  ]

  pub sync_by-IsCoherent :
      (sync : B.File → B.Disk → B.Disk) (fh : ℕ) (m : PassthroughFs L B.File) (d : B.Disk)
      → KeepsFiles L B d (disk_after L B (sync_by L B sync fh (m, d)))
      → IsCoherent L B (m, d)
      → IsCoherent L B (sync_by L B sync fh (m, d)).1
  unfolding sync_by
  sync_by-IsCoherent sync fh m d = elim (Option-cases (lookup ℕ_discrete fh m.handles)) [
    | inl h ↦ rw (h, sync_by) (λ _ c. c)
    | inr (f, h) ↦ rw (h, sync_by) (λ frame c. unchanged L B m m d _ refl refl refl refl frame c)
  ]
