-- ===== src/Mount/Coherent.antt =====
-- crates/neuralfs-daemon/src/mountfs.rs: the files in RAM are those of the disk, as long as the disk
-- changes through the mount and no directory is renamed.
use neural_file_system.Prelude.{
  ℕ, ◌≡◌, ◌≢◌, refl, sym, ap, ◌∙◌, subst, none, some, inl, inr, Option-cases, Bytes, lookup,
  lookup-snoc, lookup-erase, bytes_discrete, ℕ_discrete, arith, ite,
}
use neural_file_system.HashLink.{Linked}
use neural_file_system.Cache
use neural_file_system.Cache.Bounds.{IsBounded, insert-IsBounded, invalidate-IsBounded}
use neural_file_system.Cache.Lookup.{Loses, insert-peek, peek-invalidate}
use neural_file_system.Cache.Segments.{peek}
use neural_file_system.Mount.{PassthroughFs, ino_for, path_of, forget_path}
use neural_file_system.Mount.Backing.{Backing}
use neural_file_system.Mount.Tables.{IsInverse}
use neural_file_system.Mount.Names.{Mounted, Answer}

module _ (L : Linked ℕ_discrete Bytes) (B : Backing) where
  pub record IsCoherent (s : Mounted L B) : Type 0 where
    pub cached :
        (i : ℕ) (b : Bytes)
        → peek i s.0.cache ≡ some b
        → (p : Bytes) × (path_of i s.0 ≡ some p) × (B.read_whole p s.1 ≡ some b)
    pub bounded : IsBounded s.0.cache
    pub inverse : IsInverse s.0

  -- Two numbers of one path are one.
  pub one_number :
      (m : PassthroughFs L B.File) (i j : ℕ) (p : Bytes)
      → IsInverse m
      → path_of i m ≡ some p
      → path_of j m ≡ some p
      → i ≡ j
  unfolding path_of
  one_number m i j p w h g = cc (w.back p i h, w.back p j g)

  -- What is still cached has its path and its bytes as before.
  pub carried :
      (m m' : PassthroughFs L B.File) (d d' : B.Disk)
      → Loses m.cache m'.cache
      → ((i : ℕ) (b p : Bytes)
          → peek i m'.cache ≡ some b
          → path_of i m ≡ some p
          → (path_of i m' ≡ some p) × (B.read_whole p d' ≡ B.read_whole p d))
      → IsBounded m'.cache
      → IsInverse m'
      → IsCoherent (m, d)
      → IsCoherent (m', d')
  carried m m' d d' lost kept bounded inverse c = record {
    cached = λ i b h. elim (lost i) [
      | inl same ↦
          let (p, g, e) = c.cached i b (sym same ∙ h) in
          (p, (kept i b p h g).0, (kept i b p h g).1 ∙ e)
      | inr gone ↦ absurd (ground (arith))
    ];
    bounded = bounded;
    inverse = inverse;
  }

  -- The file of one number changes, and its copy is dropped.
  pub changed_one :
      (m m' : PassthroughFs L B.File) (d d' : B.Disk) (ino : ℕ) (p : Bytes)
      → path_of ino m ≡ some p
      → m'.cache ≡ Cache.invalidate ino m.cache
      → m'.ino_to_path ≡ m.ino_to_path
      → IsInverse m'
      → ((q : Bytes) → q ≢ p → B.read_whole q d' ≡ B.read_whole q d)
      → IsCoherent (m, d)
      → IsCoherent (m', d')
  unfolding path_of
  changed_one m m' d d' ino p here cache paths inverse frame c =
      let lost : (j : ℕ) → peek j m'.cache ≡ ite (ℕ_discrete ino j) none (peek j m.cache) =
        λ j. ap (peek j) cache ∙ peek-invalidate ino m.cache j in
      carried m m' d d' (λ j. ground (arith, lost j))
        (λ i b q h g. (
          ap (lookup ℕ_discrete i) paths ∙ g,
          frame q (λ same.
              absurd
                (ground (arith, lost i, one_number m i ino p c.inverse (g ∙ ap some same) here))),
        ))
        (subst IsBounded (sym cache) (invalidate-IsBounded ino m.cache c.bounded)) inverse c

  pub same_tables :
      (m m' : PassthroughFs L B.File)
      → m'.ino_to_path ≡ m.ino_to_path
      → m'.path_to_ino ≡ m.path_to_ino
      → m'.next_ino ≡ m.next_ino
      → IsInverse m
      → IsInverse m'
  same_tables m m' f t n w = record {
    there = λ p i h.
        ap (lookup ℕ_discrete i) f ∙ w.there p i (ap (lookup bytes_discrete p) (sym t) ∙ h);
    back =
        λ p i h. ap (lookup bytes_discrete p) t ∙ w.back p i (ap (lookup ℕ_discrete i) (sym f) ∙ h);
    below = λ p i h. ground (arith, w.below p i (ap (lookup ℕ_discrete i) (sym f) ∙ h));
  }

  -- The disk after a call, and the two things that a theorem says of it.
  abbrev pub disk_after : Answer × Mounted L B → B.Disk
  disk_after r = r.1.1

  -- The call changes no file, or none but that of a path.
  abbrev pub KeepsFiles : B.Disk → B.Disk → Type 0
  KeepsFiles d d' = (q : Bytes) → B.read_whole q d' ≡ B.read_whole q d

  abbrev pub KeepsOthers : Bytes → B.Disk → B.Disk → Type 0
  KeepsOthers p d d' = (q : Bytes) → q ≢ p → B.read_whole q d' ≡ B.read_whole q d

  -- Neither the copies nor the paths change.
  pub unchanged :
      (m m' : PassthroughFs L B.File) (d d' : B.Disk)
      → m'.cache ≡ m.cache
      → m'.ino_to_path ≡ m.ino_to_path
      → m'.path_to_ino ≡ m.path_to_ino
      → m'.next_ino ≡ m.next_ino
      → KeepsFiles d d'
      → IsCoherent (m, d)
      → IsCoherent (m', d')
  unfolding path_of
  unchanged m m' d d' cache f t n frame c =
      carried m m' d d' (λ i. inl (ap (peek i) cache))
        (λ i b p h g. (ap (lookup ℕ_discrete i) f ∙ g, frame p))
        (subst IsBounded (sym cache) c.bounded) (same_tables m m' f t n c.inverse) c

  -- The bytes of the file come to the RAM.
  pub put_whole :
      (m m' : PassthroughFs L B.File) (d : B.Disk) (ino : ℕ) (p whole : Bytes)
      → path_of ino m ≡ some p
      → B.read_whole p d ≡ some whole
      → m'.cache ≡ Cache.insert ino whole m.cache
      → m'.ino_to_path ≡ m.ino_to_path
      → m'.path_to_ino ≡ m.path_to_ino
      → m'.next_ino ≡ m.next_ino
      → IsCoherent (m, d)
      → IsCoherent (m', d)
  unfolding path_of
  put_whole m m' d ino p whole here whole_lem cache f t n c =
      let at = λ (i : ℕ). ap (λ k. lookup ℕ_discrete i k) f in
      record {
        cached = λ i b h. elim (insert-peek ino whole m.cache i) [
          | inr gone ↦ absurd (ground (arith, ap (peek i) cache))
          | inl e ↦ elim (ℕ_discrete ino i) [
            | yes same ↦ (
              p,
              at i ∙ ap (λ j. lookup ℕ_discrete j m.ino_to_path) (sym same) ∙ here,
              ground (arith, ap (peek i) cache),
            )
            | no other ↦
                let (q, g, r) = c.cached i b (ground (arith, ap (peek i) cache)) in (q, at i ∙ g, r)
          ]
        ];
        bounded = subst IsBounded (sym cache) (insert-IsBounded ino whole m.cache c.bounded);
        inverse = same_tables m m' f t n c.inverse;
      }

  -- A number keeps its path when another path gets one.
  pub path_of-ino_for :
      (m : PassthroughFs L B.File) (i : ℕ) (p q : Bytes)
      → IsInverse m
      → path_of i m ≡ some p
      → path_of i (ino_for q m).1 ≡ some p
  unfolding path_of ino_for
  path_of-ino_for m i p q w h = elim (Option-cases (lookup bytes_discrete q m.path_to_ino)) [
    | inr (j, e) ↦ rw (e, ino_for) h
    | inl e ↦
        rw (e, ino_for)
          (ground (arith, lookup-snoc ℕ_discrete i m.next_ino q m.ino_to_path, w.below p i h))
  ]

  pub cache-ino_for : (m : PassthroughFs L B.File) (q : Bytes) → (ino_for q m).1.cache ≡ m.cache
  unfolding ino_for
  cache-ino_for m q = ground (arith)

  -- What is still cached when a path is forgotten has another path, and keeps it.
  pub forgotten :
      (m : PassthroughFs L B.File) (child : Bytes) (i : ℕ) (b q : Bytes)
      → IsInverse m
      → peek i (forget_path child m).cache ≡ some b
      → path_of i m ≡ some q
      → (path_of i (forget_path child m) ≡ some q) × (q ≢ child)
  unfolding forget_path path_of
  forgotten m child i b q w = elim (Option-cases (lookup bytes_discrete child m.path_to_ino)) [
    | inl h ↦
        rw (h, forget_path)
          (λ _ g. (
            g,
            λ e.
                absurd
                  (ground (arith, w.back q i g, ap (λ p. lookup bytes_discrete p m.path_to_ino) e)),
          ))
    | inr (ino, h) ↦
        rw (h, forget_path)
          (λ c g. (
            ground
                (arith, lookup-erase ℕ_discrete i ino m.ino_to_path, peek-invalidate ino m.cache i),
            λ e. absurd (
                ground (
                  arith,
                  peek-invalidate ino m.cache i,
                  w.back q i g,
                  ap (λ p. lookup bytes_discrete p m.path_to_ino) e,
                )),
          ))
  ]

  pub cache-forget_path :
      (m : PassthroughFs L B.File) (child : Bytes)
      → IsBounded m.cache
      → Loses m.cache (forget_path child m).cache × IsBounded (forget_path child m).cache
  unfolding forget_path
  cache-forget_path m child b = elim (Option-cases (lookup bytes_discrete child m.path_to_ino)) [
    | inl h ↦ rw (h, forget_path) (λ i. inl refl, b)
    | inr (ino, h) ↦
        rw (h, forget_path)
          (λ i. ground (arith, peek-invalidate ino m.cache i), invalidate-IsBounded ino m.cache b)
  ]
