-- ===== src/Filesystem/Paths.antt =====
-- `resolve` of crates/neuralfs-fs/src/fs.rs against a walk of the inodes on disk.
use neural_file_system.Prelude.{
  ℕ, ◌<◌, ◌≡◌, ◌⊎◌, ◌∙◌, ap, refl, Option, none, some, Bool, true, false, Bool-cases, Bytes, ok,
  err, Error, Option-cases, inl, inr, List, [], ◌∷◌, arith,
}
use neural_file_system.Inode.{Name, Inode, file, dir, is_dir, get_entry}
use neural_file_system.Platform.{Platform}
use neural_file_system.Filesystem.{
  Filesystem, Action, read_inode, ◌>>=◌, child_of, resolve_from, resolve, split, get_root,
}
use neural_file_system.Filesystem.Nodes.{
  node, IsSound, Grows, Grows-refl, Grows-trans, Reads, read_inode-Reads, Younger,
}

-- What a directory has under a name; a file has nothing.
unfoldable pub entry_of : Name → Inode → Option ℕ
entry_of c (file size blocks inline mtime mode) = none
entry_of c (dir entries mtime) = get_entry c entries

pub entry_of-Younger :
    (c : Name) (b k : ℕ) (n : Inode) → Younger b n → entry_of c n ≡ some k → k < b
unfolding entry_of
entry_of-Younger c b k (file size blocks inline mtime mode) y h = absurd (ground arith)
entry_of-Younger c b k (dir entries mtime) y h = y c k h

module _ {P : Platform} {A B : Type 0} (m : Action P A) (f : A → Action P B)
    (s t : Filesystem P) where
  pub bind_ok : (a : A) → m s ≡ (ok a, t) → (m >>= f) s ≡ f a t
  unfolding ◌>>=◌
  bind_ok a h = rw (h, ◌>>=◌) (ap (λ r. f a r.1) h)

  pub bind_err : (e : Error) → m s ≡ (err e, t) → (m >>= f) s ≡ (err e, t)
  unfolding ◌>>=◌
  bind_err e h = rw (h, ◌>>=◌) (ap (λ r. (err e, r.1)) h)

module _ {P : Platform} where
  unfoldable pub child : Name → ℕ → Filesystem P → Option ℕ
  child c d s = elim (node d s) [ none ↦ none | some n ↦ entry_of c n ]

  -- The number to which the names lead from a directory, on disk.
  unfoldable pub look : ℕ → List Name → Filesystem P → Option ℕ
  look d [] s = some d
  look d (c ∷ comps) s = elim (child c d s) [ none ↦ none | some k ↦ look k comps s ]

  pub child-Younger :
      (c : Name) (d k : ℕ) (s : Filesystem P)
      → IsSound s
      → d < s.state.next_inode
      → child c d s ≡ some k
      → k < d
  unfolding child
  child-Younger c d k s w l h =
      let (n, e) = w.present d l in entry_of-Younger c d k n (w.closed d n l e) (ground arith)

  child-Grows :
      (c : Name) (d : ℕ) (s t : Filesystem P)
      → Grows s t
      → d < s.state.next_inode
      → child c d t ≡ child c d s
  unfolding child
  child-Grows c d s t g l = rw (g.kept d l, child)

  -- What was there is found where it was.
  pub look-Grows :
      (d : ℕ) (q : List Name) (s t : Filesystem P)
      → IsSound s
      → Grows s t
      → d < s.state.next_inode
      → look d q t ≡ look d q s
  unfolding look
  look-Grows d [] s t w g l = refl
  look-Grows d (c ∷ q) s t w g l =
      let same : child c d t ≡ child c d s = child-Grows c d s t g l in
      elim (Option-cases (child c d s)) [
        | inl h ↦ rw (same, h, look)
        | inr (k, h) ↦
            let younger = child-Younger c d k s w l h in
            rw (same, h, look) (look-Grows k q s t w g (omega arith))
      ]

  -- A file stands where the path needs a directory. A missing directory is no obstacle.
  unfoldable pub blocked : ℕ → List Name → Filesystem P → Bool
  blocked d [] s = false
  blocked d (c ∷ comps) s = elim (node d s) [
    | none ↦ true
    | some n ↦ elim (is_dir n) [
      | false ↦ true
      | true ↦ elim (entry_of c n) [ none ↦ false | some k ↦ blocked k comps s ]
    ]
  ]

  pub blocked-Grows :
      (d : ℕ) (q : List Name) (s t : Filesystem P)
      → IsSound s
      → Grows s t
      → d < s.state.next_inode
      → blocked d q t ≡ blocked d q s
  unfolding blocked
  blocked-Grows d [] s t w g l = refl
  blocked-Grows d (c ∷ q) s t w g l =
      let (n, e) = w.present d l in
      let later : node d t ≡ some n = g.kept d l ∙ e in
      elim (Bool-cases (is_dir n)) [
        | inr h ↦ rw (later, e, h, blocked) refl
        | inl h ↦ elim (Option-cases (entry_of c n)) [
          | inl i ↦ rw (later, e, h, i, blocked) refl
          | inr (k, i) ↦
              let younger = entry_of-Younger c d k n (w.closed d n l e) i in
              rw (later, e, h, i, blocked) (blocked-Grows k q s t w g (omega arith))
        ]
      ]

  child_of-some :
      (c : Name) (k : ℕ) (n : Inode) (s : Filesystem P)
      → entry_of c n ≡ some k
      → child_of {P = P} c n s ≡ (ok k, s)
  unfolding entry_of child_of
  child_of-some c k (file size blocks inline mtime mode) s h = absurd (ground arith)
  child_of-some c k (dir entries mtime) s h = rw (h, child_of) refl

  child_of-none :
      (c : Name) (n : Inode) (s : Filesystem P)
      → entry_of c n ≡ none
      → (e : Error) × (child_of {P = P} c n s ≡ (err e, s))
  unfolding entry_of child_of
  child_of-none c (file size blocks inline mtime mode) s h = (_, refl)
  child_of-none c (dir entries mtime) s h = rw (h, child_of) (_, refl)

  -- What a call of `resolve_from` gives: the number on disk, or an error if there is none.
  abbrev pub Finds : ℕ → List Name → Filesystem P → Filesystem P → Type 0
  Finds d q s t =
      ((i : ℕ) × (look d q s ≡ some i) × (resolve_from d q s ≡ (ok i, t)))
      ⊎ ((look d q s ≡ none) × ((e : Error) × (resolve_from d q s ≡ (err e, t))))

  module _ (x : Name) (q : List Name) (d : ℕ) (n : Inode) (s t : Filesystem P)
      (e : node d s ≡ some n) (r : read_inode d s ≡ (ok n, t)) where
    step_none : entry_of x n ≡ none → Finds d (x ∷ q) s t
    unfolding look child resolve_from
    step_none h =
        let (er, c) = child_of-none x n t h in
        inr (
          ground arith,
          (
            er,
            bind_ok (read_inode d) (λ m. child_of x m >>= λ k. resolve_from k q) s t n r
                ∙ bind_err (child_of x n) (λ k. resolve_from k q) t t er c,
          ),
        )

    step_some :
        (k : ℕ) (u : Filesystem P)
        → entry_of x n ≡ some k
        → look k q t ≡ look k q s
        → Finds k q t u
        → Finds d (x ∷ q) s u
    unfolding look child resolve_from
    step_some k u h same o =
        let go : resolve_from d (x ∷ q) s ≡ resolve_from k q t =
          bind_ok (read_inode d) (λ m. child_of x m >>= λ k. resolve_from k q) s t n r
          ∙ bind_ok (child_of x n) (λ k. resolve_from k q) t t k (child_of-some x k n t h) in
        let there : look d (x ∷ q) s ≡ look k q t = ground arith in
        elim o [
          | inl (i, f, c) ↦ inl (i, there ∙ f, go ∙ c)
          | inr (f, (er, c)) ↦ inr (there ∙ f, (er, go ∙ c))
        ]

  -- The same from any directory.
  pub resolve_from_lem :
      (d : ℕ) (q : List Name) (s : Filesystem P)
      → IsSound s
      → d < s.state.next_inode
      → (t : Filesystem P) × Reads s t × Finds d q s t
  unfolding look resolve_from
  resolve_from_lem d [] s w l = (s, (Grows-refl s w, refl), inl (d, refl, refl))
  resolve_from_lem d (x ∷ q) s w l =
      let (n, e) = w.present d l in
      let (t, r, (g, same)) = read_inode-Reads d n s w l e in
      elim (Option-cases (entry_of x n)) [
        | inl h ↦ (t, (g, same), step_none x q d n s t e r h)
        | inr (k, h) ↦
            let younger = entry_of-Younger x d k n (w.closed d n l e) h in
            let (u, (g₂, same₂), o) = resolve_from_lem k q t g.sound (omega arith) in
            (
              u,
              (Grows-trans s t u g g₂, omega arith),
              step_some x q d n s t e r k u h (look-Grows k q s t w g (omega arith)) o,
            )
      ]

  -- On a sound filesystem `resolve` answers what a walk of the inodes on disk finds, or an error if
  -- it finds nothing; no inode that was there is changed, and no number is given out.
  pub resolve_lem :
      (path : Bytes) (s : Filesystem P)
      → IsSound s
      → (t : Filesystem P) × Reads s t
        × (((i : ℕ) × (look s.state.root (split path) s ≡ some i) × (resolve path s ≡ (ok i, t)))
            ⊎ ((look s.state.root (split path) s ≡ none)
                × ((e : Error) × (resolve path s ≡ (err e, t)))))
  unfolding resolve get_root ◌>>=◌
  resolve_lem path s w = resolve_from_lem s.state.root (split path) s w w.rooted
