-- ===== src/Filesystem/Calls.antt =====
-- The public calls of crates/neuralfs-fs/src/fs.rs that change the tree: what each leaves on disk,
-- when it fails, and that it changes no inode that was there.
use neural_file_system.Prelude.{
  ℕ, ◌+◌, ◌*◌, ◌^◌, ◌<◌, ◌≤◌, ◌≡◌, ◌⊎◌, ◌∙◌, ap, sym, subst, refl, Option, none, some, true, Bytes,
  Result, ok, err, Error, inl, inr, List, [], ◌∷◌, length, arith,
}
use neural_file_system.Inode.{Name, Inode, file, dir}
use neural_file_system.Platform.{Platform}
use neural_file_system.Filesystem.{
  Filesystem, ◌>>=◌, get_root, rebuild, commit, rebuild_and_commit, split, resolve, read_inode,
  alloc, put_inode, new_dir,
}
use neural_file_system.Filesystem.Files.{
  write_file, read_file, mkdir, remove, new_file, store_data, contents_of, inline_max,
}
use neural_file_system.Filesystem.Nodes.{
  node, IsSound, Grows, Grows-trans, read_inode-Reads, Younger, with_inode, with_inode-Grows,
  with_inode-next, node_new, new_dir_lem,
}
use neural_file_system.Filesystem.Paths.{
  look, blocked, blocked-Grows, look-Grows, bind_ok, bind_err, resolve_lem,
}
use neural_file_system.Filesystem.Links.{empty-Younger}
use neural_file_system.Filesystem.Rebuild.{Diverges, Fails, Rebuilt, rebuild_lem}
use neural_file_system.Filesystem.History.{Later, Grows-Later, Later-trans, commit-Later, look-kept}

-- Enough numbers are left for the directories along a path, and one more.
abbrev pub Room : {P : Platform} → List Name → Filesystem P → Type 0
Room comps s = s.state.next_inode + 2 * length comps + 1 ≤ 2 ^ 64

-- The inode of a file that is kept inline, with its time.
abbrev pub small_file : Bytes → ℕ → Inode
small_file bytes mtime = file (length bytes) [] bytes mtime 420

module _ {P : Platform} where
  -- After the call the path leads to the leaf, and every path off it where it led.
  pub record Changed (s u : Filesystem P) (p : List Name) (leaf : Option ℕ) : Type 0 where
    pub later : Later s u
    pub found : look u.state.root p u ≡ leaf
    pub others : (q : List Name) → Diverges p q → look u.state.root q u ≡ look s.state.root q s

  abbrev pub Commits :
      Filesystem P → List Name → Option ℕ → Result (Unit {0}) × Filesystem P → Type 0
  Commits s p leaf r =
      ((u : Filesystem P) × (r ≡ (ok tt, u)) × Changed s u p leaf)
      ⊎ ((e : Error) × (t : Filesystem P) × (r ≡ (err e, t))
          × Grows s t
          × Fails leaf s.state.root p s)

  commit_ok : (n : ℕ) (t : Filesystem P) → commit n t ≡ (ok tt, (commit n t).1)
  unfolding commit
  commit_ok n t = refl

  committed :
      (s t : Filesystem P) (n : ℕ) (p : List Name) (leaf : Option ℕ)
      → Rebuilt s t s.state.root n p leaf
      → Changed s (commit n t).1 p leaf
  unfolding commit
  committed s t n p leaf b =
      let u = (commit n t).1 in
      let now : Later t u = commit-Later n t b.grows.sound b.fresh in
      record {
        later = Later-trans s t u (Grows-Later s t b.grows) now;
        found = look-kept n p t u b.grows.sound now.kept b.fresh ∙ b.found;
        others = λ q d. look-kept n q t u b.grows.sound now.kept b.fresh ∙ b.others q d;
      }

  pub rebuild_and_commit_lem :
      (name : Name) (comps : List Name) (leaf : Option ℕ) (s : Filesystem P)
      → IsSound s
      → ((i : ℕ) → leaf ≡ some i → i < s.state.next_inode)
      → s.state.next_inode + 2 * length (name ∷ comps) ≤ 2 ^ 64
      → Commits s (name ∷ comps) leaf (rebuild_and_commit name comps leaf s)
  unfolding rebuild_and_commit get_root ◌>>=◌
  rebuild_and_commit_lem name comps leaf s w old room =
      elim (rebuild_lem s.state.root name comps leaf s w w.rooted old room) [
        | inl (n, t, r, b) ↦ inl (
          (commit n t).1,
          bind_ok (rebuild s.state.root name comps leaf) commit s t n r ∙ commit_ok n t,
          committed s t n (name ∷ comps) leaf b,
        )
        | inr (e, t, r, g, fails) ↦
            inr (e, t, bind_err (rebuild s.state.root name comps leaf) commit s t e r, g, fails)
      ]

  -- On a sound filesystem with room for the inodes along the path, `remove` of a path other than
  -- the root either leaves nothing under the path, every path off it where it led, and every
  -- inode that was there unchanged; or it fails, which it does only where nothing was under the
  -- path, and then the root and every inode that was there stay.
  pub remove_lem :
      (path : Bytes) (name : Name) (comps : List Name) (s : Filesystem P)
      → IsSound s
      → split path ≡ name ∷ comps
      → Room (name ∷ comps) s
      → Commits s (name ∷ comps) none (remove path s)
  unfolding remove
  remove_lem path name comps s w e room =
      rw e (rebuild_and_commit_lem name comps none s w (λ i h. absurd (ground arith)) (omega arith))

  -- A new inode is put under a path.
  abbrev pub Puts : Filesystem P → List Name → Inode → Result (Unit {0}) × Filesystem P → Type 0
  Puts s p n r =
      ((u : Filesystem P) × (r ≡ (ok tt, u))
        × Changed s u p (some s.state.next_inode)
        × (node s.state.next_inode u ≡ some n)
        × (s.state.next_inode < u.state.next_inode))
      ⊎ ((e : Error) × (t : Filesystem P) × (r ≡ (err e, t))
          × Grows s t
          × (blocked s.state.root p s ≡ true))

  module _ (name : Name) (comps : List Name) (n : Inode) (s : Filesystem P) (w : IsSound s)
      (y : Younger s.state.next_inode n) (room : Room (name ∷ comps) s) where
    abbrev put_state : Filesystem P
    put_state = with_inode n s

    grown : Grows s put_state
    grown = with_inode-Grows n s w (omega arith) y

    put_Changed :
        (u : Filesystem P)
        → Changed put_state u (name ∷ comps) (some s.state.next_inode)
        → Changed s u (name ∷ comps) (some s.state.next_inode)
    put_Changed u c = record {
      later = Later-trans s put_state u (Grows-Later s put_state grown) c.later;
      found = c.found;
      others = λ q d.
          c.others q d
          ∙ ap (λ x. look x q put_state) grown.root
          ∙ look-Grows s.state.root q s put_state w grown w.rooted;
    }

    put_lem :
        Puts s (name ∷ comps) n (rebuild_and_commit name comps (some s.state.next_inode) put_state)
    put_lem =
        let next = with_inode-next n s in
        elim (rebuild_and_commit_lem name comps (some s.state.next_inode) put_state grown.sound
          (λ i h. ground (arith, next)) (omega (arith, next))) [
            | inl (u, r, c) ↦ inl (
              u,
              r,
              put_Changed u c,
              c.later.kept s.state.next_inode (omega (arith, next))
                  ∙ node_new n s w (omega arith) y,
              omega (arith, next, c.later.next),
            )
            | inr (e, t, r, g, fails) ↦ inr (
              e,
              t,
              r,
              Grows-trans s put_state t grown g,
              sym (blocked-Grows s.state.root (name ∷ comps) s put_state w grown w.rooted)
                  ∙ ap (λ x. blocked x (name ∷ comps) put_state) (sym grown.root)
                  ∙ fails,
            )
          ]

  -- On a sound filesystem with room for the inodes along the path, `mkdir` of a path other than
  -- the root either puts a new empty directory there, also over what was there, with every path
  -- off it leading where it led and every inode that was there unchanged; or it fails, which it
  -- does only where a file is in the way, and then the root and every inode that was there stay.
  pub mkdir_lem :
      (path : Bytes) (name : Name) (comps : List Name) (s : Filesystem P)
      → IsSound s
      → split path ≡ name ∷ comps
      → Room (name ∷ comps) s
      → Puts s (name ∷ comps) (dir [] (P.now s.state.next_inode)) (mkdir path s)
  unfolding mkdir
  mkdir_lem path name comps s w e room =
      let n = dir [] (P.now s.state.next_inode) in
      rw e (
        subst (Puts s (name ∷ comps) n)
          (sym (
            bind_ok (new_dir []) (λ id. rebuild_and_commit name comps (some id)) s (with_inode n s)
              s.state.next_inode (new_dir_lem [] s)))
          (put_lem name comps n s w (empty-Younger s.state.next_inode (P.now s.state.next_inode))
            room))

  store_small :
      (bytes : Bytes) (s : Filesystem P)
      → length bytes ≤ inline_max
      → store_data bytes s ≡ (ok ([], bytes), s)
  unfolding store_data
  store_small bytes s h = ground arith

  new_file_lem :
      (size : ℕ) (bytes : Bytes) (s : Filesystem P)
      → new_file size ([], bytes) s
        ≡ (ok s.state.next_inode, with_inode (file size [] bytes (P.now s.state.next_inode) 420) s)
  unfolding new_file alloc put_inode ◌>>=◌ with_inode
  new_file_lem size bytes s = refl

  write_small :
      (path bytes : Bytes) (name : Name) (comps : List Name) (s : Filesystem P)
      → IsSound s
      → split path ≡ name ∷ comps
      → length bytes ≤ inline_max
      → Room (name ∷ comps) s
      → Puts s
          (name ∷ comps)
          (small_file bytes (P.now s.state.next_inode))
          (write_file path bytes s)
  unfolding write_file
  write_small path bytes name comps s w e h room =
      let n = small_file bytes (P.now s.state.next_inode) in
      rw e (
        subst (Puts s (name ∷ comps) n)
          (sym (
            bind_ok (store_data bytes)
              (λ content.
                new_file (length bytes) content >>= λ id. rebuild_and_commit name comps (some id))
              s s ([], bytes) (store_small bytes s h)
            ∙ bind_ok (new_file (length bytes) ([], bytes))
                (λ id. rebuild_and_commit name comps (some id)) s (with_inode n s)
                s.state.next_inode (new_file_lem (length bytes) bytes s)))
          (put_lem name comps n s w tt room))

  -- What a path leads to on disk is what `read_file` reads.
  read_small :
      (path bytes : Bytes) (i size m mode : ℕ) (s : Filesystem P)
      → IsSound s
      → look s.state.root (split path) s ≡ some i
      → i < s.state.next_inode
      → node i s ≡ some (file size [] bytes m mode)
      → (read_file path s).0 ≡ ok bytes
  unfolding read_file contents_of
  read_small path bytes i size m mode s w f l e =
      let n = file size [] bytes m mode in
      let (t, (g, same), o) = resolve_lem path s w in
      elim o [
        | inr (f₂, (er, r)) ↦ absurd (ground arith)
        | inl (j, f₂, r) ↦
            let there : resolve path s ≡ (ok i, t) = ground arith in
            let (u, r₂, g₂) = read_inode-Reads i n t g.sound (omega arith) (g.kept i l ∙ e) in
            ap (λ x. x.0)
              (bind_ok (resolve path) (λ id. read_inode id >>= contents_of) s t i there
                ∙ bind_ok (read_inode i) contents_of t u n r₂)
      ]

  -- On a sound filesystem with room for the inodes along the path, a write of at most 4096 bytes
  -- to a path other than the root either succeeds, and then `read_file` gives back the bytes,
  -- every path off the written one leads where it led, and no inode that was there was changed;
  -- or it fails, which it does only where a file is in the way of the path, and then the root and
  -- every inode that was there stay.
  pub read_file-write_file :
      (path bytes : Bytes) (name : Name) (comps : List Name) (s : Filesystem P)
      → IsSound s
      → split path ≡ name ∷ comps
      → length bytes ≤ inline_max
      → Room (name ∷ comps) s
      → ((u : Filesystem P) × (write_file path bytes s ≡ (ok tt, u))
          × ((read_file path u).0 ≡ ok bytes)
          × Changed s u (name ∷ comps) (some s.state.next_inode))
        ⊎ ((e : Error) × (t : Filesystem P) × (write_file path bytes s ≡ (err e, t))
            × Grows s t
            × (blocked s.state.root (name ∷ comps) s ≡ true))
  read_file-write_file path bytes name comps s w e h room =
      elim (write_small path bytes name comps s w e h room) [
        | inr failed ↦ inr failed
        | inl (u, r, c, n, l) ↦ inl (
          u,
          r,
          read_small path bytes s.state.next_inode (length bytes) (P.now s.state.next_inode) 420 u
              c.later.sound (ap (λ p. look u.state.root p u) e ∙ c.found) l n,
          c,
        )
      ]
