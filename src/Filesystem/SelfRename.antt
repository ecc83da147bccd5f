-- ===== src/Filesystem/SelfRename.antt =====
-- `rename` of crates/neuralfs-fs/src/fs.rs with the same path twice: the entry is put under the path,
-- and then removed.
use neural_file_system.Prelude.{
  ℕ, ◌+◌, ◌*◌, ◌^◌, ◌≤◌, ◌≡◌, ◌∙◌, ap, sym, subst, refl, none, some, true, false, Bytes, Result,
  Option-cases, Bool-cases, inl, inr, List, [], ◌∷◌, length, arith,
}
use neural_file_system.Inode.{Name, Inode, file, dir, is_dir}
use neural_file_system.Platform.{Platform}
use neural_file_system.Filesystem.{
  Filesystem, Action, ◌>>=◌, get_root, rebuild, commit, split, resolve,
}
use neural_file_system.Filesystem.Files.{rename}
use neural_file_system.Filesystem.Nodes.{node, IsSound, Grows, Grows-trans}
use neural_file_system.Filesystem.Paths.{
  look, child, entry_of, blocked, bind_ok, bind_err, resolve_lem,
}
use neural_file_system.Filesystem.Rebuild.{Rebuilt, rebuild_lem}
use neural_file_system.Filesystem.Calls.{Commits}
use neural_file_system.Filesystem.History.{Later, Grows-Later, Later-trans, commit-Later, look-kept}
use neural_file_system.Filesystem.Renames.{look_le, look_root}

file_entry : (c : Name) (n : Inode) → is_dir n ≡ false → entry_of c n ≡ none
unfolding is_dir entry_of
file_entry c (file size blocks inline mtime mode) h = refl
file_entry c (dir entries mtime) h = absurd (ground arith)

module _ {P : Platform} where
  blocked-look :
      (d : ℕ) (q : List Name) (s : Filesystem P) → blocked d q s ≡ true → look d q s ≡ none
  unfolding blocked look child
  blocked-look d [] s h = absurd (ground arith)
  blocked-look d (c ∷ q) s h = elim (Option-cases (node d s)) [
    | inl e ↦ rw (e, look) refl
    | inr (n, e) ↦ elim (Bool-cases (is_dir n)) [
      | inr f ↦ rw (e, file_entry c n f, look) refl
      | inl f ↦ elim (Option-cases (entry_of c n)) [
        | inl g ↦ rw (e, g, look) refl
        | inr (k, g) ↦
            let rest : blocked k q s ≡ true = ground arith in
            rw (e, g, look) (blocked-look k q s rest)
      ]
    ]
  ]

  module _ (a : Name) (as_ : List Name) (s : Filesystem P) (w : IsSound s)
      (room : s.state.next_inode + 4 * length (a ∷ as_) ≤ 2 ^ 64) where
    self_removed :
        (i n : ℕ) (t : Filesystem P)
        → Rebuilt s t s.state.root n (a ∷ as_) (some i)
        → Commits s (a ∷ as_) none ((rebuild n a as_ none >>= commit) t)
    unfolding commit
    self_removed i n t c =
        elim (rebuild_lem n a as_ none t c.grows.sound c.fresh (λ k h. absurd (ground arith))
          (omega (arith, c.used))) [
            | inr (e, v, r, g, lost) ↦ absurd (ground (arith, c.found))
            | inl (m, v, r, o) ↦
                let u = (commit m v).1 in
                let now : Later v u = commit-Later m v o.grows.sound o.fresh in
                let same : (x : List Name) → look m x u ≡ look m x v =
                  λ x. look-kept m x v u o.grows.sound now.kept o.fresh in
                inl (
                  u,
                  bind_ok (rebuild n a as_ none) commit t v m r,
                  record {
                    later =
                        Later-trans s v u (Grows-Later s v (Grows-trans s t v c.grows o.grows)) now;
                    found = same (a ∷ as_) ∙ o.found;
                    others = λ x d. same x ∙ o.others x d ∙ c.others x d;
                  },
                )
          ]

    self_moved :
        (i : ℕ)
        → look s.state.root (a ∷ as_) s ≡ some i
        → Commits s
            (a ∷ as_)
            none
            ((rebuild s.state.root a as_ (some i) >>= λ r₁. rebuild r₁ a as_ none >>= commit) s)
    self_moved i here =
        let le = look_le s.state.root (a ∷ as_) i s w w.rooted here in
        let rest : ℕ → Action P (Unit {0}) = λ r₁. rebuild r₁ a as_ none >>= commit in
        elim (rebuild_lem s.state.root a as_ (some i) s w w.rooted
          (λ k h. ground (arith, le, h, w.rooted)) (omega arith)) [
            | inl (n, t, r, c) ↦
                subst (Commits s (a ∷ as_) none)
                  (sym (bind_ok (rebuild s.state.root a as_ (some i)) rest s t n r))
                  (self_removed i n t c)
            | inr (e, t, r, g, in_the_way) ↦ inr (
              e,
              t,
              bind_err (rebuild s.state.root a as_ (some i)) rest s t e r,
              g,
              blocked-look s.state.root (a ∷ as_) s in_the_way,
            )
          ]

  Commits-Grows :
      (p : List Name) (s t : Filesystem P) (r : Result (Unit {0}) × Filesystem P)
      → IsSound s
      → Grows s t
      → Commits t p none r
      → Commits s p none r
  Commits-Grows p s t r w g o = elim o [
    | inl (u, e, c) ↦ inl (
      u,
      e,
      record {
        later = Later-trans s t u (Grows-Later s t g) c.later;
        found = c.found;
        others = λ q d. c.others q d ∙ look_root q s t w g;
      },
    )
    | inr (er, u, e, h, lost) ↦
        inr (er, u, e, Grows-trans s t u g h, sym (look_root p s t w g) ∙ lost)
  ]

  -- On a sound filesystem with room for the inodes along the path twice, `rename` of a path other
  -- than the root to itself removes it: it either leaves nothing under the path, every path off
  -- it where it led, and every inode that was there unchanged; or it fails, which it does only
  -- where nothing was under the path, and then the root and every inode that was there stay.
  pub rename-Commits :
      (path : Bytes) (a : Name) (as_ : List Name) (s : Filesystem P)
      → IsSound s
      → split path ≡ a ∷ as_
      → s.state.next_inode + 4 * length (a ∷ as_) ≤ 2 ^ 64
      → Commits s (a ∷ as_) none (rename path path s)
  unfolding rename get_root ◌>>=◌
  rename-Commits path a as_ s w e room =
      let (t, (g, same), o) = resolve_lem path s w in
      let rest : ℕ → Action P (Unit {0}) = λ i. get_root >>= λ root.
      rebuild root a as_ (some i) >>= λ r₁. rebuild r₁ a as_ none >>= commit in
      rw e (elim o [
        | inr (lost, (er, r)) ↦ inr (
          er,
          t,
          bind_err (resolve path) rest s t er r,
          g,
          ap (λ p. look s.state.root p s) (sym e) ∙ lost,
        )
        | inl (i, there, r) ↦
            subst (Commits s (a ∷ as_) none) (sym (bind_ok (resolve path) rest s t i r)) (
              Commits-Grows (a ∷ as_) s t (rest i t) w g (
                self_moved a as_ t g.sound (omega (arith, same)) i
                  (look_root (a ∷ as_) s t w g ∙ ap (λ p. look s.state.root p s) (sym e) ∙ there)))
      ])
