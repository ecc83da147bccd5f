-- ===== src/Filesystem/Renames.antt =====
-- `rename` of crates/neuralfs-fs/src/fs.rs: the new path is written, then the old one removed, and
-- one commit ends both.
use neural_file_system.Prelude.{
  ℕ, ◌+◌, ◌*◌, ◌^◌, ◌<◌, ◌≤◌, ◌≡◌, ◌⊎◌, ◌∙◌, ap, sym, subst, none, some, true, Bytes, Result, ok,
  err, Error, Option-cases, inl, inr, List, [], ◌∷◌, length, arith,
}
use neural_file_system.Inode.{Name}
use neural_file_system.Platform.{Platform}
use neural_file_system.Filesystem.{
  Filesystem, Action, ◌>>=◌, get_root, rebuild, commit, split, resolve,
}
use neural_file_system.Filesystem.Files.{rename}
use neural_file_system.Filesystem.Nodes.{IsSound, Grows, Grows-trans}
use neural_file_system.Filesystem.Paths.{
  look, child, child-Younger, blocked, blocked-Grows, look-Grows, bind_ok, bind_err, resolve_lem,
}
use neural_file_system.Filesystem.Rebuild.{Diverges, Rebuilt, rebuild_lem}
use neural_file_system.Filesystem.History.{Later, Grows-Later, Later-trans, commit-Later, look-kept}

Diverges-sym : (p q : List Name) → Diverges p q → Diverges q p
Diverges-sym [] q d = absurd d
Diverges-sym (x ∷ p) [] d = absurd d
Diverges-sym (x ∷ p) (y ∷ q) d = λ e. Diverges-sym p q (d (sym e))

module _ {P : Platform} where
  -- A walk from a directory ends at a number that is no greater.
  pub look_le :
      (d : ℕ) (q : List Name) (i : ℕ) (s : Filesystem P)
      → IsSound s
      → d < s.state.next_inode
      → look d q s ≡ some i
      → i ≤ d
  unfolding look
  look_le d [] i s w l h = ground (arith, h)
  look_le d (c ∷ q) i s w l h = elim (Option-cases (child c d s)) [
    | inl e ↦ absurd (ground arith)
    | inr (k, e) ↦
        let younger = child-Younger c d k s w l e in
        let rest : look k q s ≡ some i = ground arith in
        let le = look_le k q i s w (omega arith) rest in omega arith
  ]

  -- What was there when only inodes were added is found from the root where it was.
  pub look_root :
      (q : List Name) (s t : Filesystem P)
      → IsSound s
      → Grows s t
      → look t.state.root q t ≡ look s.state.root q s
  look_root q s t w g = ap (λ d. look d q t) g.root ∙ look-Grows s.state.root q s t w g w.rooted

  -- Nothing is under the old path, the new one leads to what the old one led to, and every path
  -- off both leads where it led.
  pub record Renamed (s u : Filesystem P) (p q : List Name) (i : ℕ) : Type 0 where
    pub later : Later s u
    pub gone : look u.state.root p u ≡ none
    pub found : look u.state.root q u ≡ some i
    pub others :
        (r : List Name)
        → Diverges p r
        → Diverges q r
        → look u.state.root r u ≡ look s.state.root r s

  abbrev pub Renames :
      Filesystem P → List Name → List Name → Result (Unit {0}) × Filesystem P → Type 0
  Renames s p q r =
      ((i : ℕ) × (u : Filesystem P) × (look s.state.root p s ≡ some i)
        × (r ≡ (ok tt, u))
        × Renamed s u p q i)
      ⊎ ((e : Error) × (t : Filesystem P) × (r ≡ (err e, t))
          × Grows s t
          × ((look s.state.root p s ≡ none) ⊎ (blocked s.state.root q s ≡ true)))

  module _ (p q : List Name) (dv : Diverges p q) where
    both_changed :
        (i n m : ℕ) (s t v : Filesystem P)
        → Rebuilt s t s.state.root n q (some i)
        → Rebuilt t v n m p none
        → Renamed s (commit m v).1 p q i
    unfolding commit
    both_changed i n m s t v b c =
        let u = (commit m v).1 in
        let now : Later v u = commit-Later m v c.grows.sound c.fresh in
        let same : (r : List Name) → look m r u ≡ look m r v =
          λ r. look-kept m r v u c.grows.sound now.kept c.fresh in
        record {
          later = Later-trans s v u (Grows-Later s v (Grows-trans s t v b.grows c.grows)) now;
          gone = same p ∙ c.found;
          found = same q ∙ c.others q dv ∙ b.found;
          others = λ r x y. same r ∙ c.others r x ∙ b.others r y;
        }

    -- What was read before is as it was.
    Renames-Grows :
        (s t : Filesystem P) (r : Result (Unit {0}) × Filesystem P)
        → IsSound s
        → Grows s t
        → Renames t p q r
        → Renames s p q r
    Renames-Grows s t r w g o = elim o [
      | inl (i, u, here, e, c) ↦ inl (
        i,
        u,
        sym (look_root p s t w g) ∙ here,
        e,
        record {
          later = Later-trans s t u (Grows-Later s t g) c.later;
          gone = c.gone;
          found = c.found;
          others = λ x y z. c.others x y z ∙ look_root x s t w g;
        },
      )
      | inr (er, u, e, h, inl none_there) ↦
          inr (er, u, e, Grows-trans s t u g h, inl (sym (look_root p s t w g) ∙ none_there))
      | inr (er, u, e, h, inr in_the_way) ↦ inr (
        er,
        u,
        e,
        Grows-trans s t u g h,
        inr (
            sym (blocked-Grows s.state.root q s t w g w.rooted)
            ∙ ap (λ x. blocked x q t) (sym g.root)
            ∙ in_the_way),
      )
    ]

  module _ (a : Name) (as_ : List Name) (b : Name) (bs : List Name)
      (dv : Diverges (a ∷ as_) (b ∷ bs)) (s : Filesystem P) (w : IsSound s)
      (room : s.state.next_inode + 2 * length (a ∷ as_) + 2 * length (b ∷ bs) ≤ 2 ^ 64) where
    -- The second half of `rename`: the old path is removed from the new root.
    removed :
        (i n : ℕ) (t : Filesystem P)
        → look s.state.root (a ∷ as_) s ≡ some i
        → Rebuilt s t s.state.root n (b ∷ bs) (some i)
        → Renames s (a ∷ as_) (b ∷ bs) ((rebuild n a as_ none >>= commit) t)
    unfolding commit
    removed i n t here c =
        elim (rebuild_lem n a as_ none t c.grows.sound c.fresh (λ k h. absurd (ground arith))
          (omega (arith, c.used))) [
            | inl (m, v, r, o) ↦ inl (
              i,
              (commit m v).1,
              here,
              bind_ok (rebuild n a as_ none) commit t v m r,
              both_changed (a ∷ as_) (b ∷ bs) dv i n m s t v c o,
            )
            | inr (e, v, r, g, lost) ↦
                let kept = c.others (a ∷ as_) (Diverges-sym (a ∷ as_) (b ∷ bs) dv) in
                absurd (ground arith)
          ]

    moved :
        (i : ℕ)
        → look s.state.root (a ∷ as_) s ≡ some i
        → Renames s
            (a ∷ as_)
            (b ∷ bs)
            ((rebuild s.state.root b bs (some i) >>= λ r₁. rebuild r₁ a as_ none >>= commit) s)
    moved i here =
        let le = look_le s.state.root (a ∷ as_) i s w w.rooted here in
        let rest : ℕ → Action P (Unit {0}) = λ r₁. rebuild r₁ a as_ none >>= commit in
        elim (rebuild_lem s.state.root b bs (some i) s w w.rooted
          (λ k h. ground (arith, le, h, w.rooted)) (omega arith)) [
            | inl (n, t, r, c) ↦
                subst (Renames s (a ∷ as_) (b ∷ bs))
                  (sym (bind_ok (rebuild s.state.root b bs (some i)) rest s t n r))
                  (removed i n t here c)
            | inr (e, t, r, g, in_the_way) ↦ inr (
              e,
              t,
              bind_err (rebuild s.state.root b bs (some i)) rest s t e r,
              g,
              inr in_the_way,
            )
          ]

  -- On a sound filesystem with room for the inodes along both paths, `rename` of a path to
  -- another one, where neither is the root or leads through the other, either leaves nothing
  -- under the old path, under the new one the very inode that the old one led to, also over what
  -- was there, every path off both where it led, and every inode that was there unchanged; or it
  -- fails, which it does only where nothing is under the old path or a file is in the way of the
  -- new one, and then the root and every inode that was there stay.
  pub rename-Renames :
      (from to : Bytes) (a b : Name) (as_ bs : List Name) (s : Filesystem P)
      → IsSound s
      → split from ≡ a ∷ as_
      → split to ≡ b ∷ bs
      → Diverges (a ∷ as_) (b ∷ bs)
      → s.state.next_inode + 2 * length (a ∷ as_) + 2 * length (b ∷ bs) ≤ 2 ^ 64
      → Renames s (a ∷ as_) (b ∷ bs) (rename from to s)
  unfolding rename get_root ◌>>=◌
  rename-Renames from to a b as_ bs s w ef et dv room =
      let (t, (g, same), o) = resolve_lem from s w in
      let rest : ℕ → Action P (Unit {0}) = λ i. get_root >>= λ root.
      rebuild root b bs (some i) >>= λ r₁. rebuild r₁ a as_ none >>= commit in
      rw (ef, et)
        (elim o [
          | inr (lost, (e, r)) ↦ inr (
            e,
            t,
            bind_err (resolve from) rest s t e r,
            g,
            inl (ap (λ p. look s.state.root p s) (sym ef) ∙ lost),
          )
          | inl (i, there, r) ↦
              subst (Renames s (a ∷ as_) (b ∷ bs)) (sym (bind_ok (resolve from) rest s t i r)) (
                Renames-Grows (a ∷ as_) (b ∷ bs) dv s t (rest i t) w g (
                  moved a as_ b bs dv t g.sound (omega (arith, same)) i (
                    look_root (a ∷ as_) s t w g
                    ∙ ap (λ p. look s.state.root p s) (sym ef)
                    ∙ there)))
        ])
