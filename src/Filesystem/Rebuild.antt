-- ===== src/Filesystem/Rebuild.antt =====
-- `rebuild` of crates/neuralfs-fs/src/fs.rs as a whole: the new directory leads to the leaf under
-- the path, and everywhere off the path to what it led to.
use neural_file_system.Prelude.{
  ℕ, ◌+◌, ◌*◌, ◌^◌, ◌<◌, ◌≤◌, ◌≡◌, ◌⊎◌, ◌∙◌, ap, sym, subst, refl, Option, none, some, true, Result,
  ok, err, Error, traverses_a_file, inl, inr, List, [], ◌∷◌, length, bytes_discrete, arith,
}
use neural_file_system.Inode.{
  Name, Entries, Inode, file, dir, get_entry, insert_entry, get_entry-insert_entry,
}
use neural_file_system.Platform.{Platform}
use neural_file_system.Filesystem.{
  Filesystem, Action, ◌>>=◌, read_inode, entries_of, set_leaf, child_or_new, new_dir, rebuild,
}
use neural_file_system.Filesystem.Nodes.{
  node, IsSound, Grows, Grows-trans, Reads, read_inode-Reads, with_inode, new_dir_lem,
  with_inode-next,
}
use neural_file_system.Filesystem.Paths.{
  blocked, blocked-Grows, look, look-Grows, bind_ok, bind_err,
}
use neural_file_system.Filesystem.Links.{
  Sets, below, blocked_file, look_dir, set_leaf_lem, child_or_new_lem, link-Grows, look_changed,
  look_other,
}

-- The second path leaves the first one, and is no part of it.
abbrev pub Diverges : List Name → List Name → Type 0
Diverges [] q = ⊥
Diverges (x ∷ p) [] = ⊥
Diverges (x ∷ p) (y ∷ q) = x ≡ y → Diverges p q

-- Why a change fails: to put something, that a file is in the way; to remove, that nothing is there.
abbrev pub Fails : {P : Platform} → Option ℕ → ℕ → List Name → Filesystem P → Type 0
Fails (some i) d p s = blocked d p s ≡ true
Fails none d p s = look d p s ≡ none

module _ {P : Platform} where
  pub record Rebuilt (s t : Filesystem P) (d n : ℕ) (p : List Name) (leaf : Option ℕ) : Type 0 where
    pub grows : Grows s t
    pub fresh : n < t.state.next_inode
    pub used : t.state.next_inode + 1 ≤ s.state.next_inode + 2 * length p
    pub found : look n p t ≡ leaf
    pub others : (q : List Name) → Diverges p q → look n q t ≡ look d q s

  abbrev pub Outcome : Filesystem P → ℕ → List Name → Option ℕ → Result ℕ × Filesystem P → Type 0
  Outcome s d p leaf r =
      ((n : ℕ) × (t : Filesystem P) × (r ≡ (ok n, t)) × Rebuilt s t d n p leaf)
      ⊎ ((e : Error) × (t : Filesystem P) × (r ≡ (err e, t)) × Grows s t × Fails leaf d p s)

  -- The last step of `rebuild`: the directory with one name changed is written.
  module _ (name : Name) (target : Option ℕ) (d : ℕ) (es changed : Entries) (m₀ : ℕ)
      (s t : Filesystem P) (w : IsSound s) (g : Grows s t) (l : d < s.state.next_inode)
      (e : node d s ≡ some (dir es m₀)) (f : t.state.next_inode < 2 ^ 64)
      (sets : Sets name target es changed)
      (old : (i : ℕ) → target ≡ some i → i < t.state.next_inode) where
    link_lem :
        (p : List Name) (leaf : Option ℕ)
        → t.state.next_inode + 2 ≤ s.state.next_inode + 2 * length (name ∷ p)
        → below target p t ≡ leaf
        → ((q : List Name) → Diverges p q → below target q t ≡ look d (name ∷ q) s)
        → Outcome s d (name ∷ p) leaf (new_dir changed t)
    link_lem p leaf used found others =
        let m = P.now t.state.next_inode in
        let u = with_inode (dir changed m) t in
        let h : Grows t u = link-Grows name target d es changed m₀ m s t w g l e f sets old in
        let next : u.state.next_inode ≡ t.state.next_inode + 1 =
          with_inode-next (dir changed m) t in
        inl (
          t.state.next_inode,
          u,
          new_dir_lem changed t,
          record {
            grows = Grows-trans s t u g h;
            fresh = omega (arith, next);
            used = omega (arith, next);
            found = look_changed name target d es changed m₀ m s t w g l e f sets old p ∙ found;
            others = off_path others;
          },
        )
      where
        off_path :
            ((q : List Name) → Diverges p q → below target q t ≡ look d (name ∷ q) s)
            → (q : List Name) → Diverges (name ∷ p) q
            → look t.state.next_inode q (with_inode (dir changed (P.now t.state.next_inode)) t)
              ≡ look d q s
        off_path rest [] dv = absurd dv
        off_path rest (y ∷ q) dv = elim (bytes_discrete name y) [
          | yes p ↦
              let u = with_inode (dir changed (P.now t.state.next_inode)) t in
              subst (λ x. look t.state.next_inode (x ∷ q) u ≡ look d (x ∷ q) s) p
                (look_changed name target d es changed m₀ (P.now t.state.next_inode) s t w g l e f
                    sets old q
                  ∙ rest q (dv p))
          | no p ↦
              look_other name target d es changed m₀ (P.now t.state.next_inode) s t w g l e f sets
                old y q p
        ]

  below_nil : (x : Option ℕ) (t : Filesystem P) → below x [] t ≡ x
  unfolding look
  below_nil none t = refl
  below_nil (some k) t = refl

  Fails-file :
      (d : ℕ) (p : List Name) (s : Filesystem P) (x : Option ℕ)
      → (blocked d p s ≡ true) × (look d p s ≡ none)
      → Fails x d p s
  Fails-file d p s (some i) h = h.0
  Fails-file d p s none h = h.1

  -- What `rebuild` does with the inode that it read, in its two cases.
  abbrev last : Name → Option ℕ → Inode → Action P ℕ
  last name leaf inode =
      entries_of inode >>= λ entries. set_leaf name leaf entries >>= λ changed. new_dir changed

  abbrev inner : Name → Name → List Name → Option ℕ → Inode → Action P ℕ
  inner name c comps leaf inode = entries_of inode >>= λ entries.
      child_or_new (get_entry name entries) >>= λ k.
      rebuild k c comps leaf >>= λ new_child. new_dir (insert_entry name new_child entries)

  -- The new child takes the place of the old one.
  module _ (name : Name) (d : ℕ) (leaf : Option ℕ) (s t : Filesystem P) (w : IsSound s)
      (l : d < s.state.next_inode) (g₀ : Grows s t) (c : Name) (comps : List Name) (es : Entries)
      (m : ℕ) (e : node d s ≡ some (dir es m)) (k : ℕ) (u : Filesystem P)
      (h : child_or_new (get_entry name es) t ≡ (ok k, u)) (g : Grows s u)
      (same : (z : Name) (q : List Name)
        → (look k (z ∷ q) u ≡ look d (name ∷ z ∷ q) t)
          × (blocked k (z ∷ q) u ≡ blocked d (name ∷ z ∷ q) t)) where
    Fails-same : (x : Option ℕ) → Fails x k (c ∷ comps) u → Fails x d (name ∷ c ∷ comps) s
    Fails-same (some i) b =
        sym (blocked-Grows d (name ∷ c ∷ comps) s t w g₀ l) ∙ sym (same c comps).1 ∙ b
    Fails-same none b = sym (look-Grows d (name ∷ c ∷ comps) s t w g₀ l) ∙ sym (same c comps).0 ∙ b

    same_below :
        (n : ℕ) (v : Filesystem P)
        → ((q : List Name) → Diverges (c ∷ comps) q → look n q v ≡ look k q u)
        → (q : List Name) → Diverges (c ∷ comps) q
        → look n q v ≡ look d (name ∷ q) s
    same_below n v others [] dv = absurd dv
    same_below n v others (z ∷ q) dv =
        others (z ∷ q) dv ∙ (same z q).0 ∙ look-Grows d (name ∷ z ∷ q) s t w g₀ l

    relink :
        u.state.next_inode ≤ s.state.next_inode + 1
        → Outcome u k (c ∷ comps) leaf (rebuild k c comps leaf u)
        → s.state.next_inode + 2 * length (name ∷ c ∷ comps) ≤ 2 ^ 64
        → Outcome s d (name ∷ c ∷ comps) leaf (inner name c comps leaf (dir es m) t)
    unfolding entries_of ◌>>=◌
    relink used o room = elim o [
      | inl (n, v, r, b) ↦
          subst (Outcome s d (name ∷ c ∷ comps) leaf)
            (sym (
              bind_ok (child_or_new (get_entry name es)) (λ x. rebuild x c comps leaf >>= link) t u
                k h
              ∙ bind_ok (rebuild k c comps leaf) link u v n r))
            (link_lem name (some n) d es (insert_entry name n es) m s v w
              (Grows-trans s u v g b.grows) l e (omega (arith, b.used))
              (λ y. get_entry-insert_entry y name n es) (λ i x. ground (arith, b.fresh)) (c ∷ comps)
              leaf (omega (arith, b.used)) b.found (same_below n v b.others))
      | inr (er, v, r, b, fails) ↦ inr (
        er,
        v,
        bind_ok (child_or_new (get_entry name es)) (λ x. rebuild x c comps leaf >>= link) t u k h
            ∙ bind_err (rebuild k c comps leaf) link u v er r,
        Grows-trans s u v g b,
        Fails-same leaf fails,
      )
    ]
      where
        link : ℕ → Action P ℕ
        link new_child = new_dir (insert_entry name new_child es)

  module _ (name : Name) (d : ℕ) (leaf : Option ℕ) (s t : Filesystem P) (w : IsSound s)
      (l : d < s.state.next_inode) (reads : Reads s t)
      (old : (i : ℕ) → leaf ≡ some i → i < s.state.next_inode) where
    last_lem :
        (n : Inode)
        → node d s ≡ some n
        → s.state.next_inode < 2 ^ 64
        → Outcome s d (name ∷ []) leaf (last name leaf n t)
    unfolding entries_of ◌>>=◌
    last_lem (file size blocks inline mtime mode) e f = inr (
      traverses_a_file,
      t,
      refl,
      reads.0,
      Fails-file d (name ∷ []) s leaf (blocked_file d size blocks inline mtime mode s name [] e),
    )
    last_lem (dir es m) e f = elim (set_leaf_lem name leaf es t) [
      | inl (changed, h, sets) ↦
          subst (Outcome s d (name ∷ []) leaf)
            (sym (bind_ok (set_leaf name leaf es) new_dir t t changed h))
            (link_lem name leaf d es changed m s t w reads.0 l e (omega arith) sets
              (λ i x. omega (arith, old i x)) [] leaf (omega arith) (below_nil leaf t)
              (λ q dv. absurd dv))
      | inr (er, h, no_leaf, absent) ↦ inr (
        er,
        t,
        bind_err (set_leaf name leaf es) new_dir t t er h,
        reads.0,
        subst (λ x. Fails x d (name ∷ []) s) (sym no_leaf)
            (look_dir d es m s name [] e ∙ ap (λ x. below x [] s) absent),
      )
    ]

    inner_lem :
        (c : Name) (comps : List Name) (n : Inode)
        → ((k : ℕ) (u : Filesystem P)
            → IsSound u
            → k < u.state.next_inode
            → ((i : ℕ) → leaf ≡ some i → i < u.state.next_inode)
            → u.state.next_inode + 2 * length (c ∷ comps) ≤ 2 ^ 64
            → Outcome u k (c ∷ comps) leaf (rebuild k c comps leaf u))
        → node d s ≡ some n
        → s.state.next_inode + 2 * length (name ∷ c ∷ comps) ≤ 2 ^ 64
        → Outcome s d (name ∷ c ∷ comps) leaf (inner name c comps leaf n t)
    unfolding entries_of ◌>>=◌
    inner_lem c comps (file size blocks inline mtime mode) ih e f = inr (
      traverses_a_file,
      t,
      refl,
      reads.0,
      Fails-file d (name ∷ c ∷ comps) s leaf
          (blocked_file d size blocks inline mtime mode s name (c ∷ comps) e),
    )
    inner_lem c comps (dir es m) ih e f =
        let here : node d t ≡ some (dir es m) = reads.0.kept d l ∙ e in
        let (k, u, h, g, k_lt, used, same) =
          child_or_new_lem name d es m t reads.0.sound (omega arith) here (omega arith) in
        relink name d leaf s t w l reads.0 c comps es m e k u h (Grows-trans s t u reads.0 g) same
          (omega arith) (ih k u g.sound k_lt (λ i x. omega (arith, old i x, g.next)) (omega arith))
          (omega arith)

  -- On a sound filesystem with room for the inodes along the path, `rebuild` with a leaf that is
  -- there either gives a directory in which the path leads to the leaf, or to nothing if there is
  -- none, and every path off it where it led; or it fails, which it does only where a file is in
  -- the way or, without a leaf, where nothing is under the path. The root and every inode that
  -- was there stay.
  pub rebuild_lem :
      (d : ℕ) (name : Name) (comps : List Name) (leaf : Option ℕ) (s : Filesystem P)
      → IsSound s
      → d < s.state.next_inode
      → ((i : ℕ) → leaf ≡ some i → i < s.state.next_inode)
      → s.state.next_inode + 2 * length (name ∷ comps) ≤ 2 ^ 64
      → Outcome s d (name ∷ comps) leaf (rebuild d name comps leaf s)
  unfolding rebuild
  rebuild_lem d name [] leaf s w l old f =
      let (n, e) = w.present d l in
      let (t, r, reads) = read_inode-Reads d n s w l e in
      subst (Outcome s d (name ∷ []) leaf) (sym (bind_ok (read_inode d) (last name leaf) s t n r))
        (last_lem name d leaf s t w l reads old n e (omega arith))
  rebuild_lem d name (c ∷ comps) leaf s w l old f =
      let (n, e) = w.present d l in
      let (t, r, reads) = read_inode-Reads d n s w l e in
      subst (Outcome s d (name ∷ c ∷ comps) leaf)
        (sym (bind_ok (read_inode d) (inner name c comps leaf) s t n r))
        (inner_lem name d leaf s t w l reads old c comps n
          (λ k u v k_lt leaf_lt room. rebuild_lem k c comps leaf u v k_lt leaf_lt room) e f)
