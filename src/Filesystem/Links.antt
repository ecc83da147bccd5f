-- ===== src/Filesystem/Links.antt =====
-- The steps of `rebuild` in crates/neuralfs-fs/src/fs.rs: the directory that is changed, the child
-- that is descended into, and the new directory in place of the old one.
use neural_file_system.Prelude.{
  ℕ, ◌+◌, ◌^◌, ◌<◌, ◌≤◌, ◌≡◌, ◌≢◌, ◌⊎◌, ◌∙◌, ap, sym, refl, Option, none, some, Bool, true, false,
  Bytes, ok, err, Error, no_such_entry, Option-cases, inl, inr, List, [], ◌∷◌, bytes_discrete, ite,
  if_pos, if_neg, lookup, lookup-erase, arith,
}
use neural_file_system.Inode.{
  Name, Entries, file, dir, is_dir, get_entry, insert_entry, remove_entry, get_entry-insert_entry,
}
use neural_file_system.Platform.{Platform}
use neural_file_system.Filesystem.{Filesystem, set_leaf, child_or_new, new_dir}
use neural_file_system.Filesystem.Nodes.{
  node, IsSound, Grows, Grows-refl, Younger, with_inode, with_inode-Grows, new_dir_lem, node_new,
  with_inode-next,
}
use neural_file_system.Filesystem.Paths.{blocked, look, look-Grows, child, entry_of}

-- One name of a directory was changed.
abbrev pub Sets : Name → Option ℕ → Entries → Entries → Type 0
Sets name target es changed =
    (y : Name) → get_entry y changed ≡ ite (bytes_discrete name y) target (get_entry y es)

pub empty-Younger : (b m : ℕ) → Younger b (dir [] m)
unfolding lookup
empty-Younger b m k i h = absurd (ground arith)

-- What the names lead to from a number, if there is one.
abbrev pub below : {P : Platform} → Option ℕ → List Name → Filesystem P → Option ℕ
below none q s = none
below (some k) q s = look k q s

module _ {P : Platform} where
  pub set_leaf_lem :
      (name : Name) (leaf : Option ℕ) (es : Entries) (s : Filesystem P)
      → ((changed : Entries) × (set_leaf name leaf es s ≡ (ok changed, s))
          × Sets name leaf es changed)
        ⊎ ((e : Error) × (set_leaf name leaf es s ≡ (err e, s))
            × (leaf ≡ none)
            × (get_entry name es ≡ none))
  unfolding set_leaf
  set_leaf_lem name (some i) es s =
      inl (insert_entry name i es, refl, λ y. get_entry-insert_entry y name i es)
  set_leaf_lem name none es s = elim (Option-cases (get_entry name es)) [
    | inl h ↦ inr (no_such_entry, rw (h, set_leaf) refl, refl, h)
    | inr (i, h) ↦
        inl
          (remove_entry name es, rw (h, set_leaf) refl, λ y. lookup-erase bytes_discrete y name es)
  ]

  -- The names below a new directory.
  pub look-with_inode :
      (es : Entries) (m : ℕ) (t : Filesystem P) (y : Name) (q : List Name)
      → IsSound t
      → t.state.next_inode < 2 ^ 64
      → Younger t.state.next_inode (dir es m)
      → look t.state.next_inode (y ∷ q) (with_inode (dir es m) t) ≡ below (get_entry y es) q t
  unfolding look child entry_of
  look-with_inode es m t y q w f young =
      let u = with_inode (dir es m) t in
      let here : child y t.state.next_inode u ≡ get_entry y es =
        rw (node_new (dir es m) t w f young, child, entry_of) refl in
      elim (Option-cases (get_entry y es)) [
        | inl h ↦ rw (here, h, look) refl
        | inr (k, h) ↦
            rw (here, h, look)
              (look-Grows k q t u w (with_inode-Grows (dir es m) t w f young) (young y k h))
      ]

  pub look_dir :
      (d : ℕ) (es : Entries) (m : ℕ) (s : Filesystem P) (y : Name) (q : List Name)
      → node d s ≡ some (dir es m)
      → look d (y ∷ q) s ≡ below (get_entry y es) q s
  unfolding look child entry_of
  look_dir d es m s y q e =
      let here : child y d s ≡ get_entry y es = rw (e, child, entry_of) refl in
      elim (Option-cases (get_entry y es)) [
        | inl h ↦ rw (here, h, look) refl
        | inr (k, h) ↦ rw (here, h, look) refl
      ]

  pub blocked_file :
      (d size : ℕ) (blocks : List Bytes) (inline : Bytes) (mtime mode : ℕ) (s : Filesystem P)
      (y : Name) (q : List Name)
      → node d s ≡ some (file size blocks inline mtime mode)
      → (blocked d (y ∷ q) s ≡ true) × (look d (y ∷ q) s ≡ none)
  unfolding blocked look child entry_of is_dir
  blocked_file d size blocks inline mtime mode s y q e =
      let here : child y d s ≡ none = rw (e, child, entry_of) refl in
      (rw (e, blocked, is_dir) refl, rw (here, look) refl)

  abbrev blocked_below : Option ℕ → List Name → Filesystem P → Bool
  blocked_below none q s = false
  blocked_below (some k) q s = blocked k q s

  blocked_dir :
      (d : ℕ) (es : Entries) (m : ℕ) (s : Filesystem P) (y : Name) (q : List Name)
      → node d s ≡ some (dir es m)
      → blocked d (y ∷ q) s ≡ blocked_below (get_entry y es) q s
  unfolding blocked entry_of is_dir
  blocked_dir d es m s y q e = elim (Option-cases (get_entry y es)) [
    | inl h ↦ rw (e, h, blocked, is_dir, entry_of) refl
    | inr (k, h) ↦ rw (e, h, blocked, is_dir, entry_of) refl
  ]

  -- The child that is there, or a new empty directory; nothing else is found below it.
  pub child_or_new_lem :
      (name : Name) (d : ℕ) (es : Entries) (m : ℕ) (s : Filesystem P)
      → IsSound s
      → d < s.state.next_inode
      → node d s ≡ some (dir es m)
      → s.state.next_inode < 2 ^ 64
      → (k : ℕ) × (t : Filesystem P) × (child_or_new (get_entry name es) s ≡ (ok k, t))
        × Grows s t
        × (k < t.state.next_inode)
        × (t.state.next_inode ≤ s.state.next_inode + 1)
        × ((z : Name) (q : List Name)
            → (look k (z ∷ q) t ≡ look d (name ∷ z ∷ q) s)
              × (blocked k (z ∷ q) t ≡ blocked d (name ∷ z ∷ q) s))
  unfolding child_or_new new_dir look lookup
  child_or_new_lem name d es m s w l e f = elim (Option-cases (get_entry name es)) [
    | inr (k, h) ↦
        let less : k < d = w.closed d (dir es m) l e name k h in
        (
          k,
          s,
          rw (h, child_or_new) refl,
          Grows-refl s w,
          omega arith,
          omega arith,
          λ z q. (
            sym (look_dir d es m s name (z ∷ q) e ∙ ap (λ x. below x (z ∷ q) s) h),
            sym (blocked_dir d es m s name (z ∷ q) e ∙ ap (λ x. blocked_below x (z ∷ q) s) h),
          ),
        )
    | inl h ↦
        let n = s.state.next_inode in
        let now = P.now n in
        (
          n,
          with_inode (dir [] now) s,
          rw (h, child_or_new) (new_dir_lem [] s),
          with_inode-Grows (dir [] now) s w f (empty-Younger n now),
          omega (arith, with_inode-next (dir [] now) s),
          omega (arith, with_inode-next (dir [] now) s),
          λ z q. (
            look-with_inode [] now s z q w f (empty-Younger n now)
                ∙ sym (look_dir d es m s name (z ∷ q) e ∙ ap (λ x. below x (z ∷ q) s) h),
            blocked_dir n [] now (with_inode (dir [] now) s) z q
                  (node_new (dir [] now) s w f (empty-Younger n now))
                ∙ sym (blocked_dir d es m s name (z ∷ q) e ∙ ap (λ x. blocked_below x (z ∷ q) s) h),
          ),
        )
  ]

  -- A new directory in which one name was changed.
  module _ (name : Name) (target : Option ℕ) (d : ℕ) (es changed : Entries) (m₀ m : ℕ)
      (s t : Filesystem P) (w : IsSound s) (g : Grows s t) (l : d < s.state.next_inode)
      (e : node d s ≡ some (dir es m₀)) (f : t.state.next_inode < 2 ^ 64)
      (sets : Sets name target es changed)
      (old : (i : ℕ) → target ≡ some i → i < t.state.next_inode) where
    young : Younger t.state.next_inode (dir changed m)
    young y i h = elim (bytes_discrete name y) [
      | yes p ↦ old i (ground (arith, sets y))
      | no p ↦
          let there : get_entry y es ≡ some i =
            sym (sets y ∙ if_neg (bytes_discrete name y) p _ _) ∙ h in
          let less : i < d = w.closed d (dir es m₀) l e y i there in omega (arith, g.next)
    ]

    pub link-Grows : Grows t (with_inode (dir changed m) t)
    link-Grows = with_inode-Grows (dir changed m) t g.sound f young

    pub look_changed :
        (q : List Name)
        → look t.state.next_inode (name ∷ q) (with_inode (dir changed m) t) ≡ below target q t
    look_changed q =
        look-with_inode changed m t name q g.sound f young
        ∙ ap (λ (x : Option ℕ). below x q t)
            (sets name ∙ if_pos (bytes_discrete name name) refl _ _)

    below_old : (y : Name) (q : List Name) → below (get_entry y es) q t ≡ below (get_entry y es) q s
    below_old y q = elim (Option-cases (get_entry y es)) [
      | inl h ↦ rw h refl
      | inr (k, h) ↦
          let less : k < d = w.closed d (dir es m₀) l e y k h in
          rw h (look-Grows k q s t w g (omega arith))
    ]

    pub look_other :
        (y : Name) (q : List Name)
        → name ≢ y
        → look t.state.next_inode (y ∷ q) (with_inode (dir changed m) t) ≡ look d (y ∷ q) s
    look_other y q differ =
        look-with_inode changed m t y q g.sound f young
        ∙ ap (λ (x : Option ℕ). below x q t) (sets y ∙ if_neg (bytes_discrete name y) differ _ _)
        ∙ below_old y q
        ∙ sym (look_dir d es m₀ s y q e)
