-- ===== src/Filesystem/Nodes.antt =====
-- The inodes of crates/neuralfs-fs/src/fs.rs as a partial map from numbers to inodes, and what each
-- step that reads or writes one does to it.
use neural_file_system.Prelude.{
  ℕ, ◌+◌, ◌^◌, ◌<◌, ◌≤◌, ◌≡◌, ◌∙◌, ap, sym, subst, refl, Option, none, some, ℕ_discrete, ite, ok,
  Option-cases, inl, inr, arith,
}
use neural_file_system.Inode.{Name, Entries, Inode, file, dir, get_entry}
use neural_file_system.Platform.{Platform}
use neural_file_system.BlockStore.Codec.{to_be_bytes_injective}
use neural_file_system.Filesystem.{Filesystem, id_key, read_inode, put_inode, new_dir, alloc, ◌>>=◌}

-- Keys of different numbers differ.
id_key_injective : (i j : ℕ) → i < 2 ^ 64 → j < 2 ^ 64 → id_key i ≡ id_key j → i ≡ j
unfolding id_key
id_key_injective i j p q h = to_be_bytes_injective 8 i j (omega arith) (omega arith) h

-- Every entry leads to a number below the bound.
abbrev pub Younger : ℕ → Inode → Type 0
Younger b (file size blocks inline mtime mode) = Unit
Younger b (dir entries mtime) = (k : Name) (i : ℕ) → get_entry k entries ≡ some i → i < b

module _ {P : Platform} where
  -- The inode of a number, as it stands on disk.
  unfoldable pub node : ℕ → Filesystem P → Option Inode
  node id s = elim (P.sled.get (id_key id) s.inodes) [
    | none ↦ none
    | some v ↦ P.inode_code.deserialize v
  ]

  -- The cache agrees with the disk, every number that was given out has an inode, and a directory
  -- is younger than what it holds.
  pub record IsSound (s : Filesystem P) : Type 0 where
    pub cached :
        (j : ℕ) (n : Inode)
        → P.lru.peek j s.inode_cache ≡ some n
        → (j < s.state.next_inode) × (node j s ≡ some n)
    pub present : (j : ℕ) → j < s.state.next_inode → (n : Inode) × (node j s ≡ some n)
    pub closed : (j : ℕ) (n : Inode) → j < s.state.next_inode → node j s ≡ some n → Younger j n
    pub rooted : s.state.root < s.state.next_inode

  -- Inodes were added: what was there, the root included, is unchanged.
  pub record Grows (s t : Filesystem P) : Type 0 where
    pub sound : IsSound t
    pub next : s.state.next_inode ≤ t.state.next_inode
    pub kept : (j : ℕ) → j < s.state.next_inode → node j t ≡ node j s
    pub root : t.state.root ≡ s.state.root
    pub blocks : t.blocks ≡ s.blocks
    pub snapshots : t.snapshots ≡ s.snapshots

  pub Grows-refl : (s : Filesystem P) → IsSound s → Grows s s
  Grows-refl s w = record {
    sound = w;
    next = omega arith;
    kept = λ j h. refl;
    root = refl;
    blocks = refl;
    snapshots = refl;
  }

  pub Grows-trans : (s t u : Filesystem P) → Grows s t → Grows t u → Grows s u
  Grows-trans s t u g h = record {
    sound = h.sound;
    next = omega (arith, g.next, h.next);
    kept = λ j l. h.kept j (omega (arith, g.next)) ∙ g.kept j l;
    root = h.root ∙ g.root;
    blocks = h.blocks ∙ g.blocks;
    snapshots = h.snapshots ∙ g.snapshots;
  }

  abbrev pub with_cache : P.lru.Cache → Filesystem P → Filesystem P
  with_cache c s = record s { inode_cache = c }

  with_cache-Grows :
      (c : P.lru.Cache) (s : Filesystem P)
      → IsSound s
      → ((j : ℕ) (n : Inode)
          → P.lru.peek j c ≡ some n
          → (j < s.state.next_inode) × (node j s ≡ some n))
      → Grows s (with_cache c s)
  unfolding node
  with_cache-Grows c s w h = record {
    sound = record { cached = h; present = w.present; closed = w.closed; rooted = w.rooted };
    next = omega arith;
    kept = λ j l. refl;
    root = refl;
    blocks = refl;
    snapshots = refl;
  }

  module _ (id : ℕ) (n : Inode) (s : Filesystem P) (w : IsSound s) (l : id < s.state.next_inode)
      (e : node id s ≡ some n) where
    hit :
        (m : Inode)
        → P.lru.peek id s.inode_cache ≡ some m
        → read_inode id s ≡ (ok n, with_cache (P.lru.get id s.inode_cache).1 s)
    unfolding read_inode
    hit m h =
        let same : some m ≡ some n = sym (w.cached id m h).1 ∙ e in
        ground (arith, P.lru.get-peek id s.inode_cache, same)

    abbrev after_get : P.lru.Cache
    after_get = (P.lru.get id s.inode_cache).1

    miss :
        P.lru.peek id s.inode_cache ≡ none
        → read_inode id s ≡ (ok n, with_cache (P.lru.insert id n after_get) s)
    unfolding read_inode node
    miss h = ground (arith, P.lru.get-peek id s.inode_cache)

    after_get-Grows : Grows s (with_cache after_get s)
    after_get-Grows =
        with_cache-Grows after_get s w
          (λ j m h. w.cached j m (sym (P.lru.peek-get id j s.inode_cache) ∙ h))

    after_miss-Grows : Grows s (with_cache (P.lru.insert id n after_get) s)
    after_miss-Grows = with_cache-Grows (P.lru.insert id n after_get) s w (λ j m h. ground (
      arith,
      P.lru.peek-insert id j n after_get,
      P.lru.peek-get id j s.inode_cache,
      w.cached j m,
      ap (λ (k : ℕ). node k s),
    ))

    -- Reading an inode gives what is on disk, and changes the cache only.
    pub read_inode_lem :
        (c : P.lru.Cache) × (read_inode id s ≡ (ok n, with_cache c s)) × Grows s (with_cache c s)
    read_inode_lem = elim (Option-cases (P.lru.peek id s.inode_cache)) [
      | inr (m, h) ↦ (after_get, hit m h, after_get-Grows)
      | inl h ↦ (P.lru.insert id n after_get, miss h, after_miss-Grows)
    ]

  -- The next number is given to an inode.
  unfoldable pub with_inode : Inode → Filesystem P → Filesystem P
  with_inode n s = record s {
    state = record s.state { next_inode = s.state.next_inode + 1 };
    inodes = P.sled.insert (id_key s.state.next_inode) (P.inode_code.serialize n) s.inodes;
    inode_cache = P.lru.insert s.state.next_inode n s.inode_cache;
  }

  pub new_dir_lem :
      (entries : Entries) (s : Filesystem P)
      → new_dir entries s
        ≡ (ok s.state.next_inode, with_inode (dir entries (P.now s.state.next_inode)) s)
  unfolding new_dir alloc put_inode ◌>>=◌ with_inode
  new_dir_lem entries s = refl

  pub with_inode-next :
      (n : Inode) (s : Filesystem P) → (with_inode n s).state.next_inode ≡ s.state.next_inode + 1
  unfolding with_inode
  with_inode-next n s = refl

  pub node-with_inode :
      (j : ℕ) (n : Inode) (s : Filesystem P)
      → s.state.next_inode < 2 ^ 64
      → j ≤ s.state.next_inode
      → node j (with_inode n s) ≡ ite (ℕ_discrete s.state.next_inode j) (some n) (node j s)
  unfolding node with_inode
  node-with_inode j n s f l = ground (
    arith,
    P.sled.get-insert (id_key j) (id_key s.state.next_inode) (P.inode_code.serialize n) s.inodes,
    P.inode_code.deserialize-serialize n,
    id_key_injective s.state.next_inode j f (omega arith),
    ap id_key,
  )

  module _ (n : Inode) (s : Filesystem P) (w : IsSound s) (f : s.state.next_inode < 2 ^ 64)
      (y : Younger s.state.next_inode n) where
    pub node_new : node s.state.next_inode (with_inode n s) ≡ some n
    node_new = ground (arith, node-with_inode s.state.next_inode n s f (omega arith))

    node_old : (j : ℕ) → j < s.state.next_inode → node j (with_inode n s) ≡ node j s
    node_old j l = ground (arith, node-with_inode j n s f (omega arith))

    with_inode-cached :
        (j : ℕ) (m : Inode)
        → P.lru.peek j (with_inode n s).inode_cache ≡ some m
        → (j < (with_inode n s).state.next_inode) × (node j (with_inode n s) ≡ some m)
    unfolding with_inode
    with_inode-cached j m h = elim (ℕ_discrete s.state.next_inode j) [
      | yes p ↦ (
        omega arith,
        ground (
          arith,
          P.lru.peek-insert s.state.next_inode j n s.inode_cache,
          node-with_inode j n s f (omega arith),
        ),
      )
      | no p ↦
          let (l, e) : (j < s.state.next_inode) × (node j s ≡ some m) =
            w.cached j m (ground (arith, P.lru.peek-insert s.state.next_inode j n s.inode_cache)) in
          (omega arith, node_old j l ∙ e)
    ]

    inode_same : (m : Inode) → node s.state.next_inode (with_inode n s) ≡ some m → n ≡ m
    inode_same m h = cc (node_new, h)

    with_inode-closed :
        (j : ℕ) (m : Inode)
        → j < s.state.next_inode + 1
        → node j (with_inode n s) ≡ some m
        → Younger j m
    with_inode-closed j m l h = elim (ℕ_discrete s.state.next_inode j) [
      | yes p ↦
          subst (λ x. Younger x m) p
            (subst (Younger s.state.next_inode)
              (inode_same m (ap (λ x. node x (with_inode n s)) p ∙ h)) y)
      | no p ↦ w.closed j m (omega arith) (sym (node_old j (omega arith)) ∙ h)
    ]

    with_inode-present :
        (j : ℕ) → j < s.state.next_inode + 1 → (m : Inode) × (node j (with_inode n s) ≡ some m)
    with_inode-present j l = elim (ℕ_discrete s.state.next_inode j) [
      | yes p ↦ (n, ap (λ x. node x (with_inode n s)) (sym p) ∙ node_new)
      | no p ↦ let (m, e) = w.present j (omega arith) in (m, node_old j (omega arith) ∙ e)
    ]

    pub with_inode-Grows : Grows s (with_inode n s)
    unfolding with_inode
    with_inode-Grows = record {
      sound = record {
        cached = with_inode-cached;
        present = λ j l. with_inode-present j (omega (arith, with_inode-next n s));
        closed = λ j m l. with_inode-closed j m (omega (arith, with_inode-next n s));
        rooted = omega (arith, w.rooted);
      };
      next = omega (arith, with_inode-next n s);
      kept = node_old;
      root = refl;
      blocks = refl;
      snapshots = refl;
    }

  -- Another view of a read: the state after it has the same inodes.
  abbrev pub Reads : Filesystem P → Filesystem P → Type 0
  Reads s t = Grows s t × (t.state.next_inode ≡ s.state.next_inode)

  pub read_inode-Reads :
      (id : ℕ) (n : Inode) (s : Filesystem P)
      → IsSound s
      → id < s.state.next_inode
      → node id s ≡ some n
      → (t : Filesystem P) × (read_inode id s ≡ (ok n, t)) × Reads s t
  read_inode-Reads id n s w l e =
      let (c, r, g) = read_inode_lem id n s w l e in (with_cache c s, r, (g, refl))
