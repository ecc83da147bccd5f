-- ===== src/Filesystem/History.antt =====
-- `snapshot` and `rollback` of crates/neuralfs-fs/src/fs.rs, the opening of a new volume, and what
-- a commit keeps.
use neural_file_system.Prelude.{
  ℕ, ◌<◌, ◌≤◌, ◌≡◌, ◌∙◌, ap, subst, refl, max, some, ok, Option-cases, inl, inr, List, [], ◌∷◌,
  bytes_discrete, if_pos, arith,
}
use neural_file_system.Inode.{Name, Inode, dir}
use neural_file_system.Platform.{Platform}
use neural_file_system.Filesystem.{Filesystem, ◌>>=◌, ◌>>◌, commit, id_key, super_key}
use neural_file_system.Filesystem.Snapshots.{
  Disk, open_with_cache, mount, fresh_super, snapshot, rollback, find_snapshot, set_root,
}
use neural_file_system.Filesystem.Files.{inode_cache_entries}
use neural_file_system.Filesystem.Nodes.{node, IsSound, Grows, Younger}
use neural_file_system.Filesystem.Paths.{bind_ok, look, child, child-Younger}
use neural_file_system.Filesystem.Links.{empty-Younger}

module _ {P : Platform} where
  -- Inodes were added and the root may have moved, but no inode and no snapshot was changed.
  pub record Later (s t : Filesystem P) : Type 0 where
    pub sound : IsSound t
    pub next : s.state.next_inode ≤ t.state.next_inode
    pub kept : (j : ℕ) → j < s.state.next_inode → node j t ≡ node j s
    pub snapshots : t.snapshots ≡ s.snapshots

  pub Grows-Later : (s t : Filesystem P) → Grows s t → Later s t
  Grows-Later s t g = record {
    sound = g.sound;
    next = g.next;
    kept = g.kept;
    snapshots = g.snapshots;
  }

  pub Later-trans : (s t u : Filesystem P) → Later s t → Later t u → Later s u
  Later-trans s t u g h = record {
    sound = h.sound;
    next = omega (arith, g.next, h.next);
    kept = λ j l. h.kept j (omega (arith, g.next)) ∙ g.kept j l;
    snapshots = h.snapshots ∙ g.snapshots;
  }

  pub commit-Later :
      (n : ℕ) (s : Filesystem P) → IsSound s → n < s.state.next_inode → Later s (commit n s).1
  unfolding commit node
  commit-Later n s w l = record {
    sound = record { cached = w.cached; present = w.present; closed = w.closed; rooted = l };
    next = omega arith;
    kept = λ j h. refl;
    snapshots = refl;
  }

  -- Paths from a number that was there lead where they led.
  pub look-kept :
      (d : ℕ) (q : List Name) (s t : Filesystem P)
      → IsSound s
      → ((j : ℕ) → j < s.state.next_inode → node j t ≡ node j s)
      → d < s.state.next_inode
      → look d q t ≡ look d q s
  unfolding look child
  look-kept d [] s t w kept l = refl
  look-kept d (c ∷ q) s t w kept l =
      let same : child c d t ≡ child c d s = rw (kept d l, child) refl in
      elim (Option-cases (child c d s)) [
        | inl h ↦ rw (same, h, look) refl
        | inr (k, h) ↦
            let younger = child-Younger c d k s w l h in
            rw (same, h, look) (look-kept k q s t w kept (omega arith))
      ]

  pub snapshot-IsSound : (name : Name) (s : Filesystem P) → IsSound s → IsSound (snapshot name s).1
  unfolding snapshot node
  snapshot-IsSound name s w = record {
    cached = w.cached;
    present = w.present;
    closed = w.closed;
    rooted = w.rooted;
  }

  module _ (name : Name) (s t : Filesystem P) (w : IsSound s)
      (g : Later (snapshot name s).1 t) where
    -- The state after the rollback.
    restored : Filesystem P
    restored =
        (commit s.state.root (record t {
          state = record t.state {
            root = s.state.root;
            next_inode = max t.state.next_inode s.state.next_inode;
          };
        })).1

    found : P.sled.get name t.snapshots ≡ some (P.super_code.serialize s.state)
    unfolding snapshot
    found =
        ap (P.sled.get name) g.snapshots
        ∙ P.sled.get-insert name name (P.super_code.serialize s.state) s.snapshots
        ∙ if_pos (bytes_discrete name name) refl _ _

    find_lem : find_snapshot name t ≡ (ok s.state, t)
    unfolding find_snapshot
    find_lem = rw (found, find_snapshot, P.super_code.deserialize-serialize s.state) refl

    rollback_lem : rollback name t ≡ (ok tt, restored)
    unfolding rollback set_root ◌>>=◌ restored commit
    rollback_lem =
        bind_ok (find_snapshot name) (λ snap. set_root snap >> commit snap.root) t t s.state
          find_lem

    grown : s.state.next_inode ≤ t.state.next_inode
    unfolding snapshot
    grown = omega (arith, g.next)

    kept_since : (j : ℕ) → j < s.state.next_inode → node j restored ≡ node j s
    unfolding snapshot restored commit node
    kept_since j l = g.kept j l

    restored-IsSound : IsSound restored
    unfolding restored commit node
    restored-IsSound = record {
      cached = λ j n h. let (l, e) = g.sound.cached j n h in (omega (arith, grown), e);
      present = λ j l. g.sound.present j (omega (arith, grown));
      closed = λ j n l. g.sound.closed j n (omega (arith, grown));
      rooted = omega (arith, grown, w.rooted);
    }

    -- In any later sound state in which no inode that was there and no snapshot was changed,
    -- `rollback` to a snapshot of a sound filesystem succeeds in a sound state, and every path
    -- leads to what it led to at the snapshot: the same number, with the same inode.
    pub rollback-snapshot :
        (u : Filesystem P) × (rollback name t ≡ (ok tt, u))
        × IsSound u
        × ((q : List Name) → look u.state.root q u ≡ look s.state.root q s)
        × ((j : ℕ) → j < s.state.next_inode → node j u ≡ node j s)
    unfolding restored commit
    rollback-snapshot = (
      restored,
      rollback_lem,
      restored-IsSound,
      λ q. look-kept s.state.root q s restored w kept_since w.rooted,
      kept_since,
    )

-- A volume with nothing on disk.
abbrev pub blank : {P : Platform} → Disk P
blank {P} = record {
  log = [];
  block_index = P.sled.new;
  inodes = P.sled.new;
  super_tree = P.sled.new;
  snapshots = P.sled.new;
}

module _ (P : Platform) (cache_bytes : ℕ) where
  abbrev root_inode : Inode
  root_inode = dir [] (P.now 0)

  first : Filesystem P
  first =
      mount blank cache_bytes
        (P.sled.insert (id_key 0) (P.inode_code.serialize root_inode) P.sled.new)
        (P.sled.insert super_key (P.super_code.serialize fresh_super) P.sled.new) fresh_super

  node_root : node 0 first ≡ some root_inode
  unfolding node first mount
  node_root = ground (
    arith,
    P.sled.get-insert (id_key 0) (id_key 0) (P.inode_code.serialize root_inode) P.sled.new,
    P.inode_code.deserialize-serialize root_inode,
  )

  one_inode : first.state.next_inode ≡ 1
  unfolding first mount
  one_inode = refl

  root_zero : first.state.root ≡ 0
  unfolding first mount
  root_zero = refl

  node_only : (j : ℕ) → j < first.state.next_inode → node j first ≡ some root_inode
  node_only j l = ap (λ i. node i first) (omega (arith, one_inode)) ∙ node_root

  nothing_cached : (j : ℕ) (n : Inode) → P.lru.peek j first.inode_cache ≡ some n → ⊥
  unfolding first mount
  nothing_cached j n h = ground (arith, P.lru.peek-new inode_cache_entries j)

  opens : open_with_cache blank cache_bytes ≡ ok first
  unfolding open_with_cache first mount
  opens = rw (P.sled.get-new super_key, open_with_cache) refl

  first-IsSound : IsSound first
  first-IsSound = record {
    cached = λ j n h. absurd (nothing_cached j n h);
    present = λ j l. (root_inode, node_only j l);
    closed = λ j n l e.
        subst (Younger j) {x = root_inode} (cc (node_only j l, e)) (empty-Younger j (P.now 0));
    rooted = omega (arith, one_inode, root_zero);
  }

  -- The first opening of a volume with nothing on disk succeeds: the filesystem is sound, and its
  -- root, the only inode, is an empty directory.
  pub open_blank_lem :
      (s : Filesystem P) × (open_with_cache blank cache_bytes ≡ ok s)
      × IsSound s
      × (node s.state.root s ≡ some (dir [] (P.now 0)))
      × (s.state.next_inode ≡ 1)
  unfolding first mount
  open_blank_lem = (first, opens, first-IsSound, node_root, one_inode)
