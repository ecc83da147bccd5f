-- ===== src/WinFs/Moves.antt =====
-- crates/neuralfs-daemon/src/winfsphost.rs: a rename moves a node with all that stands below it.
use neural_file_system.Prelude.{
  ◌≡◌, refl, sym, ap, ◌∙◌, Bool, true, false, not, ◌&&◌, Option, none, some, List, [], ◌∷◌, ◌++◌,
  inl, inr, Bool-cases, Option-cases, Bytes, lookup, erase, lookup-snoc, lookup-erase, Distinct,
  Distinct-erase, Distinct-snoc, if_pos, subst, bytes_discrete, arith, if◌then◌else◌, ite, is_some,
}
use neural_file_system.Index.Links.{some_injective}
use neural_file_system.WinFs.{Node, State, done, get_node, key_of}
use neural_file_system.WinFs.Names.{is_within, keys_within, moved_key, move_all, rename}
use neural_file_system.WinFs.Within.{is_within_self, moved_within, moved_injective}

abbrev mem : Bytes → List Bytes → Bool
mem k [] = false
mem k (j ∷ l) = ite (bytes_discrete j k) true (mem k l)

abbrev Nodup : List Bytes → Type 0
Nodup [] = Unit
Nodup (k ∷ l) = (mem k l ≡ false) × Nodup l

-- The keys that move are those of the map that stand within the name.
mem-keys_within :
    (from k : Bytes) (l : List (Bytes × Node))
    → mem k (keys_within from l) ≡ (is_within from k && is_some (lookup bytes_discrete k l))
unfolding keys_within lookup
mem-keys_within from k [] = ground arith
mem-keys_within from k ((j, n) ∷ l) = elim (bytes_discrete j k) [
  | yes p ↦ rw p (ground (arith, mem-keys_within from k l))
  | no p ↦ ground (arith, mem-keys_within from k l)
]

Nodup-keys_within :
    (from : Bytes) (l : List (Bytes × Node))
    → Distinct bytes_discrete l
    → Nodup (keys_within from l)
unfolding keys_within
Nodup-keys_within from [] d = tt
Nodup-keys_within from ((k, n) ∷ l) d = elim (Bool-cases (is_within from k)) [
  | inl within ↦ rw within (ground (arith, mem-keys_within from k l), Nodup-keys_within from l d.1)
  | inr outside ↦ rw outside (Nodup-keys_within from l d.1)
]

module _ (from to : Bytes) where
  -- The keys that are still to move stand within the old name and not within the new one.
  Movable : List Bytes → List (Bytes × Node) → Type 0
  Movable ks nodes =
      (k : Bytes)
      → mem k ks ≡ true
      → (is_within from k ≡ true)
        × (is_within to k ≡ false)
        × (is_some (lookup bytes_discrete k nodes) ≡ true)

  one_move : Bytes → Node → List (Bytes × Node) → List (Bytes × Node)
  one_move k n nodes =
      erase bytes_discrete (moved_key from to k) (erase bytes_discrete k nodes)
      ++ (moved_key from to k, n) ∷ []

  lookup-one_move :
      (j k : Bytes) (n : Node) (nodes : List (Bytes × Node))
      → lookup bytes_discrete j (one_move k n nodes)
        ≡ ite
            (bytes_discrete (moved_key from to k) j)
            (some n)
            (ite (bytes_discrete k j) none (lookup bytes_discrete j nodes))
  unfolding one_move
  lookup-one_move j k n nodes =
      lookup-snoc bytes_discrete j (moved_key from to k) n (erase bytes_discrete k nodes)
      ∙ ap (ite (bytes_discrete (moved_key from to k) j) (some n))
          (lookup-erase bytes_discrete j k nodes)

  record Moved (ks : List Bytes) (nodes nodes' : List (Bytes × Node)) : Type 0 where
    arrived :
        (k : Bytes)
        → is_within from k ≡ true
        → lookup bytes_discrete (moved_key from to k) nodes' ≡ (
            if mem k ks
            then lookup bytes_discrete k nodes
            else lookup bytes_discrete (moved_key from to k) nodes)
    left :
        (k : Bytes)
        → is_within to k ≡ false
        → lookup bytes_discrete k nodes'
          ≡ (if mem k ks then none else lookup bytes_discrete k nodes)

  move_all_step :
      (k : Bytes) (ks : List Bytes) (n : Node) (nodes : List (Bytes × Node))
      → lookup bytes_discrete k nodes ≡ some n
      → move_all from to (k ∷ ks) nodes ≡ move_all from to ks (one_move k n nodes)
  unfolding move_all one_move
  move_all_step k ks n nodes h = rw (h, move_all) refl

  move_all-Moved :
      (ks : List Bytes) (nodes : List (Bytes × Node))
      → Nodup ks
      → Movable ks nodes
      → (nodes' : List (Bytes × Node)) × (move_all from to ks nodes ≡ some nodes')
        × Moved ks nodes nodes'
  unfolding move_all Movable
  move_all-Moved [] nodes d h = (nodes, refl, record { arrived = λ k w. refl; left = λ k w. refl })
  move_all-Moved (k ∷ ks) nodes d h = elim (Option-cases (lookup bytes_discrete k nodes)) [
    | inl gone ↦ absurd (ground (arith, h k))
    | inr (n, here) ↦
        let new = moved_key from to k in
        let nodes₁ = one_move k n nodes in
        let at = λ (j : Bytes). lookup-one_move j k n nodes in
        let hk = h k (ground arith) in
        let new_within : is_within to new ≡ true = moved_within from to k hk.0 in
        let movable : Movable ks nodes₁ = λ j m. ground (arith, h j, at j) in
        let (nodes', e, r) = move_all-Moved ks nodes₁ d.1 movable in
        (
          nodes',
          move_all_step k ks n nodes here ∙ e,
          record {
            arrived = λ j w. ground (
              arith,
              r.arrived j w,
              at j,
              at (moved_key from to j),
              h j,
              moved_within from to j w,
              moved_injective from to j k w hk.0,
            );
            left = λ j w. ground (arith, r.left j w, at j);
          },
        )
  ]

-- No key comes to stand twice.
one_move-Distinct :
    (from to k : Bytes) (n : Node) (nodes : List (Bytes × Node))
    → Distinct bytes_discrete nodes
    → Distinct bytes_discrete (one_move from to k n nodes)
unfolding one_move
one_move-Distinct from to k n nodes d =
    let new = moved_key from to k in
    let removed = erase bytes_discrete k nodes in
    Distinct-snoc bytes_discrete new n (erase bytes_discrete new removed)
      (lookup-erase bytes_discrete new new removed
        ∙ if_pos {C = Option Node} (bytes_discrete new new) refl _ _)
      (Distinct-erase bytes_discrete new removed (Distinct-erase bytes_discrete k nodes d))

move_all-Distinct :
    (from to : Bytes) (ks : List Bytes) (nodes nodes' : List (Bytes × Node))
    → Distinct bytes_discrete nodes
    → move_all from to ks nodes ≡ some nodes'
    → Distinct bytes_discrete nodes'
unfolding move_all
move_all-Distinct from to [] nodes nodes' d e =
    subst (Distinct bytes_discrete) (some_injective refl e) d
move_all-Distinct from to (k ∷ ks) nodes nodes' d e =
    elim (Option-cases (lookup bytes_discrete k nodes)) [
      | inl gone ↦ absurd (ground arith)
      | inr (n, here) ↦
          move_all-Distinct from to ks (one_move from to k n nodes) nodes'
            (one_move-Distinct from to k n nodes d)
            (sym (move_all_step from to k ks n nodes here) ∙ e)
    ]

pub rename-Distinct :
    (name new_name : Bytes) (replace_if_exists : Bool) (s : State)
    → Distinct bytes_discrete s.nodes
    → Distinct bytes_discrete (rename name new_name replace_if_exists s).0.nodes
unfolding rename
rename-Distinct name new_name replace_if_exists s d =
    let from = key_of name in
    let to = key_of new_name in
    elim (Bool-cases (is_some (get_node to s) && not replace_if_exists)) [
      | inl clash ↦ rw (clash, rename) d
      | inr free ↦ elim (Option-cases (move_all from to (keys_within from s.nodes) s.nodes)) [
        | inl fails ↦ rw (free, fails, rename) d
        | inr (nodes, e) ↦
            rw (free, e, rename)
              (move_all-Distinct from to (keys_within from s.nodes) s.nodes nodes d e)
      ]
    ]

pub next_index-rename :
    (name new_name : Bytes) (replace_if_exists : Bool) (s : State)
    → (rename name new_name replace_if_exists s).0.next_index ≡ s.next_index
unfolding rename
next_index-rename name new_name replace_if_exists s =
    let from = key_of name in
    let to = key_of new_name in
    elim (Bool-cases (is_some (get_node to s) && not replace_if_exists)) [
      | inl clash ↦ rw (clash, rename) refl
      | inr go ↦ elim (Option-cases (move_all from to (keys_within from s.nodes) s.nodes)) [
        | inl fails ↦ rw (go, fails, rename) refl
        | inr (nodes, e) ↦ rw (go, e, rename) refl
      ]
    ]

-- Nothing stands at the new name or below it.
abbrev pub IsFree : Bytes → State → Type 0
IsFree to s = (k : Bytes) → is_within to k ≡ true → get_node k s ≡ none

-- `rename` to a name with nothing at it or below it, in a volume in which no name stands twice,
-- succeeds: every name at or below the old one is found with its node at the place under the new
-- one, what was below the old one is gone from there, and every other name keeps its node.
pub rename_lem :
    (name new_name : Bytes) (replace_if_exists : Bool) (s : State)
    → Distinct bytes_discrete s.nodes
    → IsFree (key_of new_name) s
    → ((rename name new_name replace_if_exists s).1 ≡ done tt)
      × ((k : Bytes)
          → is_within (key_of name) k ≡ true
          → get_node
              (moved_key (key_of name) (key_of new_name) k)
              (rename name new_name replace_if_exists s).0
            ≡ get_node k s)
      × ((k : Bytes)
          → is_within (key_of new_name) k ≡ false
          → get_node k (rename name new_name replace_if_exists s).0
            ≡ (if is_within (key_of name) k then none else get_node k s))
unfolding rename Movable
rename_lem name new_name replace_if_exists s d free =
    let from = key_of name in
    let to = key_of new_name in
    let ks = keys_within from s.nodes in
    let at = λ (k : Bytes). mem-keys_within from k s.nodes in
    let movable : Movable from to ks s.nodes = λ k m. elim (Bool-cases (is_within to k)) [
      | inl clash ↦ absurd (ground (arith, at k, free k clash))
      | inr apart ↦ (ground (arith, at k), apart, ground (arith, at k))
    ] in
    let absent : get_node to s ≡ none = free to (is_within_self to) in
    let (nodes', e, r) =
      move_all-Moved from to ks s.nodes (Nodup-keys_within from s.nodes d) movable in
    (
      rw (absent, e, rename) refl,
      λ k w.
          rw (absent, e, rename)
            (ground
              (arith, r.arrived k w, at k, free (moved_key from to k) (moved_within from to k w))),
      λ k w. rw (absent, e, rename) (ground (arith, r.left k w, at k)),
    )
