-- ===== src/WinFs/Tree.antt =====
-- crates/neuralfs-daemon/src/winfsphost.rs: the names form a tree, and the numbers are distinct.
use neural_file_system.Prelude.{
  ℕ, ◌+◌, ◌^◌, ◌<◌, ◌≡◌, ◌≢◌, refl, Bool, true, false, Option, none, some, List, [], ◌∷◌, inl, inr,
  Bool-cases, Option-cases, Bytes, lookup, erase, lookup-snoc, lookup-erase, bytes_discrete, arith,
  ℕ_discrete, Distinct, Distinct-erase, Distinct-snoc, if_pos, ◌∙◌, length, ltb, leb, ◌&&◌, ite,
}
use neural_file_system.WinFs.{
  Node, State, root, get_node, set_node, is_dir_at, key_of, parent_of, fresh, new, create,
  has_child, cleanup,
}
use neural_file_system.WinFs.Calls.{
  write_start, write_end, too_far, write_node, write, set_file_size, basic_info, set_basic_info,
}

pub record IsTree (s : State) : Type 0 where
  pub rooted : is_dir_at root s ≡ true
  pub nested : (k : Bytes) (n : Node) → get_node k s ≡ some n → is_dir_at (parent_of k) s ≡ true
  pub numbered : (k : Bytes) (n : Node) → get_node k s ≡ some n → n.index_number < s.next_index
  pub unshared :
      (j k : Bytes) (m n : Node)
      → get_node j s ≡ some m
      → get_node k s ≡ some n
      → m.index_number ≡ n.index_number
      → j ≡ k
  pub once : Distinct bytes_discrete s.nodes

pub get_node-set_node :
    (j k : Bytes) (n : Node) (s : State)
    → get_node j (set_node k n s) ≡ ite (bytes_discrete k j) (some n) (get_node j s)
unfolding set_node
get_node-set_node j k n s = lookup-snoc bytes_discrete j k n s.nodes

set_node-Distinct :
    (k : Bytes) (n : Node) (s : State)
    → Distinct bytes_discrete s.nodes
    → Distinct bytes_discrete (set_node k n s).nodes
unfolding set_node
set_node-Distinct k n s d =
    Distinct-snoc bytes_discrete k n (erase bytes_discrete k s.nodes)
      (lookup-erase bytes_discrete k k s.nodes
        ∙ if_pos {C = Option Node} (bytes_discrete k k) refl _ _)
      (Distinct-erase bytes_discrete k s.nodes d)

-- A node gives place to one of the same kind with the same number.
set_node-IsTree :
    (k : Bytes) (n n' : Node) (s : State)
    → get_node k s ≡ some n
    → n'.is_dir ≡ n.is_dir
    → n'.index_number ≡ n.index_number
    → IsTree s
    → IsTree (set_node k n' s)
unfolding set_node
set_node-IsTree k n n' s h kind number t =
    let at = λ (j : Bytes). get_node-set_node j k n' s in
    record {
      rooted = ground (arith, at root, t.rooted);
      nested = λ j m g. ground (arith, at j, at (parent_of j), t.nested j m, t.nested k n h);
      numbered = λ j m g. ground (arith, at j, t.numbered j m, t.numbered k n h);
      unshared = λ j i m o g f e.
          ground (arith, at j, at i, t.unshared j i m o, t.unshared j k m n, t.unshared k i n o);
      once = set_node-Distinct k n' s t.once;
    }

-- A new node, in a directory that is there.
add_node-IsTree :
    (k : Bytes) (n : Node) (s : State)
    → get_node k s ≡ none
    → is_dir_at (parent_of k) s ≡ true
    → n.index_number ≡ s.next_index
    → IsTree s
    → IsTree (set_node k n (record s { next_index = s.next_index + 1 }))
unfolding set_node
add_node-IsTree k n s h dir number t =
    let at = λ (j : Bytes). get_node-set_node j k n s in
    record {
      rooted = ground (arith, at root, t.rooted);
      nested = λ j m g. ground (arith, at j, at (parent_of j), t.nested j m);
      numbered = λ j m g. ground (arith, at j, t.numbered j m);
      unshared = λ j i m o g f e.
          ground (arith, at j, at i, t.unshared j i m o, t.numbered j m, t.numbered i o);
      once = set_node-Distinct k n s t.once;
    }

pub new-IsTree : (security : Bytes) (clock : Option ℕ) → IsTree (new security clock)
unfolding new fresh lookup parent_of bytes_discrete ℕ_discrete
new-IsTree security clock = record {
  rooted = refl;
  nested = λ k n g. ground arith;
  numbered = λ k n g. ground arith;
  unshared = λ j k m n g f e. ground arith;
  once = (refl, tt);
}

pub create-IsTree :
    (name : Bytes) (options attributes : ℕ) (clock : Option ℕ) (s : State)
    → IsTree s
    → IsTree (create name options attributes clock s).0
unfolding create fresh
create-IsTree name options attributes clock s t = elim (Option-cases (get_node (key_of name) s)) [
  | inr (n, h) ↦ rw (h, create) t
  | inl h ↦ elim (Bool-cases (is_dir_at (parent_of (key_of name)) s)) [
    | inl dir ↦ rw (h, dir, create) (add_node-IsTree (key_of name) _ s h dir refl t)
    | inr no_dir ↦ rw (h, no_dir, create) t
  ]
]

-- Without a child, no other key has the key as its parent.
childless :
    (key k : Bytes) (n : Node) (l : List (Bytes × Node))
    → has_child key l ≡ false
    → lookup bytes_discrete k l ≡ some n
    → k ≢ key
    → parent_of k ≢ key
unfolding has_child lookup
childless key k n [] h g ne = ground arith
childless key k n ((j, m) ∷ l) h g ne = ground (arith, childless key k n l)

pub cleanup-IsTree :
    (key : Bytes) (delete : Bool) (s : State)
    → key ≢ root
    → IsTree s
    → IsTree (cleanup key delete s)
unfolding cleanup
cleanup-IsTree key false s ne t = t
cleanup-IsTree key true s ne t = elim (Bool-cases (has_child key s.nodes)) [
  | inl some_child ↦ rw (some_child, cleanup) t
  | inr no_child ↦
      let at = λ (j : Bytes). lookup-erase bytes_discrete j key s.nodes in
      let kept = λ (k : Bytes) (n : Node). childless key k n s.nodes no_child in
      rw (no_child, cleanup)
        (record {
          rooted = ground (arith, at root, t.rooted);
          nested = λ j m g. ground (arith, at j, at (parent_of j), t.nested j m, kept j m);
          numbered = λ j m g. ground (arith, at j, t.numbered j m);
          unshared = λ j i m o g f e. ground (arith, at j, at i, t.unshared j i m o);
          once = Distinct-erase bytes_discrete key s.nodes t.once;
        })
]

-- The three calls that change a node keep its kind and its number.
pub write-IsTree :
    (key buffer : Bytes) (offset : ℕ) (eof constrained : Bool) (clock : Option ℕ) (s : State)
    → IsTree s
    → IsTree (write key buffer offset eof constrained clock s).0
unfolding write write_node
write-IsTree key buffer offset eof constrained clock s t = elim (Option-cases (get_node key s)) [
  | inl h ↦ rw (h, write) t
  | inr (n, h) ↦
      let start = write_start offset eof n.bytes in
      let end = write_end start (length buffer) constrained n.bytes in
      elim (Bool-cases (constrained && leb (length n.bytes) start)) [
        | inl full ↦ rw (h, full, write) t
        | inr room ↦ elim (Bool-cases (too_far start (length buffer) end n.bytes)) [
          | inl far ↦ rw (h, room, far, write) t
          | inr near ↦ rw (h, room, near, write) (set_node-IsTree key n _ s h refl refl t)
        ]
      ]
]

pub set_file_size-IsTree :
    (key : Bytes) (size : ℕ) (clock : Option ℕ) (s : State)
    → IsTree s
    → IsTree (set_file_size key size clock s).0
unfolding set_file_size
set_file_size-IsTree key size clock s t = elim (Option-cases (get_node key s)) [
  | inl h ↦ rw (h, set_file_size) t
  | inr (n, h) ↦ elim (Bool-cases (ltb (length n.bytes) size && leb (2 ^ 63) size)) [
    | inl far ↦ rw (h, far, set_file_size) t
    | inr near ↦ rw (h, near, set_file_size) (set_node-IsTree key n _ s h refl refl t)
  ]
]

pub set_basic_info-IsTree :
    (key : Bytes) (attributes creation access last_write change : ℕ) (s : State)
    → IsTree s
    → IsTree (set_basic_info key attributes creation access last_write change s).0
unfolding set_basic_info basic_info
set_basic_info-IsTree key attributes creation access last_write change s t =
    elim (Option-cases (get_node key s)) [
      | inl h ↦ rw (h, set_basic_info) t
      | inr (n, h) ↦ rw (h, set_basic_info) (set_node-IsTree key n _ s h refl refl t)
    ]
