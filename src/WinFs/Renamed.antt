-- ===== src/WinFs/Renamed.antt =====
-- crates/neuralfs-daemon/src/winfsphost.rs: a rename to a free name in a directory keeps the tree.
use mathlib.Core.List.{append-nil}
use neural_file_system.Prelude.{
  ◌<◌, ◌≡◌, ◌≢◌, ◌⊎◌, sym, ap, ◌∙◌, Bool, true, false, some, [], ◌∷◌, inl, inr, Bool-cases, Bytes,
  bytes_discrete, arith, true-false,
}
use neural_file_system.WinFs.{Node, State, root, get_node, is_dir_at, key_of, parent_of}
use neural_file_system.WinFs.Names.{is_within, moved_key, rename}
use neural_file_system.WinFs.Within.{moved_key-append, moved_within, moved_back}
use neural_file_system.WinFs.Moves.{IsFree, rename_lem, rename-Distinct, next_index-rename}
use neural_file_system.WinFs.Parents.{moved_parent, parent_within, root_within}
use neural_file_system.WinFs.Tree.{IsTree}

key_of_some : (name : Bytes) → key_of name ≢ []
unfolding key_of
key_of_some [] h = cc
key_of_some (c ∷ cs) h = cc

module _ (name new_name : Bytes) (replace_if_exists : Bool) (s : State) (t : IsTree s)
    (named : key_of name ≢ root) (free : IsFree (key_of new_name) s)
    (dir : is_dir_at (parent_of (key_of new_name)) s ≡ true)
    (apart : is_within (key_of name) (parent_of (key_of new_name)) ≡ false) where
  abbrev from : Bytes
  from = key_of name

  abbrev to : Bytes
  to = key_of new_name

  abbrev after : State
  after = (rename name new_name replace_if_exists s).0

  kept_dir :
      (j : Bytes) → is_dir_at j s ≡ true → is_within from j ≡ false → is_dir_at j after ≡ true
  kept_dir j h out = elim (Bool-cases (is_within to j)) [
    | inl clash ↦ absurd (ground (arith, free j clash))
    | inr elsewhere ↦
        ground (arith, (rename_lem name new_name replace_if_exists s t.once free).2 j elsewhere)
  ]

  moved_dir :
      (j : Bytes)
      → is_dir_at j s ≡ true
      → is_within from j ≡ true
      → is_dir_at (moved_key from to j) after ≡ true
  moved_dir j h w = ground (arith, (rename_lem name new_name replace_if_exists s t.once free).1 j w)

  -- A node of the new map is one that moved, or one that stands where it stood.
  origin :
      (k : Bytes) (m : Node)
      → get_node k after ≡ some m
      → ((j : Bytes) × (is_within from j ≡ true)
          × (k ≡ moved_key from to j)
          × (get_node j s ≡ some m))
        ⊎ ((is_within to k ≡ false) × (is_within from k ≡ false) × (get_node k s ≡ some m))
  origin k m h = elim (Bool-cases (is_within to k)) [
    | inl within ↦
        let j = moved_key to from k in
        let w = moved_within to from k within in
        let e : k ≡ moved_key from to j = sym (moved_back to from k within) in
        inl (
          j,
          w,
          e,
          sym ((rename_lem name new_name replace_if_exists s t.once free).1 j w)
              ∙ ap (λ k. get_node k after) (sym e)
              ∙ h,
        )
    | inr out ↦
        let l = (rename_lem name new_name replace_if_exists s t.once free).2 k out in
        inr (out, ground (arith, l), ground (arith, l))
  ]

  moved_self : moved_key from to from ≡ to
  moved_self =
      ap (moved_key from to) (sym (append-nil from)) ∙ moved_key-append from to [] ∙ append-nil to

  nested_after :
      (k : Bytes) (m : Node) → get_node k after ≡ some m → is_dir_at (parent_of k) after ≡ true
  nested_after k m h = elim (origin k m h) [
    | inl (j, w, e, g) ↦ elim (bytes_discrete j from) [
      | yes p ↦
          ap (λ k. is_dir_at (parent_of k) after) (e ∙ ap (moved_key from to) p ∙ moved_self)
          ∙ kept_dir (parent_of to) dir apart
      | no p ↦
          let (w', q) = moved_parent from to (key_of_some name) (key_of_some new_name) j w p in
          ap (λ k. is_dir_at k after) (ap parent_of e ∙ q)
          ∙ moved_dir (parent_of j) (t.nested j m g) w'
    ]
    | inr (_, out, g) ↦ elim (Bool-cases (is_within from (parent_of k))) [
      | inl below ↦
          absurd (true-false (sym (parent_within from k (key_of_some name) named below) ∙ out))
      | inr above ↦ kept_dir (parent_of k) (t.nested k m g) above
    ]
  ]

  root_outside : is_within from root ≡ false
  root_outside = elim (Bool-cases (is_within from root)) [
    | inl within ↦ absurd (named (root_within from (key_of_some name) within))
    | inr out ↦ out
  ]

  unshared_after :
      (j k : Bytes) (m n : Node)
      → get_node j after ≡ some m
      → get_node k after ≡ some n
      → m.index_number ≡ n.index_number
      → j ≡ k
  unshared_after j k m n g h e = elim (origin j m g) [
    | inl (a, wa, ea, ga) ↦ elim (origin k n h) [
      | inl (b, wb, eb, gb) ↦ ea ∙ ap (moved_key from to) (t.unshared a b m n ga gb e) ∙ sym eb
      | inr (_, out, gb) ↦
          absurd (true-false (sym wa ∙ ap (is_within from) (t.unshared a k m n ga gb e) ∙ out))
    ]
    | inr (_, out, ga) ↦ elim (origin k n h) [
      | inl (b, wb, eb, gb) ↦
          absurd
            (true-false (sym wb ∙ ap (is_within from) (sym (t.unshared j b m n ga gb e)) ∙ out))
      | inr (_, _, gb) ↦ t.unshared j k m n ga gb e
    ]
  ]

  numbered_after :
      (k : Bytes) (m : Node) → get_node k after ≡ some m → m.index_number < s.next_index
  numbered_after k m h = elim (origin k m h) [
    | inl (j, _, _, g) ↦ t.numbered j m g
    | inr (_, _, g) ↦ t.numbered k m g
  ]

  pub rename-IsTree : IsTree (rename name new_name replace_if_exists s).0
  rename-IsTree = record {
    rooted = kept_dir root t.rooted root_outside;
    nested = nested_after;
    numbered =
        λ k m h. rw (next_index-rename name new_name replace_if_exists s) (numbered_after k m h);
    unshared = unshared_after;
    once = rename-Distinct name new_name replace_if_exists s t.once;
  }
