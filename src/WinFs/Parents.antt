-- ===== src/WinFs/Parents.antt =====
-- crates/neuralfs-daemon/src/winfsphost.rs: the parent of a key, and how a rename maps it.
use mathlib.Core.List.{append_assoc, append-nil}
use neural_file_system.Prelude.{
  ◌⊎◌, ℕ, zero, suc, ◌+◌, ◌≡◌, ◌≢◌, refl, sym, ap, ◌∙◌, true, Option, none, some, [], ◌∷◌, ◌++◌,
  inl, inr, Option-cases, Bytes, length, take, drop, length-append, bytes_discrete, arith, if_neg,
  ==_iff,
}
use neural_file_system.WinFs.{root, separator, rfind, parent_of}
use neural_file_system.WinFs.Names.{is_within, moved_key}
use neural_file_system.WinFs.Within.{opens, is_within-append, within_split, moved_key-append}

rfind-append : (a b : Bytes) (i : ℕ) → rfind b ≡ some i → rfind (a ++ b) ≡ some (length a + i)
unfolding rfind
rfind-append [] b i h = ground arith
rfind-append (c ∷ a) b i h = ground (arith, rfind-append a b i h)

rfind_head : (r : Bytes) → (i : ℕ) × (rfind (separator ∷ r) ≡ some i)
unfolding rfind
rfind_head r = elim (Option-cases (rfind r)) [
  | inl h ↦ (0, rw (h, rfind) refl)
  | inr (i, h) ↦ (suc i, rw (h, rfind) refl)
]

rfind_split : (k : Bytes) (i : ℕ) → rfind k ≡ some i → k ≡ take i k ++ separator ∷ drop (suc i) k
unfolding rfind
rfind_split [] i h = ground arith
rfind_split (c ∷ k) i h = elim (Option-cases (rfind k)) [
  | inl g ↦ ground (arith, ==_iff c separator)
  | inr (j, g) ↦ ground (arith, rfind_split k j g)
]

take_past : (a b : Bytes) (i : ℕ) → take (length a + i) (a ++ b) ≡ a ++ take i b
take_past [] b i = ap (λ n. take n b) (omega arith)
take_past (x ∷ a) b i =
    let e : length (x ∷ a) + i ≡ suc (length a + i) = omega arith in
    rw e (ap (◌∷◌ x) (take_past a b i))

opens-take : (i : ℕ) (r : Bytes) → opens (take i (separator ∷ r)) ≡ true
opens-take zero r = refl
opens-take (suc i) r = ground arith

-- The parent of a key below a directory is the directory, with what the rest has for a parent.
parent_of_below :
    (from r : Bytes) (i : ℕ)
    → from ≢ []
    → rfind (separator ∷ r) ≡ some i
    → parent_of (from ++ separator ∷ r) ≡ from ++ take i (separator ∷ r)
unfolding parent_of
parent_of_below [] r i ne h = absurd (ne refl)
parent_of_below (c ∷ from) r i ne h =
    let long : (c ∷ from) ++ separator ∷ r ≢ root =
      λ e. omega (arith, ap length e, length-append from (separator ∷ r)) in
    let count : length (c ∷ from) + i ≡ suc (length from + i) = omega arith in
    let found = rfind-append (c ∷ from) (separator ∷ r) i h ∙ ap some count in
    rw (found, parent_of)
      (if_neg {C = Bytes} (bytes_discrete ((c ∷ from) ++ separator ∷ r) root) long _ _
        ∙ ap (λ n. take n ((c ∷ from) ++ separator ∷ r)) (sym count)
        ∙ take_past (c ∷ from) (separator ∷ r) i)

opens_cases : (d : Bytes) → opens d ≡ true → (d ≡ []) ⊎ ((r : Bytes) × (d ≡ separator ∷ r))
opens_cases [] h = inl refl
opens_cases (c ∷ r) h = inr (r, ground (arith, ==_iff separator c))

-- A key within another is that one, or stands below it.
below_split :
    (from k : Bytes)
    → is_within from k ≡ true
    → k ≢ from
    → (r : Bytes) × (k ≡ from ++ separator ∷ r)
below_split from k w ne =
    let d = drop (length from) k in
    let e : k ≡ from ++ d = within_split from k w in
    elim (opens_cases d (sym (is_within-append from d) ∙ ap (is_within from) (sym e) ∙ w)) [
      | inl none_left ↦ absurd (ne (e ∙ ap (λ d. from ++ d) none_left ∙ append-nil from))
      | inr (r, rest) ↦ (r, e ∙ ap (λ d. from ++ d) rest)
    ]

module _ (from to : Bytes) (from_some : from ≢ []) (to_some : to ≢ []) where
  pub moved_parent :
      (k : Bytes)
      → is_within from k ≡ true
      → k ≢ from
      → (is_within from (parent_of k) ≡ true)
        × (parent_of (moved_key from to k) ≡ moved_key from to (parent_of k))
  moved_parent k w ne =
      let (r, e) = below_split from k w ne in
      let (i, f) = rfind_head r in
      let p : parent_of k ≡ from ++ take i (separator ∷ r) =
        ap parent_of e ∙ parent_of_below from r i from_some f in
      (
        ap (is_within from) p ∙ is_within-append from (take i (separator ∷ r)) ∙ opens-take i r,
        ap (λ k. parent_of (moved_key from to k)) e
            ∙ ap parent_of (moved_key-append from to (separator ∷ r))
            ∙ parent_of_below to r i to_some f
            ∙ sym (ap (moved_key from to) p ∙ moved_key-append from to (take i (separator ∷ r))),
      )

root_found : rfind root ≡ some 0
unfolding rfind
root_found = refl

-- Only the root is as short as its own name.
pub root_within : (from : Bytes) → from ≢ [] → is_within from root ≡ true → from ≡ root
root_within [] ne w = absurd (ne refl)
root_within (c ∷ []) ne w = ground (arith, within_split (c ∷ []) root w)
root_within (c ∷ b ∷ from) ne w =
    let d = drop (length (c ∷ b ∷ from)) root in
    absurd (
      omega (arith, ap length (within_split (c ∷ b ∷ from) root w), length-append (c ∷ b ∷ from) d))

opens-append : (d r : Bytes) → opens d ≡ true → opens (d ++ separator ∷ r) ≡ true
opens-append [] r h = refl
opens-append (c ∷ d) r h = h

parent_of_found :
    (k : Bytes) (i : ℕ) → k ≢ root → rfind k ≡ some (suc i) → parent_of k ≡ take (suc i) k
unfolding parent_of
parent_of_found k i ne h = rw (h, parent_of) (if_neg {C = Bytes} (bytes_discrete k root) ne _ _)

parent_of_root : (k : Bytes) → (rfind k ≡ none) ⊎ (rfind k ≡ some 0) → parent_of k ≡ root
unfolding parent_of
parent_of_root k (inl h) = rw (h, parent_of) (ground arith)
parent_of_root k (inr h) = rw (h, parent_of) (ground arith)

Found-cases : (o : Option ℕ) → ((o ≡ none) ⊎ (o ≡ some 0)) ⊎ ((i : ℕ) × (o ≡ some (suc i)))
Found-cases none = inl (inl refl)
Found-cases (some zero) = inl (inr refl)
Found-cases (some (suc i)) = inr (i, refl)

-- What has its parent within a directory that is not the root stands within it too.
pub parent_within :
    (from k : Bytes)
    → from ≢ []
    → from ≢ root
    → is_within from (parent_of k) ≡ true
    → is_within from k ≡ true
parent_within from k some_name ne w = elim (bytes_discrete k root) [
  | yes p ↦
      ap (is_within from) (p ∙ sym (parent_of_root root (inr root_found)) ∙ ap parent_of (sym p))
      ∙ w
  | no p ↦ elim (Found-cases (rfind k)) [
    | inl h ↦
        absurd
          (ne (root_within from some_name (ap (is_within from) (sym (parent_of_root k h)) ∙ w)))
    | inr (i, h) ↦
        let q = parent_of_found k i p h in
        let d = drop (length from) (parent_of k) in
        let e : parent_of k ≡ from ++ d = within_split from (parent_of k) w in
        let o = sym (is_within-append from d) ∙ ap (is_within from) (sym e) ∙ w in
        let rest = separator ∷ drop (suc (suc i)) k in
        let whole : k ≡ from ++ (d ++ rest) =
          rfind_split k (suc i) h ∙ ap (λ t. t ++ rest) (sym q ∙ e) ∙ append_assoc from d rest in
        ap (is_within from) whole
        ∙ is_within-append from (d ++ rest)
        ∙ opens-append d (drop (suc (suc i)) k) o
  ]
]
