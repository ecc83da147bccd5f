-- ===== src/Index/Lookup.antt =====
-- crates/neuralfs-daemon/src/store.rs: what `files_in` and `files_named` of a sound index give.
use neural_file_system.Prelude.{
  ◌≡◌, ◌≢◌, ◌∙◌, ◌⊎◌, ◌↔◌, ap, sym, subst, refl, true, Bool-cases, Option, some, List, [], ◌∷◌,
  ◌++◌, Bytes, bytes_discrete, if_pos, if_neg, lookup, Distinct, starts_with, if◌then◌else◌, ok,
  inl, inr, arith,
}
use mathlib.Core.List.{Memᴰ}
use mathlib.Core.List.Memᴰ
use neural_file_system.FileEntry.{FileEntry}
use neural_file_system.Sled.{with_prefix}
use neural_file_system.Host.{Host}
use neural_file_system.Index.{Store, key_of, prefix_of, collect, files_in, files_named}
use neural_file_system.Index.Links.{Mirrors, some-none, some_injective}
use neural_file_system.Index.Sound.{IsSound, entry_at, parent_of, name_of}
use neural_file_system.Index.Calls.{value-cases}

-- A text without the byte that ends the label of a link.
abbrev pub NoNul : Bytes → Type 0
NoNul [] = Unit
NoNul (c ∷ cs) = (c ≢ 0) × NoNul cs

starts_with-append : (p k : Bytes) → starts_with p (p ++ k) ≡ true
unfolding starts_with
starts_with-append [] k = refl
starts_with-append (c ∷ p) k = ground (arith, starts_with-append p k)

-- Labels that end where the other one ends are the same.
label_eq :
    (p q k : Bytes)
    → NoNul p
    → NoNul q
    → starts_with (p ++ 0 ∷ []) ((q ++ 0 ∷ []) ++ k) ≡ true
    → p ≡ q
unfolding starts_with
label_eq [] [] k np nq h = refl
label_eq [] (d ∷ q) k np nq h = absurd (nq.0 (ground arith))
label_eq (c ∷ p) [] k np nq h = absurd (np.0 (ground arith))
label_eq (c ∷ p) (d ∷ q) k np nq h =
    let same : c ≡ d = ground arith in
    let rest : p ≡ q = label_eq p q k np.1 nq.1 (ground arith) in cc (same, rest)

mem_cons : {A : Type 0} {a b : A} {l : List A} → (a ≡ b) ⊎ Memᴰ a l → Memᴰ a (b ∷ l)
mem_cons (inl e) = Memᴰ.head e
mem_cons (inr m) = Memᴰ.tail m

module _ {V : Type 0} where
  pub lookup-Memᴰ :
      (j : Bytes) (v : V) (l : List (Bytes × V))
      → lookup bytes_discrete j l ≡ some v
      → Memᴰ (j, v) l
  unfolding lookup
  lookup-Memᴰ j v [] h = absurd (some-none (sym h))
  lookup-Memᴰ j v ((k, x) ∷ l) h = elim (bytes_discrete k j) [
    | yes p ↦
        let same : v ≡ x = cc (
          sym h,
          if_pos {C = Option V} (bytes_discrete k j) p (some x) (lookup bytes_discrete j l),
        ) in
        Memᴰ.head (cc (p, same))
    | no n ↦ Memᴰ.tail (
        lookup-Memᴰ j v l (
          sym (if_neg {C = Option V} (bytes_discrete k j) n (some x) (lookup bytes_discrete j l))
          ∙ h))
  ]

  pub Memᴰ-lookup :
      (j : Bytes) (v : V) (l : List (Bytes × V))
      → Distinct bytes_discrete l
      → Memᴰ (j, v) l
      → lookup bytes_discrete j l ≡ some v
  unfolding lookup
  Memᴰ-lookup j v [] d m = absurd (Memᴰ.not-nil m)
  Memᴰ-lookup j v ((k, x) ∷ l) d m = elim (Memᴰ.cases_cons m) [
    | inl e ↦
        let at_k : k ≡ j = ap (λ q. q.0) (sym e) in
        if_pos {C = Option V} (bytes_discrete k j) at_k (some x) (lookup bytes_discrete j l)
        ∙ ap (λ q. some q.1) (sym e)
    | inr r ↦
        let rest = Memᴰ-lookup j v l d.1 r in
        if_neg {C = Option V} (bytes_discrete k j)
          (λ p. some-none (sym rest ∙ ap (λ q. lookup bytes_discrete q l) (sym p) ∙ d.0)) (some x)
          (lookup bytes_discrete j l)
        ∙ rest
  ]

Memᴰ-with_prefix :
    (p j v : Bytes) (l : List (Bytes × Bytes))
    → Memᴰ (j, v) (with_prefix p l)
    → Memᴰ (j, v) l × (starts_with p j ≡ true)
unfolding with_prefix
Memᴰ-with_prefix p j v [] m = absurd (Memᴰ.not-nil m)
Memᴰ-with_prefix p j v ((k, x) ∷ l) m = elim (Bool-cases (starts_with p k)) [
  | inl t ↦
      let m₁ : Memᴰ (j, v) ((k, x) ∷ with_prefix p l) =
        subst (λ b. Memᴰ (j, v) (if b then (k, x) ∷ with_prefix p l else with_prefix p l)) t m in
      elim (Memᴰ.cases_cons m₁) [
        | inl e ↦ (Memᴰ.head e, ap (λ q. starts_with p q.0) e ∙ t)
        | inr r ↦ let (inside, starts) = Memᴰ-with_prefix p j v l r in (Memᴰ.tail inside, starts)
      ]
  | inr f ↦
      let m₁ : Memᴰ (j, v) (with_prefix p l) =
        subst (λ b. Memᴰ (j, v) (if b then (k, x) ∷ with_prefix p l else with_prefix p l)) f m in
      let (inside, starts) = Memᴰ-with_prefix p j v l m₁ in (Memᴰ.tail inside, starts)
]

with_prefix-Memᴰ :
    (p j v : Bytes) (l : List (Bytes × Bytes))
    → Memᴰ (j, v) l
    → starts_with p j ≡ true
    → Memᴰ (j, v) (with_prefix p l)
unfolding with_prefix
with_prefix-Memᴰ p j v [] m t = absurd (Memᴰ.not-nil m)
with_prefix-Memᴰ p j v ((k, x) ∷ l) m t = elim (Memᴰ.cases_cons m) [
  | inl e ↦ rw (ap (λ q. starts_with p q.0) (sym e) ∙ t, with_prefix) (mem_cons (inl e))
  | inr r ↦ elim (Bool-cases (starts_with p k)) [
    | inl u ↦ rw (u, with_prefix) (mem_cons (inr (with_prefix-Memᴰ p j v l r t)))
    | inr u ↦ rw (u, with_prefix) (with_prefix-Memᴰ p j v l r t)
  ]
]

module _ {H : Host} where
  -- The entries that links lead to, each of them to one of the index.
  collect_lem :
      (s : Store H)
      → IsSound s
      → (links : List (Bytes × Bytes))
      → ((j k : Bytes) → Memᴰ (j, k) links → (e : FileEntry) × (entry_at k s ≡ some e))
      → (es : List FileEntry) × (collect s links ≡ ok es)
        × ((e : FileEntry)
            → Memᴰ e es
            → (j : Bytes) × (k : Bytes) × Memᴰ (j, k) links × (entry_at k s ≡ some e))
        × ((j k : Bytes) (e : FileEntry) → Memᴰ (j, k) links → entry_at k s ≡ some e → Memᴰ e es)
  unfolding collect
  collect_lem s w [] there =
      ([], refl, λ e m. absurd (Memᴰ.not-nil m), λ j k e m h. absurd (Memᴰ.not-nil m))
  collect_lem s w ((j₀, k₀) ∷ links) there =
      let (es, run, back, forth) = collect_lem s w links (λ j k m. there j k (Memᴰ.tail m)) in
      let (x, here) = there j₀ k₀ (Memᴰ.head refl) in
      elim (value-cases k₀ s w) [
        | inl (h, n) ↦ absurd (some-none (sym here ∙ n))
        | inr (v, y, h, d, at) ↦ (
          y ∷ es,
          rw (h, d, run, collect) refl,
          λ e m. elim (Memᴰ.cases_cons m) [
            | inl q ↦ (j₀, k₀, Memᴰ.head refl, at ∙ ap some (sym q))
            | inr r ↦ let (j, k, l, a) = back e r in (j, k, Memᴰ.tail l, a)
          ],
          λ j k e m a. elim (Memᴰ.cases_cons m) [
            | inl q ↦
                Memᴰ.head (some_injective (ap (λ i. entry_at i s) (ap (λ i. i.1) (sym q)) ∙ a) at)
            | inr r ↦ Memᴰ.tail (forth j k e r a)
          ],
        )
      ]

  -- The files whose label is the one asked for, and no other, over the tree of links of that label.
  labelled :
      (label : FileEntry → Bytes) (name : Bytes) (s : Store H) (t : H.volume.sled.Tree)
      → IsSound s
      → Mirrors (prefix_of H) label (λ k. entry_at k s) (λ j. H.volume.sled.get j t)
      → NoNul (H.lower name)
      → ((k : Bytes) (e : FileEntry) → entry_at k s ≡ some e → NoNul (H.lower (label e)))
      → (es : List FileEntry) × (collect s (H.volume.sled.scan_prefix (prefix_of H name) t) ≡ ok es)
        × ((e : FileEntry)
            → Memᴰ e es
              ↔ ((entry_at (key_of H e.path) s ≡ some e) × (H.lower (label e) ≡ H.lower name)))
  unfolding prefix_of
  labelled label name s t w m clean all_clean =
      let S = H.volume.sled in
      let p = prefix_of H name in
      let links = S.scan_prefix p t in
      let shown : (j k : Bytes)
          → Memᴰ (j, k) links
          → (S.get j t ≡ some k) × (starts_with p j ≡ true) =
        λ j k r.
          let q =
            Memᴰ-with_prefix p j k (S.iter t) (subst (Memᴰ (j, k)) (S.scan_prefix-iter p t) r) in
          (sym (S.lookup-iter j t) ∙ Memᴰ-lookup j k (S.iter t) (S.distinct t) q.0, q.1) in
      let (es, run, back, forth) =
        collect_lem s w links
          (λ j k r. let (e, a, there) = m.sound j k (shown j k r).0 in (e, a)) in
      let to : (e : FileEntry)
          → Memᴰ e es
          → (entry_at (key_of H e.path) s ≡ some e) × (H.lower (label e) ≡ H.lower name) =
        λ e r.
          let (j, k, l, a) = back e r in
          let (x, b, there) = m.sound j k (shown j k l).0 in
          let same : x ≡ e = some_injective b a in
          let at_j : starts_with p ((H.lower (label e) ++ 0 ∷ []) ++ k) ≡ true =
            ap (starts_with p) (sym (there ∙ ap (λ y. prefix_of H (label y) ++ k) same))
            ∙ (shown j k l).1 in
          (
            ap (λ q. entry_at q s) (sym (w.keyed k e a)) ∙ a,
            sym (label_eq (H.lower name) (H.lower (label e)) k clean (all_clean k e a) at_j),
          ) in
      let from : (e : FileEntry)
          → (entry_at (key_of H e.path) s ≡ some e) × (H.lower (label e) ≡ H.lower name)
          → Memᴰ e es =
        λ e h.
          let k = key_of H e.path in
          let j = prefix_of H (label e) ++ k in
          let linked : Memᴰ (j, k) (S.iter t) =
            lookup-Memᴰ j k (S.iter t) (S.lookup-iter j t ∙ m.complete k e h.0) in
          let starts : starts_with p j ≡ true =
            ap (λ q. starts_with (H.lower name ++ 0 ∷ []) ((q ++ 0 ∷ []) ++ k)) h.1
            ∙ starts_with-append p k in
          forth j k e
            (subst (Memᴰ (j, k)) (sym (S.scan_prefix-iter p t))
              (with_prefix-Memᴰ p j k (S.iter t) linked starts))
            h.0 in
      (es, run, λ e. (to e, from e))

  -- On a sound index `files_in` succeeds, and gives exactly the entries whose directory in lower
  -- case is the one asked for in lower case, if neither that one nor the directory of an entry
  -- has a zero byte in lower case.
  pub files_in_lem :
      (parent : Bytes) (s : Store H)
      → IsSound s
      → NoNul (H.lower parent)
      → ((k : Bytes) (e : FileEntry) → entry_at k s ≡ some e → NoNul (H.lower e.parent))
      → (es : List FileEntry) × (files_in parent s ≡ ok es)
        × ((e : FileEntry)
            → Memᴰ e es
              ↔ ((entry_at (key_of H e.path) s ≡ some e) × (H.lower e.parent ≡ H.lower parent)))
  unfolding files_in
  files_in_lem parent s w clean all_clean =
      labelled parent_of parent s s.by_parent w w.parents clean all_clean

  pub files_named_lem :
      (name : Bytes) (s : Store H)
      → IsSound s
      → NoNul (H.lower name)
      → ((k : Bytes) (e : FileEntry) → entry_at k s ≡ some e → NoNul (H.lower e.file_name))
      → (es : List FileEntry) × (files_named name s ≡ ok es)
        × ((e : FileEntry)
            → Memᴰ e es
              ↔ ((entry_at (key_of H e.path) s ≡ some e) × (H.lower e.file_name ≡ H.lower name)))
  unfolding files_named
  files_named_lem name s w clean all_clean =
      labelled name_of name s s.by_name w w.names clean all_clean
