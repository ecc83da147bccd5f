-- ===== src/Index/Links.antt =====
-- A tree of links of crates/neuralfs-daemon/src/store.rs against the index: for each entry the
-- link under its label, and no other link. The index and the links are seen as partial maps, and
-- `pre` is the prefix that a label gives to a key.
use neural_file_system.Prelude.{
  ◌≡◌, ◌≢◌, ◌∙◌, ap, sym, subst, refl, Option, none, some, [], Bytes, ◌++◌, length, append-suffix,
  bytes_discrete, ite, if_pos, if_neg, arith,
}
use neural_file_system.FileEntry.{FileEntry}

pub some-none : {A : Type 0} {a : A} → some a ≡ none → ⊥
some-none h = ground (arith)

pub some_injective : {A : Type 0} {o : Option A} {a b : A} → o ≡ some a → o ≡ some b → a ≡ b
some_injective p q = cc (p, q)

module _ (pre : Bytes → Bytes) (label : FileEntry → Bytes) where
  pub record Mirrors (at : Bytes → Option FileEntry) (link : Bytes → Option Bytes) : Type 0 where
    pub complete : (k : Bytes) (e : FileEntry) → at k ≡ some e → link (pre (label e) ++ k) ≡ some k
    pub sound :
        (j x : Bytes)
        → link j ≡ some x
        → (e : FileEntry) × (at x ≡ some e) × (j ≡ pre (label e) ++ x)

  -- The links after the link of the old entry at a key was taken away, if it may not stay.
  pub record Unlinks (at : Bytes → Option FileEntry) (link link₁ : Bytes → Option Bytes)
      (k new : Bytes) : Type 0 where
    pub gone :
        (old : FileEntry)
        → at k ≡ some old
        → pre (label old) ++ k ≢ new
        → link₁ (pre (label old) ++ k) ≡ none
    pub less : (j x : Bytes) → link₁ j ≡ some x → link j ≡ some x
    pub others : (p j : Bytes) → length j ≡ length k → j ≢ k → link₁ (p ++ j) ≡ link (p ++ j)

  -- Nothing has to go.
  pub keep-Unlinks :
      (at : Bytes → Option FileEntry) (link : Bytes → Option Bytes) (k new : Bytes)
      → ((old : FileEntry) → at k ≡ some old → pre (label old) ++ k ≡ new)
      → Unlinks at link link k new
  keep-Unlinks at link k new same = record {
    gone = λ old h n. absurd (n (same old h));
    less = λ j x h. h;
    others = λ p j l n. refl;
  }

  pub remove-Unlinks :
      (at : Bytes → Option FileEntry) (link link₁ : Bytes → Option Bytes) (k new p : Bytes)
      → ((old : FileEntry) → at k ≡ some old → pre (label old) ≡ p)
      → ((j : Bytes) → link₁ j ≡ ite (bytes_discrete (p ++ k) j) none (link j))
      → Unlinks at link link₁ k new
  remove-Unlinks at link link₁ k new p same spec = record {
    gone = λ old h n.
        spec (pre (label old) ++ k)
        ∙ if_pos (bytes_discrete (p ++ k) (pre (label old) ++ k))
            (ap (λ x. x ++ k) (sym (same old h))) _ _;
    less = λ j x h. ground (arith, spec j);
    others = λ q j l n.
        spec (q ++ j)
        ∙ if_neg (bytes_discrete (p ++ k) (q ++ j))
            (λ e. n (sym (append-suffix p q k j (sym l) e).1)) _ _;
  }

  module _ (at at' : Bytes → Option FileEntry) (link link₁ link' : Bytes → Option Bytes) (k : Bytes)
      (sizes : (j : Bytes) (x : FileEntry) → at j ≡ some x → length j ≡ length k)
      (m : Mirrors at link) where
    -- An entry is put under a key, and its link is set.
    pub set-Mirrors :
        (e : FileEntry)
        → Unlinks at link link₁ k (pre (label e) ++ k)
        → ((j : Bytes) → at' j ≡ ite (bytes_discrete k j) (some e) (at j))
        → ((j : Bytes) → link' j ≡ ite (bytes_discrete (pre (label e) ++ k) j) (some k) (link₁ j))
        → Mirrors at' link'
    set-Mirrors e u at_spec link_spec = record { complete = complete₁; sound = sound₁ }
      where
        new : Bytes
        new = pre (label e) ++ k

        complete₁ :
            (j : Bytes) (x : FileEntry) → at' j ≡ some x → link' (pre (label x) ++ j) ≡ some j
        complete₁ j x h = elim (bytes_discrete k j) [
          | yes p ↦
              let same : e ≡ x = cc (at_spec j ∙ if_pos (bytes_discrete k j) p _ _, h) in
              subst (λ y. link' (pre (label y) ++ j) ≡ some j) same
                (subst (λ i. link' (pre (label e) ++ i) ≡ some i) p
                  (link_spec new ∙ if_pos (bytes_discrete new new) refl _ _))
          | no n ↦
              let old : at j ≡ some x = sym (at_spec j ∙ if_neg (bytes_discrete k j) n _ _) ∙ h in
              let l = sizes j x old in
              let there = pre (label x) ++ j in
              link_spec there
              ∙ if_neg (bytes_discrete new there)
                  (λ q. n (append-suffix (pre (label e)) (pre (label x)) k j (sym l) q).1) _ _
              ∙ u.others (pre (label x)) j l (λ q. n (sym q))
              ∙ m.complete j x old
        ]

        sound₁ :
            (j x : Bytes)
            → link' j ≡ some x
            → (e₀ : FileEntry) × (at' x ≡ some e₀) × (j ≡ pre (label e₀) ++ x)
        sound₁ j x h = elim (bytes_discrete new j) [
          | yes p ↦
              let same : k ≡ x = cc (link_spec j ∙ if_pos (bytes_discrete new j) p _ _, h) in
              (
                e,
                ap at' (sym same) ∙ at_spec k ∙ if_pos (bytes_discrete k k) refl _ _,
                sym p ∙ ap (λ i. pre (label e) ++ i) same,
              )
          | no n ↦
              let h₁ : link₁ j ≡ some x =
                sym (link_spec j ∙ if_neg (bytes_discrete new j) n _ _) ∙ h in
              let (e₀, a, there) = m.sound j x (u.less j x h₁) in
              elim (bytes_discrete k x) [
                | yes q ↦
                    let at_k : j ≡ pre (label e₀) ++ k =
                      there ∙ ap (λ i. pre (label e₀) ++ i) (sym q) in
                    absurd (
                      some-none (
                        sym h₁ ∙ ap link₁ at_k ∙ u.gone e₀ (ap at q ∙ a) (λ z. n (sym (at_k ∙ z)))))
                | no q ↦ (e₀, at_spec x ∙ if_neg (bytes_discrete k x) q _ _ ∙ a, there)
              ]
        ]

    -- An entry is taken out, and its link with it.
    pub unset-Mirrors :
        Unlinks at link link' k []
        → ((old : FileEntry) → at k ≡ some old → link' (pre (label old) ++ k) ≡ none)
        → ((j : Bytes) → at' j ≡ ite (bytes_discrete k j) none (at j))
        → Mirrors at' link'
    unset-Mirrors u gone at_spec = record { complete = complete₁; sound = sound₁ }
      where
        complete₁ :
            (j : Bytes) (x : FileEntry) → at' j ≡ some x → link' (pre (label x) ++ j) ≡ some j
        complete₁ j x h = elim (bytes_discrete k j) [
          | yes p ↦ absurd (some-none (sym h ∙ at_spec j ∙ if_pos (bytes_discrete k j) p _ _))
          | no n ↦
              let old : at j ≡ some x = sym (at_spec j ∙ if_neg (bytes_discrete k j) n _ _) ∙ h in
              u.others (pre (label x)) j (sizes j x old) (λ q. n (sym q)) ∙ m.complete j x old
        ]

        sound₁ :
            (j x : Bytes)
            → link' j ≡ some x
            → (e₀ : FileEntry) × (at' x ≡ some e₀) × (j ≡ pre (label e₀) ++ x)
        sound₁ j x h =
            let (e₀, a, there) = m.sound j x (u.less j x h) in
            elim (bytes_discrete k x) [
              | yes q ↦ absurd (
                  some-none (
                    sym h
                    ∙ ap link' (there ∙ ap (λ i. pre (label e₀) ++ i) (sym q))
                    ∙ gone e₀ (ap at q ∙ a)))
              | no q ↦ (e₀, at_spec x ∙ if_neg (bytes_discrete k x) q _ _ ∙ a, there)
            ]

    -- The same, for an entry whose link is removed.
    pub unset_link-Mirrors :
        (old : FileEntry)
        → at k ≡ some old
        → ((j : Bytes) → at' j ≡ ite (bytes_discrete k j) none (at j))
        → ((j : Bytes) → link' j ≡ ite (bytes_discrete (pre (label old) ++ k) j) none (link j))
        → Mirrors at' link'
    unset_link-Mirrors old here at_spec spec =
        let same : (x : FileEntry) → at k ≡ some x → pre (label x) ≡ pre (label old) =
          λ x g. ap (λ y. pre (label y)) (some_injective g here) in
        unset-Mirrors (remove-Unlinks at link link' k [] (pre (label old)) same spec)
          (λ x g.
            let there = pre (label x) ++ k in
            spec there
            ∙ if_pos (bytes_discrete (pre (label old) ++ k) there)
                (sym (ap (λ p. p ++ k) (same x g))) _ _)
          at_spec

  -- An entry is changed under its key, and its link stays.
  pub touch-Mirrors :
      (at at' : Bytes → Option FileEntry) (link : Bytes → Option Bytes) (k : Bytes)
      → ((j : Bytes) (x : FileEntry) → at j ≡ some x → length j ≡ length k)
      → Mirrors at link
      → (old e : FileEntry) → at k ≡ some old
      → label old ≡ label e
      → ((j : Bytes) → at' j ≡ ite (bytes_discrete k j) (some e) (at j))
      → Mirrors at' link
  touch-Mirrors at at' link k sizes m old e here same at_spec =
      let new = pre (label e) ++ k in
      let there : link new ≡ some k =
        subst (λ p. link (pre p ++ k) ≡ some k) same (m.complete k old here) in
      set-Mirrors at at' link link link k sizes m e
        (keep-Unlinks at link k new
          (λ x g. ap (λ p. pre p ++ k) (ap label (some_injective g here) ∙ same)))
        at_spec
        (λ j. elim (bytes_discrete new j) [
          | yes p ↦ ap link (sym p) ∙ there ∙ sym (if_pos (bytes_discrete new j) p _ _)
          | no n ↦ sym (if_neg (bytes_discrete new j) n _ _)
        ])
