-- ===== src/Search/Found.antt =====
-- crates/neuralfs-daemon/src/search.rs: what `find` may answer.
use neural_file_system.Prelude.{
  ℕ, zero, suc, ◌≤◌, ◌≡◌, ◌⊎◌, subst, refl, Bool-cases, some, Option-cases, inl, inr, List, [], ◌∷◌,
  ◌++◌, map, Bytes, length, take, length-take, bytes_discrete, Result, ok, err, arith,
}
use neural_file_system.FileEntry.{FileEntry}
use neural_file_system.Host.{Host, F64, Floats}
use neural_file_system.PathCache.{ScoredPath}
use neural_file_system.Index.{Store, key_of, files_in, files_named, all_entries}
use neural_file_system.Index.Sound.{IsSound, entry_at}
use neural_file_system.Index.Hits.{
  All, Has, Lists, files_in-Lists, files_named-Lists, all_entries-Lists,
}
use neural_file_system.Classifier.{Classifier, sort_by, insert_by, is_trained, predict_top3}
use neural_file_system.Search.{
  scored, matches, fuzzy_match, dedup, dedup_from, or_none, with_confidence, backtrack,
  max_backtrack_levels, contains_name, guesses, hits_of, exact, find,
}

module _ {A : Type 0} (P : A → Type 0) where
  All-take : (n : ℕ) (xs : List A) → All P xs → All P (take n xs)
  All-take zero xs h = tt
  All-take (suc n) [] h = tt
  All-take (suc n) (x ∷ xs) h = (h.0, All-take n xs h.1)

  All-append : (xs ys : List A) → All P xs → All P ys → All P (xs ++ ys)
  All-append [] ys h g = g
  All-append (x ∷ xs) ys h g = (h.0, All-append xs ys h.1 g)

  All-elim :
      {X : Type 0} (d : Dec X) (xs ys : List A)
      → All P xs
      → All P ys
      → All P (elim d [ yes e ↦ xs | no n ↦ ys ])
  All-elim (yes e) xs ys h g = h
  All-elim (no n) xs ys h g = g

  module _ (F : Floats) (score : A → F64) where
    All-insert_by : (x : A) (ys : List A) → P x → All P ys → All P (insert_by F score x ys)
    unfolding insert_by
    All-insert_by x [] p h = (p, tt)
    All-insert_by x (y ∷ ys) p h = elim (Bool-cases (F.greater (score y) (score x))) [
      | inl g ↦ rw (g, insert_by) (h.0, All-insert_by x ys p h.1)
      | inr g ↦ rw (g, insert_by) (p, h)
    ]

    All-sort_by : (xs : List A) → All P xs → All P (sort_by F score xs)
    unfolding sort_by
    All-sort_by [] h = tt
    All-sort_by (x ∷ xs) h = All-insert_by x (sort_by F score xs) h.0 (All-sort_by xs h.1)

pub List-cases : {A : Type 0} (l : List A) → (l ≡ []) ⊎ ((x : A) × (xs : List A) × (l ≡ x ∷ xs))
List-cases [] = inl refl
List-cases (x ∷ xs) = inr (x, xs, refl)

module _ {H : Host} (s : Store H) where
  or_none-All : (r : Result (List FileEntry)) → Lists s r → All (Has s) (or_none r)
  unfolding or_none
  or_none-All (ok es) h = h
  or_none-All (err e) h = tt

  fuzzy_match-All :
      (query : Bytes) (es : List FileEntry) → All (Has s) es → All (Has s) (fuzzy_match H query es)
  unfolding fuzzy_match
  fuzzy_match-All query [] h = tt
  fuzzy_match-All query (e ∷ es) h = elim (Bool-cases (matches H query e)) [
    | inl m ↦ rw (m, fuzzy_match) (h.0, fuzzy_match-All query es h.1)
    | inr m ↦ rw (m, fuzzy_match) (fuzzy_match-All query es h.1)
  ]

  abbrev HasHit : FileEntry × F64 → Type 0
  HasHit h = Has s h.0

  with_confidence-All :
      (c : F64) (es : List FileEntry) → All (Has s) es → All HasHit (with_confidence c es)
  unfolding with_confidence
  with_confidence-All c [] h = tt
  with_confidence-All c (e ∷ es) h = (h.0, with_confidence-All c es h.1)

  -- The path is that of an entry of the index.
  abbrev pub IsIndexed : ScoredPath → Type 0
  IsIndexed p = (e : FileEntry) × (entry_at (key_of H p.path) s ≡ some e) × (e.path ≡ p.path)

  scored-All :
      (now : ℕ) (lambda : F64) (hits : List (FileEntry × F64))
      → All HasHit hits
      → All IsIndexed (map (scored H.floats now lambda) hits)
  unfolding scored
  scored-All now lambda [] h = tt
  scored-All now lambda ((e, c) ∷ hits) h = ((e, h.0, refl), scored-All now lambda hits h.1)

  dedup_from-All :
      (p : ScoredPath) (qs : List ScoredPath) → All IsIndexed qs → All IsIndexed (dedup_from p qs)
  unfolding dedup_from
  dedup_from-All p [] h = tt
  dedup_from-All p (q ∷ qs) h =
      All-elim IsIndexed (bytes_discrete q.path p.path) (dedup_from p qs) (q ∷ dedup_from q qs)
        (dedup_from-All p qs h.1) (h.0, dedup_from-All q qs h.1)

  dedup-All : (ps : List ScoredPath) → All IsIndexed ps → All IsIndexed (dedup ps)
  unfolding dedup
  dedup-All [] h = tt
  dedup-All (p ∷ ps) h = (h.0, dedup_from-All p ps h.1)

  module _ (w : IsSound s) where
    backtrack-All :
        (query : Bytes) (levels : ℕ) (current : Bytes) (visited : List Bytes)
        → All (Has s) (backtrack s query levels current visited).0
    unfolding backtrack
    backtrack-All query zero current visited = tt
    backtrack-All query (suc levels) current visited =
        let candidates = or_none (files_in current s) in
        let here =
          fuzzy_match-All query candidates
            (or_none-All (files_in current s) (files_in-Lists s w current)) in
        elim (Bool-cases (contains_name visited (H.lower current))) [
          | inl b ↦ rw (b, backtrack) tt
          | inr b ↦ elim (List-cases (fuzzy_match H query candidates)) [
            | inr (e, es, f) ↦ rw (b, f, backtrack) (subst (All (Has s)) f here)
            | inl f ↦ elim (Option-cases (H.paths.parent current)) [
              | inl n ↦ rw (b, f, n, backtrack) tt
              | inr (up, n) ↦
                  rw (b, f, n, backtrack)
                    (backtrack-All query levels up (H.lower current ∷ visited))
            ]
          ]
        ]

    guesses-All :
        (query : Bytes) (dirs : List (Bytes × F64)) (visited : List Bytes)
        → All HasHit (guesses s query dirs visited)
    unfolding guesses
    guesses-All query [] visited = tt
    guesses-All query ((dir, c) ∷ dirs) visited =
        let r = backtrack s query max_backtrack_levels dir visited in
        All-append HasHit (with_confidence c r.0) _
          (with_confidence-All c r.0 (backtrack-All query max_backtrack_levels dir visited))
          (guesses-All query dirs r.1)

    hits_of-All : (c : Classifier H) (query : Bytes) → All HasHit (hits_of s c query)
    unfolding hits_of
    hits_of-All c query = elim (Bool-cases (is_trained c)) [
      | inl t ↦ elim (List-cases (guesses s query (predict_top3 query c) [])) [
        | inl g ↦ rw (t, g, hits_of) scan
        | inr (h, hs, g) ↦
            rw (t, g, hits_of) (subst (All HasHit) g (guesses-All query (predict_top3 query c) []))
      ]
      | inr t ↦ rw (t, hits_of) scan
    ]
      where
        scan :
            All HasHit
              (with_confidence (H.floats.of_nat 0) (fuzzy_match H query (or_none (all_entries s))))
        scan = with_confidence-All (H.floats.of_nat 0) _ (
            fuzzy_match-All query (or_none (all_entries s))
              (or_none-All (all_entries s) (all_entries-Lists s w)))

    exact-All : (query : Bytes) → All (Has s) (exact s query)
    unfolding exact
    exact-All query = elim (List-cases (H.trim query)) [
      | inl t ↦ rw (t, exact) tt
      | inr (x, xs, t) ↦
          rw (t, exact) (or_none-All (files_named (x ∷ xs) s) (files_named-Lists s w (x ∷ xs)))
    ]

    ranked :
        (now : ℕ) (lambda : F64) (hits : List (FileEntry × F64))
        → All HasHit hits
        → All IsIndexed (sort_by H.floats (λ p. p.score) (map (scored H.floats now lambda) hits))
    ranked now lambda hits h =
        All-sort_by IsIndexed H.floats (λ p. p.score) _ (scored-All now lambda hits h)

    first :
        (n : ℕ) (ps : List ScoredPath)
        → All IsIndexed ps
        → (length (take n ps) ≤ n) × All IsIndexed (take n ps)
    first n ps h = (omega (arith, length-take n ps), All-take IsIndexed n ps h)

    -- On a sound index a search gives at most the number of results asked for, and each of them
    -- is the path of an entry of the index.
    pub find-IsIndexed :
        (c : Classifier H) (query : Bytes) (now : ℕ) (lambda : F64) (max_results : ℕ)
        → (length (find s c query now lambda max_results) ≤ max_results)
          × All IsIndexed (find s c query now lambda max_results)
    unfolding find
    find-IsIndexed c query now lambda max_results = elim (List-cases (exact s query)) [
      | inr (e, es, x) ↦
          let hits = with_confidence (H.floats.of_nat 1) (e ∷ es) in
          let all =
            with_confidence-All (H.floats.of_nat 1) (e ∷ es)
              (subst (All (Has s)) x (exact-All query)) in
          rw (x, find) (first max_results _ (ranked now lambda hits all))
      | inl x ↦
          rw (x, find)
            (first max_results _
              (dedup-All _ (ranked now lambda (hits_of s c query) (hits_of-All c query))))
    ]
