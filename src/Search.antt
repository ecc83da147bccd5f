-- ===== src/Search.antt =====
-- crates/neuralfs-daemon/src/search.rs and scorer.rs: the lookup of a query, by its exact name, in
-- the directories that the classifier guesses and their parents, and in the whole index.
pub mod Found
use neural_file_system.Prelude.{
  ℕ, zero, suc, ◌-◌, Bool, true, false, ◌||◌, Option, none, some, List, [], ◌∷◌, ◌++◌, map, Bytes,
  take, bytes_discrete, ite, Result, ok, err, ◌==◌, if◌then◌else◌, contains_text,
}
use neural_file_system.FileEntry.{FileEntry}
use neural_file_system.Host.{Host, F64, Floats}
use neural_file_system.PathCache.{ScoredPath}
use neural_file_system.Index.{Store, files_named, files_in, all_entries}
use neural_file_system.Classifier.{Classifier, is_trained, predict_top3, tokenize, sort_by}

abbrev max_backtrack_levels : ℕ
max_backtrack_levels = 4

-- `score` of scorer.rs.
unfoldable pub score : Floats → ℕ → ℕ → ℕ → F64 → F64 → F64
score F freq last_open now lambda confidence =
    if last_open == 0
    then confidence
    else F.add
        (F.mul (F.of_nat freq)
          (F.exp (F.mul (F.neg lambda) (F.div (F.of_nat (now - last_open)) (F.of_nat 3600)))))
        confidence

unfoldable pub scored : Floats → ℕ → F64 → FileEntry × F64 → ScoredPath
scored F now lambda (e, confidence) = record {
  path = e.path;
  score = score F e.freq e.last_open now lambda confidence;
}

contains_name : List Bytes → Bytes → Bool
contains_name [] name = false
contains_name (x ∷ xs) name = ite (bytes_discrete x name) true (contains_name xs name)

any_in : List Bytes → List Bytes → Bool
any_in [] names = false
any_in (t ∷ ts) names = contains_name names t || any_in ts names

-- The test of `fuzzy_match`: the name contains the query, or shares a word with it.
unfoldable pub matches : Host → Bytes → FileEntry → Bool
unfolding contains_name any_in
matches H query e =
    let q = H.lower query in
    let name = H.lower e.file_name in
    contains_text q name || any_in (tokenize H q) (tokenize H name)

unfoldable pub fuzzy_match : Host → Bytes → List FileEntry → List FileEntry
fuzzy_match H query [] = []
fuzzy_match H query (e ∷ es) =
    let rest = fuzzy_match H query es in if matches H query e then e ∷ rest else rest

-- `dedup_by` on the paths: a run of equal paths keeps its first.
dedup_from : ScoredPath → List ScoredPath → List ScoredPath
dedup_from p [] = []
dedup_from p (q ∷ qs) = elim (bytes_discrete q.path p.path) [
  | yes e ↦ dedup_from p qs
  | no n ↦ q ∷ dedup_from q qs
]

unfoldable pub dedup : List ScoredPath → List ScoredPath
unfolding dedup_from
dedup [] = []
dedup (p ∷ ps) = p ∷ dedup_from p ps

-- `unwrap_or_default`.
unfoldable pub or_none : Result (List FileEntry) → List FileEntry
or_none (ok es) = es
or_none (err e) = []

with_confidence : F64 → List FileEntry → List (FileEntry × F64)
with_confidence confidence [] = []
with_confidence confidence (e ∷ es) = (e, confidence) ∷ with_confidence confidence es

module _ {H : Host} where
  -- From a directory upwards, until something matches, or the directory was visited.
  unfoldable pub backtrack : Store H → Bytes → ℕ → Bytes → List Bytes → List FileEntry × List Bytes
  unfolding contains_name
  backtrack s query zero current visited = ([], visited)
  backtrack s query (suc levels) current visited = elim (contains_name visited (H.lower current)) [
    | true ↦ ([], visited)
    | false ↦
        let visited₁ = H.lower current ∷ visited in
        elim (fuzzy_match H query (or_none (files_in current s))) [
          | e ∷ es ↦ (e ∷ es, visited₁)
          | [] ↦ elim (H.paths.parent current) [
            | none ↦ ([], visited₁)
            | some up ↦ backtrack s query levels up visited₁
          ]
        ]
  ]

  unfoldable pub guesses :
      Store H → Bytes → List (Bytes × F64) → List Bytes → List (FileEntry × F64)
  unfolding with_confidence
  guesses s query [] visited = []
  guesses s query ((dir, confidence) ∷ dirs) visited =
      let r = backtrack s query max_backtrack_levels dir visited in
      with_confidence confidence r.0 ++ guesses s query dirs r.1

  -- The hits of the guessed directories, or of the whole index if these give none.
  unfoldable pub hits_of : Store H → Classifier H → Bytes → List (FileEntry × F64)
  unfolding with_confidence
  hits_of s c query =
      elim (if is_trained c then guesses s query (predict_top3 query c) [] else []) [
        | h ∷ hs ↦ h ∷ hs
        | [] ↦ with_confidence (H.floats.of_nat 0) (fuzzy_match H query (or_none (all_entries s)))
      ]

  -- The files whose name is the query. An empty query is no name.
  unfoldable pub exact : Store H → Bytes → List FileEntry
  exact s query = elim (H.trim query) [ [] ↦ [] | c ∷ cs ↦ or_none (files_named (c ∷ cs) s) ]

  unfoldable pub find : Store H → Classifier H → Bytes → ℕ → F64 → ℕ → List ScoredPath
  unfolding with_confidence
  find s c query now lambda max_results = elim (exact s query) [
    | e ∷ es ↦ take max_results (
        sort_by H.floats (λ p. p.score)
          (map (scored H.floats now lambda) (with_confidence (H.floats.of_nat 1) (e ∷ es))))
    | [] ↦ take max_results (
        dedup
          (sort_by H.floats (λ p. p.score) (map (scored H.floats now lambda) (hits_of s c query))))
  ]
