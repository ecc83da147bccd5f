-- ===== src/Classifier/Train.antt =====
-- `train` and `train_softmax` of crates/neuralfs-daemon/src/classifier.rs: a fresh classifier from
-- the entries of the index.
use neural_file_system.Prelude.{
  ℕ, zero, suc, ◌*◌, ◌%◌, ◌^◌, max, ◌||◌, Bool, true, false, true-false, Bool-cases, ◌≡◌, ◌∙◌, ap,
  sym, refl, inl, inr, none, some, is_some, List, [], ◌∷◌, map, Bytes, length, take, bytes_discrete,
  ite, ◌==◌, leb, ltb, if◌then◌else◌,
}
use Prim.Native.Nat.{bit_xor}
use neural_file_system.FileEntry.{FileEntry}
use neural_file_system.Host.{Host, F64, Floats}
use neural_file_system.Classifier.{
  Classifier, default, is_trained, tokenize, known, features, position, less_one, softmax, zip,
}
use neural_file_system.Classifier.Reservoir.{weighted_reservoir}

abbrev max_vocab : ℕ
max_vocab = 400

abbrev max_classes : ℕ
max_classes = 40

abbrev max_samples : ℕ
max_samples = 6000

abbrev epochs : ℕ
epochs = 150

-- How often each text occurs.
tally : Bytes → List (Bytes × ℕ) → List (Bytes × ℕ)
tally k [] = (k, 1) ∷ []
tally k ((j, n) ∷ l) =
    let rest = tally k l in ite (bytes_discrete j k) ((j, suc n) ∷ l) ((j, n) ∷ rest)

unfoldable pub tally_all : List Bytes → List (Bytes × ℕ) → List (Bytes × ℕ)
unfolding tally
tally_all [] l = l
tally_all (k ∷ ks) l = tally_all ks (tally k l)

-- The stable `sort_by` on falling counts.
insert_count : Bytes × ℕ → List (Bytes × ℕ) → List (Bytes × ℕ)
insert_count x [] = x ∷ []
insert_count x (y ∷ ys) =
    let rest = insert_count x ys in if ltb x.1 y.1 then y ∷ rest else x ∷ y ∷ ys

unfoldable pub sort_counts : List (Bytes × ℕ) → List (Bytes × ℕ)
unfolding insert_count
sort_counts [] = []
sort_counts (x ∷ xs) = insert_count x (sort_counts xs)

-- The directories that hold most files.
unfoldable pub classes_of : List FileEntry → List Bytes
classes_of entries =
    map (λ c. c.0) (take max_classes (sort_counts (tally_all (map (λ e. e.parent) entries) [])))

in_classes : List Bytes → List FileEntry → List FileEntry
in_classes classes [] = []
in_classes classes (e ∷ es) =
    let rest = in_classes classes es in
    if is_some (position e.parent classes) then e ∷ rest else rest

unfoldable pub training_of : Floats → List Bytes → ℕ → List FileEntry → List FileEntry
unfolding in_classes
training_of F classes now entries =
    let training = in_classes classes entries in
    let n = length training in
    if ltb max_samples n
    then weighted_reservoir F training now max_samples
        (bit_xor (now % 2 ^ 64) (n * 0x9E3779B97F4A7C15 % 2 ^ 64))
    else training

-- In how many texts each word is.
doc_counts : List (List Bytes) → List (Bytes × ℕ) → List (Bytes × ℕ)
doc_counts [] l = l
doc_counts (doc ∷ docs) l = doc_counts docs (tally_all (map (λ w. w.0) (tally_all doc [])) l)

twice : List (Bytes × ℕ) → List (Bytes × ℕ)
twice [] = []
twice ((w, n) ∷ l) = let rest = twice l in if leb 2 n then (w, n) ∷ rest else rest

unfoldable pub vocab_entries : List (List Bytes) → List (Bytes × ℕ)
unfolding doc_counts twice
vocab_entries docs = take max_vocab (sort_counts (twice (doc_counts docs [])))

numbered : ℕ → List (Bytes × ℕ) → List (Bytes × ℕ)
numbered i [] = []
numbered i ((w, n) ∷ l) = (w, i) ∷ numbered (suc i) l

unfoldable pub idf_of : Floats → ℕ → List (Bytes × ℕ) → List F64
idf_of F n_docs words =
    map
      (λ w. F.add (F.ln (F.div (F.of_nat n_docs) (F.add (F.of_nat 1) (F.of_nat w.1)))) (F.of_nat 1))
      words

row_of : Floats → List (Bytes × ℕ) → List F64 → List Bytes → List F64
row_of F vocab idf doc = features F (known vocab doc) (max (length doc) 1) 0 idf

-- The number of its class, for an entry that has one.
label_of : List Bytes → FileEntry → ℕ
label_of classes e = elim (position e.parent classes) [ none ↦ 0 | some i ↦ i ]

module _ (H : Host) where
  diffs : H.linear.Weights → List (List F64 × ℕ) → List (List F64)
  diffs w [] = []
  diffs w ((x, y) ∷ rows) =
      less_one H.floats y (softmax H.floats (H.linear.logits x w)) ∷ diffs w rows

  run_epochs : ℕ → List (List F64 × ℕ) → H.linear.Weights → H.linear.Weights
  run_epochs zero rows w = w
  run_epochs (suc n) rows w = run_epochs n rows (
      H.linear.epoch (H.floats.ratio 1 2) (H.floats.ratio 1 1000) (map (λ r. r.0) rows)
        (diffs w rows) w)

  unfoldable pub train_softmax : List (List F64 × ℕ) → ℕ → ℕ → H.linear.Weights
  unfolding diffs run_epochs
  train_softmax rows n_features n_classes =
      run_epochs epochs rows (H.linear.zeros n_features n_classes)

module _ {H : Host} where
  fitted : List Bytes → List FileEntry → List (List Bytes) → List (Bytes × ℕ) → Classifier H
  fitted classes training docs [] = default
  fitted classes training docs (w ∷ ws) =
      let vocab = numbered 0 (w ∷ ws) in
      let idf = idf_of H.floats (length docs) (w ∷ ws) in
      record {
        vocab = vocab;
        idf = idf;
        classes = classes;
        weights =
            train_softmax H
              (zip (map (row_of H.floats vocab idf) docs) (map (label_of classes) training))
              (length (w ∷ ws)) (length classes);
        updates = 0;
        version = 1;
      }

  -- `now` is the clock at the call. No entries give no classes, and so the default.
  unfoldable pub train : ℕ → List FileEntry → Classifier H
  unfolding numbered row_of label_of fitted
  train now [] = default
  train now (e ∷ es) =
      let classes = classes_of (e ∷ es) in
      let training = training_of H.floats classes now (e ∷ es) in
      if (length training == 0) || ltb (length classes) 2
      then default
      else let docs = map (λ e. tokenize H e.path) training in
        fitted classes training docs (vocab_entries docs)

or_false : (a b : Bool) → (a || b) ≡ false → b ≡ false
or_false true b h = absurd (true-false h)
or_false false b h = h

module _ {H : Host} where
  fitted-untrained :
      (classes : List Bytes) (training : List FileEntry) (docs : List (List Bytes))
      (words : List (Bytes × ℕ))
      → ltb (length classes) 2 ≡ false
      → is_trained (fitted {H = H} classes training docs words) ≡ false
      → fitted {H = H} classes training docs words ≡ default
  unfolding fitted is_trained
  fitted-untrained classes training docs [] two h = refl
  fitted-untrained [] training docs (w ∷ ws) two h = absurd (true-false two)
  fitted-untrained (c ∷ cs) training docs (w ∷ ws) two h = absurd (true-false h)

  -- A training gives a classifier without classes only as the default.
  pub train-untrained :
      (now : ℕ) (es : List FileEntry)
      → is_trained (train {H = H} now es) ≡ false
      → train {H = H} now es ≡ default
  unfolding train
  train-untrained now [] h = refl
  train-untrained now (e ∷ es) h =
      let classes = classes_of (e ∷ es) in
      let training = training_of H.floats classes now (e ∷ es) in
      let docs = map (λ e. tokenize H e.path) training in
      elim (Bool-cases ((length training == 0) || ltb (length classes) 2)) [
        | inl b ↦ rw (b, train) refl
        | inr b ↦
            let trained : train {H = H} now (e ∷ es)
                ≡ fitted classes training docs (vocab_entries docs) =
              rw (b, train) refl in
            trained
            ∙ fitted-untrained classes training docs (vocab_entries docs)
                (or_false (length training == 0) (ltb (length classes) 2) b)
                (ap is_trained (sym trained) ∙ h)
      ]
