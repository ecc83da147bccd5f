-- ===== src/Classifier.antt =====
-- crates/neuralfs-daemon/src/classifier.rs: the model that guesses the directory of a query. Its
-- words, its classes, its predictions and its updates. A `HashMap` is a list of its entries, in the
-- order in which they came.
pub mod Reservoir
pub mod Train
use neural_file_system.Prelude.{
  ℕ, zero, suc, ◌+◌, ◌*◌, max, Bool, true, false, ◌||◌, Option, none, some, List, [], ◌∷◌, map,
  Bytes, length, take, lookup, bytes_discrete, ite, ◌==◌, leb, if◌then◌else◌, split_by,
}
use neural_file_system.Host.{Host, F64, Floats}

pub record Classifier (H : Host) : Type 0 where
  pub vocab : List (Bytes × ℕ)
  pub idf : List F64
  pub classes : List Bytes
  pub weights : H.linear.Weights
  pub updates : ℕ
  pub version : ℕ

-- The stable `sort_by` of the searches: by falling score, and equal ones in their order.
module _ {ℓ} {A : Type ℓ} (F : Floats) (score : A → F64) where
  unfoldable pub insert_by : A → List A → List A
  insert_by x [] = x ∷ []
  insert_by x (y ∷ ys) =
      let rest = insert_by x ys in if F.greater (score y) (score x) then y ∷ rest else x ∷ y ∷ ys

  unfoldable pub sort_by : List A → List A
  unfolding insert_by
  sort_by [] = []
  sort_by (x ∷ xs) = insert_by x (sort_by xs)

is_separator : ℕ → Bool
is_separator c = c == b'/' || c == 92 || c == b'_' || c == b'-' || c == b'.' || c == b' '

keep_long : List Bytes → List Bytes
keep_long [] = []
keep_long (t ∷ ts) = let rest = keep_long ts in if leb 2 (length t) then t ∷ rest else rest

-- Pieces in lower case, of two bytes at least.
unfoldable pub tokenize : Host → Bytes → List Bytes
unfolding is_separator keep_long
tokenize H s = keep_long (map H.lower (split_by is_separator s))

-- The numbers of the words of a query that the vocabulary has.
pub known : List (Bytes × ℕ) → List Bytes → List ℕ
known vocab [] = []
known vocab (t ∷ ts) = elim (lookup bytes_discrete t vocab) [
  | none ↦ known vocab ts
  | some i ↦ i ∷ known vocab ts
]

count_of : ℕ → List ℕ → ℕ
count_of i [] = 0
count_of i (j ∷ js) = let rest = count_of i js in if i == j then suc rest else rest

-- The weight of each word of the vocabulary, from the one numbered `i` on.
pub features : Floats → List ℕ → ℕ → ℕ → List F64 → List F64
features F ids total i [] = []
features F ids total i (w ∷ idf) =
    let rest = features F ids total (suc i) idf in
    let n = count_of i ids in
    (if n == 0 then F.of_nat 0 else F.mul (F.div (F.of_nat n) (F.of_nat total)) w) ∷ rest

vector_of : Floats → List ℕ → ℕ → List F64 → Option (List F64)
vector_of F [] total idf = none
vector_of F (i ∷ ids) total idf = some (features F (i ∷ ids) (max total 1) 0 idf)

exps : Floats → F64 → List F64 → List F64
exps F top [] = []
exps F top (v ∷ vs) = F.exp (F.sub v top) ∷ exps F top vs

top_of : Floats → F64 → List F64 → F64
top_of F m [] = m
top_of F m (v ∷ vs) = top_of F (F.larger m v) vs

sum_of : Floats → F64 → List F64 → F64
sum_of F m [] = m
sum_of F m (v ∷ vs) = sum_of F (F.add m v) vs

unfoldable pub softmax : Floats → List F64 → List F64
unfolding exps top_of sum_of
softmax F logits =
    let es = exps F (top_of F (F.neg F.infinity) logits) logits in
    let total = F.larger (sum_of F (F.of_nat 0) es) (F.ratio 1 (1000 * 1000 * 1000 * 1000)) in
    map (λ v. F.div v total) es

pub position : Bytes → List Bytes → Option ℕ
position c [] = none
position c (d ∷ ds) =
    ite (bytes_discrete d c) (some 0) (elim (position c ds) [ none ↦ none | some i ↦ some (suc i) ])

-- A vector less one at a place.
pub less_one : Floats → ℕ → List F64 → List F64
less_one F i [] = []
less_one F zero (v ∷ vs) = F.sub v (F.of_nat 1) ∷ vs
less_one F (suc i) (v ∷ vs) = v ∷ less_one F i vs

unfoldable pub zip : {A B : Type 0} → List A → List B → List (A × B)
zip [] ys = []
zip (x ∷ xs) [] = []
zip (x ∷ xs) (y ∷ ys) = (x, y) ∷ zip xs ys

module _ {H : Host} where
  -- `Classifier::default`.
  unfoldable pub default : Classifier H
  default = record {
    vocab = [];
    idf = [];
    classes = [];
    weights = H.linear.empty;
    updates = 0;
    version = 0;
  }

  unfoldable pub is_trained : Classifier H → Bool
  is_trained c = elim c.classes [ [] ↦ false | d ∷ ds ↦ true ]

  vectorize_tokens : List Bytes → Classifier H → Option (List F64)
  vectorize_tokens [] c = none
  vectorize_tokens (t ∷ ts) c = vector_of H.floats (known c.vocab (t ∷ ts)) (length (t ∷ ts)) c.idf

  unfoldable pub vectorize : Bytes → Classifier H → Option (List F64)
  unfolding known count_of features vector_of vectorize_tokens
  vectorize query c = elim c.vocab [ [] ↦ none | v ∷ vs ↦ vectorize_tokens (tokenize H query) c ]

  unfoldable pub online_update : Bytes → Bytes → F64 → Classifier H → Bool × Classifier H
  unfolding position less_one
  online_update query parent_dir lr c = elim (is_trained c) [
    | false ↦ (false, c)
    | true ↦ elim (position parent_dir c.classes) [
      | none ↦ (false, c)
      | some i ↦ elim (vectorize query c) [
        | none ↦ (false, c)
        | some x ↦
            let d = less_one H.floats i (softmax H.floats (H.linear.logits x c.weights)) in
            (
              true,
              record c {
                weights = H.linear.descend lr x d c.weights;
                updates = c.updates + 1;
                version = c.version + 1;
              },
            )
      ]
    ]
  ]

  unfoldable pub predict_top3 : Bytes → Classifier H → List (Bytes × F64)
  predict_top3 query c = elim (is_trained c) [
    | false ↦ []
    | true ↦ elim (vectorize query c) [
      | none ↦ []
      | some x ↦ take 3 (
          sort_by H.floats (λ e. e.1)
            (zip c.classes (softmax H.floats (H.linear.logits x c.weights))))
    ]
  ]
