-- ===== src/Config/RoundTrip.antt =====
-- crates/neuralfs-daemon/src/config.rs: a value that `set` took is what `get` shows, and a value
-- that `get` showed sets the same settings again.
use neural_file_system.Prelude.{
  ℕ, ◌<◌, ◌^◌, ◌≡◌, ◌≢◌, ◌∙◌, ◌⊎◌, ap, sym, subst, refl, false, none, some, Option-cases, inl, inr,
  List, [], ◌∷◌, ◌++◌, Bytes, parse_usize-print, split_by, join, ◌==◌, ok, err, unknown_key, arith,
}
use mathlib.Core.List.{append_assoc}
use neural_file_system.Host.{Floats, is_nan}
use neural_file_system.Config.{
  Config, Key, lambda_key, retrain_threshold_key, max_results_key, log_level_key, root_dirs_key,
  key_of, get_key, get, set_key, set,
}

-- No directory has the separator in its name.
abbrev Without : ℕ → Bytes → Type 0
Without c [] = Unit
Without c (d ∷ ds) = (d ≢ c) × Without c ds

abbrev AllWithout : ℕ → List Bytes → Type 0
AllWithout c [] = Unit
AllWithout c (p ∷ ps) = Without c p × AllWithout c ps

-- The float is a number or an infinity, the numbers fit a `usize`, there is a root, and no root has a semicolon.
pub record IsPrintable (c : Config) : Type 0 where
  pub lambda_fits : c.lambda < 2 ^ 64
  pub lambda_number : is_nan c.lambda ≡ false
  pub threshold_fits : c.retrain_threshold < 2 ^ 64
  pub results_fit : c.max_results < 2 ^ 64
  pub root : Bytes
  pub roots : List Bytes
  pub some_root : c.root_dirs ≡ root ∷ roots
  pub clean : AllWithout b';' c.root_dirs

split_clean : (c : ℕ) (p : Bytes) → Without c p → split_by (λ x. x == c) p ≡ p ∷ []
unfolding split_by
split_clean c [] w = refl
split_clean c (d ∷ p) w = rw (split_clean c p w.1) (ground arith)

split_next :
    (c : ℕ) (p s : Bytes)
    → Without c p
    → split_by (λ x. x == c) (p ++ c ∷ s) ≡ p ∷ split_by (λ x. x == c) s
unfolding split_by
split_next c [] s w = ground arith
split_next c (d ∷ p) s w = rw (split_next c p s w.1) (ground arith)

join_cons :
    (sep p q : Bytes) (ps : List Bytes) → join sep (p ∷ q ∷ ps) ≡ p ++ (sep ++ join sep (q ∷ ps))
unfolding join
join_cons sep p q ps = append_assoc p sep (join sep (q ∷ ps))

split-join :
    (c : ℕ) (p : Bytes) (ps : List Bytes)
    → AllWithout c (p ∷ ps)
    → split_by (λ x. x == c) (join (c ∷ []) (p ∷ ps)) ≡ p ∷ ps
unfolding join split_by
split-join c p [] w = split_clean c p w.0
split-join c p (q ∷ ps) w =
    ap (split_by (λ x. x == c)) (join_cons (c ∷ []) p q ps)
    ∙ split_next c p (join (c ∷ []) (q ∷ ps)) w.0
    ∙ ap (λ r. p ∷ r) (split-join c q ps w.1)

module _ (F : Floats) where
  set_key-get_key : (k : Key) (c : Config) → IsPrintable c → set_key F k (get_key F k c) c ≡ ok c
  unfolding set_key get_key
  set_key-get_key lambda_key c w =
      rw (F.parse-print c.lambda w.lambda_fits w.lambda_number, set_key, get_key) refl
  set_key-get_key retrain_threshold_key c w =
      rw (parse_usize-print c.retrain_threshold w.threshold_fits, set_key, get_key) refl
  set_key-get_key max_results_key c w =
      rw (parse_usize-print c.max_results w.results_fit, set_key, get_key) refl
  set_key-get_key log_level_key c w = refl
  set_key-get_key root_dirs_key c w =
      let same : split_by (λ x. x == b';') (join (b';' ∷ []) c.root_dirs) ≡ c.root_dirs =
        subst (λ ds. split_by (λ x. x == b';') (join (b';' ∷ []) ds) ≡ ds) (sym w.some_root)
          (split-join b';' w.root w.roots (subst (AllWithout b';') w.some_root w.clean)) in
      ap (λ ds. ok (record c { root_dirs = ds })) same

  -- For settings whose float is 64 bits that are no NaN and whose two numbers fit 64 bits, with
  -- at least one root and no semicolon in a root, a key either has a value, and to set the key to
  -- it leaves the settings as they are; or it has none, and to set the key to any value gives the
  -- error of an unknown key.
  pub set-get :
      (key : Bytes) (c : Config)
      → IsPrintable c
      → ((v : Bytes) × (get F key c ≡ some v) × (set F key v c ≡ ok c))
        ⊎ ((get F key c ≡ none) × ((v : Bytes) → set F key v c ≡ err unknown_key))
  unfolding get set
  set-get key c w = elim (Option-cases (key_of key)) [
    | inl n ↦ inr (rw (n, get) refl, λ v. rw (n, set) refl)
    | inr (k, h) ↦ inl (get_key F k c, rw (h, get) refl, rw (h, set) (set_key-get_key k c w))
  ]
