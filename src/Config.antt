-- ===== src/Config.antt =====
-- crates/neuralfs-daemon/src/config.rs: the settings of the daemon by key. The file that they are
-- kept in is in Kept.
pub mod RoundTrip
pub mod Kept
mod Tests
use neural_file_system.Prelude.{
  ℕ, Option, none, some, List, Bytes, [], ◌∷◌, text, print, parse_usize, split_by, join, ◌==◌,
  bytes_discrete, ite, Result, ok, err, bad_number, unknown_key,
}
use neural_file_system.Host.{F64, Floats}

pub record Config : Type 0 where
  pub root_dirs : List Bytes
  pub lambda : F64
  pub retrain_threshold : ℕ
  pub max_results : ℕ
  pub log_level : Bytes

-- The bits of 0.1.
abbrev pub tenth : F64
tenth = 4591870180066957722

-- `Config::default`, for a home directory.
unfoldable pub default : Option Bytes → Config
default home = record {
  root_dirs = elim home [ none ↦ text "C:/" | some dir ↦ dir ] ∷ [];
  lambda = tenth;
  retrain_threshold = 500;
  max_results = 10;
  log_level = text "info";
}

-- The keys. Any other text is no key.
pub data Key : Type 0 where
  lambda_key retrain_threshold_key max_results_key log_level_key root_dirs_key : Key

unfoldable pub key_of : Bytes → Option Key
key_of key = ite (bytes_discrete key (text "lambda")) (some lambda_key) (
    ite (bytes_discrete key (text "retrain_threshold")) (some retrain_threshold_key) (
      ite (bytes_discrete key (text "max_results")) (some max_results_key) (
        ite (bytes_discrete key (text "log_level")) (some log_level_key)
          (ite (bytes_discrete key (text "root_dirs")) (some root_dirs_key) none))))

unfoldable pub get_key : Floats → Key → Config → Bytes
get_key F lambda_key c = F.print c.lambda
get_key F retrain_threshold_key c = print c.retrain_threshold
get_key F max_results_key c = print c.max_results
get_key F log_level_key c = c.log_level
get_key F root_dirs_key c = join (b';' ∷ []) c.root_dirs

unfoldable pub get : Floats → Bytes → Config → Option Bytes
get F key c = elim (key_of key) [ none ↦ none | some k ↦ some (get_key F k c) ]

unfoldable pub set_key : Floats → Key → Bytes → Config → Result Config
set_key F lambda_key value c = elim (F.parse value) [
  | none ↦ err bad_number
  | some x ↦ ok (record c { lambda = x })
]
set_key F retrain_threshold_key value c = elim (parse_usize value) [
  | none ↦ err bad_number
  | some n ↦ ok (record c { retrain_threshold = n })
]
set_key F max_results_key value c = elim (parse_usize value) [
  | none ↦ err bad_number
  | some n ↦ ok (record c { max_results = n })
]
set_key F log_level_key value c = ok (record c { log_level = value })
set_key F root_dirs_key value c = ok (record c { root_dirs = split_by (λ x. x == b';') value })

-- A failing `set` leaves the settings as they are.
unfoldable pub set : Floats → Bytes → Bytes → Config → Result Config
set F key value c = elim (key_of key) [ none ↦ err unknown_key | some k ↦ set_key F k value c ]
