-- ===== src/Config/Tests.antt =====
-- The file of the settings on a disk that is a list of files, with the settings in pieces, each
-- behind its length.
use neural_file_system.Prelude.{
  ◌≡◌, ◌∙◌, ap, refl, Option, none, some, is_some, true, Bytes, List, [], ◌∷◌, length, lookup,
  bytes_discrete, text, arith,
}
use neural_file_system.Config.{Config, default}
use neural_file_system.Config.Kept.{
  ConfigFiles, load_or_create, save, make_parent, write_text, load_or_create-load_or_create,
}
use neural_file_system.Filesystem.Samples.{frame, unframe, unframe-frame, length-frame}

abbrev pieces : Config → List Bytes
pieces c = (c.lambda ∷ c.retrain_threshold ∷ c.max_results ∷ []) ∷ c.log_level ∷ c.root_dirs

config_of : List Bytes → Option Config
config_of ((lambda ∷ threshold ∷ results ∷ []) ∷ level ∷ roots) = some (record {
  root_dirs = roots;
  lambda = lambda;
  retrain_threshold = threshold;
  max_results = results;
  log_level = level;
})
config_of _ = none

config_of-pieces : (c : Config) → config_of (pieces c) ≡ some c
unfolding config_of
config_of-pieces c = refl

abbrev Files : Type 0
Files = List (Bytes × Bytes)

abbrev file_of : Bytes → Files → Option Bytes
file_of = lookup bytes_discrete

file_of-put : (path t : Bytes) (d : Files) → file_of path ((path, t) ∷ d) ≡ some t
unfolding lookup
file_of-put path t d = ground arith

abbrev files : ConfigFiles
files = record {
  Disk = Files;
  parent = λ path. none;
  is_there = λ path d. is_some (file_of path d);
  read_to_string = file_of;
  create_dir_all = λ dir d. (true, d);
  write_file = λ path t d. (true, (path, t) ∷ d);
  to_string_pretty = λ c. some (frame (pieces c));
  from_str = λ t. config_of (unframe (length t) t);
  is_there-write_file = λ path t d e h. ground (arith, file_of-put path t d);
  read_to_string-write_file = λ path t d e h. ground (arith, file_of-put path t d);
  from_str-to_string_pretty = λ c t l x h.
      ap (λ x. config_of (unframe (length x) x)) (ground (arith, h))
      ∙ ap config_of
          (unframe-frame (length (frame (pieces c))) (pieces c) (length-frame (pieces c)))
      ∙ config_of-pieces c;
}

abbrev settings : Config
settings = default none

abbrev left : Files
left = (text "config.toml", frame (pieces settings)) ∷ []

first_start : load_or_create files none (text "config.toml") [] ≡ (some settings, left)
unfolding load_or_create save make_parent write_text lookup
first_start = refl

load_or_create-load_or_create_example :
    load_or_create files (some (text "/home/a")) (text "config.toml") left ≡ (some settings, left)
load_or_create-load_or_create_example =
    load_or_create-load_or_create files none (some (text "/home/a")) settings (text "config.toml")
      [] left first_start
