-- ===== src/Config/Kept.antt =====
-- crates/neuralfs-daemon/src/config.rs: the file of the settings, `load_or_create` and `save`, and
-- that a daemon starts with what was saved. The disk and the text of `toml` are an interface.
use neural_file_system.Prelude.{
  ◌^◌, ◌<◌, ◌≡◌, ◌∙◌, ap, sym, refl, Option, none, some, Option-cases, Bool, true, false,
  Bool-cases, Bytes, inl, inr, if◌then◌else◌, arith,
}
use neural_file_system.Host.{is_nan}
use neural_file_system.Config.{Config, default}

-- What `std::fs`, `Path` and `toml` give. A call that fails gives none, or false.
pub record ConfigFiles : Type 1 where
  pub Disk : Type 0
  pub parent : Bytes → Option Bytes
  pub is_there : Bytes → Disk → Bool
  pub read_to_string : Bytes → Disk → Option Bytes
  pub create_dir_all : Bytes → Disk → Bool × Disk
  pub write_file : Bytes → Bytes → Disk → Bool × Disk
  pub to_string_pretty : Config → Option Bytes
  pub from_str : Bytes → Option Config
  pub is_there-write_file :
      (path text : Bytes) (d e : Disk) → write_file path text d ≡ (true, e) → is_there path e ≡ true
  pub read_to_string-write_file :
      (path text : Bytes) (d e : Disk)
      → write_file path text d ≡ (true, e)
      → read_to_string path e ≡ some text
  pub from_str-to_string_pretty :
      (c : Config) (text : Bytes)
      → c.lambda < 2 ^ 64
      → is_nan c.lambda ≡ false
      → to_string_pretty c ≡ some text
      → from_str text ≡ some c

module _ (K : ConfigFiles) where
  -- The directory of the file is made if it is missing.
  unfoldable pub make_parent : Bytes → K.Disk → Bool × K.Disk
  make_parent path d = elim (K.parent path) [ none ↦ (true, d) | some dir ↦ K.create_dir_all dir d ]

  unfoldable pub write_text : Option Bytes → Bytes → K.Disk → Bool × K.Disk
  write_text none path d = (false, d)
  write_text (some text) path d = K.write_file path text d

  -- True if the settings are on disk.
  unfoldable pub save : Config → Bytes → K.Disk → Bool × K.Disk
  save c path d =
      let (made, e) = make_parent path d in
      if made then write_text (K.to_string_pretty c) path e else (false, e)

  unfoldable pub read_config : Bytes → K.Disk → Option Config
  read_config path d = elim (K.read_to_string path d) [ none ↦ none | some text ↦ K.from_str text ]

  -- For a home directory, as `default`.
  unfoldable pub load_or_create : Option Bytes → Bytes → K.Disk → Option Config × K.Disk
  load_or_create home path d =
      let c = default home in
      if K.is_there path d
      then (read_config path d, d)
      else (let (saved, e) = save c path d in (if saved then some c else none, e))

  written :
      (c : Config) (path : Bytes) (d e : K.Disk)
      → c.lambda < 2 ^ 64
      → is_nan c.lambda ≡ false
      → write_text (K.to_string_pretty c) path d ≡ (true, e)
      → (K.is_there path e ≡ true) × (read_config path e ≡ some c)
  unfolding write_text read_config
  written c path d e l x h = elim (Option-cases (K.to_string_pretty c)) [
    | inl g ↦ absurd (ground (arith, g, h))
    | inr (text, g) ↦
        let w : K.write_file path text d ≡ (true, e) = ap (λ x. write_text x path d) (sym g) ∙ h in
        let read = K.read_to_string-write_file path text d e w in
        (
          K.is_there-write_file path text d e w,
          rw (read, read_config) (K.from_str-to_string_pretty c text l x g),
        )
  ]

  saved_lem :
      (c : Config) (path : Bytes) (d e : K.Disk)
      → c.lambda < 2 ^ 64
      → is_nan c.lambda ≡ false
      → save c path d ≡ (true, e)
      → (K.is_there path e ≡ true) × (read_config path e ≡ some c)
  unfolding save
  saved_lem c path d e l x h = elim (Bool-cases (make_parent path d).0) [
    | inl g ↦ written c path (make_parent path d).1 e l x (ground (arith, g, h))
    | inr g ↦ absurd (ground (arith, g, h))
  ]

  -- What `save` has put on disk, if the float is no NaN, is what the next start loads.
  pub load_or_create-save :
      (home : Option Bytes) (c : Config) (path : Bytes) (d e : K.Disk)
      → c.lambda < 2 ^ 64
      → is_nan c.lambda ≡ false
      → save c path d ≡ (true, e)
      → load_or_create home path e ≡ (some c, e)
  unfolding load_or_create
  load_or_create-save home c path d e l x h =
      let (there, read) = saved_lem c path d e l x h in rw (there, read) refl

  -- What `load_or_create` answers with, it answers with again when it is called on the disk that
  -- it left, whatever the home directory is then, and that call changes nothing on the disk; by
  -- the interface a file that was written without an error is there and reads back, and settings
  -- that toml wrote, with a float that is no NaN, read back.
  pub load_or_create-load_or_create :
      (home later_home : Option Bytes) (c : Config) (path : Bytes) (d e : K.Disk)
      → load_or_create home path d ≡ (some c, e)
      → load_or_create later_home path e ≡ (some c, e)
  unfolding load_or_create default is_nan
  load_or_create-load_or_create home later_home c path d e h =
      elim (Bool-cases (K.is_there path d)) [
        | inl there ↦
            let same : d ≡ e = ground (arith, there, h) in
            let read : read_config path d ≡ some c = ground (arith, there, h) in
            rw (sym same, there, read) refl
        | inr gone ↦ elim (Bool-cases (save (default home) path d).0) [
          | inl ok_ ↦
              let at : (save (default home) path d).1 ≡ e = ground (arith, gone, ok_, h) in
              let it : default home ≡ c = ground (arith, gone, ok_, h) in
              load_or_create-save later_home c path d e (rw (sym it) (omega arith))
                (rw (sym it) refl) (rw (sym it) (ground (arith, ok_, at)))
          | inr failed ↦ absurd (ground (arith, gone, failed, h))
        ]
      ]
