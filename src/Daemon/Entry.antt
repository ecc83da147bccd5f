-- ===== src/Daemon/Entry.antt =====
-- `entry` of crates/neuralfs-daemon/src/lib.rs: what the arguments of the program make it do. How the
-- call that is chosen ends is left out, and so are the messages.
use neural_file_system.Prelude.{
  ℕ, ◌*◌, ◌%◌, ◌^◌, ◌≡◌, refl, Bool, true, false, ◌||◌, Option, none, some, List, [], ◌∷◌, Bytes,
  text, bytes_discrete, ite, if◌then◌else◌, parse_usize, arith, ℕ_discrete,
}

-- What was built: the mount of Linux and that of Windows.
pub record Build : Type 0 where
  pub fuse : Bool
  pub winfsp : Bool

pub data EntryAction : Type 0 where
  print_version install uninstall : EntryAction
  run_mount : (mountpoint backing : Bytes) (cache_bytes : ℕ) → EntryAction
  winfsp_probe : EntryAction
  winfsp_mount : (drive : Bytes) → EntryAction
  -- An exit with code 1, since the build has no such mount.
  not_built : EntryAction
  serve : EntryAction

-- `args.iter().any`.
unfoldable pub has_flag : Bytes → List Bytes → Bool
has_flag flag [] = false
has_flag flag (a ∷ args) = let rest = has_flag flag args in ite (bytes_discrete a flag) true rest

unfoldable pub first_of : List Bytes → Option Bytes
first_of [] = none
first_of (a ∷ args) = some a

-- The value after the first place of a flag.
unfoldable pub flag_value : List Bytes → Bytes → Option Bytes
unfolding first_of
flag_value [] flag = none
flag_value (a ∷ args) flag =
    let rest = flag_value args flag in ite (bytes_discrete a flag) (first_of args) rest

-- `DEFAULT_CACHE_BYTES` is 1 GiB.
abbrev default_cache_bytes : ℕ
default_cache_bytes = 1024 * 1024 * 1024

-- The size of the cache, in 64 bits.
unfoldable pub cache_bytes_of : Option Bytes → ℕ
cache_bytes_of none = default_cache_bytes
cache_bytes_of (some v) = elim (parse_usize v) [
  | none ↦ default_cache_bytes
  | some mb ↦ mb * 1024 * 1024 % 2 ^ 64
]

-- `run_mount_mode`, given the directory that backs a mount if none is named.
unfoldable pub run_mount_mode : Build → Bytes → List Bytes → Bytes → EntryAction
unfolding cache_bytes_of flag_value
run_mount_mode build default_backing args mountpoint =
    let backing : Bytes = elim (flag_value args (text "--backing")) [
      | none ↦ default_backing
      | some b ↦ b
    ] in
    if build.fuse
    then run_mount mountpoint backing (cache_bytes_of (flag_value args (text "--cache-mb")))
    else not_built

-- The last two tests: the mount of Windows, or else the daemon.
unfoldable pub winfsp_or_serve : Build → List Bytes → EntryAction
unfolding flag_value
winfsp_or_serve build args = elim (flag_value args (text "--mount-winfsp")) [
  | some drive ↦ if build.winfsp then winfsp_mount drive else not_built
  | none ↦ serve
]

unfoldable pub entry : Build → Bytes → List Bytes → EntryAction
unfolding has_flag flag_value run_mount_mode winfsp_or_serve
entry build default_backing args =
    if has_flag (text "--version") args || has_flag (text "-V") args
    then print_version
    else if has_flag (text "--install") args
    then install
    else if has_flag (text "--uninstall") args
    then uninstall
    else elim (flag_value args (text "--mount")) [
      | some mountpoint ↦ run_mount_mode build default_backing args mountpoint
      | none ↦
          if has_flag (text "--winfsp-probe") args
          then (if build.winfsp then winfsp_probe else not_built)
          else winfsp_or_serve build args
    ]

-- A flag that is not there has no value.
flag_value_absent :
    (args : List Bytes) (flag : Bytes) → has_flag flag args ≡ false → flag_value args flag ≡ none
unfolding has_flag flag_value
flag_value_absent [] flag h = refl
flag_value_absent (a ∷ args) flag h = ground (arith, flag_value_absent args flag)

-- Without any of the flags the daemon starts, whatever else the arguments hold.
pub entry_serves :
    (build : Build) (default_backing : Bytes) (args : List Bytes)
    → has_flag (text "--version") args ≡ false
    → has_flag (text "-V") args ≡ false
    → has_flag (text "--install") args ≡ false
    → has_flag (text "--uninstall") args ≡ false
    → has_flag (text "--mount") args ≡ false
    → has_flag (text "--winfsp-probe") args ≡ false
    → has_flag (text "--mount-winfsp") args ≡ false
    → entry build default_backing args ≡ serve
unfolding entry winfsp_or_serve
entry_serves build default_backing args v w i u m p d =
    let no_mount = flag_value_absent args (text "--mount") m in
    let no_drive = flag_value_absent args (text "--mount-winfsp") d in
    rw (v, w, i, u, no_mount, p, entry) (rw (no_drive, winfsp_or_serve) refl)

-- A `--mount` that nothing follows is passed over, and the daemon starts.
mount_without_value :
    (build : Build) (default_backing : Bytes)
    → entry build default_backing (text "neuralfs" ∷ text "--mount" ∷ []) ≡ serve
unfolding entry has_flag flag_value bytes_discrete ℕ_discrete first_of winfsp_or_serve
mount_without_value build default_backing = refl
