-- ===== src/Inode.antt =====
-- crates/neuralfs-fs/src/inode.rs: inodes, the root pointer and the answer of `stat`. Times are
-- seconds since the epoch, which the program never makes negative. A `BTreeMap` is the list of its
-- entries in the order of the keys; names are their bytes.
use neural_file_system.Prelude.{
  ℕ, ◌≡◌, refl, Bool, true, false, Option, some, List, [], ◌∷◌, Bytes, lookup, erase,
  bytes_discrete, ite, ltb, ◌==◌, if◌then◌else◌, arith,
}
use neural_file_system.Blake3.{Hash}

abbrev pub Name : Type 0
Name = Bytes

-- The order of `String`: by bytes.
unfoldable pub name_lt : Name → Name → Bool
name_lt [] [] = false
name_lt [] (y ∷ ys) = true
name_lt (x ∷ xs) [] = false
name_lt (x ∷ xs) (y ∷ ys) = if x == y then name_lt xs ys else ltb x y

abbrev pub Entries : Type 0
Entries = List (Name × ℕ)

-- `BTreeMap::insert`.
unfoldable pub insert_entry : Name → ℕ → Entries → Entries
unfolding name_lt
insert_entry k i [] = (k, i) ∷ []
insert_entry k i ((j, x) ∷ l) =
    let later = insert_entry k i l in
    ite (bytes_discrete j k) ((k, i) ∷ l)
      (if name_lt k j then (k, i) ∷ (j, x) ∷ l else (j, x) ∷ later)

-- `BTreeMap::remove`.
abbrev pub remove_entry : Name → Entries → Entries
remove_entry = erase bytes_discrete

abbrev pub get_entry : Name → Entries → Option ℕ
get_entry = lookup bytes_discrete

pub get_entry-insert_entry :
    (j k : Name) (i : ℕ) (l : Entries)
    → get_entry j (insert_entry k i l) ≡ ite (bytes_discrete k j) (some i) (get_entry j l)
unfolding insert_entry lookup
get_entry-insert_entry j k i [] = refl
get_entry-insert_entry j k i ((h, x) ∷ l) = ground (arith, get_entry-insert_entry j k i l)

-- A file holds its bytes in blocks or, if it is small, inline.
pub data Inode : Type 0 where
  file : (size : ℕ) (blocks : List Hash) (inline : Bytes) (mtime mode : ℕ) → Inode
  dir : (entries : Entries) (mtime : ℕ) → Inode

pub data Kind : Type 0 where
  file_kind dir_kind : Kind

unfoldable pub is_dir : Inode → Bool
is_dir (file size blocks inline mtime mode) = false
is_dir (dir entries mtime) = true

unfoldable pub kind : Inode → Kind
kind (file size blocks inline mtime mode) = file_kind
kind (dir entries mtime) = dir_kind

pub record SuperBlock : Type 0 where
  pub root : ℕ
  pub next_inode : ℕ
  pub txg : ℕ

pub record Stat : Type 0 where
  pub kind_of : Kind
  pub size : ℕ
  pub mtime : ℕ
  pub blocks : ℕ
  pub entries : ℕ
