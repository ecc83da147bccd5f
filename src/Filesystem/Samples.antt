-- ===== src/Filesystem/Samples.antt =====
-- A machine for the tests: lists for the stores, a cache that forgets nothing, and an encoding in
-- which every piece stands behind its length.
use neural_file_system.Prelude.{
  ℕ, zero, suc, ◌≤◌, ◌≡◌, ◌∙◌, ap, refl, inl, Option, none, some, Bytes, List, [], ◌∷◌, ◌++◌,
  length, take, drop, take-append, drop-append, length-append, replicate, length-replicate,
  bytes_discrete, ℕ_discrete, lookup, arith,
}
use neural_file_system.HashLink.{list_linked}
use neural_file_system.Sled.{list_sled}
use neural_file_system.Blake3.{Blake3}
use neural_file_system.Inode.{Entries, Inode, file, dir, SuperBlock}
use neural_file_system.Platform.{Platform, Lru, Bincode}

-- Pieces of bytes, each behind its length.
unfoldable pub frame : List Bytes → Bytes
frame [] = []
frame (x ∷ xs) = length x ∷ (x ++ frame xs)

unfoldable pub unframe : ℕ → Bytes → List Bytes
unframe zero b = []
unframe (suc fuel) [] = []
unframe (suc fuel) (n ∷ b) = take n b ∷ unframe fuel (drop n b)

pub unframe-frame : (fuel : ℕ) (xs : List Bytes) → length xs ≤ fuel → unframe fuel (frame xs) ≡ xs
unfolding frame unframe
unframe-frame zero [] h = refl
unframe-frame zero (x ∷ xs) h = absurd (omega arith)
unframe-frame (suc fuel) [] h = refl
unframe-frame (suc fuel) (x ∷ xs) h = rw (
  take-append (length x) x (frame xs) refl,
  drop-append (length x) x (frame xs) refl,
  unframe-frame fuel xs (omega arith),
)

pub length-frame : (xs : List Bytes) → length xs ≤ length (frame xs)
unfolding frame
length-frame [] = omega arith
length-frame (x ∷ xs) = omega (arith, length-frame xs, length-append x (frame xs))

unfoldable pub pack_entries : Entries → List Bytes
pack_entries [] = []
pack_entries ((name, i) ∷ es) = (i ∷ name) ∷ pack_entries es

unfoldable pub unpack_entries : List Bytes → Entries
unpack_entries [] = []
unpack_entries ([] ∷ xs) = []
unpack_entries ((i ∷ name) ∷ xs) = (name, i) ∷ unpack_entries xs

pub unpack-pack_entries : (es : Entries) → unpack_entries (pack_entries es) ≡ es
unfolding pack_entries unpack_entries
unpack-pack_entries [] = refl
unpack-pack_entries ((name, i) ∷ es) = ap (◌∷◌ (name, i)) (unpack-pack_entries es)

pack : Inode → List Bytes
pack (file size blocks inline mtime mode) = (size ∷ mtime ∷ mode ∷ []) ∷ inline ∷ blocks
pack (dir entries mtime) = (mtime ∷ []) ∷ pack_entries entries

unpack : List Bytes → Option Inode
unpack ((size ∷ mtime ∷ mode ∷ []) ∷ inline ∷ blocks) = some (file size blocks inline mtime mode)
unpack ((mtime ∷ []) ∷ es) = some (dir (unpack_entries es) mtime)
unpack _ = none

unpack-pack : (n : Inode) → unpack (pack n) ≡ some n
unfolding pack unpack
unpack-pack (file size blocks inline mtime mode) = refl
unpack-pack (dir entries mtime) = ap (λ es. some (dir es mtime)) (unpack-pack_entries entries)

pub inode_code : Bincode Inode
inode_code = record {
  serialize = λ n. frame (pack n);
  deserialize = λ b. unpack (unframe (length b) b);
  deserialize-serialize = λ n.
      ap unpack (unframe-frame (length (frame (pack n))) (pack n) (length-frame (pack n)))
      ∙ unpack-pack n;
}

super_of : Bytes → Option SuperBlock
super_of (root ∷ next ∷ txg ∷ []) = some (record { root = root; next_inode = next; txg = txg })
super_of _ = none

pub super_code : Bincode SuperBlock
unfolding super_of
super_code = record {
  serialize = λ st. st.root ∷ st.next_inode ∷ st.txg ∷ [];
  deserialize = super_of;
  deserialize-serialize = λ st. refl;
}

pub lru : Lru Inode
unfolding lookup
lru = record {
  Cache = List (ℕ × Inode);
  new = λ n. [];
  peek = lookup ℕ_discrete;
  get = λ k c. (lookup ℕ_discrete k c, c);
  insert = λ k v c. (k, v) ∷ c;
  peek-new = λ n j. refl;
  get-peek = λ k c. refl;
  peek-get = λ k j c. refl;
  peek-insert = λ k j v c. inl refl;
}

-- A digest that tells blocks apart by their lengths.
abbrev by_length : Blake3
by_length = record {
  digest = λ b. replicate 32 (length b);
  length-digest = λ b. length-replicate 32 (length b);
}

abbrev pub machine : Platform
machine = record {
  sled = list_sled;
  linked = list_linked bytes_discrete;
  blake3 = by_length;
  lru = lru;
  inode_code = inode_code;
  super_code = super_code;
  now = λ n. n;
}
