-- ===== src/Sled.antt =====
-- The `sled::Tree` of the stores: a third-party ordered map from byte strings to byte strings. The
-- operations that the program calls are the fields, and the laws state what the crate documents.
-- Failures of the disk under it are not modelled.
use neural_file_system.Prelude.{
  ℕ, ◌≡◌, refl, Bool, Option, none, some, is_some, List, [], ◌∷◌, ◌++◌, Bytes, length, lookup,
  erase, bytes_discrete, Distinct, Distinct-erase, Distinct-snoc, lookup-snoc, lookup-erase, ite,
  starts_with, if◌then◌else◌,
}
use neural_file_system.HashLink.{Entries, absent_after_erase}

-- `sled::Batch`.
pub data BatchOp : Type 0 where
  insert_op : Bytes → Bytes → BatchOp
  remove_op : Bytes → BatchOp

-- What a batch leaves under a key: the effect of the last operation on it.
abbrev pub batched : Bytes → List BatchOp → Option Bytes → Option Bytes
batched j [] old = old
batched j (insert_op k v ∷ ops) old = batched j ops (ite (bytes_discrete k j) (some v) old)
batched j (remove_op k ∷ ops) old = batched j ops (ite (bytes_discrete k j) none old)

-- The entries of a list whose key starts with a prefix.
unfoldable pub with_prefix : Bytes → List (Bytes × Bytes) → List (Bytes × Bytes)
with_prefix p [] = []
with_prefix p ((k, v) ∷ l) =
    let rest = with_prefix p l in if starts_with p k then (k, v) ∷ rest else rest

pub record Sled : Type 1 where
  pub Tree : Type 0
  pub new : Tree
  pub get : Bytes → Tree → Option Bytes
  pub contains_key : Bytes → Tree → Bool
  pub insert : Bytes → Bytes → Tree → Tree
  pub remove : Bytes → Tree → Option Bytes × Tree
  pub apply_batch : List BatchOp → Tree → Tree
  pub iter : Tree → List (Bytes × Bytes)
  -- The entries whose key starts with a prefix.
  pub scan_prefix : Bytes → Tree → List (Bytes × Bytes)
  pub len : Tree → ℕ
  pub get-new : (j : Bytes) → get j new ≡ none
  pub contains_key-get : (j : Bytes) (t : Tree) → contains_key j t ≡ is_some (get j t)
  pub get-insert :
      (j k v : Bytes) (t : Tree)
      → get j (insert k v t) ≡ ite (bytes_discrete k j) (some v) (get j t)
  pub remove-get : (k : Bytes) (t : Tree) → (remove k t).0 ≡ get k t
  pub get-remove :
      (j k : Bytes) (t : Tree) → get j (remove k t).1 ≡ ite (bytes_discrete k j) none (get j t)
  pub get-apply_batch :
      (j : Bytes) (ops : List BatchOp) (t : Tree)
      → get j (apply_batch ops t) ≡ batched j ops (get j t)
  pub lookup-iter : (j : Bytes) (t : Tree) → lookup bytes_discrete j (iter t) ≡ get j t
  pub distinct : (t : Tree) → Distinct bytes_discrete (iter t)
  pub scan_prefix-iter : (p : Bytes) (t : Tree) → scan_prefix p t ≡ with_prefix p (iter t)
  pub len-iter : (t : Tree) → len t ≡ length (iter t)

-- A list that meets the laws, so that the theorems below can be applied.
unfoldable pub put : Bytes → Bytes → Entries bytes_discrete Bytes → Entries bytes_discrete Bytes
put k v m = (
  erase bytes_discrete k m.0 ++ (k, v) ∷ [],
  Distinct-snoc bytes_discrete k v _ (absent_after_erase bytes_discrete k m.0)
      (Distinct-erase bytes_discrete k m.0 m.1),
)

unfoldable pub without : Bytes → Entries bytes_discrete Bytes → Entries bytes_discrete Bytes
without k m = (erase bytes_discrete k m.0, Distinct-erase bytes_discrete k m.0 m.1)

unfoldable pub apply_ops :
    List BatchOp → Entries bytes_discrete Bytes → Entries bytes_discrete Bytes
apply_ops [] m = m
apply_ops (insert_op k v ∷ ops) m = apply_ops ops (put k v m)
apply_ops (remove_op k ∷ ops) m = apply_ops ops (without k m)

pub lookup-apply_ops :
    (j : Bytes) (ops : List BatchOp) (m : Entries bytes_discrete Bytes)
    → lookup bytes_discrete j (apply_ops ops m).0 ≡ batched j ops (lookup bytes_discrete j m.0)
unfolding apply_ops put without
lookup-apply_ops j [] m = refl
lookup-apply_ops j (insert_op k v ∷ ops) m =
    rw (lookup-apply_ops j ops (put k v m), lookup-snoc bytes_discrete j k v m.0)
lookup-apply_ops j (remove_op k ∷ ops) m =
    rw (lookup-apply_ops j ops (without k m), lookup-erase bytes_discrete j k m.0)

unfoldable pub list_sled : Sled
unfolding put without apply_ops lookup
list_sled = record {
  Tree = Entries bytes_discrete Bytes;
  new = ([], tt);
  get = λ k m. lookup bytes_discrete k m.0;
  contains_key = λ k m. is_some (lookup bytes_discrete k m.0);
  insert = put;
  remove = λ k m. (lookup bytes_discrete k m.0, without k m);
  apply_batch = apply_ops;
  iter = λ m. m.0;
  scan_prefix = λ p m. with_prefix p m.0;
  len = λ m. length m.0;
  get-new = λ j. refl;
  contains_key-get = λ j m. refl;
  get-insert = λ j k v m. lookup-snoc bytes_discrete j k v m.0;
  remove-get = λ k m. refl;
  get-remove = λ j k m. lookup-erase bytes_discrete j k m.0;
  get-apply_batch = lookup-apply_ops;
  lookup-iter = λ j m. refl;
  distinct = λ m. m.1;
  scan_prefix-iter = λ p m. refl;
  len-iter = λ m. refl;
}
