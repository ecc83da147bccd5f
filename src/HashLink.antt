-- ===== src/HashLink.antt =====
-- The `hashlink::LinkedHashMap` that crates/neuralfs-fs/src/cache.rs stands on: a third-party map
-- that remembers the order of insertion. The operations that the cache calls are the fields, and
-- the laws state what the crate documents of them, through the list of entries from front to back.
pub mod Laws
use neural_file_system.Prelude.{
  ℕ, ◌≡◌, refl, Bool, Option, none, some, is_some, List, [], ◌∷◌, ◌++◌, length, head?, tail, lookup,
  erase, Distinct, Distinct-erase, Distinct-snoc, lookup-erase, arith,
}

pub record Linked {K : Type 0} (dec : Discrete K) (V : Type 0) : Type 1 where
  pub Map : Type 0
  pub items : Map → List (K × V)
  pub new : Map
  -- `insert` puts a new entry at the back; a key that is there is moved to the back.
  pub insert : K → V → Map → Map
  pub remove : K → Map → Option V × Map
  pub pop_front : Map → Option (K × V) × Map
  pub contains_key : K → Map → Bool
  pub len : Map → ℕ
  pub items-new : items new ≡ []
  pub items-insert :
      (k : K) (v : V) (m : Map) → items (insert k v m) ≡ erase dec k (items m) ++ (k, v) ∷ []
  pub remove-value : (k : K) (m : Map) → (remove k m).0 ≡ lookup dec k (items m)
  pub items-remove : (k : K) (m : Map) → items (remove k m).1 ≡ erase dec k (items m)
  pub pop_front-value : (m : Map) → (pop_front m).0 ≡ head? (items m)
  pub items-pop_front : (m : Map) → items (pop_front m).1 ≡ tail (items m)
  pub contains_key-items : (k : K) (m : Map) → contains_key k m ≡ is_some (lookup dec k (items m))
  pub len-items : (m : Map) → len m ≡ length (items m)
  pub distinct : (m : Map) → Distinct dec (items m)

-- A list that meets the laws, so that the theorems below can be applied.
abbrev pub Entries : {K : Type 0} → Discrete K → Type 0 → Type 0
Entries {K} dec V = (l : List (K × V)) × Distinct dec l

module _ {K V : Type 0} (dec : Discrete K) where
  pub absent_after_erase : (k : K) (l : List (K × V)) → lookup dec k (erase dec k l) ≡ none
  absent_after_erase k l = ground (arith, lookup-erase dec k k l)

  pub Distinct-tail : (l : List (K × V)) → Distinct dec l → Distinct dec (tail l)
  Distinct-tail [] d = d
  Distinct-tail (e ∷ l) d = d.1

  abbrev pub list_linked : Linked dec V
  list_linked = record {
    Map = Entries dec V;
    items = λ m. m.0;
    new = ([], tt);
    insert = λ k v m. (
      erase dec k m.0 ++ (k, v) ∷ [],
      Distinct-snoc dec k v _ (absent_after_erase k m.0) (Distinct-erase dec k m.0 m.1),
    );
    remove = λ k m. (lookup dec k m.0, (erase dec k m.0, Distinct-erase dec k m.0 m.1));
    pop_front = λ m. (head? m.0, (tail m.0, Distinct-tail m.0 m.1));
    contains_key = λ k m. is_some (lookup dec k m.0);
    len = λ m. length m.0;
    items-new = refl;
    items-insert = λ k v m. refl;
    remove-value = λ k m. refl;
    items-remove = λ k m. refl;
    pop_front-value = λ m. refl;
    items-pop_front = λ m. refl;
    contains_key-items = λ k m. refl;
    len-items = λ m. refl;
    distinct = λ m. m.1;
  }
