-- ===== src/Index/Hits.antt =====
-- crates/neuralfs-daemon/src/store.rs: every entry that a listing of a sound index gives, in any
-- of the three ways, is an entry of the index.
use neural_file_system.Prelude.{
  ◌≡◌, ◌∙◌, ◌⊎◌, ap, sym, subst, refl, some, List, [], ◌∷◌, Bytes, Result, Error, ok, err, inl, inr,
}
use mathlib.Core.List.{Memᴰ}
use neural_file_system.FileEntry.{FileEntry}
use neural_file_system.Host.{Host}
use neural_file_system.Index.{
  Store, key_of, collect, files_in, files_named, all_entries, decode_all,
}
use neural_file_system.Index.Sound.{IsSound, entry_at}
use neural_file_system.Index.Calls.{value-cases}
use neural_file_system.Index.Lookup.{Memᴰ-lookup}

abbrev pub All : {A : Type 0} → (A → Type 0) → List A → Type 0
All P [] = Unit
All P (x ∷ xs) = P x × All P xs

pub Result-cases :
    {A : Type 0} (r : Result A) → ((a : A) × (r ≡ ok a)) ⊎ ((e : Error) × (r ≡ err e))
Result-cases (ok a) = inl (a, refl)
Result-cases (err e) = inr (e, refl)

module _ {H : Host} (s : Store H) where
  -- An entry of the index, under its key.
  abbrev pub Has : FileEntry → Type 0
  Has e = entry_at (key_of H e.path) s ≡ some e

  -- The entries of a listing, if it succeeds.
  abbrev pub Lists : Result (List FileEntry) → Type 0
  Lists (ok es) = All Has es
  Lists (err e) = Unit

  module _ (w : IsSound s) where
    collect-Lists : (links : List (Bytes × Bytes)) → Lists (collect s links)
    unfolding collect
    collect-Lists [] = tt
    collect-Lists ((j, k) ∷ links) = elim (value-cases k s w) [
      | inl (h, n) ↦ rw (h, collect) (collect-Lists links)
      | inr (v, e, h, d, at) ↦
          let has : Has e = ap (λ q. entry_at q s) (sym (w.keyed k e at)) ∙ at in
          elim (Result-cases (collect s links)) [
            | inl (es, q) ↦ rw (h, d, q, collect) (has, subst Lists q (collect-Lists links))
            | inr (x, q) ↦ rw (h, d, q, collect) tt
          ]
    ]

    decode_all-Lists :
        (kvs : List (Bytes × Bytes))
        → ((k v : Bytes) → Memᴰ (k, v) kvs → H.volume.sled.get k s.index ≡ some v)
        → Lists (decode_all H.entry_code kvs)
    unfolding decode_all entry_at
    decode_all-Lists [] there = tt
    decode_all-Lists ((k, v) ∷ kvs) there =
        let h = there k v (Memᴰ.head refl) in
        let (e, d) = w.decodes k v h in
        let at : entry_at k s ≡ some e = rw (h, d, entry_at) refl in
        let has : Has e = ap (λ q. entry_at q s) (sym (w.keyed k e at)) ∙ at in
        let rest = decode_all-Lists kvs (λ i x m. there i x (Memᴰ.tail m)) in
        elim (Result-cases (decode_all H.entry_code kvs)) [
          | inl (es, q) ↦ rw (d, q, decode_all) (has, subst Lists q rest)
          | inr (x, q) ↦ rw (d, q, decode_all) tt
        ]

    pub files_in-Lists : (parent : Bytes) → Lists (files_in parent s)
    unfolding files_in
    files_in-Lists parent = collect-Lists _

    pub files_named-Lists : (name : Bytes) → Lists (files_named name s)
    unfolding files_named
    files_named-Lists name = collect-Lists _

    pub all_entries-Lists : Lists (all_entries s)
    unfolding all_entries
    all_entries-Lists =
        let S = H.volume.sled in
        decode_all-Lists (S.iter s.index) (λ k v m.
          sym (S.lookup-iter k s.index) ∙ Memᴰ-lookup k v (S.iter s.index) (S.distinct s.index) m)
