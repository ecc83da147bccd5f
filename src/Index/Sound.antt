-- ===== src/Index/Sound.antt =====
-- crates/neuralfs-daemon/src/store.rs: the index as a partial map from keys to entries, and that
-- the two trees of links mirror it through every call.
use neural_file_system.Prelude.{
  ◌≡◌, ◌∙◌, ap, sym, refl, Option, none, some, Bytes, ◌++◌, length, bytes_discrete, ite, if_pos,
  if_neg, arith,
}
use neural_file_system.BlockStore.Codec.{length-to_be_bytes}
use neural_file_system.FileEntry.{FileEntry}
use neural_file_system.Host.{Host}
use neural_file_system.Index.{
  Store, key_of, prefix_of, key_bytes, new, put_entry, add_parent_link, add_name_link,
}
use neural_file_system.Index.Links.{Mirrors, Unlinks, keep-Unlinks, set-Mirrors, some-none}

abbrev pub parent_of : FileEntry → Bytes
parent_of e = e.parent

abbrev pub name_of : FileEntry → Bytes
name_of e = e.file_name

length-key_of : (H : Host) (path : Bytes) → length (key_of H path) ≡ 8
unfolding key_of key_bytes
length-key_of H path = length-to_be_bytes 8 (H.hash path)

module _ {H : Host} where
  -- The entry under a key of the index.
  unfoldable pub entry_at : Bytes → Store H → Option FileEntry
  entry_at k s = elim (H.volume.sled.get k s.index) [
    | none ↦ none
    | some v ↦ H.entry_code.deserialize v
  ]

  -- Every value decodes and stands under the key of its path, and the links are those of the
  -- entries.
  pub record IsSound (s : Store H) : Type 0 where
    pub decodes :
        (k v : Bytes)
        → H.volume.sled.get k s.index ≡ some v
        → (e : FileEntry) × (H.entry_code.deserialize v ≡ some e)
    pub keyed : (k : Bytes) (e : FileEntry) → entry_at k s ≡ some e → k ≡ key_of H e.path
    pub parents :
        Mirrors (prefix_of H) parent_of (λ k. entry_at k s) (λ j. H.volume.sled.get j s.by_parent)
    pub names :
        Mirrors (prefix_of H) name_of (λ k. entry_at k s) (λ j. H.volume.sled.get j s.by_name)

  -- An entry that stands under the key of another keeps its name, as an entry of the same path
  -- does.
  abbrev pub SameName : FileEntry → Store H → Type 0
  SameName e s =
      (old : FileEntry)
      → entry_at (key_of H e.path) s ≡ some old
      → prefix_of H old.file_name ≡ prefix_of H e.file_name

  pub sizes :
      (s : Store H)
      → IsSound s
      → (j : Bytes) (x : FileEntry) (path : Bytes) → entry_at j s ≡ some x
      → length j ≡ length (key_of H path)
  sizes s w j x path h =
      ap length (w.keyed j x h) ∙ length-key_of H x.path ∙ sym (length-key_of H path)

  pub entry_at-insert :
      (j k : Bytes) (e : FileEntry) (s t : Store H)
      → t.index ≡ H.volume.sled.insert k (H.entry_code.serialize e) s.index
      → entry_at j t ≡ ite (bytes_discrete k j) (some e) (entry_at j s)
  unfolding entry_at
  entry_at-insert j k e s t h = ground (
    arith,
    ap (H.volume.sled.get j) h,
    H.volume.sled.get-insert j k (H.entry_code.serialize e) s.index,
    H.entry_code.deserialize-serialize e,
  )

  pub entry_at-remove :
      (j k : Bytes) (s t : Store H)
      → t.index ≡ (H.volume.sled.remove k s.index).1
      → entry_at j t ≡ ite (bytes_discrete k j) none (entry_at j s)
  unfolding entry_at
  entry_at-remove j k s t h =
      ground (arith, ap (H.volume.sled.get j) h, H.volume.sled.get-remove j k s.index)

  pub new-IsSound : IsSound (new {H = H})
  unfolding new entry_at
  new-IsSound =
      let empty : (k : Bytes) → entry_at k (new {H = H}) ≡ none =
        λ k. ground (arith, H.volume.sled.get-new k) in
      record {
        decodes = λ k v h. absurd (some-none (sym h ∙ H.volume.sled.get-new k));
        keyed = λ k e h. absurd (some-none (sym h ∙ empty k));
        parents = record {
          complete = λ k e h. absurd (some-none (sym h ∙ empty k));
          sound = λ j x h. absurd (some-none (sym h ∙ H.volume.sled.get-new j));
        };
        names = record {
          complete = λ k e h. absurd (some-none (sym h ∙ empty k));
          sound = λ j x h. absurd (some-none (sym h ∙ H.volume.sled.get-new j));
        };
      }

  -- What putting an entry under its key does.
  pub record Puts (e : FileEntry) (s t : Store H) : Type 0 where
    pub sound : IsSound t
    pub at :
        (j : Bytes)
        → entry_at j t ≡ ite (bytes_discrete (key_of H e.path) j) (some e) (entry_at j s)

  -- Values of an index where an entry was set.
  pub decodes_set :
      (e : FileEntry) (s t : Store H)
      → IsSound s
      → t.index ≡ H.volume.sled.insert (key_of H e.path) (H.entry_code.serialize e) s.index
      → (k v : Bytes) → H.volume.sled.get k t.index ≡ some v
      → (x : FileEntry) × (H.entry_code.deserialize v ≡ some x)
  decodes_set e s t w h k v g =
      let set : H.volume.sled.get k t.index
          ≡ ite (bytes_discrete (key_of H e.path) k) (some (H.entry_code.serialize e))
              (H.volume.sled.get k s.index) =
        ap (H.volume.sled.get k) h
        ∙ H.volume.sled.get-insert k (key_of H e.path) (H.entry_code.serialize e) s.index in
      elim (bytes_discrete (key_of H e.path) k) [
        | yes p ↦
            let same : H.entry_code.serialize e ≡ v =
              cc (set ∙ if_pos (bytes_discrete (key_of H e.path) k) p _ _, g) in
            (e, ap H.entry_code.deserialize (sym same) ∙ H.entry_code.deserialize-serialize e)
        | no n ↦ w.decodes k v (sym (set ∙ if_neg (bytes_discrete (key_of H e.path) k) n _ _) ∙ g)
      ]

  pub keyed_set :
      (e : FileEntry) (s t : Store H)
      → IsSound s
      → ((j : Bytes)
          → entry_at j t ≡ ite (bytes_discrete (key_of H e.path) j) (some e) (entry_at j s))
      → (k : Bytes) (x : FileEntry) → entry_at k t ≡ some x
      → k ≡ key_of H x.path
  keyed_set e s t w at k x g = elim (bytes_discrete (key_of H e.path) k) [
    | yes p ↦
        let same : e ≡ x = cc (at k ∙ if_pos (bytes_discrete (key_of H e.path) k) p _ _, g) in
        sym p ∙ ap (λ y. key_of H y.path) same
    | no n ↦ w.keyed k x (sym (at k ∙ if_neg (bytes_discrete (key_of H e.path) k) n _ _) ∙ g)
  ]

  pub put_entry-Puts :
      (e : FileEntry) (s : Store H) (u : H.volume.sled.Tree)
      → IsSound s
      → SameName e s
      → Unlinks
          (prefix_of H)
          parent_of
          (λ k. entry_at k s)
          (λ j. H.volume.sled.get j s.by_parent)
          (λ j. H.volume.sled.get j u)
          (key_of H e.path)
          (prefix_of H e.parent ++ key_of H e.path)
      → Puts e s (put_entry e (record s { by_parent = u }))
  unfolding put_entry add_name_link add_parent_link
  put_entry-Puts e s u w same gone =
      let t = put_entry e (record s { by_parent = u }) in
      let k = key_of H e.path in
      let at = λ (j : Bytes). entry_at-insert j k e s t refl in
      record {
        sound = record {
          decodes = decodes_set e s t w refl;
          keyed = keyed_set e s t w at;
          parents =
              set-Mirrors (prefix_of H) parent_of _ _ _ _ _ k (λ j x. sizes s w j x e.path)
                w.parents e gone at
                (λ j. H.volume.sled.get-insert j (prefix_of H e.parent ++ k) k u);
          names =
              set-Mirrors (prefix_of H) name_of _ _ _ _ _ k (λ j x. sizes s w j x e.path) w.names e
                (keep-Unlinks (prefix_of H) name_of _ _ k _
                  (λ old h. ap (λ p. p ++ k) (same old h)))
                at (λ j. H.volume.sled.get-insert j (prefix_of H e.file_name ++ k) k s.by_name);
        };
        at = at;
      }
