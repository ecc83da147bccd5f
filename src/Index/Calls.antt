-- ===== src/Index/Calls.antt =====
-- crates/neuralfs-daemon/src/store.rs: each call on a sound index, against the map from keys to
-- entries.
use neural_file_system.Prelude.{
  ℕ, ◌+◌, ◌≡◌, ◌∙◌, ◌⊎◌, ap, sym, refl, Option, none, some, Bytes, ◌++◌, [], bytes_discrete, ite,
  if_pos, if_neg, ok, Option-cases, inl, inr, arith,
}
use neural_file_system.FileEntry.{FileEntry}
use neural_file_system.Host.{Host}
use neural_file_system.Index.{
  Store, key_of, prefix_of, unlink_moved, upsert, upsert_preserving_stats, with_stats, remove,
  touch_open, remove_parent_link, remove_name_link,
}
use neural_file_system.Index.Links.{
  Mirrors, keep-Unlinks, remove-Unlinks, unset-Mirrors, unset_link-Mirrors, touch-Mirrors,
  some-none, some_injective,
}
use neural_file_system.Index.Sound.{
  IsSound, Puts, SameName, entry_at, entry_at-insert, entry_at-remove, decodes_set, keyed_set,
  put_entry-Puts, sizes, parent_of, name_of,
}

abbrev pub opened : ℕ → FileEntry → FileEntry
opened now e = record e { freq = e.freq + 1; last_open = now }

unfoldable pub kept_stats : FileEntry → Option FileEntry → FileEntry
kept_stats e none = e
kept_stats e (some old) = with_stats old e

module _ {H : Host} where
  -- What stands under a key of a sound index.
  pub value-cases :
      (k : Bytes) (s : Store H)
      → IsSound s
      → ((H.volume.sled.get k s.index ≡ none) × (entry_at k s ≡ none))
        ⊎ ((v : Bytes) × (e : FileEntry) × (H.volume.sled.get k s.index ≡ some v)
            × (H.entry_code.deserialize v ≡ some e)
            × (entry_at k s ≡ some e))
  unfolding entry_at
  value-cases k s w = elim (Option-cases (H.volume.sled.get k s.index)) [
    | inl n ↦ inl (n, rw (n, entry_at) refl)
    | inr (v, h) ↦ let (e, d) = w.decodes k v h in inr (v, e, h, d, rw (h, d, entry_at) refl)
  ]

  -- On a sound index in which an entry of the same key, if there is one, has the same file name
  -- in lower case, `upsert` succeeds, leaves a sound index, puts the entry under the key of its
  -- path, and changes no other entry. A sound index is one whose values decode and stand under
  -- the key of their path, with exactly one link for each entry in each of the two trees of
  -- links.
  pub upsert-Puts :
      (e : FileEntry) (s : Store H)
      → IsSound s
      → SameName e s
      → ((upsert e s).0 ≡ ok tt) × Puts e s (upsert e s).1
  unfolding upsert unlink_moved remove_parent_link entry_at
  upsert-Puts e s w same =
      let k = key_of H e.path in
      elim (value-cases k s w) [
        | inl (h, n) ↦
            let put = put_entry-Puts e s s.by_parent w same (
              keep-Unlinks (prefix_of H) parent_of _ _ k (prefix_of H e.parent ++ k)
                (λ old g. absurd (some-none (sym g ∙ n)))) in
            rw (h, upsert) (refl, put)
        | inr (v, old, h, d, at) ↦ elim (bytes_discrete old.parent e.parent) [
          | yes p ↦
              let put = put_entry-Puts e s s.by_parent w same (
                keep-Unlinks (prefix_of H) parent_of _ _ k (prefix_of H e.parent ++ k)
                  (λ x g. ap (λ q. prefix_of H q ++ k) (ap parent_of (some_injective g at) ∙ p))) in
              rw (h, d, if_pos (bytes_discrete old.parent e.parent) p, upsert) (refl, put)
          | no n ↦
              let put =
                put_entry-Puts e s
                  (H.volume.sled.remove (prefix_of H old.parent ++ k) s.by_parent).1 w same
                  (remove-Unlinks (prefix_of H) parent_of _ _ _ k (prefix_of H e.parent ++ k)
                    (prefix_of H old.parent)
                    (λ x g. ap (λ y. prefix_of H y.parent) (some_injective g at))
                    (λ j. H.volume.sled.get-remove j (prefix_of H old.parent ++ k) s.by_parent)) in
              rw (h, d, if_neg (bytes_discrete old.parent e.parent) n, upsert) (refl, put)
        ]
      ]

  -- A sound index keeps the counts of the entry that it has.
  pub upsert_preserving_stats_lem :
      (e : FileEntry) (s : Store H)
      → IsSound s
      → upsert_preserving_stats e s ≡ upsert (kept_stats e (entry_at (key_of H e.path) s)) s
  unfolding upsert_preserving_stats kept_stats
  upsert_preserving_stats_lem e s w = elim (value-cases (key_of H e.path) s w) [
    | inl (h, n) ↦ rw (h, upsert_preserving_stats) (ap (λ o. upsert (kept_stats e o) s) (sym n))
    | inr (v, old, h, d, at) ↦
        rw (h, d, upsert_preserving_stats) (ap (λ o. upsert (kept_stats e o) s) (sym at))
  ]

  removed-IsSound :
      (path : Bytes) (s t : Store H)
      → IsSound s
      → t.index ≡ (H.volume.sled.remove (key_of H path) s.index).1
      → Mirrors (prefix_of H) parent_of (λ k. entry_at k t) (λ j. H.volume.sled.get j t.by_parent)
      → Mirrors (prefix_of H) name_of (λ k. entry_at k t) (λ j. H.volume.sled.get j t.by_name)
      → IsSound t
  removed-IsSound path s t w h parents names =
      let k = key_of H path in
      record {
        decodes = λ j v g.
            w.decodes j v
              (ground (arith, ap (H.volume.sled.get j) h, H.volume.sled.get-remove j k s.index));
        keyed = λ j x g. w.keyed j x (ground (arith, entry_at-remove j k s t h));
        parents = parents;
        names = names;
      }

  -- On a sound index `remove` succeeds, leaves a sound index, and takes away the entry under the
  -- key of the path and no other entry.
  pub remove-IsSound :
      (path : Bytes) (s : Store H)
      → IsSound s
      → ((remove path s).0 ≡ ok tt)
        × IsSound (remove path s).1
        × ((j : Bytes)
            → entry_at j (remove path s).1
              ≡ ite (bytes_discrete (key_of H path) j) none (entry_at j s))
  unfolding remove remove_parent_link remove_name_link entry_at
  remove-IsSound path s w =
      let S = H.volume.sled in
      let k = key_of H path in
      let s₁ : Store H = record s { index = (S.remove k s.index).1 } in
      let at = λ (j : Bytes). entry_at-remove j k s s₁ refl in
      elim (value-cases k s w) [
        | inl (h, n) ↦
            let none_here : (x : FileEntry) → ¬ (entry_at k s ≡ some x) =
              λ x g. some-none (sym g ∙ n) in
            let keeps =
              λ (label : FileEntry → Bytes) (link : Bytes → Option Bytes)
                  (m : Mirrors (prefix_of H) label (λ j. entry_at j s) link).
                unset-Mirrors (prefix_of H) label _ (λ j. entry_at j s₁) link link link k
                  (λ j x. sizes s w j x path) m
                  (keep-Unlinks (prefix_of H) label _ link k [] (λ x g. absurd (none_here x g)))
                  (λ x g. absurd (none_here x g)) at in
            let sound =
              removed-IsSound path s s₁ w refl (keeps parent_of _ w.parents)
                (keeps name_of _ w.names) in
            rw (S.remove-get k s.index, h, remove) (refl, sound, at)
        | inr (v, old, h, d, here) ↦
            let t = remove_name_link old.file_name k (remove_parent_link old.parent k s₁) in
            let drops =
              λ (label : FileEntry → Bytes) (link link' : Bytes → Option Bytes)
                  (m : Mirrors (prefix_of H) label (λ j. entry_at j s) link)
                  (spec : (j : Bytes)
                    → link' j
                      ≡ ite (bytes_discrete (prefix_of H (label old) ++ k) j) none (link j)).
                unset_link-Mirrors (prefix_of H) label _ (λ j. entry_at j s₁) link link link' k
                  (λ j x. sizes s w j x path) m old here at spec in
            let sound =
              removed-IsSound path s t w refl
                (drops parent_of _ _ w.parents
                  (λ j. S.get-remove j (prefix_of H old.parent ++ k) s.by_parent))
                (drops name_of _ _ w.names
                  (λ j. S.get-remove j (prefix_of H old.file_name ++ k) s.by_name)) in
            rw (S.remove-get k s.index, h, d, remove) (refl, sound, at)
      ]

  -- On a sound index `touch_open` either finds no entry under the key of the path, answers none
  -- and changes nothing; or it answers the entry with one more opening and the time of it, puts
  -- this under its key, changes no other entry and leaves a sound index.
  pub touch_open-IsSound :
      (path : Bytes) (now : ℕ) (s : Store H)
      → IsSound s
      → ((touch_open path now s ≡ (ok none, s)) × (entry_at (key_of H path) s ≡ none))
        ⊎ ((old : FileEntry) × (entry_at (key_of H path) s ≡ some old)
            × ((touch_open path now s).0 ≡ ok (some (opened now old)))
            × Puts (opened now old) s (touch_open path now s).1)
  unfolding touch_open
  touch_open-IsSound path now s w =
      let k = key_of H path in
      elim (value-cases k s w) [
        | inl (h, n) ↦ inl (rw (h, touch_open) refl, n)
        | inr (v, old, h, d, here) ↦
            let e = opened now old in
            let i = H.volume.sled.insert k (H.entry_code.serialize e) s.index in
            let t : Store H = record s { index = i } in
            let set : t.index
                ≡ H.volume.sled.insert (key_of H old.path) (H.entry_code.serialize e) s.index =
              ap (λ q. H.volume.sled.insert q (H.entry_code.serialize e) s.index)
                (w.keyed k old here) in
            let at = λ (j : Bytes). entry_at-insert j (key_of H old.path) e s t set in
            let here₁ : entry_at (key_of H old.path) s ≡ some old =
              ap (λ q. entry_at q s) (sym (w.keyed k old here)) ∙ here in
            let puts : Puts e s t = record {
              sound = record {
                decodes = decodes_set e s t w set;
                keyed = keyed_set e s t w at;
                parents =
                    touch-Mirrors (prefix_of H) parent_of _ _ _ (key_of H old.path)
                      (λ j x. sizes s w j x old.path) w.parents old e here₁ refl at;
                names =
                    touch-Mirrors (prefix_of H) name_of _ _ _ (key_of H old.path)
                      (λ j x. sizes s w j x old.path) w.names old e here₁ refl at;
              };
              at = at;
            } in
            inr (old, here, rw (h, d, touch_open) refl, rw (h, d, touch_open) puts)
      ]
