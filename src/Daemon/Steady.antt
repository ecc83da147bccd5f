-- ===== src/Daemon/Steady.antt =====
-- crates/neuralfs-daemon/src/ipc.rs: the requests that leave the model and what is saved of it as
-- they are. That is every request but one to open a file.
use neural_file_system.Prelude.{
  ℕ, ◌≡◌, ◌∙◌, ap, refl, Bool, true, false, Bool-cases, true-false, Option, none, some,
  Option-cases, inl, inr, List, [], ◌∷◌, Bytes, bytes_discrete, if_pos, if_neg, Result, ok, err,
}
use neural_file_system.FileEntry.{FileEntry}
use neural_file_system.Host.{Host, Disk, Dent}
use neural_file_system.Index.{
  Store, key_of, upsert, upsert_preserving_stats, with_stats, put_entry, unlink_moved,
  add_parent_link, add_name_link, remove_parent_link,
}
use neural_file_system.Index.Hits.{Result-cases}
use neural_file_system.Indexer.{
  build_entry, counted, index_dent, index_dents, index_root, reindex_all,
}
use neural_file_system.Protocol.{
  Request, find_request, open_request, reindex_request, config_get, config_set, hook,
}
use neural_file_system.PathCache
use neural_file_system.Config
use neural_file_system.Daemon.{
  handle_find, handle_reindex, handle_config_get, handle_config_set, handle_hook, handle_request,
  on_volume, hook_dir, add_root, contains_dir, canonical,
}
use neural_file_system.Daemon.State.{DaemonState, Moment}

unfoldable pub is_open : Request → Bool
is_open (open_request query) = true
is_open _ = false

module _ {H : Host} where
  put_entry-model : (e : FileEntry) (s : Store H) → (put_entry e s).model ≡ s.model
  unfolding put_entry add_name_link add_parent_link
  put_entry-model e s = refl

  unlink_moved-model : (old e : FileEntry) (s : Store H) → (unlink_moved old e s).model ≡ s.model
  unfolding unlink_moved remove_parent_link
  unlink_moved-model old e s = elim (bytes_discrete old.parent e.parent) [
    | yes p ↦ ap (λ t. t.model) (if_pos {C = Store H} (bytes_discrete old.parent e.parent) p _ _)
    | no n ↦ ap (λ t. t.model) (if_neg {C = Store H} (bytes_discrete old.parent e.parent) n _ _)
  ]

  upsert-model : (e : FileEntry) (s : Store H) → (upsert e s).1.model ≡ s.model
  unfolding upsert
  upsert-model e s = elim (Option-cases (H.volume.sled.get (key_of H e.path) s.index)) [
    | inl h ↦ rw (h, upsert) (put_entry-model e s)
    | inr (v, h) ↦ elim (Option-cases (H.entry_code.deserialize v)) [
      | inl d ↦ rw (h, d, upsert) refl
      | inr (old, d) ↦
          rw (h, d, upsert) (put_entry-model e (unlink_moved old e s) ∙ unlink_moved-model old e s)
    ]
  ]

  upsert_preserving_stats-model :
      (e : FileEntry) (s : Store H) → (upsert_preserving_stats e s).1.model ≡ s.model
  unfolding upsert_preserving_stats
  upsert_preserving_stats-model e s =
      elim (Option-cases (H.volume.sled.get (key_of H e.path) s.index)) [
        | inl h ↦ rw (h, upsert_preserving_stats) (upsert-model e s)
        | inr (v, h) ↦ elim (Option-cases (H.entry_code.deserialize v)) [
          | inl d ↦ rw (h, d, upsert_preserving_stats) refl
          | inr (old, d) ↦ rw (h, d, upsert_preserving_stats) (upsert-model (with_stats old e) s)
        ]
      ]

  counted-model : (n : ℕ) (r : Result (Unit {0}) × Store H) → (counted n r).1.model ≡ r.1.model
  unfolding counted
  counted-model n (ok x, s) = refl
  counted-model n (err x, s) = refl

  index_dent-model :
      (D : Disk) (dent : Option Dent) (r : ℕ × Store H) → (index_dent D dent r).1.model ≡ r.1.model
  unfolding index_dent
  index_dent-model D none (n, s) = refl
  index_dent-model D (some dent) (n, s) = elim (Bool-cases dent.is_file) [
    | inr f ↦ rw (f, index_dent) refl
    | inl f ↦ elim (Option-cases (build_entry H.paths D dent.path dent.depth)) [
      | inl b ↦ rw (f, b, index_dent) refl
      | inr (e, b) ↦
          rw (f, b, index_dent)
            (counted-model n (upsert_preserving_stats e s) ∙ upsert_preserving_stats-model e s)
    ]
  ]

  index_dents-model :
      (D : Disk) (dents : List (Option Dent)) (r : ℕ × Store H)
      → (index_dents D dents r).1.model ≡ r.1.model
  unfolding index_dents
  index_dents-model D [] r = refl
  index_dents-model D (dent ∷ dents) r =
      index_dents-model D dents (index_dent D dent r) ∙ index_dent-model D dent r

  index_root-model :
      (D : Disk) (root : Bytes) (s : Store H) → (index_root D root s).1.model ≡ s.model
  unfolding index_root
  index_root-model D root s = index_dents-model D (D.walk root) (0, s)

  pub reindex_all-model :
      (D : Disk) (roots : List Bytes) (s : Store H) → (reindex_all D roots s).1.model ≡ s.model
  unfolding reindex_all
  reindex_all-model D [] s = refl
  reindex_all-model D (root ∷ roots) s =
      reindex_all-model D roots (index_root D root s).1 ∙ index_root-model D root s

  -- The same model in memory and on disk.
  pub record SameModel (s t : DaemonState H) : Type 0 where
    pub on_disk : t.store.model ≡ s.store.model
    pub in_memory : t.classifier ≡ s.classifier
    pub version : t.saved_version ≡ s.saved_version

  unchanged : {s t : DaemonState H} → t ≡ s → SameModel s t
  unchanged h = record {
    on_disk = ap (λ r. r.store.model) h;
    in_memory = ap (λ r. r.classifier) h;
    version = ap (λ r. r.saved_version) h;
  }

  find-SameModel :
      (now : Moment) (query : Bytes) (s : DaemonState H) → SameModel s (handle_find now query s).1
  unfolding handle_find
  find-SameModel now query s =
      elim (Option-cases (PathCache.get query now.instant s.path_cache).0) [
        | inl h ↦ rw (h, handle_find) (record { on_disk = refl; in_memory = refl; version = refl })
        | inr (ps, h) ↦
            rw (h, handle_find) (record { on_disk = refl; in_memory = refl; version = refl })
      ]

  config_get-SameModel : (key : Bytes) (s : DaemonState H) → SameModel s (handle_config_get key s).1
  unfolding handle_config_get
  config_get-SameModel key s = elim (Option-cases (Config.get H.floats key s.config)) [
    | inl h ↦ rw (h, handle_config_get) (unchanged refl)
    | inr (v, h) ↦ rw (h, handle_config_get) (unchanged refl)
  ]

  config_set-SameModel :
      (key value : Bytes) (s : DaemonState H) → SameModel s (handle_config_set key value s).1
  unfolding handle_config_set
  config_set-SameModel key value s = elim (Result-cases (Config.set H.floats key value s.config)) [
    | inl (c, h) ↦
        rw (h, handle_config_set) (record { on_disk = refl; in_memory = refl; version = refl })
    | inr (x, h) ↦ rw (h, handle_config_set) (unchanged refl)
  ]

  add_root-SameModel : (dir : Bytes) (s : DaemonState H) → SameModel s (add_root dir s)
  unfolding add_root
  add_root-SameModel dir s = elim (Bool-cases (contains_dir s.config.root_dirs dir)) [
    | inl h ↦ rw (h, add_root) (unchanged refl)
    | inr h ↦ rw (h, add_root) (record { on_disk = refl; in_memory = refl; version = refl })
  ]

  hook-SameModel :
      (D : Disk) (dir : Bytes) (s : DaemonState H) → SameModel s (handle_hook D dir s).1
  unfolding handle_hook hook_dir
  hook-SameModel D dir s = elim (Bool-cases (D.is_dir dir)) [
    | inr h ↦ rw (h, handle_hook) (unchanged refl)
    | inl h ↦
        let rooted = add_root-SameModel (canonical D dir) s in
        rw (h, handle_hook)
          (record {
            on_disk =
                index_root-model D (canonical D dir) (add_root (canonical D dir) s).store
                ∙ rooted.on_disk;
            in_memory = rooted.in_memory;
            version = rooted.version;
          })
  ]

  pub handle_request-SameModel :
      (D : Disk) (now : Moment) (req : Request) (s : DaemonState H)
      → is_open req ≡ false
      → SameModel s (handle_request D now req s).1
  unfolding handle_request on_volume handle_reindex is_open
  handle_request-SameModel D now (find_request query) s h = find-SameModel now query s
  handle_request-SameModel D now (open_request query) s h = absurd (true-false h)
  handle_request-SameModel D now reindex_request s h = record {
    on_disk = reindex_all-model D s.config.root_dirs s.store;
    in_memory = refl;
    version = refl;
  }
  handle_request-SameModel D now (config_get key) s h = config_get-SameModel key s
  handle_request-SameModel D now (config_set key value) s h = config_set-SameModel key value s
  handle_request-SameModel D now (hook dir) s h = hook-SameModel D dir s
  handle_request-SameModel D now _ s h = record { on_disk = refl; in_memory = refl; version = refl }
