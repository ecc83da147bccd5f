-- ===== src/Daemon/Kept.antt =====
-- crates/neuralfs-daemon/src/lib.rs: the invariant between the model in memory and the one on disk,
-- and each change of either against it.
use neural_file_system.Prelude.{
  ℕ, ◌+◌, ◌≤◌, ◌≡◌, ◌∙◌, ◌⊎◌, ap, sym, subst, refl, true, false, Bool-cases, true-false, none, some,
  Option-cases, inl, inr, Bytes, bytes_discrete, if_pos, ◌==◌, arith,
}
use neural_file_system.Host.{Host, F64}
use neural_file_system.Platform.{Bincode}
use neural_file_system.Index.{Store, save_model, load_model, model_key, touch_open, key_of}
use neural_file_system.Search.Found.{List-cases}
use neural_file_system.Search.{find}
use neural_file_system.Filesystem.{Filesystem}
use neural_file_system.Config.{Config}
use neural_file_system.Classifier.{
  Classifier, default, is_trained, online_update, position, vectorize,
}
use neural_file_system.Daemon.{handle_open, learn}
use neural_file_system.Daemon.State
use neural_file_system.Daemon.State.{DaemonState, Moment}
use neural_file_system.Daemon.Steady.{SameModel}
use neural_file_system.Daemon.Loops.{loaded_model, start_model, checkpoint, install_model}

module _ {H : Host} where
  -- A classifier without classes is the default one.
  abbrev pub IsPlain : Classifier H → Type 0
  IsPlain c = (is_trained c ≡ false) → c ≡ default

  -- An update that is applied raises the version, and keeps the classes.
  online_update-cases :
      (query dir : Bytes) (lr : F64) (c : Classifier H)
      → let u = (online_update query dir lr c).1 in
        (u ≡ c) ⊎ ((u.version ≡ c.version + 1) × (is_trained u ≡ true))
  unfolding online_update is_trained
  online_update-cases query dir lr c = elim (Bool-cases (is_trained c)) [
    | inr t ↦ rw (t, online_update) (inl refl)
    | inl t ↦ elim (Option-cases (position dir c.classes)) [
      | inl p ↦ rw (t, p, online_update) (inl refl)
      | inr (i, p) ↦ elim (Option-cases (vectorize query c)) [
        | inl v ↦ rw (t, p, v, online_update) (inl refl)
        | inr (x, v) ↦ rw (t, p, v, online_update) (inr (refl, t))
      ]
    ]
  ]

  touch_open-model :
      (path : Bytes) (now : ℕ) (s : Store H) → (touch_open path now s).1.model ≡ s.model
  unfolding touch_open
  touch_open-model path now s = elim (Option-cases (H.volume.sled.get (key_of H path) s.index)) [
    | inl h ↦ rw (h, touch_open) refl
    | inr (v, h) ↦ elim (Option-cases (H.entry_code.deserialize v)) [
      | inl d ↦ rw (h, d, touch_open) refl
      | inr (e, d) ↦ rw (h, d, touch_open) refl
    ]
  ]

module _ {H : Host} (C : Bincode (Classifier H)) where
  -- The classifier after a restart.
  unfoldable pub restored : Store H → Classifier H
  restored store = elim (loaded_model C store) [ none ↦ default | some c ↦ c ]

  restored-save_model :
      (c : Classifier H) (s : Store H) → IsPlain c → restored (save_model (C.serialize c) s) ≡ c
  unfolding restored loaded_model load_model save_model
  restored-save_model c s plain =
      let read : H.volume.sled.get model_key
            (H.volume.sled.insert model_key (C.serialize c) s.model)
          ≡ some (C.serialize c) =
        H.volume.sled.get-insert model_key model_key (C.serialize c) s.model
        ∙ if_pos (bytes_discrete model_key model_key) refl _ _ in
      elim (Bool-cases (is_trained c)) [
        | inl t ↦
            rw (read, C.deserialize-serialize c, t, loaded_model, load_model, save_model, restored)
              refl
        | inr t ↦
            rw (read, C.deserialize-serialize c, t, loaded_model, load_model, save_model, restored)
              (sym (plain t))
      ]

  restored-model : (s t : Store H) → s.model ≡ t.model → restored s ≡ restored t
  unfolding restored loaded_model load_model
  restored-model s t same = ap (λ m. restored (record s { model = m })) same

  -- The saved version is not ahead, and if it is the version, then the classifier is the one that was
  -- saved.
  pub record IsKept (s : DaemonState H) : Type 0 where
    pub plain : IsPlain s.classifier
    pub behind : s.saved_version ≤ s.classifier.version
    pub kept : s.saved_version ≡ s.classifier.version → restored s.store ≡ s.classifier

  pub install_model-IsKept :
      (c : Classifier H) (date : Bytes) (s : DaemonState H)
      → IsPlain c
      → IsKept (install_model C c date s)
  install_model-IsKept c date s plain = record {
    plain = plain;
    behind = omega arith;
    kept = λ h. restored-save_model c s.store plain;
  }

  pub checkpoint_lem :
      (s : DaemonState H)
      → IsKept s
      → IsKept (checkpoint C s) × (restored (checkpoint C s).store ≡ (checkpoint C s).classifier)
  unfolding checkpoint
  checkpoint_lem s k = elim (Bool-cases (s.classifier.version == s.saved_version)) [
    | inl h ↦ rw (h, checkpoint) (k, k.kept (ground arith))
    | inr h ↦
        rw (h, checkpoint)
          (
            record {
              plain = k.plain;
              behind = omega arith;
              kept = λ g. restored-save_model s.classifier s.store k.plain;
            },
            restored-save_model s.classifier s.store k.plain,
          )
  ]

  updated-IsKept :
      (u : Classifier H) (store : Store H) (s : DaemonState H)
      → IsKept s
      → (u ≡ s.classifier) ⊎ ((u.version ≡ s.classifier.version + 1) × (is_trained u ≡ true))
      → restored store ≡ restored s.store
      → IsKept (record s { store = store; classifier = u })
  updated-IsKept u store s k (inl h) same =
      subst (λ c. IsKept (record s { store = store; classifier = c })) (sym h)
        (record { plain = k.plain; behind = k.behind; kept = λ g. same ∙ k.kept g })
  updated-IsKept u store s k (inr (h, t)) same = record {
    plain = λ n. absurd (true-false (sym t ∙ n));
    behind = omega (arith, k.behind);
    kept = λ g. absurd (omega (arith, k.behind));
  }

  pub handle_open-IsKept :
      (now : Moment) (query : Bytes) (s : DaemonState H)
      → IsKept s
      → IsKept (handle_open now query s).1
  unfolding handle_open learn
  handle_open-IsKept now query s k =
      elim (List-cases (find s.store s.classifier query now.seconds s.config.lambda 1)) [
        | inl h ↦ rw (h, handle_open) k
        | inr (top, rest, h) ↦
            let store = (touch_open top.path now.seconds s.store).1 in
            let same =
              restored-model store s.store (touch_open-model top.path now.seconds s.store) in
            elim (Option-cases (H.paths.parent top.path)) [
              | inl p ↦
                  rw (h, p, handle_open, learn)
                    (record { plain = k.plain; behind = k.behind; kept = λ g. same ∙ k.kept g })
              | inr (dir, p) ↦
                  rw (h, p, handle_open, learn)
                    (updated-IsKept _ store s k
                      (online_update-cases query dir (H.floats.ratio 3 10) s.classifier) same)
            ]
      ]

  pub SameModel-IsKept : (s t : DaemonState H) → SameModel s t → IsKept s → IsKept t
  SameModel-IsKept s t same k = record {
    plain = subst IsPlain (sym same.in_memory) k.plain;
    behind = omega (arith, k.behind, same.version, ap (λ c. c.version) same.in_memory);
    kept = λ g.
        restored-model t.store s.store same.on_disk
        ∙ k.kept (sym same.version ∙ g ∙ ap (λ c. c.version) same.in_memory)
        ∙ sym same.in_memory;
  }

  loaded_model-trained :
      (store : Store H) (c : Classifier H) → loaded_model C store ≡ some c → is_trained c ≡ true
  unfolding loaded_model
  loaded_model-trained store c h = ground arith

  pub start_model-IsKept :
      (store : Store H) (vfs : Filesystem H.volume) (config : Config) (date : Bytes)
      → IsKept (start_model C date (State.new store vfs config))
  unfolding start_model State.new restored
  start_model-IsKept store vfs config date = elim (Option-cases (loaded_model C store)) [
    | inl h ↦
        rw (h, start_model)
          (record { plain = λ p. refl; behind = omega arith; kept = λ g. rw (h, restored) refl })
    | inr (c, h) ↦
        rw (h, start_model)
          (record {
            plain = λ p. absurd (true-false (sym (loaded_model-trained store c h) ∙ p));
            behind = omega arith;
            kept = λ g. rw (h, restored) refl;
          })
  ]

  pub checkpoint-classifier : (s : DaemonState H) → (checkpoint C s).classifier ≡ s.classifier
  unfolding checkpoint
  checkpoint-classifier s = elim (Bool-cases (s.classifier.version == s.saved_version)) [
    | inl h ↦ rw (h, checkpoint) refl
    | inr h ↦ rw (h, checkpoint) refl
  ]
