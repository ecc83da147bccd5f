-- ===== src/Watcher/Training.antt =====
-- crates/neuralfs-daemon/src/watcher.rs: when the events that were handled lead to a training.
use neural_file_system.Prelude.{
  ℕ, suc, ◌+◌, ◌*◌, ◌<◌, ◌≡◌, Option, none, some, List, [], ◌∷◌, leb, Bool-cases, inl, inr, arith,
}
use neural_file_system.Host.{Host, Disk}
use neural_file_system.Watcher.{Event, Watch, on_event, on_events}

-- The events that were delivered without an error.
unfoldable pub delivered : List (Option (Disk × Event)) → ℕ
delivered [] = 0
delivered (none ∷ events) = delivered events
delivered (some e ∷ events) = suc (delivered events)

module _ {H : Host} where
  on_event_lem :
      (n : ℕ) (D : Disk) (e : Event) (w : Watch H)
      → w.event_count < n
      → ((on_event n D e w).event_count < n)
        × ((on_event n D e w).retrains * n + (on_event n D e w).event_count
            ≡ w.retrains * n + w.event_count + 1)
  unfolding on_event
  on_event_lem n D e w h = elim (Bool-cases (leb n (w.event_count + 1))) [
    | inl full ↦
        let last : w.event_count + 1 ≡ n = ground arith in
        rw (full, on_event) (omega arith, omega arith)
    | inr room ↦
        let more : w.event_count + 1 < n = ground arith in rw (room, on_event) (more, omega arith)
  ]

  -- If fewer events than the threshold were counted before, then this holds after any sequence of
  -- events, and the trainings that were asked for, the threshold times each, and the count of
  -- events are together as many as before and the events that were delivered: every event is
  -- counted once, and a training is asked for as soon as the threshold is reached.
  pub on_events_lem :
      (retrain_threshold : ℕ) (events : List (Option (Disk × Event))) (w : Watch H)
      → w.event_count < retrain_threshold
      → let u = on_events retrain_threshold events w in
        (u.event_count < retrain_threshold)
        × (u.retrains * retrain_threshold + u.event_count
            ≡ w.retrains * retrain_threshold + w.event_count + delivered events)
  unfolding on_events delivered
  on_events_lem n [] w h = (h, omega arith)
  on_events_lem n (none ∷ events) w h = on_events_lem n events w h
  on_events_lem n (some (D, e) ∷ events) w h =
      let step = on_event_lem n D e w h in
      let rest = on_events_lem n events (on_event n D e w) step.0 in
      (rest.0, omega (arith, rest.1, step.1))
