-- ===== src/Scheduler/Handlers.antt =====
-- What every event of scheduler.service.ts does to the sync cycles.
use shipment_tracking_system.Prelude.{
  ℕ, ◌+◌, set, Bool, true, false, not, Option, none, some, List, [], ◌∷◌, ◌≡◌, inl, inr, refl, ◌∙◌,
  ◌==◌, get, Bool-cases, >>-keeps, leb, ◌&&◌,
}
use shipment_tracking_system.Scheduler.State.{
  SchedulerRegistry, GoogleSheetConfig, Scheduler, Cycle, SyncState, new_state, register, resumed,
  interval_ms, idle,
}
use shipment_tracking_system.Scheduler.Service.{
  start_interval, drop_interval, restart, skip, tick, tick_on, finish, handle_config_ready,
  handle_config_create, handle_config_change, handle_config_update, on_application_shutdown, unlink,
  resume, reschedule, relink, toggle, delete_intervals,
}
use shipment_tracking_system.Scheduler.Cycles.{Core, IsSound, forgotten, core}
use shipment_tracking_system.Scheduler.Moves.{
  allocated-IsSound, forgotten-IsSound, begun-IsSound, touched-IsSound, ended-IsSound,
}
use shipment_tracking_system.Scheduler.Events.{
  Event, ticks, settles, readies, creates, deletes, updates, shuts_down, Events, here, next,
  delete_interval-core, start_interval-core, drop_interval-core, restart-core,
}

module _ (registry : SchedulerRegistry) where
  -- What is sound stays so where the cycles are the same.
  IsSound-same : (k k' : Core) → k ≡ k' → IsSound k' → IsSound k
  IsSound-same k k' e h = rw e h

  skip-IsSound :
      (sheet a : ℕ) (s : Scheduler)
      → (s.objects a).is_syncing ≡ true
      → IsSound (core s)
      → IsSound (core (skip registry sheet a s))
  unfolding skip
  skip-IsSound sheet a s syncing h =
      let o = s.objects a in
      let counted = record o { consecutive_skips = o.consecutive_skips + 1 } in
      elim (Bool-cases (leb 2 (o.consecutive_skips + 1) && not o.is_paused)) [
        | inl pause ↦ rw pause (
            IsSound-same _ _ (delete_interval-core registry sheet _)
              (touched-IsSound a (record counted { is_paused = true }) (core s) syncing syncing h))
        | inr count ↦ rw count (touched-IsSound a counted (core s) syncing syncing h)
      ]

  tick-IsSound :
      (sheet : ℕ) (s : Scheduler) → IsSound (core s) → IsSound (core (tick registry sheet s))
  unfolding tick
  tick-IsSound sheet s h = go (get ◌==◌ sheet s.states) refl
    where
      go :
          (o : Option ℕ) → get ◌==◌ sheet s.states ≡ o → IsSound (core (tick_on registry sheet o s))
      go none e = h
      go (some a) e = elim (Bool-cases (s.objects a).is_syncing) [
        | inl y ↦ rw y (skip-IsSound sheet a s y h)
        | inr n ↦ rw n (begun-IsSound sheet a (core s) e n h)
      ]

  finish-IsSound :
      (c : Cycle) (s : Scheduler) → IsSound (core s) → IsSound (core (finish registry c s))
  unfolding finish
  finish-IsSound c s h = elim (Bool-cases (s.objects c.state).is_paused) [
    | inl y ↦ rw y (
        IsSound-same _ _ (start_interval-core registry c.sheet_id _ _)
          (ended-IsSound c.state (core s) h))
    | inr n ↦ rw n (ended-IsSound c.state (core s) h)
  ]

  register-IsSound :
      (c : GoogleSheetConfig) (s : Scheduler) → IsSound (core s) → IsSound (core (register c s))
  unfolding new_state
  register-IsSound c s h = allocated-IsSound c.sheet_id (core s) h

  ready-IsSound :
      (cs : List (Option GoogleSheetConfig)) (s : Scheduler)
      → IsSound (core s)
      → IsSound (core (handle_config_ready registry cs s).1)
  unfolding handle_config_ready
  ready-IsSound [] s h = h
  ready-IsSound (none ∷ cs) s h = ready-IsSound cs s h
  ready-IsSound (some c ∷ cs) s h = elim (Bool-cases c.enabled) [
    | inl y ↦
        let start = start_interval registry c.sheet_id (some (interval_ms c)) in
        let h' =
          IsSound-same _ _
            (start_interval-core registry c.sheet_id (some (interval_ms c)) (register c s))
            (register-IsSound c s h) in
        let both =
          >>-keeps (λ t. IsSound (core t)) start (handle_config_ready registry cs) (register c s) h'
            (λ t k. ready-IsSound cs t k) in
        simp y both
    | inr n ↦ rw n (ready-IsSound cs s h)
  ]

  create-IsSound :
      (c : GoogleSheetConfig) (s : Scheduler)
      → IsSound (core s)
      → IsSound (core (handle_config_create registry c s))
  unfolding handle_config_create
  create-IsSound c s h = elim (Bool-cases c.enabled) [
    | inl y ↦
        rw y (IsSound-same _ _ (restart-core registry c (register c s)) (register-IsSound c s h))
    | inr n ↦ rw n h
  ]

  -- Dropping an interval and forgetting the sheet.
  dropped-IsSound :
      (sheet : ℕ) (s : Scheduler)
      → IsSound (core s)
      → IsSound (forgotten sheet (core (drop_interval registry sheet s).1))
  dropped-IsSound sheet s h =
      forgotten-IsSound sheet _ (IsSound-same _ _ (drop_interval-core registry sheet s) h)

  change-IsSound :
      (id sheet : ℕ) (s : Scheduler)
      → IsSound (core s)
      → IsSound (core (handle_config_change registry id sheet s))
  unfolding handle_config_change
  change-IsSound id sheet s h = dropped-IsSound sheet s h

  unlink-IsSound :
      (o : Option ℕ) (sheet : ℕ) (s : Scheduler)
      → IsSound (core s)
      → IsSound (core (unlink registry o sheet s))
  unfolding unlink
  unlink-IsSound none sheet s h = h
  unlink-IsSound (some old) sheet s h = elim (Bool-cases (old == sheet)) [
    | inl y ↦ rw y h
    | inr n ↦ rw n (dropped-IsSound old s h)
  ]

  resumed-IsSound :
      (sheet : ℕ) (o : Option ℕ) (s : Scheduler)
      → IsSound (core s)
      → IsSound (core (resumed sheet o s))
  unfolding new_state
  resumed-IsSound sheet none s h = allocated-IsSound sheet (core s) h
  resumed-IsSound sheet (some a) s h = elim (Bool-cases (s.objects a).is_syncing) [
    | inl y ↦
        let o : SyncState = record idle { is_syncing = true } in
        simp y (touched-IsSound a o (core s) refl y h)
    | inr n ↦ rw n (allocated-IsSound sheet (core s) h)
  ]

  reschedule-IsSound :
      (c : GoogleSheetConfig) (s : Scheduler)
      → IsSound (core s)
      → IsSound (core (reschedule registry c s))
  unfolding reschedule
  reschedule-IsSound c s h =
      >>-keeps (λ t. IsSound (core t)) (restart registry c) (resume c) s
        (IsSound-same _ _ (restart-core registry c s) h)
        (λ t k. resumed-IsSound c.sheet_id (get ◌==◌ c.sheet_id t.states) t k)

  toggle-IsSound :
      (b : Bool) (c : GoogleSheetConfig) (s : Scheduler)
      → IsSound (core s)
      → IsSound (core (toggle registry b c s))
  toggle-IsSound false c s h = IsSound-same _ _ (delete_interval-core registry c.sheet_id s) h
  toggle-IsSound true c s h =
      reschedule-IsSound c
        (record s { intervals = set ◌==◌ c.sheet_id (interval_ms c) s.intervals }) h

  pub relink-IsSound :
      (c : GoogleSheetConfig) (s : Scheduler)
      → IsSound (core s)
      → IsSound (core (relink registry c s))
  relink-IsSound c s h = unlink-IsSound (get ◌==◌ c.id s.config_id_to_sheet_id) c.sheet_id s h

  update-IsSound :
      (c : Option GoogleSheetConfig) (s : Scheduler)
      → IsSound (core s)
      → IsSound (core (handle_config_update registry c s))
  unfolding handle_config_update
  update-IsSound none s h = h
  update-IsSound (some c) s h =
      toggle-IsSound c.enabled c (relink registry c s) (relink-IsSound c s h)

  delete_intervals-core :
      (l : List (ℕ × ℕ)) (s : Scheduler) → core (delete_intervals registry l s) ≡ core s
  unfolding delete_intervals
  delete_intervals-core [] s = refl
  delete_intervals-core ((sheet, ms) ∷ l) s =
      delete_intervals-core l _ ∙ delete_interval-core registry sheet s

  pub Event-IsSound : {s t : Scheduler} → IsSound (core s) → Event registry s t → IsSound (core t)
  unfolding on_application_shutdown
  Event-IsSound h (ticks sheet s) = tick-IsSound sheet s h
  Event-IsSound h (settles c s _) = finish-IsSound c s h
  Event-IsSound h (readies cs s) = ready-IsSound cs s h
  Event-IsSound h (creates c s) = create-IsSound c s h
  Event-IsSound h (deletes id sheet s) = change-IsSound id sheet s h
  Event-IsSound h (updates c s) = update-IsSound c s h
  Event-IsSound h (shuts_down s) = IsSound-same _ _ (delete_intervals-core s.intervals s) h

  pub Events-IsSound : {s t : Scheduler} → IsSound (core s) → Events registry s t → IsSound (core t)
  Events-IsSound h here = h
  Events-IsSound h (next es e) = Event-IsSound (Events-IsSound h es) e
