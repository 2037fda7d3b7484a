-- ===== src/Scheduler/Events.antt =====
-- The events that scheduler.service.ts handles, and what timers leave of the sync cycles.
use shipment_tracking_system.Prelude.{
  ℕ, Option, none, some, List, ◌≡◌, inl, inr, refl, ◌∙◌, In, Bool-cases, >>-keeps,
}
use shipment_tracking_system.Scheduler.State.{
  SchedulerRegistry, GoogleSheetConfig, Scheduler, Cycle, interval_ms,
}
use shipment_tracking_system.Scheduler.Service.{
  delete_interval, start_interval, drop_interval, restart, tick, deleted, added, set_interval,
  finish, handle_config_ready, handle_config_create, handle_config_change, handle_config_update,
  on_application_shutdown,
}
use shipment_tracking_system.Scheduler.Cycles.{core}

-- One event of the service. A tick may come from any timer; a cycle that settles is running.
pub data Event (registry : SchedulerRegistry) : Scheduler → Scheduler → Type 0 where
  ticks : (sheet : ℕ) (s : Scheduler) → Event registry s (tick registry sheet s)
  settles : (c : Cycle) (s : Scheduler) → In c s.running → Event registry s (finish registry c s)
  readies :
      (cs : List (Option GoogleSheetConfig)) (s : Scheduler)
      → Event registry s (handle_config_ready registry cs s).1
  creates :
      (c : GoogleSheetConfig) (s : Scheduler) → Event registry s (handle_config_create registry c s)
  deletes :
      (id sheet : ℕ) (s : Scheduler) → Event registry s (handle_config_change registry id sheet s)
  updates :
      (c : Option GoogleSheetConfig) (s : Scheduler)
      → Event registry s (handle_config_update registry c s)
  shuts_down : (s : Scheduler) → Event registry s (on_application_shutdown registry s)

-- Any events, one after another.
pub data Events (registry : SchedulerRegistry) (s : Scheduler) : Scheduler → Type 0 where
  here : Events registry s s
  next : {t u : Scheduler} → Events registry s t → Event registry t u → Events registry s u

module _ (registry : SchedulerRegistry) where
  -- Timers come and go without a change of the cycles.
  pub delete_interval-core :
      (sheet : ℕ) (s : Scheduler) → core (delete_interval registry sheet s).1 ≡ core s
  unfolding delete_interval
  delete_interval-core sheet s = go (registry.delete_interval sheet s.registry)
    where
      go : (o : Option (ℕ × List (ℕ × ℕ))) → core (deleted s o).1 ≡ core s
      go none = refl
      go (some x) = refl

  pub start_interval-core :
      (sheet : ℕ) (delay : Option ℕ) (s : Scheduler)
      → core (start_interval registry sheet delay s).1 ≡ core s
  unfolding start_interval
  start_interval-core sheet delay s = go (registry.add_interval sheet s.next_timer s.registry)
    where
      go : (o : Option (List (ℕ × ℕ))) → core (added (set_interval sheet delay s) o).1 ≡ core s
      go none = refl
      go (some x) = refl

  pub drop_interval-core :
      (sheet : ℕ) (s : Scheduler) → core (drop_interval registry sheet s).1 ≡ core s
  unfolding drop_interval
  drop_interval-core sheet s = elim (Bool-cases (registry.does_exist sheet s.registry)) [
    | inl y ↦ rw y (delete_interval-core sheet s)
    | inr n ↦ rw n refl
  ]

  pub restart-core :
      (c : GoogleSheetConfig) (s : Scheduler) → core (restart registry c s).1 ≡ core s
  restart-core c s =
      >>-keeps (λ t. core t ≡ core s) (drop_interval registry c.sheet_id)
        (start_interval registry c.sheet_id (some (interval_ms c))) s
        (drop_interval-core c.sheet_id s)
        (λ t e. start_interval-core c.sheet_id (some (interval_ms c)) t ∙ e)
