-- ===== src/Scheduler/Stopping.antt =====
-- A sheet of scheduler.service.ts whose config is disabled or deleted during a pause.
use shipment_tracking_system.Prelude.{
  ℕ, true, false, Option, none, some, List, ◌≡◌, inl, refl, sym, ◌∙◌, ap, ◌==◌, ==_iff, ==_refl,
  get, get-remove_same, In, All-In,
}
use shipment_tracking_system.Scheduler.State.{
  SchedulerRegistry, SchedulerRegistryLaws, GoogleSheetConfig, Scheduler, Cycle, Timer, idle, put,
  settled,
}
use shipment_tracking_system.Scheduler.Service.{
  start_interval, drop_interval, tick, finish, handle_config_change, handle_config_update, unlink,
  relink, added, set_interval,
}
use shipment_tracking_system.Scheduler.Cycles.{IsOwned, core}
use shipment_tracking_system.Scheduler.Events.{Events, delete_interval-core, drop_interval-core}
use shipment_tracking_system.Scheduler.Handlers.{Events-IsSound}
use shipment_tracking_system.Scheduler.Exclusion.{start, start-IsSound}
use shipment_tracking_system.Scheduler.Intervals.{HasInterval}
use shipment_tracking_system.Scheduler.Polling.{finish-registers}

module _ (registry : SchedulerRegistry) (laws : SchedulerRegistryLaws registry) where
  -- The cycle that holds the state object of a sheet is a sync of the sheet.
  cycle_of_sheet :
      (c : Cycle) (s : Scheduler) (n : ℕ)
      → Events registry start s
      → In c s.running
      → get ◌==◌ n s.states ≡ some c.state
      → c.sheet_id ≡ n
  cycle_of_sheet c s n es m e =
      let h = Events-IsSound registry start-IsSound es in
      let own = All-In (IsOwned (core s)) c s.running h.owned m in sym (own.1 n e)

  unlink-same : (n : ℕ) (s : Scheduler) → unlink registry (some n) n s ≡ s
  unfolding unlink
  unlink-same n s = rw (==_refl n) refl

  disabled_paused :
      (c : GoogleSheetConfig) (s : Scheduler) (a : ℕ)
      → c.enabled ≡ false
      → get ◌==◌ c.id s.config_id_to_sheet_id ≡ some c.sheet_id
      → ((handle_config_update registry (some c) s).objects a).is_paused ≡ (s.objects a).is_paused
  unfolding handle_config_update
  disabled_paused c s a off linked = rw off (
      ap (λ k. (k.objects a).is_paused)
        (delete_interval-core registry c.sheet_id (relink registry c s))
      ∙ rw linked (ap (λ t. (t.objects a).is_paused) (unlink-same c.sheet_id s)))

  deleted_paused :
      (id n : ℕ) (s : Scheduler) (a : ℕ)
      → ((handle_config_change registry id n s).objects a).is_paused ≡ (s.objects a).is_paused
  unfolding handle_config_change
  deleted_paused id n s a = ap (λ k. (k.objects a).is_paused) (drop_interval-core registry n s)

  deleted_unknown :
      (id n : ℕ) (s : Scheduler)
      → (get ◌==◌ n (handle_config_change registry id n s).intervals ≡ none)
        × (get ◌==◌ n (handle_config_change registry id n s).states ≡ none)
  unfolding handle_config_change
  deleted_unknown id n s = (
    get-remove_same ◌==◌ ==_iff n (drop_interval registry n s).1.intervals,
    get-remove_same ◌==◌ ==_iff n (drop_interval registry n s).1.states,
  )

  -- The timer that the end of a paused sync sets.
  finish-timer :
      (c : Cycle) (s : Scheduler)
      → (s.objects c.state).is_paused ≡ true
      → get ◌==◌ c.sheet_id s.intervals ≡ none
      → ((finish registry c s).states ≡ s.states)
        × ((t : Timer) × In t (finish registry c s).timers
            × (t.sheet_id ≡ c.sheet_id)
            × (t.delay ≡ none))
  unfolding finish start_interval
  finish-timer c s p e = rw p (rw e (go (registry.add_interval c.sheet_id s.next_timer s.registry)))
    where
      set : Timer
      set = record { id = s.next_timer; sheet_id = c.sheet_id; delay = none }

      rested : Scheduler
      rested = record s {
        objects = put c.state idle s.objects;
        running = settled c.state s.running;
      }

      go :
          (o : Option (List (ℕ × ℕ)))
          → ((added (set_interval c.sheet_id none rested) o).1.states ≡ s.states)
            × ((t : Timer) × In t (added (set_interval c.sheet_id none rested) o).1.timers
                × (t.sheet_id ≡ c.sheet_id)
                × (t.delay ≡ none))
      go none = (refl, (set, inl refl, refl, refl))
      go (some r) = (refl, (set, inl refl, refl, refl))

-- A sheet whose config is disabled while it is paused is polled again: when the running sync ends, the
-- interval is started, although the config is disabled.
pub disabled_sheet_resumes :
    (registry : SchedulerRegistry) (laws : SchedulerRegistryLaws registry) (s : Scheduler)
    (c : GoogleSheetConfig) (k : Cycle)
    → Events registry start s
    → In k s.running
    → get ◌==◌ c.sheet_id s.states ≡ some k.state
    → (s.objects k.state).is_paused ≡ true
    → get ◌==◌ c.id s.config_id_to_sheet_id ≡ some c.sheet_id
    → c.enabled ≡ false
    → HasInterval c.sheet_id (finish registry k (handle_config_update registry (some c) s))
disabled_sheet_resumes registry laws s c k es m e p linked off =
    finish-registers registry laws c.sheet_id k (handle_config_update registry (some c) s)
      (cycle_of_sheet registry laws k s c.sheet_id es m e)
      (disabled_paused registry laws c s k.state off linked ∙ p)

-- A sheet whose config is deleted while it is paused gets a timer again: right after the running sync
-- ends, a timer without a delay is set and registered for a sheet that has no state any more, and a tick
-- of it then changes nothing.
pub deleted_sheet_ticks :
    (registry : SchedulerRegistry) (laws : SchedulerRegistryLaws registry) (s : Scheduler)
    (id n : ℕ) (k : Cycle)
    → Events registry start s
    → In k s.running
    → get ◌==◌ n s.states ≡ some k.state
    → (s.objects k.state).is_paused ≡ true
    → let t = finish registry k (handle_config_change registry id n s) in
      HasInterval n t
      × ((timer : Timer) × In timer t.timers × (timer.sheet_id ≡ n) × (timer.delay ≡ none))
      × (tick registry n t ≡ t)
unfolding tick
deleted_sheet_ticks registry laws s id n k es m e p =
    let is = cycle_of_sheet registry laws k s n es m e in
    let s' = handle_config_change registry id n s in
    let paused = deleted_paused registry laws id n s k.state ∙ p in
    let unknown = deleted_unknown registry laws id n s in
    let none_left : get ◌==◌ k.sheet_id s'.intervals ≡ none = rw is unknown.0 in
    let (same, (timer, i, q, d)) = finish-timer registry laws k s' paused none_left in
    let gone : get ◌==◌ n (finish registry k s').states ≡ none = ap (get ◌==◌ n) same ∙ unknown.1 in
    (finish-registers registry laws n k s' is paused, (timer, i, q ∙ is, d), rw gone refl)
