-- ===== src/Scheduler/Polling.antt =====
-- A polled sheet of scheduler.service.ts, while its config stays enabled.
use shipment_tracking_system.Prelude.{
  ℕ, ◌≤◌, true, false, some, ◌≡◌, ◌≢◌, ◌⊎◌, inl, inr, sym, ◌∙◌, ap, ◌==◌, get, In, All-In, arith,
}
use shipment_tracking_system.Scheduler.State.{
  SchedulerRegistry, SchedulerRegistryLaws, GoogleSheetConfig, Scheduler, Cycle,
}
use shipment_tracking_system.Scheduler.Service.{
  tick, finish, handle_config_create, handle_config_change, handle_config_update,
}
use shipment_tracking_system.Scheduler.Cycles.{IsSound, IsOwned, core, cycles_of-In, cycles_of}
use shipment_tracking_system.Scheduler.Events.{Event, Events}
use shipment_tracking_system.Scheduler.Handlers.{Events-IsSound, Event-IsSound}
use shipment_tracking_system.Scheduler.Exclusion.{start, start-IsSound}
use shipment_tracking_system.Scheduler.Intervals.{
  HasInterval, IsCovered, start-registers, tick-IsCovered,
}
use shipment_tracking_system.Scheduler.Ticking.{
  finish-IsCovered, create-IsCovered, change-IsCovered,
}
use shipment_tracking_system.Scheduler.Updating.{update-IsCovered}

-- Events in which no config of the sheet is deleted or disabled, and none that is linked with it gets
-- another sheet.
pub data Undisturbed (registry : SchedulerRegistry) (n : ℕ) : Scheduler → Scheduler → Type 0 where
  ticks : (y : ℕ) (s : Scheduler) → Undisturbed registry n s (tick registry y s)
  settles :
      (c : Cycle) (s : Scheduler) → In c s.running → Undisturbed registry n s (finish registry c s)
  creates :
      (c : GoogleSheetConfig) (s : Scheduler)
      → Undisturbed registry n s (handle_config_create registry c s)
  deletes :
      (id y : ℕ) (s : Scheduler)
      → n ≢ y
      → Undisturbed registry n s (handle_config_change registry id y s)
  updates :
      (c : GoogleSheetConfig) (s : Scheduler)
      → (c.enabled ≡ false → n ≢ c.sheet_id)
      → (get ◌==◌ c.id s.config_id_to_sheet_id ≡ some n → c.sheet_id ≡ n)
      → Undisturbed registry n s (handle_config_update registry (some c) s)

pub data UndisturbedRun (registry : SchedulerRegistry) (n : ℕ) (s : Scheduler)
    : Scheduler → Type 0 where
  here : UndisturbedRun registry n s s
  next :
      {t u : Scheduler}
      → UndisturbedRun registry n s t
      → Undisturbed registry n t u
      → UndisturbedRun registry n s u

-- The sheet has an interval, or one of its syncs runs whose end starts it again.
abbrev pub IsPolled : SchedulerRegistry → ℕ → Scheduler → Type 0
IsPolled registry n t =
    HasInterval n t
    ⊎ ((c : Cycle) × In c t.running × (c.sheet_id ≡ n) × HasInterval n (finish registry c t))

module _ (registry : SchedulerRegistry) (laws : SchedulerRegistryLaws registry) where
  -- The end of a paused sync starts the interval again, whatever has happened to the config.
  pub finish-registers :
      (n : ℕ) (c : Cycle) (s : Scheduler)
      → c.sheet_id ≡ n
      → (s.objects c.state).is_paused ≡ true
      → HasInterval n (finish registry c s)
  unfolding finish
  finish-registers n c s e p = rw p (rw e (start-registers registry laws n _ _))

  Undisturbed-IsCovered :
      (n : ℕ) {s t : Scheduler}
      → IsSound (core s) × IsCovered n s
      → Undisturbed registry n s t
      → IsSound (core t) × IsCovered n t
  Undisturbed-IsCovered n (h, k) (ticks y s) =
      (Event-IsSound registry h (Event.ticks y s), tick-IsCovered registry laws n y s k)
  Undisturbed-IsCovered n (h, k) (settles c s m) =
      (Event-IsSound registry h (Event.settles c s m), finish-IsCovered registry laws n c s m h k)
  Undisturbed-IsCovered n (h, k) (creates c s) =
      (Event-IsSound registry h (Event.creates c s), create-IsCovered registry laws n c s h k)
  Undisturbed-IsCovered n (h, k) (deletes id y s ne) = (
    Event-IsSound registry h (Event.deletes id y s),
    change-IsCovered registry laws n id y s ne k,
  )
  Undisturbed-IsCovered n (h, k) (updates c s on linked) = (
    Event-IsSound registry h (Event.updates (some c) s),
    update-IsCovered registry laws n c s on linked h k,
  )

  UndisturbedRun-IsCovered :
      (n : ℕ) {s t : Scheduler}
      → IsSound (core s) × IsCovered n s
      → UndisturbedRun registry n s t
      → IsSound (core t) × IsCovered n t
  UndisturbedRun-IsCovered n h here = h
  UndisturbedRun-IsCovered n h (next es e) =
      Undisturbed-IsCovered n (UndisturbedRun-IsCovered n h es) e

  covered-IsPolled :
      (n : ℕ) (t : Scheduler) → IsSound (core t) → IsCovered n t → IsPolled registry n t
  covered-IsPolled n t h (a, e, inl i) = inl i
  covered-IsPolled n t h (a, e, inr p) =
      let one : 1 ≤ cycles_of a t.running = let y = h.paused a p in ground (arith, h.exact a, y) in
      let (c, m, q) = cycles_of-In a t.running one in
      let own = All-In (IsOwned (core t)) c t.running h.owned m in
      let mine : n ≡ c.sheet_id = own.1 n (e ∙ ap some (sym q)) in
      let paused : (t.objects c.state).is_paused ≡ true = rw q p in
      inr (c, m, sym mine, finish-registers n c t (sym mine) paused)

-- A polled sheet is never forgotten: if at some time since the start of the service it has a state
-- object and an interval, then after any ticks, ends of syncs and changes of configs that neither
-- disable nor delete its config nor link that with another sheet, it has an interval, or a sync of
-- it runs whose end starts the interval again.
pub never_stalls :
    (registry : SchedulerRegistry) (laws : SchedulerRegistryLaws registry) (n a : ℕ)
    (s t : Scheduler)
    → Events registry start s
    → get ◌==◌ n s.states ≡ some a
    → HasInterval n s
    → UndisturbedRun registry n s t
    → IsPolled registry n t
never_stalls registry laws n a s t es e i run =
    let (h, k) =
      UndisturbedRun-IsCovered registry laws n
        (Events-IsSound registry start-IsSound es, (a, e, inl i)) run in
    covered-IsPolled registry laws n t h k
