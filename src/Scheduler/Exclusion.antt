-- ===== src/Scheduler/Exclusion.antt =====
-- The syncs of one sheet, after any events of scheduler.service.ts.
use shipment_tracking_system.Prelude.{
  ℕ, ◌↔◌, All-In, ◌≤◌, true, some, [], ◌≡◌, refl, sym, ◌∙◌, ap, ◌==◌, get, In, arith,
}
use shipment_tracking_system.Scheduler.State.{SchedulerRegistry, Scheduler, Cycle, idle}
use shipment_tracking_system.Scheduler.Cycles.{
  IsSound, IsOwned, cycles_of-In, In-cycles_of, core, cycles_of,
}
use shipment_tracking_system.Scheduler.Moves.{flag-le}
use shipment_tracking_system.Scheduler.Events.{Events}
use shipment_tracking_system.Scheduler.Handlers.{Events-IsSound}

-- The service as it is constructed.
abbrev pub start : Scheduler
start = record {
  intervals = [];
  labels = [];
  states = [];
  config_id_to_sheet_id = [];
  objects = λ _. idle;
  next_object = 0;
  registry = [];
  timers = [];
  next_timer = 0;
  running = [];
}

pub start-IsSound : IsSound (core start)
start-IsSound = record {
  below = λ x a e. absurd (cc);
  apart = λ x y a e f. absurd (cc);
  owned = tt;
  exact = λ a. refl;
  paused = λ a p. absurd (cc);
}

-- After any events since the start of the service: of a sheet with a state object, at most one sync
-- with that object runs; the object says that it is syncing if and only if one does, and that one
-- is a sync of the sheet; and it is paused only while it is syncing.
pub one_sync_per_state :
    (registry : SchedulerRegistry) (t : Scheduler) (sheet a : ℕ)
    → Events registry start t
    → get ◌==◌ sheet t.states ≡ some a
    → (cycles_of a t.running ≤ 1)
      × (((t.objects a).is_syncing ≡ true)
          ↔ ((c : Cycle) × In c t.running × (c.state ≡ a) × (c.sheet_id ≡ sheet)))
      × ((t.objects a).is_paused ≡ true → (t.objects a).is_syncing ≡ true)
one_sync_per_state registry t sheet a es e =
    let h = Events-IsSound registry start-IsSound es in
    (
      omega (arith, h.exact a, flag-le (t.objects a).is_syncing),
      (
        (λ y.
            let one : 1 ≤ cycles_of a t.running = ground (arith, h.exact a, y) in
            let (c, m, q) = cycles_of-In a t.running one in
            let own = All-In (IsOwned (core t)) c t.running h.owned m in
            (c, m, q, sym (own.1 sheet (e ∙ ap some (sym q))))),
        λ (c, m, q, _).
            let one : 1 ≤ cycles_of a t.running = rw (← q) (In-cycles_of c t.running m) in
            ground (arith, h.exact a, one),
      ),
      h.paused a,
    )
