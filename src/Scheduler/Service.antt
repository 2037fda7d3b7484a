-- ===== src/Scheduler/Service.antt =====
-- `scheduler.service.ts`: one interval timer per Google sheet, whose ticks start the sync cycles. A
-- cycle runs while other events are handled, so `tick` is two steps: what it does before
-- `await runSyncCycle(...)`, and what its `finally` block does when the cycle has settled. The state
-- objects that ticks hold across the await are cells of a heap.
use shipment_tracking_system.Prelude.{
  ℕ, ◌+◌, Result, Bool, true, false, not, ◌&&◌, Option, none, some, List, [], ◌∷◌, ◌==◌, leb,
  if◌then◌else◌, get, set, remove, filter, Action, ok, err, HttpError, Void, ◌>>◌, pure, modify,
}
use shipment_tracking_system.Scheduler.State.{
  SchedulerRegistry, Cycle, GoogleSheetConfig, Scheduler, idle, put, interval_ms, settled, register,
  resumed,
}

-- `deleteInterval`, by what the registry answers: an exception, or a timer that is cleared.
abbrev pub deleted : Scheduler → Option (ℕ × List (ℕ × ℕ)) → Result Void × Scheduler
deleted s none = (err HttpError.internal, s)
deleted s (some (timer, r)) =
    (ok tt, record s { registry = r; timers = filter (λ t. not (t.id == timer)) s.timers })

-- `addInterval`, by what the registry answers.
abbrev pub added : Scheduler → Option (List (ℕ × ℕ)) → Result Void × Scheduler
added s none = (err HttpError.internal, s)
added s (some r) = (ok tt, record s { registry = r })

-- `setInterval(() => this.tick(sheetId), delay)`
abbrev pub set_interval : ℕ → Option ℕ → Scheduler → Scheduler
set_interval sheet delay s = record s {
  timers = (record { id = s.next_timer; sheet_id = sheet; delay = delay }) ∷ s.timers;
  next_timer = s.next_timer + 1;
}

-- A tick with a state object that is not syncing: the sync starts.
abbrev pub begin : ℕ → ℕ → Scheduler → Scheduler
begin sheet a s = record s {
  objects = put a (record (s.objects a) { is_syncing = true }) s.objects;
  running = (record { sheet_id = sheet; state = a }) ∷ s.running;
}

-- In `handleConfigUpdate`: the state of a sheet whose interval has been started again.
abbrev pub resume : GoogleSheetConfig → Action Scheduler Void
resume c = modify (λ s. resumed c.sheet_id (get ◌==◌ c.sheet_id s.states) s)

module _ (registry : SchedulerRegistry) where
  unfoldable pub delete_interval : ℕ → Action Scheduler Void
  delete_interval sheet s = deleted s (registry.delete_interval sheet s.registry)

  -- `setInterval(...)`, then `addInterval(name, ref)`.
  unfoldable pub start_interval : ℕ → Option ℕ → Action Scheduler Void
  start_interval sheet delay s =
      added (set_interval sheet delay s) (registry.add_interval sheet s.next_timer s.registry)

  -- `if (doesExist(name)) deleteInterval(name)`
  unfoldable pub drop_interval : ℕ → Action Scheduler Void
  drop_interval sheet s =
      if registry.does_exist sheet s.registry then delete_interval sheet s else (ok tt, s)

  -- The part of `tick` in a sync: the skip is counted, and at the second the interval is paused.
  unfoldable pub skip : ℕ → ℕ → Scheduler → Scheduler
  skip sheet a s =
      let o = s.objects a in
      let skips = o.consecutive_skips + 1 in
      let counted = record o { consecutive_skips = skips } in
      let paused = record counted { is_paused = true } in
      if leb 2 skips && not o.is_paused
      then (delete_interval sheet (record s { objects = put a paused s.objects })).1
      else record s { objects = put a counted s.objects }

  -- `tick`, up to the await, by what the map of states answers.
  abbrev pub tick_on : ℕ → Option ℕ → Scheduler → Scheduler
  tick_on sheet none s = s
  tick_on sheet (some a) s = if (s.objects a).is_syncing then skip sheet a s else begin sheet a s

  unfoldable pub tick : ℕ → Scheduler → Scheduler
  tick sheet s = tick_on sheet (get ◌==◌ sheet s.states) s

  -- The `finally` block of `tick`.
  unfoldable pub finish : Cycle → Scheduler → Scheduler
  finish c s =
      let rested = record s {
        objects = put c.state idle s.objects;
        running = settled c.state s.running;
      } in
      if (s.objects c.state).is_paused
      then (start_interval c.sheet_id (get ◌==◌ c.sheet_id s.intervals) rested).1
      else rested

  -- `handleConfigReady`: an exception of `addInterval` leaves the rest of the configs.
  unfoldable pub handle_config_ready : List (Option GoogleSheetConfig) → Action Scheduler Void
  handle_config_ready [] = pure tt
  handle_config_ready (none ∷ cs) = handle_config_ready cs
  handle_config_ready (some c ∷ cs) =
      let rest = handle_config_ready cs in
      if not c.enabled
      then rest
      else do modify (register c); start_interval c.sheet_id (some (interval_ms c)); rest

  -- The interval of an enabled config is dropped, and started anew.
  abbrev pub restart : GoogleSheetConfig → Action Scheduler Void
  restart c = do drop_interval c.sheet_id; start_interval c.sheet_id (some (interval_ms c))

  -- `handleConfigCreate`; the exceptions of its `try` are logged.
  unfoldable pub handle_config_create : GoogleSheetConfig → Scheduler → Scheduler
  handle_config_create c s =
      if not c.enabled
      then record s { labels = set ◌==◌ c.sheet_id c.label s.labels }
      else (restart c (register c s)).1

  -- `handleConfigChange`, on the event `gsheetConfig.deleted`.
  unfoldable pub handle_config_change : ℕ → ℕ → Scheduler → Scheduler
  handle_config_change id sheet s =
      let s' = (drop_interval sheet s).1 in
      record s' {
        labels = remove ◌==◌ sheet s'.labels;
        intervals = remove ◌==◌ sheet s'.intervals;
        states = remove ◌==◌ sheet s'.states;
        config_id_to_sheet_id = remove ◌==◌ id s'.config_id_to_sheet_id;
      }

  -- In `handleConfigUpdate`: the sheet that the config had before is given up.
  unfoldable pub unlink : Option ℕ → ℕ → Scheduler → Scheduler
  unlink none sheet s = s
  unlink (some old) sheet s =
      if old == sheet
      then s
      else let s' = (drop_interval old s).1 in
        record s' {
          labels = remove ◌==◌ old s'.labels;
          intervals = remove ◌==◌ old s'.intervals;
          states = remove ◌==◌ old s'.states;
        }

  -- The body of the `try`, where an exception leaves the state as it is.
  unfoldable pub reschedule : GoogleSheetConfig → Scheduler → Scheduler
  reschedule c s = ((restart c >> resume c) s).1

  -- The config is linked with its sheet, instead of the one that it had.
  abbrev pub relink : GoogleSheetConfig → Scheduler → Scheduler
  relink c s =
      let s' = unlink (get ◌==◌ c.id s.config_id_to_sheet_id) c.sheet_id s in
      record s' {
        labels = set ◌==◌ c.sheet_id c.label s'.labels;
        config_id_to_sheet_id = set ◌==◌ c.id c.sheet_id s'.config_id_to_sheet_id;
      }

  -- A disabled config stops, an enabled one is rescheduled.
  abbrev pub toggle : Bool → GoogleSheetConfig → Scheduler → Scheduler
  toggle false c s = (delete_interval c.sheet_id s).1
  toggle true c s =
      reschedule c (record s { intervals = set ◌==◌ c.sheet_id (interval_ms c) s.intervals })

  unfoldable pub handle_config_update : Option GoogleSheetConfig → Scheduler → Scheduler
  handle_config_update none s = s
  handle_config_update (some c) s = toggle c.enabled c (relink c s)

  unfoldable pub delete_intervals : List (ℕ × ℕ) → Scheduler → Scheduler
  delete_intervals [] s = s
  delete_intervals ((sheet, ms) ∷ rest) s = delete_intervals rest (delete_interval sheet s).1

  -- `onApplicationShutdown`
  unfoldable pub on_application_shutdown : Scheduler → Scheduler
  unfolding delete_intervals
  on_application_shutdown s = delete_intervals s.intervals s
