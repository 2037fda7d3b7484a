-- ===== src/Scheduler/State.antt =====
-- `scheduler.service.ts`: what the service keeps: its maps, its state objects, the timers, and the
-- cycles that run.
use shipment_tracking_system.Prelude.{
  ℕ, ◌+◌, ◌*◌, String, Bool, false, Option, none, some, List, [], ◌∷◌, ◌≡◌, ◌==◌, if◌then◌else◌,
  is_some, get, set, remove,
}

-- What the service uses of @nestjs/schedule: a registry of named timers. A name is
-- `air_shipments_sync:` before the id of a sheet, so the id stands for it. `none` is an exception;
-- `delete_interval` answers the timer that it clears.
pub record SchedulerRegistry : Type 0 where
  pub does_exist : ℕ → List (ℕ × ℕ) → Bool
  pub add_interval : ℕ → ℕ → List (ℕ × ℕ) → Option (List (ℕ × ℕ))
  pub delete_interval : ℕ → List (ℕ × ℕ) → Option (ℕ × List (ℕ × ℕ))

-- The answer for the timer that has the name, if one has.
abbrev pub cleared : ℕ → List (ℕ × ℕ) → Option ℕ → Option (ℕ × List (ℕ × ℕ))
cleared name r none = none
cleared name r (some timer) = some (timer, remove ◌==◌ name r)

-- Its documentation: names are unique, and a name must be there to be deleted.
pub record SchedulerRegistryLaws (registry : SchedulerRegistry) : Type 0 where
  pub does_exist_lem :
      (name : ℕ) (r : List (ℕ × ℕ)) → registry.does_exist name r ≡ is_some (get ◌==◌ name r)
  pub add_interval_lem :
      (name timer : ℕ) (r : List (ℕ × ℕ))
      → registry.add_interval name timer r
        ≡ (if is_some (get ◌==◌ name r) then none else some (set ◌==◌ name timer r))
  pub delete_interval_lem :
      (name : ℕ) (r : List (ℕ × ℕ))
      → registry.delete_interval name r ≡ cleared name r (get ◌==◌ name r)

pub record SyncState : Type 0 where
  pub is_syncing : Bool
  pub consecutive_skips : ℕ
  pub is_paused : Bool

-- A timer of Node: the sheet its callback ticks, and its delay, where `none` is undefined.
pub record Timer : Type 0 where
  pub id : ℕ
  pub sheet_id : ℕ
  pub delay : Option ℕ

-- A call of `tick` that awaits its sync: the sheet, and the state object it has got.
pub record Cycle : Type 0 where
  pub sheet_id : ℕ
  pub state : ℕ

-- The columns of `google_sheet_config` that the service reads.
pub record GoogleSheetConfig : Type 0 where
  pub id : ℕ
  pub sheet_id : ℕ
  pub label : String
  pub enabled : Bool
  pub sync_interval : ℕ

-- The maps of the service, its state objects, the registry, the live timers, the running cycles.
pub record Scheduler : Type 0 where
  pub intervals : List (ℕ × ℕ)
  pub labels : List (ℕ × String)
  pub states : List (ℕ × ℕ)
  pub config_id_to_sheet_id : List (ℕ × ℕ)
  pub objects : ℕ → SyncState
  pub next_object : ℕ
  pub registry : List (ℕ × ℕ)
  pub timers : List Timer
  pub next_timer : ℕ
  pub running : List Cycle

abbrev pub idle : SyncState
idle = record { is_syncing = false; consecutive_skips = 0; is_paused = false }

abbrev pub put : ℕ → SyncState → (ℕ → SyncState) → ℕ → SyncState
put a v objects b = if b == a then v else objects b

-- `(config.syncInterval || 15) * 1000`
abbrev pub interval_ms : GoogleSheetConfig → ℕ
interval_ms c = (if c.sync_interval == 0 then 15 else c.sync_interval) * 1000

-- `this.state.set(sheetId, { isSyncing: false, consecutiveSkips: 0, isPaused: false })`
unfoldable pub new_state : ℕ → Scheduler → Scheduler
new_state sheet s = record s {
  states = set ◌==◌ sheet s.next_object s.states;
  objects = put s.next_object idle s.objects;
  next_object = s.next_object + 1;
}

-- The cycle is no longer running.
abbrev pub settled : ℕ → List Cycle → List Cycle
settled a [] = []
settled a (c ∷ cs) = if c.state == a then cs else c ∷ settled a cs

-- What `handleConfigReady` and `handleConfigCreate` write of an enabled config.
abbrev pub register : GoogleSheetConfig → Scheduler → Scheduler
register c s =
    let s' = new_state c.sheet_id s in
    record s' {
      labels = set ◌==◌ c.sheet_id c.label s.labels;
      intervals = set ◌==◌ c.sheet_id (interval_ms c) s.intervals;
      config_id_to_sheet_id = set ◌==◌ c.id c.sheet_id s.config_id_to_sheet_id;
    }

-- The state once the interval has been started: a running sync keeps its state object.
abbrev pub resumed : ℕ → Option ℕ → Scheduler → Scheduler
resumed sheet none s = new_state sheet s
resumed sheet (some a) s =
    let o = s.objects a in
    if o.is_syncing
    then record s {
      objects = put a (record o { is_paused = false; consecutive_skips = 0 }) s.objects;
    }
    else new_state sheet s
