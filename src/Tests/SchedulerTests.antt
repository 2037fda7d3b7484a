-- ===== src/Tests/SchedulerTests.antt =====
-- One sheet, whose sync outlasts two ticks.
use shipment_tracking_system.Prelude.{
  ◌≤◌, ◌≡◌, refl, true, false, none, some, [], ◌∷◌, ◌↔◌, ◌==◌, get, set, is_some, In, inl,
  if◌then◌else◌,
}
use shipment_tracking_system.Scheduler.{
  SchedulerRegistry, SchedulerRegistryLaws, GoogleSheetConfig, Scheduler, Cycle, Timer, cleared,
  tick, finish, handle_config_create, handle_config_update, handle_config_change, delete_interval,
  start_interval, drop_interval, skip, new_state,
}
use shipment_tracking_system.Scheduler.Cycles.{cycles_of}
use shipment_tracking_system.Scheduler.Events.{Events, Event}
use shipment_tracking_system.Scheduler.Exclusion.{start, one_sync_per_state}
use shipment_tracking_system.Scheduler.Intervals.{HasInterval}
use shipment_tracking_system.Scheduler.Polling.{IsPolled, Undisturbed, UndisturbedRun, never_stalls}
use shipment_tracking_system.Scheduler.Stopping.{disabled_sheet_resumes, deleted_sheet_ticks}

abbrev registry : SchedulerRegistry
registry = record {
  does_exist = λ name r. is_some (get ◌==◌ name r);
  add_interval =
      λ name timer r. if is_some (get ◌==◌ name r) then none else some (set ◌==◌ name timer r);
  delete_interval = λ name r. cleared name r (get ◌==◌ name r);
}

laws : SchedulerRegistryLaws registry
laws = record {
  does_exist_lem = λ name r. refl;
  add_interval_lem = λ name timer r. refl;
  delete_interval_lem = λ name r. refl;
}

abbrev config : GoogleSheetConfig
config = record { id = 1; sheet_id = 7; label = "CGK"; enabled = true; sync_interval = 0 }

abbrev created : Scheduler
created = handle_config_create registry config start

abbrev syncing : Scheduler
syncing = tick registry 7 created

abbrev paused : Scheduler
paused = tick registry 7 (tick registry 7 syncing)

abbrev cycle : Cycle
cycle = record { sheet_id = 7; state = 0 }

until_created : Events registry start created
until_created = Events.next Events.here (Event.creates config start)

until_paused : Events registry start paused
until_paused =
    Events.next
      (Events.next (Events.next until_created (Event.ticks 7 created)) (Event.ticks 7 syncing))
      (Event.ticks 7 (tick registry 7 syncing))

has_state : get ◌==◌ 7 created.states ≡ some 0
unfolding handle_config_create new_state drop_interval start_interval
has_state = refl

has_interval : HasInterval 7 created
unfolding handle_config_create new_state drop_interval start_interval
has_interval = refl

every_15_seconds : created.timers ≡ record { id = 0; sheet_id = 7; delay = some 15000 } ∷ []
unfolding handle_config_create new_state drop_interval start_interval
every_15_seconds = refl

paused_state : get ◌==◌ 7 paused.states ≡ some 0
unfolding handle_config_create new_state drop_interval start_interval tick skip delete_interval
paused_state = refl

is_paused : ((paused.objects 0).is_paused ≡ true) × (paused.timers ≡ [])
unfolding handle_config_create new_state drop_interval start_interval tick skip delete_interval
is_paused = (refl, refl)

is_running : In cycle paused.running
unfolding handle_config_create new_state drop_interval start_interval tick skip delete_interval
is_running = inl refl

has_link : get ◌==◌ 1 paused.config_id_to_sheet_id ≡ some 7
unfolding handle_config_create new_state drop_interval start_interval tick skip delete_interval
has_link = refl

one_sync_per_state_example :
    (cycles_of 0 paused.running ≤ 1)
    × (((paused.objects 0).is_syncing ≡ true)
        ↔ ((c : Cycle) × In c paused.running × (c.state ≡ 0) × (c.sheet_id ≡ 7)))
    × ((paused.objects 0).is_paused ≡ true → (paused.objects 0).is_syncing ≡ true)
one_sync_per_state_example = one_sync_per_state registry paused 7 0 until_paused paused_state

quietly : UndisturbedRun registry 7 created paused
quietly =
    UndisturbedRun.next
      (UndisturbedRun.next (UndisturbedRun.next UndisturbedRun.here (Undisturbed.ticks 7 created))
        (Undisturbed.ticks 7 syncing))
      (Undisturbed.ticks 7 (tick registry 7 syncing))

never_stalls_example : IsPolled registry 7 paused
never_stalls_example =
    never_stalls registry laws 7 0 created paused until_created has_state has_interval quietly

abbrev disabled : GoogleSheetConfig
disabled = record config { enabled = false }

disabled_sheet_resumes_example :
    HasInterval 7 (finish registry cycle (handle_config_update registry (some disabled) paused))
disabled_sheet_resumes_example =
    disabled_sheet_resumes registry laws paused disabled cycle until_paused is_running paused_state
      is_paused.0 has_link refl

deleted_sheet_ticks_example :
    let t = finish registry cycle (handle_config_change registry 1 7 paused) in
    HasInterval 7 t
    × ((timer : Timer) × In timer t.timers × (timer.sheet_id ≡ 7) × (timer.delay ≡ none))
    × (tick registry 7 t ≡ t)
deleted_sheet_ticks_example =
    deleted_sheet_ticks registry laws paused 1 7 cycle until_paused is_running paused_state
      is_paused.0
