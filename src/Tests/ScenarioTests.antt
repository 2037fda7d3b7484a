-- ===== src/Tests/ScenarioTests.antt =====
-- Two saves of one scenario from the same revision.
use shipment_tracking_system.Prelude.{ℕ, List, ap, ◌≡◌, refl, none, some, [], ◌∷◌, ok, arith, trim}
use shipment_tracking_system.Scenarios.{
  Scenario, Store, Detail, UpdateScenarioDto, update_write, find_one, to_summary, patched,
}
use shipment_tracking_system.Scenarios.Revisions.{here}
use shipment_tracking_system.Scenarios.Locking.{no_lost_update, stale_update_answers_ok}
use shipment_tracking_system.Tests.World.{list_orm, list_orm_laws}

abbrev plan : Scenario
plan = record {
  id = 1;
  name = "plan";
  description = none;
  payload = "{}";
  revision = 1;
  updated_at = 10;
  updated_by = none;
}

abbrev store : Store
store = record { scenarios = plan ∷ []; usernames = (9, "ann") ∷ [] }

-- A save that renames the scenario.
abbrev renaming : UpdateScenarioDto
renaming = record { revision = 1; name = some "route"; description = none; payload = none }

-- A save of the description from the same revision.
abbrev late : UpdateScenarioDto
late = record { revision = 1; name = none; description = some (some " x "); payload = none }

abbrev saved : Scenario
saved = record plan { name = "route"; revision = 2; updated_at = 20; updated_by = some 9 }

abbrev saved_detail : Detail
saved_detail = record {
  summary = record {
    id = 1;
    name = "route";
    description = none;
    revision = 2;
    updated_at = 20;
    updated_by = some "ann";
  };
  payload = "{}";
}

abbrev after : Store
after = (update_write list_orm (λ _. 2) 1 renaming 9 20 store).1

abbrev first_revision : List Scenario → ℕ
first_revision [] = 0
first_revision (r ∷ rows) = r.revision

saves : (update_write list_orm (λ _. 2) 1 renaming 9 20 store).0 ≡ ok saved_detail
unfolding update_write patched find_one to_summary trim
saves = refl

no_lost_update_example : (update_write list_orm (λ _. 2) 1 late 8 30 after).1 ≡ after
unfolding update_write patched trim
no_lost_update_example =
    no_lost_update list_orm list_orm_laws (λ _. 2) 1 renaming late 9 8 20 30 store after (tt, tt)
      refl (λ e. absurd (omega (arith, ap (first_revision) e))) here

stale_update_answers_ok_example :
    update_write list_orm (λ _. 2) 1 late 8 30 (record store { scenarios = saved ∷ [] })
    ≡ (ok saved_detail, record store { scenarios = saved ∷ [] })
unfolding find_one to_summary trim
stale_update_answers_ok_example =
    stale_update_answers_ok list_orm (λ _. 2) 1 late 8 30 (record store { scenarios = saved ∷ [] })
      saved_detail (λ _. refl) ((λ _. omega arith), tt) refl
