-- ===== src/Scenarios/Locking.antt =====
-- Optimistic locking of scenarios (apps/backend/src/modules/route-simulation/
-- route-simulation-scenarios.service.ts): a revision is saved over once.
use shipment_tracking_system.Prelude.{
  ℕ, ◌≡◌, ◌≢◌, ◌∙◌, ap, arith, Bool-cases, ◌==◌, ok, err, inl, inr, IsUnique, if◌then◌else◌,
}
use shipment_tracking_system.Prelude.Orm.{Orm, OrmLaws}
use shipment_tracking_system.Scenarios.{
  Store, Detail, UpdateScenarioDto, patched, is_current, update_write, find_one, stale_conflict,
  new_name,
}
use shipment_tracking_system.Scenarios.Revisions.{
  IsPast, Writes, update_rows-none, past_not_current, update_write-IsPast, Writes-IsPast,
}

-- An update of a revision that no row has any more writes nothing. It is refused as stale if the
-- database's answer to no row is an empty array, and reads the scenario back otherwise.
stale_update :
    (orm : Orm) (answer : ℕ → ℕ) (id : ℕ) (dto : UpdateScenarioDto) (user now : ℕ) (s : Store)
    → IsPast id dto.revision s
    → update_write orm answer id dto user now s
      ≡ (if answer 0 == 0 then err stale_conflict else (find_one id s).0, s)
unfolding update_write find_one
stale_update orm answer id dto user now s past =
    let (same, none_left) =
      update_rows-none (is_current id dto.revision) (patched dto (new_name dto) user now)
        s.scenarios (past_not_current id dto.revision s.scenarios past) in
    elim (Bool-cases (answer 0 == 0)) [
      | inl empty ↦ ground (arith, same, none_left, empty)
      | inr other ↦ ground (arith, same, none_left, other)
    ]

-- A save that was written is not lost, whatever the database driver answers: after an update from a
-- revision that changed the scenarios, and any statements of other requests, a second update from the
-- same revision changes nothing. Ids are unique. What the second update answers is not stated.
pub no_lost_update :
    (orm : Orm) (laws : OrmLaws orm) (answer : ℕ → ℕ) (id : ℕ) (mine theirs : UpdateScenarioDto)
    (user user' now now' : ℕ) (s t : Store)
    → IsUnique (λ r. r.id) s.scenarios
    → theirs.revision ≡ mine.revision
    → (update_write orm answer id mine user now s).1.scenarios ≢ s.scenarios
    → Writes orm answer id (update_write orm answer id mine user now s).1 t
    → (update_write orm answer id theirs user' now' t).1 ≡ t
no_lost_update orm laws answer id mine theirs user user' now now' s t ids same wrote ws =
    let past =
      Writes-IsPast orm laws answer id mine.revision
        (update_write-IsPast orm laws answer id mine user now s ids wrote) ws in
    ap (λ r. r.1) (stale_update orm answer id theirs user' now' t (rw same past))

-- If the driver answers a pair, the rows and their number, as TypeORM documents for an UPDATE and as
-- other services of the repository read it, an update from a revision that is past is not refused:
-- it answers the stored scenario as if it had saved, and writes nothing.
pub stale_update_answers_ok :
    (orm : Orm) (answer : ℕ → ℕ) (id : ℕ) (dto : UpdateScenarioDto) (user now : ℕ) (s : Store)
    (d : Detail)
    → ((n : ℕ) → answer n ≡ 2)
    → IsPast id dto.revision s
    → (find_one id s).0 ≡ ok d
    → update_write orm answer id dto user now s ≡ (ok d, s)
stale_update_answers_ok orm answer id dto user now s d pair past found =
    stale_update orm answer id dto user now s past ∙ rw (pair 0) (ap (λ r. (r, s)) found)
