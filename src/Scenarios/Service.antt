-- ===== src/Scenarios/Service.antt =====
-- `RouteSimulationScenariosService`: named scenarios with a revision. A payload is its JSON text. The
-- name has a unique index, which the database checks at each write.
use shipment_tracking_system.Prelude.{
  ℕ, ◌+◌, ◌*◌, String, Bool, not, ◌&&◌, Option, none, some, List, [], ◌∷◌, any, length, filter,
  ◌==◌, str_eq, ltb, trim, byte_length, blank_to_null, is_truthy, is_given, get_or, if◌then◌else◌,
  update_rows, HttpError, not_found, conflict, payload_too_large, Action, Void, Result, ok, err,
  pure, gets, modify, or_throw, throw_if, ◌>>=◌, ◌>>◌,
}
use shipment_tracking_system.Prelude.Orm.{Orm}

pub record Scenario : Type 0 where
  pub id : ℕ
  pub name : String
  pub description : Option String
  pub payload : String
  pub revision : ℕ
  pub updated_at : ℕ
  pub updated_by : Option ℕ

-- The scenarios, and the usernames of the users by id.
pub record Store : Type 0 where
  pub scenarios : List Scenario
  pub usernames : List (ℕ × String)

-- `ScenarioSummary`; the detail adds the payload.
pub record Summary : Type 0 where
  pub id : ℕ
  pub name : String
  pub description : Option String
  pub revision : ℕ
  pub updated_at : ℕ
  pub updated_by : Option String

pub record Detail : Type 0 where
  pub summary : Summary
  pub payload : String

pub record CreateScenarioDto : Type 0 where
  pub name : String
  pub description : Option String
  pub payload : String

-- A description that is absent leaves the column, one that is null clears it.
pub record UpdateScenarioDto : Type 0 where
  pub revision : ℕ
  pub name : Option String
  pub description : Option (Option String)
  pub payload : Option String

abbrev pub max_payload_bytes : ℕ
max_payload_bytes = 90 * 1024

abbrev username_of : List (ℕ × String) → ℕ → Option String
username_of [] id = none
username_of ((k, name) ∷ us) id = if k == id then some name else username_of us id

-- `toSummary`, with the left join to users.
unfoldable pub to_summary : Store → Scenario → Summary
to_summary s r = record {
  id = r.id;
  name = r.name;
  description = r.description;
  revision = r.revision;
  updated_at = r.updated_at;
  updated_by = elim r.updated_by [ none ↦ none | some u ↦ username_of s.usernames u ];
}

-- `assertPayloadSize`
abbrev pub assert_payload_size : String → Action Store Void
assert_payload_size payload =
    throw_if (ltb max_payload_bytes (byte_length payload))
      (payload_too_large "Scenario payload exceeds 90 KB")

-- `throwIfNameUniqueViolation`: the name is taken by another row, so the unique index refuses the write.
abbrev pub name_conflict : HttpError
name_conflict = conflict "A scenario with this name already exists"

abbrev pub stale_conflict : HttpError
stale_conflict =
    conflict "This scenario was saved by someone else after you opened it. Reload it before saving."

-- Another row than `id` has the name.
abbrev pub is_name_taken : String → Option ℕ → List Scenario → Bool
is_name_taken name none rows = any (λ r. str_eq r.name name) rows
is_name_taken name (some id) rows = any (λ r. str_eq r.name name && not (r.id == id)) rows

-- The columns that `update` sets on the row of its WHERE clause.
unfoldable pub patched : UpdateScenarioDto → Option String → ℕ → ℕ → Scenario → Scenario
patched dto name user now r = record r {
  revision = r.revision + 1;
  updated_at = now;
  updated_by = some user;
  name = if is_given name then get_or name r.name else r.name;
  description = elim dto.description [ none ↦ r.description | some d ↦ blank_to_null d ];
  payload = get_or dto.payload r.payload;
}

-- `dto.name?.trim()`
abbrev pub new_name : UpdateScenarioDto → Option String
new_name dto = elim dto.name [ none ↦ none | some n ↦ some (trim n) ]

-- The row of `UPDATE … WHERE id = $1 AND revision = $2`.
abbrev pub is_current : ℕ → ℕ → Scenario → Bool
is_current id revision r = r.id == id && r.revision == revision

-- The row of `create`.
abbrev pub created : CreateScenarioDto → ℕ → ℕ → ℕ → Scenario
created dto user_id new_id now = record {
  id = new_id;
  name = trim dto.name;
  description = blank_to_null dto.description;
  payload = dto.payload;
  revision = 1;
  updated_at = now;
  updated_by = some user_id;
}

-- `rows[0]`
abbrev pub first_or_throw : Store → List Scenario → Result Detail
first_or_throw s [] = err (not_found "Scenario not found")
first_or_throw s (r ∷ rs) = ok (record { summary = to_summary s r; payload = r.payload })

unfoldable pub find_one : ℕ → Action Store Detail
find_one id s = (first_or_throw s (filter (λ r. r.id == id) s.scenarios), s)

-- `answer_length n` is the length of the array that `dataSource.query` answers to an
-- `UPDATE … RETURNING` that returned `n` rows.
module _ (orm : Orm) (answer_length : ℕ → ℕ) where
  -- `assertNameFree`
  unfoldable pub assert_name_free : String → Option ℕ → Action Store Void
  assert_name_free name except s = (
    elim (orm.find_one Scenario (λ r. str_eq r.name name) s.scenarios) [
      | none ↦ ok tt
      | some clash ↦ elim except [
        | none ↦ err name_conflict
        | some id ↦ if clash.id == id then ok tt else err name_conflict
      ]
    ],
    s,
  )

  -- The checks of `create`, and its write; other requests may run between them.
  unfoldable pub create_check : CreateScenarioDto → Action Store Void
  unfolding assert_name_free
  create_check dto = do assert_payload_size dto.payload; assert_name_free (trim dto.name) none

  unfoldable pub create_write : CreateScenarioDto → ℕ → (new_id now : ℕ) → Action Store Detail
  unfolding find_one
  create_write dto user_id new_id now = do
    let name = trim dto.name
    taken ← gets (λ s. is_name_taken name none s.scenarios)
    throw_if taken name_conflict
    modify (λ s. record s {
      scenarios = orm.insert Scenario (created dto user_id new_id now) s.scenarios;
    })
    find_one new_id

  unfoldable pub create : CreateScenarioDto → ℕ → (new_id now : ℕ) → Action Store Detail
  unfolding create_check create_write
  create dto user_id new_id now = do create_check dto; create_write dto user_id new_id now

  -- What `update` checks before its one UPDATE statement.
  unfoldable pub update_check : ℕ → UpdateScenarioDto → Action Store Scenario
  unfolding assert_name_free
  update_check id dto = do
    found ← gets (λ s. orm.find_one Scenario (λ r. r.id == id) s.scenarios)
    existing ← or_throw found (not_found "Scenario not found")
    elim dto.payload [ none ↦ pure tt | some payload ↦ assert_payload_size payload ]
    elim (new_name dto) [
      | none ↦ pure tt
      | some name ↦
          if is_truthy name && not (str_eq name existing.name)
          then assert_name_free name (some id)
          else pure tt
    ]
    pure existing

  -- The UPDATE statement and what follows it. The unique index refuses a name of another row.
  unfoldable pub update_write : ℕ → UpdateScenarioDto → ℕ → ℕ → Action Store Detail
  unfolding find_one patched
  update_write id dto user_id now = do
    hits ← gets (λ s. length (filter (is_current id dto.revision) s.scenarios))
    taken ← gets (λ s. is_name_taken (get_or (new_name dto) "") (some id) s.scenarios)
    throw_if (ltb 0 hits && is_given (new_name dto) && taken) name_conflict
    modify (λ s. record s {
      scenarios =
          update_rows (is_current id dto.revision) (patched dto (new_name dto) user_id now)
            s.scenarios;
    })
    throw_if (answer_length hits == 0) stale_conflict
    find_one id

  unfoldable pub update : ℕ → UpdateScenarioDto → ℕ → ℕ → Action Store Detail
  unfolding update_check update_write
  update id dto user_id now = do update_check id dto; update_write id dto user_id now

  unfoldable pub remove : ℕ → Action Store Void
  remove id = do
    affected ← gets (λ s. orm.count Scenario (λ r. r.id == id) s.scenarios)
    modify (λ s. record s { scenarios = orm.delete Scenario (λ r. r.id == id) s.scenarios })
    throw_if (affected == 0) (not_found "Scenario not found")
