-- ===== src/Scenarios/Revisions.antt =====
-- Revisions of scenarios as statements run (apps/backend/src/modules/route-simulation/
-- route-simulation-scenarios.service.ts).
use shipment_tracking_system.Prelude.{
  ℕ, ◌<◌, Bool, false, ◌≡◌, ◌≢◌, refl, sym, ◌∙◌, ap, none, some, List, [], ◌∷◌, ◌++◌, All,
  All-update, All-filter, All-append, All-mono, arith, Bool-cases, ◌==◌, ◌&&◌, not, filter, length,
  update_rows, inl, inr, trim, is_given, get_or, delete_rows, ltb, ◌⊎◌, IsUnique,
}
use shipment_tracking_system.Prelude.Orm.{Orm, OrmLaws}
use shipment_tracking_system.Scenarios.{
  Scenario, Store, created, CreateScenarioDto, UpdateScenarioDto, patched, is_current, create_write,
  update_write, remove, find_one, is_name_taken, new_name,
}

-- The scenario has moved past the revision.
abbrev pub IsPast : ℕ → ℕ → Store → Type 0
IsPast id revision s = All (λ r. r.id ≡ id → revision < r.revision) s.scenarios

-- One statement of some request, between the statements of others.
pub data Write (orm : Orm) (answer : ℕ → ℕ) (id : ℕ) : Store → Store → Type 0 where
  creates :
      (dto : CreateScenarioDto) (user new_id now : ℕ) (s : Store)
      → new_id ≢ id
      → Write orm answer id s (create_write orm answer dto user new_id now s).1
  updates :
      (other : ℕ) (dto : UpdateScenarioDto) (user now : ℕ) (s : Store)
      → Write orm answer id s (update_write orm answer other dto user now s).1
  removes : (other : ℕ) (s : Store) → Write orm answer id s (remove orm answer other s).1

pub data Writes (orm : Orm) (answer : ℕ → ℕ) (id : ℕ) (s : Store) : Store → Type 0 where
  here : Writes orm answer id s s
  next :
      {t u : Store} → Writes orm answer id s t → Write orm answer id t u → Writes orm answer id s u

-- Where no row is current, the statement changes no row.
pub update_rows-none :
    (p : Scenario → Bool) (f : Scenario → Scenario) (rows : List Scenario)
    → All (λ r. p r ≡ false) rows
    → (update_rows p f rows ≡ rows) × (length (filter p rows) ≡ 0)
update_rows-none p f [] h = (refl, refl)
update_rows-none p f (r ∷ rows) h =
    let (same, none_left) = update_rows-none p f rows h.1 in
    (ground (arith, h.0, same), ground (arith, h.0, none_left))

update_rows-missed :
    (p : Scenario → Bool) (f : Scenario → Scenario) (rows : List Scenario)
    → length (filter p rows) ≡ 0
    → update_rows p f rows ≡ rows
update_rows-missed p f [] h = refl
update_rows-missed p f (r ∷ rows) h = elim (Bool-cases (p r)) [
  | inl hit ↦ absurd (ground (arith, h, hit))
  | inr missed ↦ rw missed (ap (λ l. r ∷ l) (update_rows-missed p f rows (rw missed at h)))
]

pub past_not_current :
    (id revision : ℕ) (rows : List Scenario)
    → All (λ r. r.id ≡ id → revision < r.revision) rows
    → All (λ r. is_current id revision r ≡ false) rows
past_not_current id revision rows h =
    All-mono (λ r. r.id ≡ id → revision < r.revision) (λ r. is_current id revision r ≡ false) rows
      (λ r past. ground (arith, past)) h

module _ (orm : Orm) (laws : OrmLaws orm) (answer : ℕ → ℕ) (id revision : ℕ) where
  abbrev Past : Scenario → Type 0
  Past r = r.id ≡ id → revision < r.revision

  update_write_cases :
      (k : ℕ) (dto : UpdateScenarioDto) (user now : ℕ) (s : Store)
      → ((update_write orm answer k dto user now s).1.scenarios ≡ s.scenarios)
        ⊎ ((update_write orm answer k dto user now s).1.scenarios
            ≡ update_rows
                (is_current k dto.revision)
                (patched dto (new_name dto) user now)
                s.scenarios)
  unfolding update_write find_one
  update_write_cases k dto user now s =
      let hits = length (filter (is_current k dto.revision) s.scenarios) in
      elim (Bool-cases (
        ltb 0 hits
        && is_given (new_name dto)
        && is_name_taken (get_or (new_name dto) "") (some k) s.scenarios)) [
          | inl taken ↦ inl (ground (arith, taken))
          | inr free ↦ elim (Bool-cases (answer hits == 0)) [
            | inl stale ↦ inr (ground (arith, free, stale))
            | inr done ↦ inr (ground (arith, free, done))
          ]
        ]

  create_write_cases :
      (dto : CreateScenarioDto) (user new_id now : ℕ) (s : Store)
      → ((create_write orm answer dto user new_id now s).1.scenarios ≡ s.scenarios)
        ⊎ ((r : Scenario) × (r.id ≡ new_id)
            × ((create_write orm answer dto user new_id now s).1.scenarios ≡ s.scenarios ++ r ∷ []))
  unfolding create_write find_one
  create_write_cases dto user new_id now s =
      elim (Bool-cases (is_name_taken (trim dto.name) none s.scenarios)) [
        | inl taken ↦ inl (ground (arith, taken))
        | inr free ↦ inr (
          created dto user new_id now,
          refl,
          ground (arith, free, laws.insert_lem Scenario (created dto user new_id now) s.scenarios),
        )
      ]

  remove-scenarios :
      (k : ℕ) (s : Store)
      → (remove orm answer k s).1.scenarios ≡ delete_rows (λ r. r.id == k) s.scenarios
  unfolding remove
  remove-scenarios k s = laws.delete_lem Scenario (λ r. r.id == k) s.scenarios

  Write-IsPast :
      {s t : Store} → Write orm answer id s t → IsPast id revision s → IsPast id revision t
  unfolding patched
  Write-IsPast (creates dto user new_id now s ne) h =
      elim (create_write_cases dto user new_id now s) [
        | inl same ↦ rw same h
        | inr (r, is_new, wrote) ↦
            rw wrote
              (All-append Past s.scenarios (r ∷ []) h ((λ e. absurd (ne (sym is_new ∙ e))), tt))
      ]
  Write-IsPast (updates k dto user now s) h = elim (update_write_cases k dto user now s) [
    | inl same ↦ rw same h
    | inr wrote ↦ rw wrote (
        All-update Past (is_current k dto.revision) (patched dto (new_name dto) user now)
          s.scenarios (λ r hit past e. omega (arith, past e)) h)
  ]
  Write-IsPast (removes k s) h =
      rw (remove-scenarios k s) (All-filter Past (λ r. not (r.id == k)) s.scenarios h)

  pub Writes-IsPast :
      {s t : Store} → IsPast id revision s → Writes orm answer id s t → IsPast id revision t
  Writes-IsPast h here = h
  Writes-IsPast h (next ws w) = Write-IsPast w (Writes-IsPast h ws)

-- The statement that hits a row moves it past the revision, and ids are unique.
update_rows-past :
    (id : ℕ) (dto : UpdateScenarioDto) (user now : ℕ) (rows : List Scenario)
    → IsUnique (λ r. r.id) rows
    → length (filter (is_current id dto.revision) rows) ≢ 0
    → All
        (λ r. r.id ≡ id → dto.revision < r.revision)
        (update_rows (is_current id dto.revision) (patched dto (new_name dto) user now) rows)
unfolding patched
update_rows-past id dto user now [] u hit = absurd (hit refl)
update_rows-past id dto user now (r ∷ rows) u hit =
    let test = is_current id dto.revision in
    let f = patched dto (new_name dto) user now in
    let Other = λ (v : Scenario). v.id ≢ id in
    let Past = λ (v : Scenario). v.id ≡ id → dto.revision < v.revision in
    elim (Bool-cases (test r)) [
      | inl current ↦
          let e : r.id ≡ id = ground (arith, current) in
          let others = All-mono (λ v. v.id ≢ r.id) Other rows (λ v ne q. ne (q ∙ sym e)) u.0 in
          let kept = All-update Other test f rows (λ v _ ne. ne) others in
          rw current (
            (λ _. ground (arith, current)),
            All-mono Other Past (update_rows test f rows) (λ v ne q. absurd (ne q)) kept,
          )
      | inr not_current ↦
          let hit' : length (filter test rows) ≢ 0 =
            λ none_left. hit (ground (arith, not_current, none_left)) in
          let apart : r.id ≢ id = λ e.
            hit'
              (update_rows-none test f rows (
                All-mono (λ v. v.id ≢ r.id) (λ v. test v ≡ false) rows
                  (λ v ne. ground (arith, e, ne)) u.0)).1 in
          rw not_current ((λ e. absurd (apart e)), update_rows-past id dto user now rows u.1 hit')
    ]

-- An update that changed the rows moved the scenario past its revision.
pub update_write-IsPast :
    (orm : Orm) (laws : OrmLaws orm) (answer : ℕ → ℕ) (id : ℕ) (dto : UpdateScenarioDto)
    (user now : ℕ) (s : Store)
    → IsUnique (λ r. r.id) s.scenarios
    → (update_write orm answer id dto user now s).1.scenarios ≢ s.scenarios
    → IsPast id dto.revision (update_write orm answer id dto user now s).1
update_write-IsPast orm laws answer id dto user now s ids changed =
    elim (update_write_cases orm laws answer id dto.revision id dto user now s) [
      | inl same ↦ absurd (changed same)
      | inr wrote ↦
          let test = is_current id dto.revision in
          let f = patched dto (new_name dto) user now in
          let hit : length (filter test s.scenarios) ≢ 0 =
            λ none_left. changed (wrote ∙ update_rows-missed test f s.scenarios none_left) in
          rw wrote (update_rows-past id dto user now s.scenarios ids hit)
    ]
