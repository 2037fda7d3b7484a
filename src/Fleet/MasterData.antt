-- ===== src/Fleet/MasterData.antt =====
-- `FleetMasterDataService`: the dropdown rows that vehicles, documents, drivers and contracts use.
use shipment_tracking_system.Prelude.{
  ℕ, ◌+◌, String, Bool, true, false, ◌&&◌, ◌||◌, Option, none, some, any, filter, length, str_eq,
  ◌==◌, ltb, get_or, is_some, if◌then◌else◌, HttpError, not_found, conflict, internal, Action, Void,
  pure, gets, modify, or_throw, throw_if, ◌>>=◌, ◌>>◌,
}
use shipment_tracking_system.Prelude.Orm.{Orm}
use shipment_tracking_system.Fleet.{
  FleetMasterCategory, jenis_berkas, jenis_dokumen, is_category, FleetMasterData, Store, points_at,
}

-- Absent fields are `none`; of the nullable ones the inner `none` is null.
pub record CreateFleetMasterDataDto : Type 0 where
  pub category : FleetMasterCategory
  pub code : String
  pub label : String
  pub sort_order : Option ℕ
  pub warn_days : Option ℕ
  pub default_valid_months : Option ℕ
  pub is_required : Option (Option Bool)

pub record UpdateFleetMasterDataDto : Type 0 where
  pub label : Option String
  pub sort_order : Option ℕ
  pub is_active : Option Bool
  pub warn_days : Option (Option ℕ)
  pub default_valid_months : Option (Option ℕ)
  pub is_required : Option (Option Bool)

-- `CATEGORIES_WITH_REQUIRED.includes(category)`
abbrev pub has_required : FleetMasterCategory → Bool
has_required c = is_category c jenis_berkas || is_category c jenis_dokumen

-- The row of `create`, with the default of `isRequired`.
abbrev pub new_row : CreateFleetMasterDataDto → ℕ → FleetMasterData
new_row dto new_id = record {
  id = new_id;
  category = dto.category;
  code = dto.code;
  label = dto.label;
  sort_order = get_or dto.sort_order 0;
  is_active = true;
  warn_days = dto.warn_days;
  default_valid_months = dto.default_valid_months;
  is_required = elim dto.is_required [
    | some r ↦ r
    | none ↦ if has_required dto.category then some false else none
  ];
}

-- The columns that `update` patches.
abbrev pub patched : UpdateFleetMasterDataDto → FleetMasterData → FleetMasterData
patched dto m = record m {
  label = get_or dto.label m.label;
  sort_order = get_or dto.sort_order m.sort_order;
  is_active = get_or dto.is_active m.is_active;
  warn_days = get_or dto.warn_days m.warn_days;
  default_valid_months = get_or dto.default_valid_months m.default_valid_months;
  is_required = get_or dto.is_required m.is_required;
}

-- `Object.keys(patch).length > 0`
abbrev pub has_patch : UpdateFleetMasterDataDto → Bool
has_patch dto =
    is_some dto.label
    || is_some dto.sort_order
    || is_some dto.is_active
    || is_some dto.warn_days
    || is_some dto.default_valid_months
    || is_some dto.is_required

-- `countUsage`: the rows of `REFERENCING_COLUMNS` that point at `id`.
unfoldable pub count_usage : ℕ → Store → ℕ
count_usage id s =
    length (filter (λ d. points_at id d.sim_jenis_id) s.drivers)
    + length (filter (λ v. points_at id v.jenis_armada_id) s.vehicles)
    + length (filter (λ v. points_at id v.kepemilikan_id) s.vehicles)
    + length (filter (λ v. points_at id v.pool_id) s.vehicles)
    + length (filter (λ v. points_at id v.status_id) s.vehicles)
    + length (filter (λ d. d.doc_type_id == id) s.documents)
    + length (filter (λ c. points_at id c.leasing_id) s.contracts)

-- The key of the vehicle files, which no entry of `REFERENCING_COLUMNS` names, restricts a deletion.
abbrev pub is_restricted : ℕ → Store → Bool
is_restricted id s = any (λ f. f.slot_id == id) s.files

abbrev pub code_conflict : HttpError
code_conflict = conflict "Code already exists under category"

module _ (orm : Orm) where
  -- `assertCodeFree`
  unfoldable pub assert_code_free : FleetMasterCategory → String → Action Store Void
  assert_code_free category code = do
    clash ← gets (λ s.
        orm.find_one FleetMasterData (λ m. is_category m.category category && str_eq m.code code)
          s.masters)
    throw_if (is_some clash) code_conflict

  -- The unique index refuses what the check let pass, with the same answer.
  unfoldable pub create : CreateFleetMasterDataDto → ℕ → Action Store FleetMasterData
  unfolding assert_code_free
  create dto new_id = do
    assert_code_free dto.category dto.code
    taken ←
        gets
          (λ s. any (λ m. is_category m.category dto.category && str_eq m.code dto.code) s.masters)
    throw_if taken code_conflict
    let saved = new_row dto new_id
    modify (λ s. record s { masters = orm.insert FleetMasterData saved s.masters })
    pure saved

  abbrev pub find_row : ℕ → Action Store FleetMasterData
  find_row id = do
    found ← gets (λ s. orm.find_one FleetMasterData (λ m. m.id == id) s.masters)
    or_throw found (not_found "Master data row not found")

  unfoldable pub update : ℕ → UpdateFleetMasterDataDto → Action Store FleetMasterData
  update id dto = do
    find_row id
    modify (λ s. record s {
      masters =
          if has_patch dto
          then orm.update FleetMasterData (λ m. m.id == id) (patched dto) s.masters
          else s.masters;
    })
    find_row id

  unfoldable pub remove : ℕ → Action Store Void
  unfolding count_usage
  remove id = do
    find_row id
    usage ← gets (count_usage id)
    throw_if (ltb 0 usage) (conflict "Still used. Deactivate it instead of deleting.")
    restricted ← gets (is_restricted id)
    throw_if restricted internal
    modify (λ s. record s { masters = orm.delete FleetMasterData (λ m. m.id == id) s.masters })
