-- ===== src/Fleet/Drivers.antt =====
-- `FleetDriversService`: drivers with their licence; an assigned driver is archived, not deleted.
use shipment_tracking_system.Prelude.{
  ℕ, String, Bool, true, false, ◌&&◌, ◌||◌, Option, none, some, ◌==◌, ltb, get_or, is_some,
  is_given, trim, blank_to_null, if◌then◌else◌, not_found, bad_request, Action, Void, pure, gets,
  modify, or_throw, ◌>>=◌, ◌>>◌,
}
use shipment_tracking_system.Prelude.Orm.{Orm}
use shipment_tracking_system.Fleet.{
  Date, jenis_sim, is_category, FleetMasterData, FleetDriver, FleetVehicle, Store, points_at,
}

pub record CreateInput : Type 0 where
  pub nama : String
  pub telepon : Option String
  pub sim_nomor : Option String
  pub sim_jenis_id : Option ℕ
  pub sim_expires_at : Option Date

-- An absent field is `none`, null is an inner `none`.
pub record UpdateInput : Type 0 where
  pub nama : Option String
  pub telepon : Option (Option String)
  pub sim_nomor : Option (Option String)
  pub sim_jenis_id : Option (Option ℕ)
  pub sim_expires_at : Option (Option Date)
  pub is_active : Option Bool

pub record FleetDriverSimFileView : Type 0 where
  pub original_name : Option String
  pub mime_type : Option String
  pub size_bytes : Option ℕ

pub record FleetDriverView : Type 0 where
  pub id : ℕ
  pub nama : String
  pub telepon : Option String
  pub sim_nomor : Option String
  pub sim_jenis_id : Option ℕ
  pub sim_expires_at : Option Date
  pub is_active : Bool
  pub sim_file : Option FleetDriverSimFileView

abbrev pub to_view : FleetDriver → FleetDriverView
to_view e = record {
  id = e.id;
  nama = e.nama;
  telepon = e.telepon;
  sim_nomor = e.sim_nomor;
  sim_jenis_id = e.sim_jenis_id;
  sim_expires_at = e.sim_expires_at;
  is_active = e.is_active;
  sim_file =
      if is_given e.sim_storage_key
      then some (record {
        original_name = e.sim_original_name;
        mime_type = e.sim_mime_type;
        size_bytes = e.sim_size_bytes;
      })
      else none;
}

-- The row of `create`; the other columns have their defaults.
abbrev pub new_driver : CreateInput → ℕ → FleetDriver
new_driver dto new_id = record {
  id = new_id;
  nama = trim dto.nama;
  telepon = blank_to_null dto.telepon;
  sim_nomor = blank_to_null dto.sim_nomor;
  sim_jenis_id = dto.sim_jenis_id;
  sim_expires_at = dto.sim_expires_at;
  sim_storage_key = none;
  sim_original_name = none;
  sim_mime_type = none;
  sim_size_bytes = none;
  is_active = true;
}

-- The columns that `update` patches.
abbrev pub patched : UpdateInput → FleetDriver → FleetDriver
patched dto d = record d {
  nama = elim dto.nama [ none ↦ d.nama | some n ↦ trim n ];
  telepon = elim dto.telepon [ none ↦ d.telepon | some t ↦ blank_to_null t ];
  sim_nomor = elim dto.sim_nomor [ none ↦ d.sim_nomor | some n ↦ blank_to_null n ];
  sim_jenis_id = get_or dto.sim_jenis_id d.sim_jenis_id;
  sim_expires_at = get_or dto.sim_expires_at d.sim_expires_at;
  is_active = get_or dto.is_active d.is_active;
}

-- `Object.keys(patch).length > 0`
abbrev pub has_patch : UpdateInput → Bool
has_patch dto =
    is_some dto.nama
    || is_some dto.telepon
    || is_some dto.sim_nomor
    || is_some dto.sim_jenis_id
    || is_some dto.sim_expires_at
    || is_some dto.is_active

module _ (orm : Orm) where
  -- `assertSimJenisValid`
  unfoldable pub assert_sim_jenis_valid : Option ℕ → Action Store Void
  assert_sim_jenis_valid none = pure tt
  assert_sim_jenis_valid (some id) = do
    row ← gets (λ s.
        orm.find_one FleetMasterData (λ m. m.id == id && is_category m.category jenis_sim)
          s.masters)
    or_throw row (bad_request "simJenisId must reference a jenis_sim master row")
    pure tt

  unfoldable pub create : CreateInput → ℕ → Action Store FleetDriverView
  unfolding assert_sim_jenis_valid
  create dto new_id = do
    assert_sim_jenis_valid dto.sim_jenis_id
    let saved = new_driver dto new_id
    modify (λ s. record s { drivers = orm.insert FleetDriver saved s.drivers })
    pure (to_view saved)

  abbrev pub find_row : ℕ → Action Store FleetDriver
  find_row id = do
    found ← gets (λ s. orm.find_one FleetDriver (λ d. d.id == id) s.drivers)
    or_throw found (not_found "Driver not found")

  unfoldable pub update : ℕ → UpdateInput → Action Store FleetDriverView
  unfolding assert_sim_jenis_valid
  update id dto = do
    find_row id
    assert_sim_jenis_valid (get_or dto.sim_jenis_id none)
    modify (λ s. record s {
      drivers =
          if has_patch dto
          then orm.update FleetDriver (λ d. d.id == id) (patched dto) s.drivers
          else s.drivers;
    })
    updated ← find_row id
    pure (to_view updated)

  abbrev pub set_active : ℕ → Bool → Action Store Void
  set_active id active = modify (λ s. record s {
    drivers =
        orm.update FleetDriver (λ d. d.id == id) (λ d. record d { is_active = active }) s.drivers;
  })

  unfoldable pub remove : ℕ → Action Store Void
  remove id = do
    find_row id
    assigned ← gets (λ s. orm.count FleetVehicle (λ v. points_at id v.driver_id) s.vehicles)
    if ltb 0 assigned
        then set_active id false
        else modify (λ s. record s { drivers = orm.delete FleetDriver (λ d. d.id == id) s.drivers })

  unfoldable pub restore : ℕ → Action Store Void
  restore id = do find_row id; set_active id true
