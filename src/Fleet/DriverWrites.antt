-- ===== src/Fleet/DriverWrites.antt =====
-- What each operation of `FleetDriversService` writes
-- (apps/backend/src/modules/fleet-drivers/fleet-drivers.service.ts).
use shipment_tracking_system.Prelude.{
  HttpError, bad_request, ok, err, ℕ, true, false, ◌≡◌, refl, sym, ◌∙◌, ap, Option, none, some,
  List, [], ◌∷◌, ◌++◌, Refers, filter, length, ◌==◌, ◌&&◌, ltb, get_or, update_rows, delete_rows,
  inl, inr, ◌⊎◌, arith, Bool-cases, Option-cases,
}
use shipment_tracking_system.Prelude.Orm.{Orm, OrmLaws}
use shipment_tracking_system.Fleet.{
  FleetMasterData, FleetDriver, FleetVehicle, Store, is_category, jenis_sim, points_at,
}
use shipment_tracking_system.Fleet.Drivers

-- A licence class.
abbrev pub IsClass : FleetMasterData → Type 0
IsClass m = is_category m.category jenis_sim ≡ true

abbrev pub HasClass : List FleetMasterData → FleetDriver → Type 0
HasClass masters d = Refers (λ m. m.id) IsClass masters d.sim_jenis_id

module _ (orm : Orm) (laws : OrmLaws orm) where
  -- The check passes for an absent class and for a row of the category, and else throws.
  assert_cases :
      (o : Option ℕ) (s : Store)
      → ((e : HttpError) × (Drivers.assert_sim_jenis_valid orm o s ≡ (err e, s)))
        ⊎ ((Drivers.assert_sim_jenis_valid orm o s ≡ (ok tt, s))
            × Refers (λ m. m.id) IsClass s.masters o)
  unfolding Drivers.assert_sim_jenis_valid
  assert_cases none s = inr (refl, tt)
  assert_cases (some id) s =
      elim (Option-cases (
        orm.find_one FleetMasterData (λ m. m.id == id && is_category m.category jenis_sim)
          s.masters)) [
            | inl missing ↦ inl (
              bad_request "simJenisId must reference a jenis_sim master row",
              ground (arith, missing),
            )
            | inr (m, found) ↦
                let (i, e) = laws.find_one_some FleetMasterData _ s.masters m found in
                inr (ground (arith, found), (m, i, ground (arith, e), ground (arith, e)))
          ]

  pub create_driver_cases :
      (dto : Drivers.CreateInput) (new_id : ℕ) (s : Store)
      → let t = (Drivers.create orm dto new_id s).1 in
        (t ≡ s)
        ⊎ ((d : FleetDriver) × HasClass s.masters d
            × (t ≡ record s { drivers = s.drivers ++ d ∷ [] }))
  unfolding Drivers.create
  create_driver_cases dto new_id s = elim (assert_cases dto.sim_jenis_id s) [
    | inl (e, refused) ↦ inl (ground (arith, refused))
    | inr (passed, class) ↦
        let row = Drivers.new_driver dto new_id in
        let wrote = laws.insert_lem FleetDriver row s.drivers in
        inr (row, class, ground (arith, passed, wrote))
  ]

  pub update_driver_cases :
      (id : ℕ) (dto : Drivers.UpdateInput) (s : Store)
      → let t = (Drivers.update orm id dto s).1 in
        (t ≡ s)
        ⊎ (Refers (λ m. m.id) IsClass s.masters (get_or dto.sim_jenis_id none)
            × (t ≡ record s {
              drivers = update_rows (λ d. d.id == id) (Drivers.patched dto) s.drivers;
            }))
  unfolding Drivers.update
  update_driver_cases id dto s =
      elim (Option-cases (orm.find_one FleetDriver (λ d. d.id == id) s.drivers)) [
        | inl missing ↦ inl (ground (arith, missing))
        | inr (d, found) ↦ elim (assert_cases (get_or dto.sim_jenis_id none) s) [
          | inl (e, refused) ↦ inl (ground (arith, found, refused))
          | inr (passed, class) ↦ elim (Bool-cases (Drivers.has_patch dto)) [
            | inr unchanged ↦ inl (ground (arith, found, passed, unchanged))
            | inl patch ↦
                let table =
                  orm.update FleetDriver (λ d. d.id == id) (Drivers.patched dto) s.drivers in
                let ends : record s { drivers = table } ≡ record s {
                  drivers = update_rows (λ d. d.id == id) (Drivers.patched dto) s.drivers;
                } =
                  ap (λ t. record s { drivers = t })
                    (laws.update_lem FleetDriver (λ d. d.id == id) (Drivers.patched dto)
                      s.drivers) in
                elim (Option-cases (orm.find_one FleetDriver (λ d. d.id == id) table)) [
                  | inl gone ↦
                      let step : (Drivers.update orm id dto s).1 ≡ record s { drivers = table } =
                        ground (arith, found, passed, patch, gone) in
                      inr (class, step ∙ ends)
                  | inr (again, reloaded) ↦
                      let step : (Drivers.update orm id dto s).1 ≡ record s { drivers = table } =
                        ground (arith, found, passed, patch, reloaded) in
                      inr (class, step ∙ ends)
                ]
          ]
        ]
      ]

  pub remove_driver_cases :
      (id : ℕ) (s : Store)
      → let t = (Drivers.remove orm id s).1 in
        (t ≡ s)
        ⊎ (t ≡ record s {
          drivers = update_rows (λ d. d.id == id) (λ d. record d { is_active = false }) s.drivers;
        })
        ⊎ ((length (filter (λ v. points_at id v.driver_id) s.vehicles) ≡ 0)
            × (t ≡ record s { drivers = delete_rows (λ d. d.id == id) s.drivers }))
  unfolding Drivers.remove
  remove_driver_cases id s =
      elim (Option-cases (orm.find_one FleetDriver (λ d. d.id == id) s.drivers)) [
        | inl missing ↦ inl (ground (arith, missing))
        | inr (d, found) ↦
            let counted = laws.count_lem FleetVehicle (λ v. points_at id v.driver_id) s.vehicles in
            let count = orm.count FleetVehicle (λ v. points_at id v.driver_id) s.vehicles in
            elim (Bool-cases (ltb 0 count)) [
              | inl assigned ↦
                  let wrote =
                    laws.update_lem FleetDriver (λ d. d.id == id)
                      (λ d. record d { is_active = false }) s.drivers in
                  inr (inl (ground (arith, found, assigned, wrote)))
              | inr free ↦
                  let none_left : count ≡ 0 = ground (arith, free) in
                  let wrote = laws.delete_lem FleetDriver (λ d. d.id == id) s.drivers in
                  inr (inr (sym counted ∙ none_left, ground (arith, found, free, wrote)))
            ]
      ]

  pub restore_driver_cases :
      (id : ℕ) (s : Store)
      → let t = (Drivers.restore orm id s).1 in
        (t ≡ s)
        ⊎ (t ≡ record s {
          drivers = update_rows (λ d. d.id == id) (λ d. record d { is_active = true }) s.drivers;
        })
  unfolding Drivers.restore
  restore_driver_cases id s =
      elim (Option-cases (orm.find_one FleetDriver (λ d. d.id == id) s.drivers)) [
        | inl missing ↦ inl (ground (arith, missing))
        | inr (d, found) ↦
            let wrote =
              laws.update_lem FleetDriver (λ d. d.id == id) (λ d. record d { is_active = true })
                s.drivers in
            inr (ground (arith, found, wrote))
      ]
