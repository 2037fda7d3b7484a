-- ===== src/Fleet/MasterWrites.antt =====
-- What each operation of `FleetMasterDataService` writes
-- (apps/backend/src/modules/fleet-master-data/fleet-master-data.service.ts).
use shipment_tracking_system.Prelude.{
  any-In, internal, err, ℕ, Bool, List, All, refl, false, ◌≡◌, ◌∙◌, ap, [], ◌∷◌, ◌++◌, In, All-In,
  filter, length, any, ◌==◌, ◌&&◌, ltb, str_eq, update_rows, delete_rows, inl, inr, ◌⊎◌, arith,
  Bool-cases, Option-cases,
}
use shipment_tracking_system.Prelude.Orm.{Orm, OrmLaws}
use shipment_tracking_system.Fleet.{
  FleetMasterData, FleetVehicleFile, Store, is_category, points_at,
}
use shipment_tracking_system.Fleet.MasterData

first_zero :
    (s : Store) (id : ℕ)
    → ltb 0 (MasterData.count_usage id s) ≡ false
    → length (filter (λ d. points_at id d.sim_jenis_id) s.drivers) ≡ 0
unfolding MasterData.count_usage
first_zero s id h = let z : MasterData.count_usage id s ≡ 0 = ground (arith, h) in omega (arith, z)

module _ (orm : Orm) (laws : OrmLaws orm) where
  -- What each request does to the tables.
  pub create_row_cases :
      (dto : MasterData.CreateFleetMasterDataDto) (new_id : ℕ) (s : Store)
      → let t = (MasterData.create orm dto new_id s).1 in
        (t ≡ s) ⊎ ((m : FleetMasterData) × (t ≡ record s { masters = s.masters ++ m ∷ [] }))
  unfolding MasterData.create MasterData.assert_code_free
  create_row_cases dto new_id s =
      elim (Option-cases (
        orm.find_one FleetMasterData
          (λ m. is_category m.category dto.category && str_eq m.code dto.code) s.masters)) [
            | inr (m, found) ↦ inl (ground (arith, found))
            | inl free ↦
                let taken =
                  any (λ m. is_category m.category dto.category && str_eq m.code dto.code)
                    s.masters in
                let row = MasterData.new_row dto new_id in
                elim (Bool-cases taken) [
                  | inl refused ↦ inl (ground (arith, free, refused))
                  | inr fresh ↦ inr (
                    row,
                    ground (arith, free, fresh, laws.insert_lem FleetMasterData row s.masters),
                  )
                ]
          ]

  pub update_row_cases :
      (id : ℕ) (dto : MasterData.UpdateFleetMasterDataDto) (s : Store)
      → let t = (MasterData.update orm id dto s).1 in
        (t ≡ s)
        ⊎ (t ≡ record s {
          masters = update_rows (λ m. m.id == id) (MasterData.patched dto) s.masters;
        })
  unfolding MasterData.update
  update_row_cases id dto s =
      elim (Option-cases (orm.find_one FleetMasterData (λ m. m.id == id) s.masters)) [
        | inl missing ↦ inl (ground (arith, missing))
        | inr (m, found) ↦ elim (Bool-cases (MasterData.has_patch dto)) [
          | inr unchanged ↦ inl (ground (arith, found, unchanged))
          | inl patch ↦
              let wrote =
                laws.update_lem FleetMasterData (λ m. m.id == id) (MasterData.patched dto)
                  s.masters in
              let table =
                orm.update FleetMasterData (λ m. m.id == id) (MasterData.patched dto) s.masters in
              let ends : record s { masters = table } ≡ record s {
                masters = update_rows (λ m. m.id == id) (MasterData.patched dto) s.masters;
              } =
                ap (λ t. record s { masters = t }) wrote in
              elim (Option-cases (orm.find_one FleetMasterData (λ m. m.id == id) table)) [
                | inl gone ↦
                    let step : (MasterData.update orm id dto s).1 ≡ record s { masters = table } =
                      ground (arith, found, patch, gone) in
                    inr (step ∙ ends)
                | inr (again, reloaded) ↦
                    let step : (MasterData.update orm id dto s).1 ≡ record s { masters = table } =
                      ground (arith, found, patch, reloaded) in
                    inr (step ∙ ends)
              ]
        ]
      ]

  pub remove_row_cases :
      (id : ℕ) (s : Store)
      → let t = (MasterData.remove orm id s).1 in
        (t ≡ s)
        ⊎ ((length (filter (λ d. points_at id d.sim_jenis_id) s.drivers) ≡ 0)
            × (t ≡ record s { masters = delete_rows (λ m. m.id == id) s.masters }))
  unfolding MasterData.remove MasterData.count_usage
  remove_row_cases id s =
      elim (Option-cases (orm.find_one FleetMasterData (λ m. m.id == id) s.masters)) [
        | inl missing ↦ inl (ground (arith, missing))
        | inr (m, found) ↦ elim (Bool-cases (ltb 0 (MasterData.count_usage id s))) [
          | inl used ↦ inl (ground (arith, found, used))
          | inr unused ↦ elim (Bool-cases (MasterData.is_restricted id s)) [
            | inl refused ↦ inl (ground (arith, found, unused, refused))
            | inr free ↦
                let wrote = laws.delete_lem FleetMasterData (λ m. m.id == id) s.masters in
                inr (first_zero s id unused, ground (arith, found, unused, free, wrote))
          ]
        ]
      ]

-- No driver, vehicle, document or contract points at the row.
pub record IsUnreferenced (id : ℕ) (s : Store) : Type 0 where
  pub sim : All (λ d. points_at id d.sim_jenis_id ≡ false) s.drivers
  pub jenis : All (λ v. points_at id v.jenis_armada_id ≡ false) s.vehicles
  pub kepemilikan : All (λ v. points_at id v.kepemilikan_id ≡ false) s.vehicles
  pub pool : All (λ v. points_at id v.pool_id ≡ false) s.vehicles
  pub status : All (λ v. points_at id v.status_id ≡ false) s.vehicles
  pub doc_type : All (λ d. (d.doc_type_id == id) ≡ false) s.documents
  pub leasing : All (λ c. points_at id c.leasing_id ≡ false) s.contracts

length-filter_none :
    {A : Type 0} (p : A → Bool) (xs : List A) → All (λ x. p x ≡ false) xs → length (filter p xs) ≡ 0
length-filter_none p [] h = refl
length-filter_none p (x ∷ xs) h = rw h.0 (length-filter_none p xs h.1)

unused_count : (id : ℕ) (s : Store) → IsUnreferenced id s → MasterData.count_usage id s ≡ 0
unfolding MasterData.count_usage
unused_count id s u =
    let drivers = length-filter_none (λ d. points_at id d.sim_jenis_id) s.drivers u.sim in
    let jenis = length-filter_none (λ v. points_at id v.jenis_armada_id) s.vehicles u.jenis in
    let owners = length-filter_none (λ v. points_at id v.kepemilikan_id) s.vehicles u.kepemilikan in
    let pools = length-filter_none (λ v. points_at id v.pool_id) s.vehicles u.pool in
    let statuses = length-filter_none (λ v. points_at id v.status_id) s.vehicles u.status in
    let documents = length-filter_none (λ d. d.doc_type_id == id) s.documents u.doc_type in
    let contracts = length-filter_none (λ c. points_at id c.leasing_id) s.contracts u.leasing in
    omega (arith, drivers, jenis, owners, pools, statuses, documents, contracts)

-- A master row that exists, that a vehicle's file uses as its slot, and that no driver, vehicle,
-- document or contract points at, counts as unused although the file uses it: the request to remove it
-- is not refused with the conflict that names the usage, but fails with an internal error, since the
-- database refuses the deletion. Nothing changes.
pub remove_used_slot :
    (orm : Orm) (laws : OrmLaws orm) (m : FleetMasterData) (f : FleetVehicleFile) (s : Store)
    → In m s.masters
    → In f s.files
    → f.slot_id ≡ m.id
    → IsUnreferenced m.id s
    → (MasterData.count_usage m.id s ≡ 0) × (MasterData.remove orm m.id s ≡ (err internal, s))
unfolding MasterData.remove
remove_used_slot orm laws m f s i j slot other =
    let unused = unused_count m.id s other in
    let restricted = any-In (λ v. v.slot_id == m.id) f s.files j (ground (arith, slot)) in
    elim (Option-cases (orm.find_one FleetMasterData (λ v. v.id == m.id) s.masters)) [
      | inl missing ↦
          let none_left =
            laws.find_one_none FleetMasterData (λ v. v.id == m.id) s.masters missing in
          let not_it = All-In (λ v. (v.id == m.id) ≡ false) m s.masters none_left i in
          absurd (ground (arith, not_it))
      | inr (v, found) ↦ (unused, ground (arith, found, unused, restricted))
    ]
