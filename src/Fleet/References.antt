-- ===== src/Fleet/References.antt =====
-- References between the fleet tables (apps/backend/src/modules/fleet-master-data and fleet-drivers):
-- the licence class of a driver, and the driver of a vehicle.
use shipment_tracking_system.Prelude.{
  ℕ, true, false, ◌≡◌, ◌≢◌, refl, Option, none, some, List, [], ◌∷◌, ◌++◌, All, In, All-In,
  All-append, All-update, All-filter, All-mono, All-of_In, All-filter_none, Refers, Refers-append,
  Refers-update, Refers-delete, not, ◌==◌, get_or, update_rows, delete_rows, inl, inr, arith,
  Option-cases,
}
use shipment_tracking_system.Prelude.Orm.{Orm, OrmLaws}
use shipment_tracking_system.Fleet.{FleetMasterData, FleetDriver, FleetVehicle, Store, points_at}
use shipment_tracking_system.Fleet.MasterData
use shipment_tracking_system.Fleet.Drivers
use shipment_tracking_system.Fleet.MasterWrites.{
  create_row_cases, update_row_cases, remove_row_cases,
}
use shipment_tracking_system.Fleet.DriverWrites.{
  IsClass, HasClass, create_driver_cases, update_driver_cases, remove_driver_cases,
  restore_driver_cases,
}

abbrev HasDriver : List FleetDriver → FleetVehicle → Type 0
HasDriver drivers v = Refers (λ d. d.id) (λ _. Unit {0}) drivers v.driver_id

-- Every driver's class is a row of the category jenis_sim, and every vehicle's driver is a row.
abbrev pub AreValid : Store → Type 0
AreValid s = All (HasClass s.masters) s.drivers × All (HasDriver s.drivers) s.vehicles

-- A request to either service.
pub data Request (orm : Orm) : Store → Store → Type 0 where
  creates_row :
      (dto : MasterData.CreateFleetMasterDataDto) (new_id : ℕ) (s : Store)
      → Request orm s (MasterData.create orm dto new_id s).1
  updates_row :
      (id : ℕ) (dto : MasterData.UpdateFleetMasterDataDto) (s : Store)
      → Request orm s (MasterData.update orm id dto s).1
  removes_row : (id : ℕ) (s : Store) → Request orm s (MasterData.remove orm id s).1
  creates_driver :
      (dto : Drivers.CreateInput) (new_id : ℕ) (s : Store)
      → Request orm s (Drivers.create orm dto new_id s).1
  updates_driver :
      (id : ℕ) (dto : Drivers.UpdateInput) (s : Store)
      → Request orm s (Drivers.update orm id dto s).1
  removes_driver : (id : ℕ) (s : Store) → Request orm s (Drivers.remove orm id s).1
  restores_driver : (id : ℕ) (s : Store) → Request orm s (Drivers.restore orm id s).1

-- Any requests, one after another.
pub data Requests (orm : Orm) (s : Store) : Store → Type 0 where
  here : Requests orm s s
  next : {t u : Store} → Requests orm s t → Request orm t u → Requests orm s u

-- A reference that does not point at the row that is deleted.
points_elsewhere : (n : ℕ) (o : Option ℕ) → points_at n o ≡ false → (k : ℕ) → o ≡ some k → k ≢ n
points_elsewhere n none h k e q = absurd (cc)
points_elsewhere n (some j) h k e q = ground (arith, h, e, q)

module _ (orm : Orm) (laws : OrmLaws orm) where
  -- The masters change, and every licence class that a driver has stays.
  masters_change :
      (s : Store) (masters : List FleetMasterData)
      → ((d : FleetDriver) → In d s.drivers → HasClass s.masters d → HasClass masters d)
      → AreValid s
      → AreValid (record s { masters = masters })
  masters_change s masters keep h = (
    All-of_In (HasClass masters) s.drivers
        (λ d m. keep d m (All-In (HasClass s.masters) d s.drivers h.0 m)),
    h.1,
  )

  -- Rows of drivers change, and keep their ids and a valid class.
  drivers_change :
      (s : Store) (id : ℕ) (f : FleetDriver → FleetDriver)
      → ((d : FleetDriver) → (f d).id ≡ d.id)
      → ((d : FleetDriver) → HasClass s.masters d → HasClass s.masters (f d))
      → AreValid s
      → AreValid (record s { drivers = update_rows (λ d. d.id == id) f s.drivers })
  drivers_change s id f same keep h = (
    All-update (HasClass s.masters) (λ d. d.id == id) f s.drivers (λ d hit r. keep d r) h.0,
    All-mono (HasDriver s.drivers) (HasDriver (update_rows (λ d. d.id == id) f s.drivers))
        s.vehicles
        (λ v r.
          Refers-update (λ d. d.id) (λ _. Unit {0}) (λ d. d.id == id) f s.drivers v.driver_id same
            (λ a g. g) r)
        h.1,
  )

  patched-HasClass :
      (masters : List FleetMasterData) (dto : Drivers.UpdateInput) (d : FleetDriver)
      → Refers (λ m. m.id) IsClass masters (get_or dto.sim_jenis_id none)
      → HasClass masters d
      → HasClass masters (Drivers.patched dto d)
  patched-HasClass masters dto d class r = elim (Option-cases dto.sim_jenis_id) [
    | inl absent ↦ rw absent r
    | inr (o, given) ↦
        let class' : Refers (λ m. m.id) IsClass masters (get_or (some o) none) =
          rw given at class in
        rw given class'
  ]

  -- One request keeps the references valid.
  Request-AreValid : {s t : Store} → AreValid s → Request orm s t → AreValid t
  Request-AreValid h (creates_row dto new_id s) = elim (create_row_cases orm laws dto new_id s) [
    | inl same ↦ rw same h
    | inr (m, wrote) ↦ rw wrote (
        masters_change s (s.masters ++ m ∷ [])
          (λ d i r. Refers-append (λ v. v.id) IsClass s.masters (m ∷ []) d.sim_jenis_id r) h)
  ]
  Request-AreValid h (updates_row id dto s) = elim (update_row_cases orm laws id dto s) [
    | inl same ↦ rw same h
    | inr wrote ↦ rw wrote (
        masters_change s (update_rows (λ m. m.id == id) (MasterData.patched dto) s.masters)
          (λ d i r.
            Refers-update (λ v. v.id) IsClass (λ m. m.id == id) (MasterData.patched dto) s.masters
              d.sim_jenis_id (λ a. refl) (λ a g. g) r)
          h)
  ]
  Request-AreValid h (removes_row id s) = elim (remove_row_cases orm laws id s) [
    | inl same ↦ rw same h
    | inr (unused, wrote) ↦
        let test = λ (d : FleetDriver). points_at id d.sim_jenis_id in
        let apart = All-filter_none test s.drivers unused in
        rw wrote (
          masters_change s (delete_rows (λ m. m.id == id) s.masters)
            (λ d i r.
              Refers-delete (λ v. v.id) IsClass id s.masters d.sim_jenis_id
                (points_elsewhere id d.sim_jenis_id
                  (All-In (λ v. test v ≡ false) d s.drivers apart i))
                r)
            h)
  ]
  Request-AreValid h (creates_driver dto new_id s) =
      elim (create_driver_cases orm laws dto new_id s) [
        | inl same ↦ rw same h
        | inr (d, class, wrote) ↦ rw wrote (
          All-append (HasClass s.masters) s.drivers (d ∷ []) h.0 (class, tt),
          All-mono (HasDriver s.drivers) (HasDriver (s.drivers ++ d ∷ [])) s.vehicles
              (λ v r. Refers-append (λ d. d.id) (λ _. Unit {0}) s.drivers (d ∷ []) v.driver_id r)
              h.1,
        )
      ]
  Request-AreValid h (updates_driver id dto s) = elim (update_driver_cases orm laws id dto s) [
    | inl same ↦ rw same h
    | inr (class, wrote) ↦ rw wrote (
        drivers_change s id (Drivers.patched dto) (λ d. refl)
          (λ d r. patched-HasClass s.masters dto d class r) h)
  ]
  Request-AreValid h (removes_driver id s) = elim (remove_driver_cases orm laws id s) [
    | inl same ↦ rw same h
    | inr (inl wrote) ↦
        rw wrote
          (drivers_change s id (λ d. record d { is_active = false }) (λ d. refl) (λ d r. r) h)
    | inr (inr (free, wrote)) ↦
        let test = λ (v : FleetVehicle). points_at id v.driver_id in
        let apart = All-filter_none test s.vehicles free in
        rw wrote (
          All-filter (HasClass s.masters) (λ d. not (d.id == id)) s.drivers h.0,
          All-of_In (HasDriver (delete_rows (λ d. d.id == id) s.drivers)) s.vehicles (λ v i.
              Refers-delete (λ d. d.id) (λ _. Unit {0}) id s.drivers v.driver_id
                (points_elsewhere id v.driver_id
                  (All-In (λ v. test v ≡ false) v s.vehicles apart i))
                (All-In (HasDriver s.drivers) v s.vehicles h.1 i)),
        )
  ]
  Request-AreValid h (restores_driver id s) = elim (restore_driver_cases orm laws id s) [
    | inl same ↦ rw same h
    | inr wrote ↦
        rw wrote (drivers_change s id (λ d. record d { is_active = true }) (λ d. refl) (λ d r. r) h)
  ]

-- Through any requests to the services of master data and of drivers, the class of every driver stays a
-- row of the category jenis_sim, and the driver of every vehicle stays a row: no deletion leaves a
-- reference without its row.
pub Requests-AreValid :
    (orm : Orm) (laws : OrmLaws orm) (s t : Store) → AreValid s → Requests orm s t → AreValid t
Requests-AreValid orm laws s t h here = h
Requests-AreValid orm laws s t h (next rs r) =
    Request-AreValid orm laws (Requests-AreValid orm laws s _ h rs) r
