-- ===== src/Tests/FleetTableTests.antt =====
-- Drivers, licence classes and contracts of a small fleet.
use shipment_tracking_system.Prelude.{◌≡◌, refl, true, none, some, [], ◌∷◌, ok, err, inl, internal}
use shipment_tracking_system.Fleet.{
  times, Date, FleetMasterData, FleetDriver, FleetVehicle, FleetVehicleFile, FleetLeaseContract,
  Store, jenis_sim, compute_lease, due_count,
}
use shipment_tracking_system.Fleet.MasterData
use shipment_tracking_system.Fleet.Drivers
use shipment_tracking_system.Fleet.MasterWrites.{IsUnreferenced, remove_used_slot}
use shipment_tracking_system.Fleet.Contracts.{close, to_view, FleetVehicleLeaseView}
use shipment_tracking_system.Fleet.References.{
  AreValid, here, next, removes_row, removes_driver, Requests-AreValid,
}
use shipment_tracking_system.Fleet.Closing.{IsClosed, Closes, close_once, already_closed}
use shipment_tracking_system.Tests.World.{list_orm, list_orm_laws, first}

abbrev sim_b : FleetMasterData
sim_b = record {
  id = 1;
  category = jenis_sim;
  code = "b1";
  label = "SIM B1";
  sort_order = 0;
  is_active = true;
  warn_days = some 30;
  default_valid_months = none;
  is_required = none;
}

abbrev driver : FleetDriver
driver = record {
  id = 2;
  nama = "budi";
  telepon = none;
  sim_nomor = none;
  sim_jenis_id = some 1;
  sim_expires_at = none;
  sim_storage_key = none;
  sim_original_name = none;
  sim_mime_type = none;
  sim_size_bytes = none;
  is_active = true;
}

abbrev contract : FleetLeaseContract
contract = record {
  id = 4;
  vehicle_id = 3;
  leasing_id = none;
  nomor_kontrak = none;
  cicilan_per_bulan = none;
  tenor_bulan = none;
  angsuran_mulai = none;
  angsuran_terbayar_override = none;
  closed_at = none;
}

abbrev fleet : Store
fleet = record {
  masters = sim_b ∷ [];
  drivers = driver ∷ [];
  vehicles =
      record {
        id = 3;
        jenis_armada_id = none;
        kepemilikan_id = none;
        pool_id = none;
        status_id = none;
        driver_id = some 2;
      }
      ∷ [];
  documents = [];
  files = [];
  contracts = contract ∷ [];
}

-- The class that is in use is asked to go, and then the driver of a vehicle.
Requests-AreValid_example :
    AreValid (Drivers.remove list_orm 2 (MasterData.remove list_orm 1 fleet).1).1
Requests-AreValid_example =
    Requests-AreValid list_orm list_orm_laws fleet _
      (((sim_b, inl refl, refl, refl), tt), ((driver, inl refl, refl, tt), tt))
      (next (next here (removes_row 1 fleet)) (removes_driver 2 _))

abbrev today : Date
today = record { year = 2026; month = 0; day = 5 }

abbrev tomorrow : Date
tomorrow = record { year = 2026; month = 0; day = 6 }

abbrev view : FleetVehicleLeaseView
view = record {
  id = 4;
  leasing_id = none;
  nomor_kontrak = none;
  cicilan_per_bulan = none;
  tenor_bulan = none;
  angsuran_mulai = none;
  angsuran_terbayar_override = none;
  closed_at = some today;
  totals = record { angsuran_terbayar = 0; sisa_angsuran = 0; sisa_kewajiban = times 0 0 };
}

closes : (close list_orm 4 today fleet).0 ≡ ok view
unfolding close first to_view compute_lease due_count
closes = refl

close_once_example :
    IsClosed 4 today (close list_orm 4 today fleet).1
    × (close list_orm 4 tomorrow (close list_orm 4 today fleet).1
        ≡ (err already_closed, (close list_orm 4 today fleet).1))
close_once_example =
    close_once list_orm list_orm_laws 4 today tomorrow fleet _ view closes
      shipment_tracking_system.Fleet.Closing.here

-- The row is only the slot of a file.
abbrev slot_fleet : Store
slot_fleet = record fleet {
  drivers = [];
  files = record { id = 5; vehicle_id = 3; slot_id = 1 } ∷ [];
}

-- Nothing else points at it.
slot_fleet-IsUnreferenced : IsUnreferenced 1 slot_fleet
slot_fleet-IsUnreferenced = record {
  sim = tt;
  jenis = (refl, tt);
  kepemilikan = (refl, tt);
  pool = (refl, tt);
  status = (refl, tt);
  doc_type = tt;
  leasing = (refl, tt);
}

remove_used_slot_example :
    (MasterData.count_usage 1 slot_fleet ≡ 0)
    × (MasterData.remove list_orm 1 slot_fleet ≡ (err internal, slot_fleet))
remove_used_slot_example =
    remove_used_slot list_orm list_orm_laws sim_b (record { id = 5; vehicle_id = 3; slot_id = 1 })
      slot_fleet (inl refl) (inl refl) refl slot_fleet-IsUnreferenced
