-- ===== src/Fleet/Tables.antt =====
-- The tables of the fleet modules: apps/backend/src/modules/fleet-master-data, fleet-drivers and
-- fleet-vehicles, their entities. Of vehicles, documents and files only the keys are kept.
use shipment_tracking_system.Prelude.{ℕ, String, Bool, false, Option, none, some, List, ◌==◌}
use shipment_tracking_system.Fleet.Dates.{Date}

-- `FLEET_MASTER_CATEGORIES`
pub data FleetMasterCategory : Type 0 where
  jenis_armada kepemilikan leasing status_kendaraan pool jenis_dokumen jenis_berkas jenis_sim :
      FleetMasterCategory

abbrev category_number : FleetMasterCategory → ℕ
category_number jenis_armada = 0
category_number kepemilikan = 1
category_number leasing = 2
category_number status_kendaraan = 3
category_number pool = 4
category_number jenis_dokumen = 5
category_number jenis_berkas = 6
category_number jenis_sim = 7

-- `===` on categories.
abbrev pub is_category : FleetMasterCategory → FleetMasterCategory → Bool
is_category a b = category_number a == category_number b

pub record FleetMasterData : Type 0 where
  pub id : ℕ
  pub category : FleetMasterCategory
  pub code : String
  pub label : String
  pub sort_order : ℕ
  pub is_active : Bool
  pub warn_days : Option ℕ
  pub default_valid_months : Option ℕ
  pub is_required : Option Bool

pub record FleetDriver : Type 0 where
  pub id : ℕ
  pub nama : String
  pub telepon : Option String
  pub sim_nomor : Option String
  pub sim_jenis_id : Option ℕ
  pub sim_expires_at : Option Date
  pub sim_storage_key : Option String
  pub sim_original_name : Option String
  pub sim_mime_type : Option String
  pub sim_size_bytes : Option ℕ
  pub is_active : Bool

pub record FleetVehicle : Type 0 where
  pub id : ℕ
  pub jenis_armada_id : Option ℕ
  pub kepemilikan_id : Option ℕ
  pub pool_id : Option ℕ
  pub status_id : Option ℕ
  pub driver_id : Option ℕ

pub record FleetVehicleDocument : Type 0 where
  pub id : ℕ
  pub vehicle_id : ℕ
  pub doc_type_id : ℕ

pub record FleetVehicleFile : Type 0 where
  pub id : ℕ
  pub vehicle_id : ℕ
  pub slot_id : ℕ

pub record FleetLeaseContract : Type 0 where
  pub id : ℕ
  pub vehicle_id : ℕ
  pub leasing_id : Option ℕ
  pub nomor_kontrak : Option String
  pub cicilan_per_bulan : Option ℕ
  pub tenor_bulan : Option ℕ
  pub angsuran_mulai : Option Date
  pub angsuran_terbayar_override : Option ℕ
  pub closed_at : Option Date

pub record Store : Type 0 where
  pub masters : List FleetMasterData
  pub drivers : List FleetDriver
  pub vehicles : List FleetVehicle
  pub documents : List FleetVehicleDocument
  pub files : List FleetVehicleFile
  pub contracts : List FleetLeaseContract

-- A nullable column that is `id`.
abbrev pub points_at : ℕ → Option ℕ → Bool
points_at id none = false
points_at id (some k) = k == id
