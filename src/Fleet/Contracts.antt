-- ===== src/Fleet/Contracts.antt =====
-- `FleetContractsService`: the lease contracts of a vehicle, and their closing. The key of `leasing`
-- stands for its label.
use shipment_tracking_system.Prelude.{
  ℕ, String, Option, some, List, map, ◌==◌, is_some, not_found, conflict, Action, pure, gets,
  modify, or_throw, throw_if, ◌>>=◌, ◌>>◌,
}
use shipment_tracking_system.Prelude.Orm.{Orm}
use shipment_tracking_system.Fleet.{Date, FleetLeaseContract, Store, LeaseTotals, compute_lease}

pub record FleetVehicleLeaseView : Type 0 where
  pub id : ℕ
  pub leasing_id : Option ℕ
  pub nomor_kontrak : Option String
  pub cicilan_per_bulan : Option ℕ
  pub tenor_bulan : Option ℕ
  pub angsuran_mulai : Option Date
  pub angsuran_terbayar_override : Option ℕ
  pub closed_at : Option Date
  pub totals : LeaseTotals

unfoldable pub to_view : Date → FleetLeaseContract → FleetVehicleLeaseView
to_view today row = record {
  id = row.id;
  leasing_id = row.leasing_id;
  nomor_kontrak = row.nomor_kontrak;
  cicilan_per_bulan = row.cicilan_per_bulan;
  tenor_bulan = row.tenor_bulan;
  angsuran_mulai = row.angsuran_mulai;
  angsuran_terbayar_override = row.angsuran_terbayar_override;
  closed_at = row.closed_at;
  totals =
      compute_lease
        (record {
          cicilan_per_bulan = row.cicilan_per_bulan;
          tenor_bulan = row.tenor_bulan;
          angsuran_mulai = row.angsuran_mulai;
          angsuran_terbayar_override = row.angsuran_terbayar_override;
        })
        today;
}

module _ (orm : Orm) where
  -- The views of a vehicle's contracts, in the database's order.
  unfoldable pub list : ℕ → Date → Store → List FleetVehicleLeaseView
  list vehicle_id today s =
      map (to_view today)
        (orm.find FleetLeaseContract (λ c. c.vehicle_id == vehicle_id) s.contracts)

  abbrev pub find_row : ℕ → Action Store FleetLeaseContract
  find_row id = do
    found ← gets (λ s. orm.find_one FleetLeaseContract (λ c. c.id == id) s.contracts)
    or_throw found (not_found "Contract not found")

  unfoldable pub close : ℕ → Date → Action Store FleetVehicleLeaseView
  close id today = do
    row ← find_row id
    throw_if (is_some row.closed_at) (conflict "Contract is already closed")
    modify (λ s. record s {
      contracts =
          orm.update FleetLeaseContract (λ c. c.id == id) (λ c. record c { closed_at = some today })
            s.contracts;
    })
    reloaded ← find_row id
    pure (to_view today reloaded)
