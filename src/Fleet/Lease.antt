-- ===== src/Fleet/Lease.antt =====
-- `computeLease` of `fleet-lease.ts`. Amounts are in the column's smallest unit, a hundredth.
use shipment_tracking_system.Prelude.{ℕ, ◌+◌, ◌-◌, Option, none, some, get_or, if◌then◌else◌}
use shipment_tracking_system.Fleet.Dates.{Date, is_after, months_between, min}

pub record LeaseMath : Type 0 where
  pub cicilan_per_bulan : Option ℕ
  pub tenor_bulan : Option ℕ
  pub angsuran_mulai : Option Date
  pub angsuran_terbayar_override : Option ℕ

-- The source's product of a count and an amount, which JavaScript rounds to a double: it is kept as
-- its two factors.
pub data Product : Type 0 where
  times : ℕ → ℕ → Product

pub record LeaseTotals : Type 0 where
  pub angsuran_terbayar : ℕ
  pub sisa_angsuran : ℕ
  pub sisa_kewajiban : Product

-- The instalments that have fallen due, before they are clamped to the tenor.
unfoldable pub due_count : LeaseMath → Date → ℕ
due_count input today = elim input.angsuran_terbayar_override [
  | some n ↦ n
  | none ↦ elim input.angsuran_mulai [
    | none ↦ 0
    | some start ↦ if is_after start today then 0 else months_between start today + 1
  ]
]

unfoldable pub compute_lease : LeaseMath → Date → LeaseTotals
unfolding due_count
compute_lease input today =
    let tenor = get_or input.tenor_bulan 0 in
    let cicilan = get_or input.cicilan_per_bulan 0 in
    let terbayar = min tenor (due_count input today) in
    let sisa = tenor - terbayar in
    record {
      angsuran_terbayar = terbayar;
      sisa_angsuran = sisa;
      sisa_kewajiban = times sisa cicilan;
    }
