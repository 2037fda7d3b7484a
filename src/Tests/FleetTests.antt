-- ===== src/Tests/FleetTests.antt =====
-- Instalments and badges of one vehicle.
use shipment_tracking_system.Prelude.{
  In, All, ◌⊎◌, ◌≡◌, refl, ◌≤◌, ◌<◌, none, some, [], ◌∷◌, ◌↔◌, arith, false,
}
use shipment_tracking_system.Fleet.{
  Date, LeaseMath, times, compute_lease, due_count, days_in_month, months_between, is_after, pos,
  negsuc, severity_for, severity_rank, FleetSeverity, crit, warn, worst_severity,
}
use shipment_tracking_system.Fleet.Instalments.{months_later, paid_iff}
use shipment_tracking_system.Fleet.Worst.{IsLe, severity_for_iff, worst_severity_lem}

-- A contract due on the 31st of January, on the last day of February of a leap year.
abbrev start : Date
start = record { year = 2024; month = 0; day = 31 }

abbrev today : Date
today = record { year = 2024; month = 1; day = 29 }

abbrev lease : LeaseMath
lease = record {
  cicilan_per_bulan = some 100;
  tenor_bulan = some 12;
  angsuran_mulai = some start;
  angsuran_terbayar_override = none;
}

two_paid :
    compute_lease lease today
    ≡ record { angsuran_terbayar = 2; sisa_angsuran = 10; sisa_kewajiban = times 10 100 }
unfolding compute_lease due_count months_between days_in_month
two_paid = refl

paid_iff_example :
    (1 < (compute_lease lease today).angsuran_terbayar)
    ↔ ((1 < 12) × (is_after (months_later start 1) today ≡ false))
unfolding days_in_month
paid_iff_example =
    paid_iff lease start today 1 refl refl (omega arith, omega arith, omega arith)
      (omega arith, omega arith, omega arith)

severity_for_iff_example :
    ((severity_for (some (pos 30)) none ≡ crit) ↔ IsLe (pos 30) (negsuc 0))
    × ((severity_for (some (pos 30)) none ≡ FleetSeverity.ok) ↔ IsLe (pos 31) (pos 30))
    × ((severity_for (some (pos 30)) none ≡ warn)
        ↔ (IsLe (pos 0) (pos 30) × IsLe (pos 30) (pos 30)))
    × (severity_for none none ≡ FleetSeverity.none)
severity_for_iff_example = severity_for_iff (pos 30) none

worst_severity_lem_example :
    ((worst_severity (warn ∷ crit ∷ []) ≡ FleetSeverity.none)
      ⊎ In (worst_severity (warn ∷ crit ∷ [])) (warn ∷ crit ∷ []))
    × All
        (λ s. severity_rank (worst_severity (warn ∷ crit ∷ [])) ≤ severity_rank s)
        (warn ∷ crit ∷ [])
worst_severity_lem_example = worst_severity_lem (warn ∷ crit ∷ [])
