-- ===== src/Tests/SimulationTests.antt =====
-- Half months over the turn of a year.
use shipment_tracking_system.Prelude.{◌+◌, ◌-◌, ◌≡◌, refl, some, [], ◌∷◌, codes, length, arith}
use shipment_tracking_system.Simulation.{
  PeriodParts, period_parts, period_key, periods_between, periods_forward, between_from,
  next_period, at_most,
}
use shipment_tracking_system.Simulation.Ranges.{index, min, periods_between-forward}

abbrev december : PeriodParts
december = record { year = 2025; month = 12; half = 1 }

abbrev january : PeriodParts
january = record { year = 2026; month = 1; half = 1 }

parses :
    (period_parts (codes "2025-12-1H") ≡ some december)
    × (period_parts (codes "2026-01-1H") ≡ some january)
unfolding period_parts
parses = (refl, refl)

three :
    periods_between (codes "2025-12-1H") (codes "2026-01-1H")
    ≡ codes "2025-12-1H" ∷ codes "2025-12-2H" ∷ codes "2026-01-1H" ∷ []
unfolding periods_between period_parts between_from at_most next_period period_key
three = refl

periods_between-forward_example :
    (periods_between (codes "2025-12-1H") (codes "2026-01-1H")
      ≡ periods_forward (codes "2025-12-1H") (min 241 (index january + 1 - index december)))
    × (length (periods_between (codes "2025-12-1H") (codes "2026-01-1H"))
        ≡ min 241 (index january + 1 - index december))
periods_between-forward_example =
    periods_between-forward (codes "2025-12-1H") (codes "2026-01-1H") december january parses.0
      parses.1 (omega arith, omega arith, omega arith, omega arith)
      (omega arith, omega arith, omega arith, omega arith)
