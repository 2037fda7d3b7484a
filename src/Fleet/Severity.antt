-- ===== src/Fleet/Severity.antt =====
-- `fleet-severity.ts`: the badge of a document from the days it has left, and the worst of several.
use shipment_tracking_system.Prelude.{ℕ, Option, List, [], ◌∷◌, get_or, ltb, leb, if◌then◌else◌}

pub data FleetSeverity : Type 0 where
  crit warn ok none : FleetSeverity

-- Whole days, which may be negative: `negsuc n` is `-1 - n`.
pub data ℤ : Type 0 where
  pos negsuc : ℕ → ℤ

abbrev pub fallback_warn_days : ℕ
fallback_warn_days = 30

abbrev pub severity_rank : FleetSeverity → ℕ
severity_rank crit = 0
severity_rank warn = 1
severity_rank ok = 2
severity_rank none = 3

unfoldable pub severity_for : Option ℤ → Option ℕ → FleetSeverity
severity_for Option.none warn_days = none
severity_for (Option.some (negsuc n)) warn_days = crit
severity_for (Option.some (pos n)) warn_days =
    if leb n (get_or warn_days fallback_warn_days) then warn else ok

-- The callback of `reduce`.
abbrev pub worse : FleetSeverity → FleetSeverity → FleetSeverity
worse worst s = if ltb (severity_rank s) (severity_rank worst) then s else worst

abbrev pub reduce : FleetSeverity → List FleetSeverity → FleetSeverity
reduce worst [] = worst
reduce worst (s ∷ l) = reduce (worse worst s) l

unfoldable pub worst_severity : List FleetSeverity → FleetSeverity
worst_severity l = reduce none l
