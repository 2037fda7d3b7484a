-- ===== src/Fleet/Dates.antt =====
-- The calendar of `fleet-lease.ts`. A date is one of the columns of type date, or today: a real day,
-- its month counted from 0 as `getUTCMonth` does.
use shipment_tracking_system.Prelude.{
  ℕ, ◌+◌, ◌-◌, ◌*◌, ◌%◌, Bool, ◌&&◌, ◌||◌, not, ◌==◌, ltb, if◌then◌else◌,
}

pub record Date : Type 0 where
  pub year : ℕ
  pub month : ℕ
  pub day : ℕ

-- The proleptic Gregorian rule, which `Date.UTC` follows.
abbrev pub is_leap : ℕ → Bool
is_leap y = (y % 4 == 0 && not (y % 100 == 0)) || y % 400 == 0

-- `daysInMonth`: the length of the month that `date` lies in.
unfoldable pub days_in_month : ℕ → ℕ → ℕ
days_in_month year month =
    if month == 1
    then (if is_leap year then 29 else 28)
    else if month == 3 || month == 5 || month == 8 || month == 10
    then 30
    else 31

abbrev pub min : ℕ → ℕ → ℕ
min a b = if ltb b a then b else a

-- Months since year 0.
abbrev pub month_number : Date → ℕ
month_number d = d.year * 12 + d.month

-- Dates as texts YYYY-MM-DD: `a > b`.
abbrev pub is_after : Date → Date → Bool
is_after a b =
    ltb b.year a.year
    || (a.year == b.year && (ltb b.month a.month || (a.month == b.month && ltb b.day a.day)))

-- `monthsBetween`: subtraction on ℕ stops at 0, which is `Math.max(0, months)`, for the months are
-- only decreased.
unfoldable pub months_between : Date → Date → ℕ
months_between from to =
    let due_day = min from.day (days_in_month to.year to.month) in
    month_number to - month_number from - (if ltb to.day due_day then 1 else 0)
