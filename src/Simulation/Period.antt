-- ===== src/Simulation/Period.antt =====
-- `period.ts`: half-month periods, as parts and as keys such as 2026-03-1H. A text is the list of its
-- code points.
use shipment_tracking_system.Prelude.{
  ℕ, zero, suc, ◌+◌, ◌-◌, ◌*◌, ◌/◌, ◌%◌, Bool, ◌&&◌, Option, none, some, List, [], ◌∷◌, ◌++◌, ◌==◌,
  leb, ltb, if◌then◌else◌, codes, String,
}

abbrev pub Text : Type 0
Text = List ℕ

pub record PeriodParts : Type 0 where
  pub year : ℕ
  pub month : ℕ
  pub half : ℕ

abbrev is_digit : ℕ → Bool
is_digit c = leb 48 c && leb c 57

-- The value of a digit.
abbrev digit : ℕ → ℕ
digit c = c - 48

-- `periodParts`: four digits, two digits and one digit, with dashes between and an H at the end.
unfoldable pub period_parts : Text → Option PeriodParts
period_parts (y3 ∷ y2 ∷ y1 ∷ y0 ∷ d1 ∷ m1 ∷ m0 ∷ d2 ∷ h ∷ e ∷ []) =
    if is_digit y3
      && is_digit y2
      && is_digit y1
      && is_digit y0
      && d1 == 45
      && is_digit m1
      && is_digit m0
      && d2 == 45
      && is_digit h
      && e == 72
    then some (record {
      year = digit y3 * 1000 + digit y2 * 100 + digit y1 * 10 + digit y0;
      month = digit m1 * 10 + digit m0;
      half = digit h;
    })
    else none
period_parts _ = none

-- `String(n)`: at most as many digits as `fuel`; a number has at most as many digits as units.
abbrev digits : ℕ → ℕ → Text
digits zero n = []
digits (suc fuel) n =
    let front = digits fuel (n / 10) in
    if ltb n 10 then (48 + n) ∷ [] else front ++ (48 + n % 10) ∷ []

abbrev number_text : ℕ → Text
number_text n = digits (n + 1) n

-- `padStart(2, '0')`
abbrev pad_two : Text → Text
pad_two [] = 48 ∷ 48 ∷ []
pad_two (c ∷ []) = 48 ∷ c ∷ []
pad_two (c ∷ d ∷ s) = c ∷ d ∷ s

unfoldable pub period_key : PeriodParts → Text
period_key p =
    number_text p.year ++ 45 ∷ pad_two (number_text p.month) ++ 45 ∷ number_text p.half ++ 72 ∷ []

unfoldable pub next_period : PeriodParts → PeriodParts
next_period p =
    if p.half == 1
    then record p { half = 2 }
    else if p.month == 12
    then record { year = p.year + 1; month = 1; half = 1 }
    else record { year = p.year; month = p.month + 1; half = 1 }

-- `MONTHS_ID[month - 1]`, where a month out of range is undefined.
abbrev month_names : List String
month_names =
    "Jan" ∷ "Feb" ∷ "Mar" ∷ "Apr" ∷ "Mei" ∷ "Jun" ∷ "Jul" ∷ "Agu" ∷ "Sep" ∷ "Okt" ∷ "Nov" ∷ "Des"
    ∷ []

abbrev month_name : List String → ℕ → String
month_name l zero = "undefined"
month_name [] (suc n) = "undefined"
month_name (s ∷ l) (suc zero) = s
month_name (s ∷ l) (suc (suc n)) = month_name l (suc n)

unfoldable pub period_short : Text → Text
period_short p = elim (period_parts p) [
  | none ↦ p
  | some x ↦
      codes (month_name month_names x.month)
      ++ 32 ∷ number_text x.year
      ++ 32 ∷ 72 ∷ number_text x.half
]

-- `cmp(a, b) <= 0`
unfoldable pub at_most : PeriodParts → PeriodParts → Bool
at_most a b =
    if a.year == b.year
    then (if a.month == b.month then leb a.half b.half else ltb a.month b.month)
    else ltb a.year b.year

-- The loop of `periodsBetween`, which stops when `left` more keys have been put.
unfoldable pub between_from : ℕ → PeriodParts → PeriodParts → List Text
between_from zero p e = []
between_from (suc left) p e =
    let rest = between_from left (next_period p) e in
    if at_most p e then period_key p ∷ rest else []

-- More than 240 keys end the loop.
abbrev pub max_periods : ℕ
max_periods = 241

-- `periodsBetween`, by what its ends parse to.
abbrev pub between_parts : Option PeriodParts → Option PeriodParts → List Text
between_parts none e = []
between_parts (some s) none = []
between_parts (some s) (some e) = between_from max_periods s e

unfoldable pub periods_between : Text → Text → List Text
periods_between start end = between_parts (period_parts start) (period_parts end)

unfoldable pub forward_from : ℕ → PeriodParts → List Text
forward_from zero p = []
forward_from (suc count) p = period_key p ∷ forward_from count (next_period p)

abbrev pub forward_parts : ℕ → Option PeriodParts → List Text
forward_parts count none = []
forward_parts count (some s) = forward_from count s

unfoldable pub periods_forward : Text → ℕ → List Text
periods_forward start count = forward_parts count (period_parts start)
