-- ===== src/Fleet/Instalments.antt =====
-- Due dates (apps/backend/src/modules/fleet-vehicles/fleet-lease.ts).
use shipment_tracking_system.Prelude.{
  ℕ, zero, suc, sym, ◌+◌, ◌-◌, ◌/◌, ◌%◌, ◌≤◌, ◌<◌, true, false, ◌≡◌, refl, none, some, arith, ltb,
  ◌==◌, ◌||◌, ◌&&◌, ◌∙◌, Bool-cases, inl, inr, ◌↔◌, ap, if◌then◌else◌, get_or,
}
use shipment_tracking_system.Fleet.{
  Date, days_in_month, min, month_number, is_after, months_between, LeaseMath, due_count,
  compute_lease,
}

-- A day of the calendar.
abbrev pub IsDate : Date → Type 0
IsDate d = (d.month < 12) × (0 < d.day) × (d.day ≤ days_in_month d.year d.month)

-- The date `n` months after `d`: its day, or the last of a month that has no such day.
abbrev pub months_later : Date → ℕ → Date
months_later d n =
    let m = month_number d + n in
    record { year = m / 12; month = m % 12; day = min d.day (days_in_month (m / 12) (m % 12)) }

-- Dates are ordered as their months are, and within a month as their days are.
is_after-month_number :
    (a b : Date)
    → a.month < 12
    → b.month < 12
    → is_after a b ≡ (
        ltb (month_number b) (month_number a)
        || (month_number a == month_number b && ltb b.day a.day))
is_after-month_number a b va vb = ground arith

month_number-months_later :
    (d : Date) (n : ℕ) → month_number (months_later d n) ≡ month_number d + n
month_number-months_later d n = omega arith

month_later_lt : (d : Date) (n : ℕ) → (months_later d n).month < 12
month_later_lt d n = omega arith

-- A date in the month of the due date.
same_month :
    (d t : Date) (n : ℕ)
    → t.month < 12
    → month_number t ≡ month_number d + n
    → (months_later d n).day ≡ min d.day (days_in_month t.year t.month)
same_month d t n v e =
    let y : (month_number d + n) / 12 ≡ t.year = omega (arith, e, v) in
    let m : (month_number d + n) % 12 ≡ t.month = omega (arith, e, v) in
    ap (min d.day)
      (ap (λ k. days_in_month k ((month_number d + n) % 12)) y ∙ ap (days_in_month t.year) m)

-- Months `f` and `t`, the day `day` and the due day of month `t`.
count_iff :
    (f t n due due' day : ℕ)
    → (t ≡ f + (n + 1) → due ≡ due')
    → (n < t - f - (if ltb day due' then 1 else 0))
      ↔ ((ltb t (f + (n + 1)) || (f + (n + 1) == t && ltb day due)) ≡ false)
count_iff f t n due due' day same = elim (Bool-cases (t == f + (n + 1))) [
  | inr other ↦ ground (arith, other)
  | inl at ↦
      let e : t ≡ f + (n + 1) = ground (arith, at) in
      let d : due ≡ due' = same e in ground (arith, e, d)
]

-- For dates of the calendar, at least `n + 1` months have passed if and only if the due date `n + 1`
-- months after the start is not after today: an instalment counts on its due date, which is the last
-- day of a month that is too short.
pub months_between_iff :
    (from to : Date) (n : ℕ)
    → IsDate from
    → IsDate to
    → (n < months_between from to) ↔ (is_after (months_later from (n + 1)) to ≡ false)
unfolding months_between
months_between_iff from to n v w =
    let due = months_later from (n + 1) in
    rw (is_after-month_number due to (month_later_lt from (n + 1)) w.0) (
      rw (month_number-months_later from (n + 1)) (
        count_iff (month_number from) (month_number to) n due.day
          (min from.day (days_in_month to.year to.month)) to.day (same_month from to (n + 1) w.0)))

months_later-zero : (d : Date) → IsDate d → months_later d 0 ≡ d
months_later-zero d v =
    let y : (month_number d + 0) / 12 ≡ d.year = omega (arith, v.0) in
    let m : (month_number d + 0) % 12 ≡ d.month = omega (arith, v.0) in
    let capped : min d.day (days_in_month d.year d.month) ≡ d.day = ground (arith, v) in
    rw y (rw m (rw capped refl))

-- Where the start is still to come, so is every later due date.
is_after-months_later :
    (d t : Date) (n : ℕ)
    → d.month < 12
    → t.month < 12
    → is_after d t ≡ true
    → is_after (months_later d (n + 1)) t ≡ true
is_after-months_later d t n v w after =
    rw (is_after-month_number (months_later d (n + 1)) t (month_later_lt d (n + 1)) w) (
      rw (month_number-months_later d (n + 1))
        (let h = sym (is_after-month_number d t v w) ∙ after in ground (arith, h)))

-- The instalments due with a start are those whose due date has come.
due_iff :
    (start today : Date) (n : ℕ)
    → IsDate start
    → IsDate today
    → (n < (if is_after start today then 0 else months_between start today + 1))
      ↔ (is_after (months_later start n) today ≡ false)
due_iff start today zero v w =
    let e = ap (λ d. is_after d today) (months_later-zero start v) in
    ((λ lt. e ∙ ground (arith, lt)), (λ h. let begun = sym e ∙ h in ground (arith, begun)))
due_iff start today (suc n) v w =
    let step : suc n ≡ n + 1 = omega arith in
    rw step (
      let months = months_between_iff start today n v w in
      elim (Bool-cases (is_after start today)) [
        | inl after ↦
            let later = is_after-months_later start today n v.0 w.0 after in
            rw after ((λ lt. absurd (omega (arith, lt))), (λ h. ground (arith, later, h)))
        | inr begun ↦
            rw begun
              ((λ lt. months.0 (omega (arith, lt))), (λ h. let q = months.1 h in omega (arith, q)))
      ])

min_lt_iff : (n a b : ℕ) → (n < min a b) ↔ ((n < a) × (n < b))
min_lt_iff n a b = ground arith

-- With dates of the calendar and a start, without an override: the instalment `n` (counted from 0) is
-- among those paid if and only if it is within the tenor and its due date, `n` months after the start,
-- is not after today.
pub paid_iff :
    (input : LeaseMath) (start today : Date) (n : ℕ)
    → input.angsuran_terbayar_override ≡ none
    → input.angsuran_mulai ≡ some start
    → IsDate start
    → IsDate today
    → (n < (compute_lease input today).angsuran_terbayar)
      ↔ ((n < get_or input.tenor_bulan 0) × (is_after (months_later start n) today ≡ false))
unfolding compute_lease due_count
paid_iff input start today n no_override starts v w =
    let due = due_iff start today n v w in
    let tenor = get_or input.tenor_bulan 0 in
    let count = if is_after start today then 0 else months_between start today + 1 in
    let clamp = min_lt_iff n tenor count in
    rw (no_override, starts)
      ((λ lt. let both = clamp.0 lt in (both.0, due.0 both.1)), (λ h. clamp.1 (h.0, due.1 h.1)))
