-- ===== src/Simulation/Ranges.antt =====
-- The range of half months between two of them (period.ts).
use shipment_tracking_system.Prelude.{
  ℕ, zero, suc, ◌+◌, ◌-◌, ◌*◌, ◌≤◌, true, false, some, ◌∷◌, leb, if◌then◌else◌, ◌≡◌, inl, inr, refl,
  sym, ap, ◌∙◌, arith, Bool-cases, length,
}
use shipment_tracking_system.Simulation.Period.{
  Text, PeriodParts, period_parts, period_key, next_period, at_most, between_from, periods_between,
  forward_from, periods_forward,
}

-- A month of the calendar, and one of its halves.
abbrev pub IsPeriod : PeriodParts → Type 0
IsPeriod p = (1 ≤ p.month) × (p.month ≤ 12) × (1 ≤ p.half) × (p.half ≤ 2)

-- How many half months have passed, from a fixed one.
abbrev pub index : PeriodParts → ℕ
index p = p.year * 24 + p.month * 2 + p.half

abbrev pub min : ℕ → ℕ → ℕ
min a b = if leb a b then a else b

next_period-index : (p : PeriodParts) → IsPeriod p → index (next_period p) ≡ index p + 1
unfolding next_period
next_period-index p h = ground (arith, h)

next_period-IsPeriod : (p : PeriodParts) → IsPeriod p → IsPeriod (next_period p)
unfolding next_period
next_period-IsPeriod p h = ground (arith, h)

at_most-index :
    (p e : PeriodParts) → IsPeriod p → IsPeriod e → at_most p e ≡ leb (index p) (index e)
unfolding at_most
at_most-index p e h k = ground (arith, h, k)

length-forward_from : (count : ℕ) (p : PeriodParts) → length (forward_from count p) ≡ count
unfolding forward_from
length-forward_from zero p = refl
length-forward_from (suc count) p = omega (arith, length-forward_from count (next_period p))

min-zero : (b : ℕ) → min 0 b ≡ 0
min-zero b = ground arith

min-past : (l a e : ℕ) → leb a e ≡ false → min (suc l) (e + 1 - a) ≡ 0
min-past l a e h = ground (arith, h)

min-next : (l a e : ℕ) → leb a e ≡ true → min (suc l) (e + 1 - a) ≡ suc (min l (e + 1 - (a + 1)))
min-next l a e h = ground (arith, h)

between_from-forward :
    (left : ℕ) (p e : PeriodParts)
    → IsPeriod p
    → IsPeriod e
    → between_from left p e ≡ forward_from (min left (index e + 1 - index p)) p
unfolding between_from forward_from
between_from-forward zero p e h k = rw (min-zero (index e + 1 - index p)) refl
between_from-forward (suc left) p e h k =
    let rest = between_from-forward left (next_period p) e (next_period-IsPeriod p h) k in
    let order = at_most-index p e h k in
    elim (Bool-cases (at_most p e)) [
      | inr n ↦ rw n (rw (min-past left (index p) (index e) (sym order ∙ n)) refl)
      | inl y ↦
          let count = min-next left (index p) (index e) (sym order ∙ y) in
          rw y (
            rw count (
              ap (λ l. period_key p ∷ l)
                (rest
                  ∙ ap (λ i. forward_from (min left (index e + 1 - i)) (next_period p))
                      (next_period-index p h))))
    ]

-- Between two half months of the calendar stand the keys of the half months from the first to the
-- second, both among them, but at most 241: as many as that from the first one on, which
-- `periodsForward` gives too.
pub periods_between-forward :
    (start end : Text) (s e : PeriodParts)
    → period_parts start ≡ some s
    → period_parts end ≡ some e
    → IsPeriod s
    → IsPeriod e
    → (periods_between start end ≡ periods_forward start (min 241 (index e + 1 - index s)))
      × (length (periods_between start end) ≡ min 241 (index e + 1 - index s))
unfolding periods_between periods_forward
periods_between-forward start end s e p q h k =
    let range = between_from-forward 241 s e h k in
    (
      rw p (rw q range),
      rw p (rw q (ap length range ∙ length-forward_from (min 241 (index e + 1 - index s)) s)),
    )
