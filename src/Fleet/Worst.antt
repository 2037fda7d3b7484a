-- ===== src/Fleet/Worst.antt =====
-- Badges (apps/backend/src/modules/fleet-vehicles/fleet-severity.ts).
use shipment_tracking_system.Prelude.{
  ℕ, ◌+◌, get_or, leb, ◌↔◌, ◌≤◌, ◌≡◌, refl, Option, some, List, [], ◌∷◌, All, In, inl, inr, ◌⊎◌,
  arith, Bool-cases, ltb, ap, ◌∙◌,
}
use shipment_tracking_system.Fleet.{
  FleetSeverity, crit, warn, ℤ, pos, negsuc, severity_rank, severity_for, worst_severity, worse,
  reduce,
}

-- `a` is at most `b`.
abbrev pub IsLe : ℤ → ℤ → Type 0
IsLe (pos a) (pos b) = a ≤ b
IsLe (pos a) (negsuc b) = ⊥
IsLe (negsuc a) (pos b) = Unit {0}
IsLe (negsuc a) (negsuc b) = b ≤ a

-- A document without a date has no badge. One with a date is critical exactly when its date is past,
-- fine exactly when it has more days left than the warning period, which is 30 days where none is
-- given, and has a warning exactly in between, on the last day of the period too.
pub severity_for_iff :
    (days : ℤ) (warn_days : Option ℕ)
    → ((severity_for (some days) warn_days ≡ crit) ↔ IsLe days (negsuc 0))
      × ((severity_for (some days) warn_days ≡ FleetSeverity.ok)
          ↔ IsLe (pos (get_or warn_days 30 + 1)) days)
      × ((severity_for (some days) warn_days ≡ warn)
          ↔ (IsLe (pos 0) days × IsLe days (pos (get_or warn_days 30))))
      × (severity_for Option.none warn_days ≡ FleetSeverity.none)
unfolding severity_for
severity_for_iff (pos a) w = elim (Bool-cases (leb a (get_or w 30))) [
  | inl y ↦ (
    ((λ e. absurd (ground (arith, e, y))), (λ h. absurd h)),
    ((λ e. absurd (ground (arith, e, y))), (λ h. absurd (ground (arith, h, y)))),
    ((λ e. (omega arith, ground (arith, y))), (λ h. ground (arith, y))),
    refl,
  )
  | inr n ↦ (
    ((λ e. absurd (ground (arith, e, n))), (λ h. absurd h)),
    ((λ e. ground (arith, n)), (λ h. ground (arith, n))),
    ((λ e. absurd (ground (arith, e, n))), (λ h. absurd (ground (arith, h.1, n)))),
    refl,
  )
]
severity_for_iff (negsuc a) w = (
  ((λ e. omega arith), (λ e. refl)),
  ((λ e. absurd (cc e)), (λ h. absurd h)),
  ((λ e. absurd (cc e)), (λ h. absurd h.0)),
  refl,
)

-- What `reduce` returns is one of what it was given, and none of those is worse.
reduce_lem :
    (worst : FleetSeverity) (l : List FleetSeverity)
    → ((reduce worst l ≡ worst) ⊎ In (reduce worst l) l)
      × (severity_rank (reduce worst l) ≤ severity_rank worst)
      × All (λ s. severity_rank (reduce worst l) ≤ severity_rank s) l
reduce_lem worst [] = (inl refl, omega arith, tt)
reduce_lem worst (s ∷ l) =
    let (from, le, all) = reduce_lem (worse worst s) l in
    elim (Bool-cases (ltb (severity_rank s) (severity_rank worst))) [
      | inl lower ↦
          let e : worse worst s ≡ s = rw lower refl in
          let r = ap severity_rank e in
          (
            elim from [ inl q ↦ inr (inl (q ∙ e)) | inr m ↦ inr (inr m) ],
            ground (arith, le, r, lower),
            (omega (arith, le, r), all),
          )
      | inr other ↦
          let e : worse worst s ≡ worst = rw other refl in
          let r = ap severity_rank e in
          (
            elim from [ inl q ↦ inl (q ∙ e) | inr m ↦ inr (inr m) ],
            omega (arith, le, r),
            (ground (arith, le, r, other), all),
          )
    ]

-- The badge of a vehicle is `none` or that of one of its documents, and no document's is worse.
pub worst_severity_lem :
    (l : List FleetSeverity)
    → ((worst_severity l ≡ FleetSeverity.none) ⊎ In (worst_severity l) l)
      × All (λ s. severity_rank (worst_severity l) ≤ severity_rank s) l
unfolding worst_severity
worst_severity_lem l = let (from, le, all) = reduce_lem FleetSeverity.none l in (from, all)
