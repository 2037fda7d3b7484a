-- ===== src/Sessions/Lifetime.antt =====
-- The lifetimes that the service and the controller of apps/backend/src/modules/auth read.
use shipment_tracking_system.Prelude.{
  ℕ, ◌+◌, ◌-◌, ◌*◌, true, ◌≡◌, refl, ◌↔◌, none, some, List, [], ◌∷◌, ◌++◌, String, codes, All,
  Bool-cases, Option-cases, if◌then◌else◌, get_or, arith, inl, inr, ap, ◌⊎◌, ◌≤◌, ◌==◌, All-mono,
}
use shipment_tracking_system.Auth.{
  is_digit, multiplier, match_expiry, match_start, match_ms, parse_expiry, parse_to_ms,
}

-- The number that a row of decimal digits writes, after the digits read so far.
abbrev number_from : ℕ → List ℕ → ℕ
number_from n [] = n
number_from n (c ∷ cs) = number_from (n * 10 + (c - b'0')) cs

-- What the matcher accepts: one or more digits and a unit, by its own tests.
record IsMatched (cs : List ℕ) (ms : ℕ) : Type 0 where
  pub first : ℕ
  pub digits : List ℕ
  pub unit : ℕ
  pub factor : ℕ
  pub first_digit : is_digit first ≡ true
  pub all_digits : All (λ c. is_digit c ≡ true) digits
  pub unit_factor : multiplier unit ≡ some factor
  pub written : cs ≡ first ∷ (digits ++ unit ∷ [])
  pub value : ms ≡ number_from (first - b'0') digits * factor

match_expiry-digits :
    (n : ℕ) (ds : List ℕ) (u m : ℕ)
    → All (λ c. is_digit c ≡ true) ds
    → multiplier u ≡ some m
    → match_expiry n (ds ++ u ∷ []) ≡ some (number_from n ds * m)
unfolding match_expiry
match_expiry-digits n [] u m h e = ground arith
match_expiry-digits n (c ∷ []) u m h e = ground arith
match_expiry-digits n (c ∷ d ∷ ds) u m h e =
    ground (arith, match_expiry-digits (n * 10 + (c - b'0')) (d ∷ ds) u m h.1 e)

-- What `match_expiry` has read when it succeeds.
record HasRead (n : ℕ) (cs : List ℕ) (r : ℕ) : Type 0 where
  digits : List ℕ
  unit : ℕ
  factor : ℕ
  all_digits : All (λ c. is_digit c ≡ true) digits
  unit_factor : multiplier unit ≡ some factor
  written : cs ≡ digits ++ unit ∷ []
  value : r ≡ number_from n digits * factor

match_expiry-HasRead : (n : ℕ) (cs : List ℕ) (r : ℕ) → match_expiry n cs ≡ some r → HasRead n cs r
unfolding match_expiry
match_expiry-HasRead n [] r e = absurd (cc)
match_expiry-HasRead n (c ∷ []) r e = elim (Option-cases (multiplier c)) [
  | inl bad ↦ absurd (ground arith)
  | inr (m, good) ↦ record {
    digits = [];
    unit = c;
    factor = m;
    all_digits = tt;
    unit_factor = good;
    written = refl;
    value = ground arith;
  }
]
match_expiry-HasRead n (c ∷ d ∷ cs) r e = elim (Bool-cases (is_digit c)) [
  | inl digit ↦
      let e' : match_expiry (n * 10 + (c - b'0')) (d ∷ cs) ≡ some r = ground arith in
      let h = match_expiry-HasRead (n * 10 + (c - b'0')) (d ∷ cs) r e' in
      record {
        digits = c ∷ h.digits;
        unit = h.unit;
        factor = h.factor;
        all_digits = (digit, h.all_digits);
        unit_factor = h.unit_factor;
        written = ap (λ l. c ∷ l) h.written;
        value = h.value;
      }
  | inr other ↦ absurd (ground arith)
]

match_start-IsMatched : (cs : List ℕ) (ms : ℕ) → (match_start cs ≡ some ms) ↔ IsMatched cs ms
unfolding match_start
match_start-IsMatched [] ms = ((λ e. absurd (cc)), λ h. absurd (cc (h.written)))
match_start-IsMatched (c ∷ cs) ms = (
  (λ e. elim (Bool-cases (is_digit c)) [
    | inr other ↦ absurd (ground arith)
    | inl digit ↦
        let e' : match_expiry (c - b'0') cs ≡ some ms = ground arith in
        let h = match_expiry-HasRead (c - b'0') cs ms e' in
        record {
          first = c;
          digits = h.digits;
          unit = h.unit;
          factor = h.factor;
          first_digit = digit;
          all_digits = h.all_digits;
          unit_factor = h.unit_factor;
          written = ap (λ l. c ∷ l) h.written;
          value = h.value;
        }
  ]),
  λ h. ground (
    arith,
    h.written,
    h.first_digit,
    h.value,
    match_expiry-digits (h.first - b'0') h.digits h.unit h.factor h.all_digits h.unit_factor,
  ),
)

-- A decimal digit, and a unit with its milliseconds.
abbrev pub IsDigit : ℕ → Type 0
IsDigit c = (48 ≤ c) × (c ≤ 57)

abbrev pub IsUnit : ℕ → ℕ → Type 0
IsUnit u ms =
    ((u ≡ 115) × (ms ≡ 1000))
    ⊎ ((u ≡ 109) × (ms ≡ 60_000))
    ⊎ ((u ≡ 104) × (ms ≡ 3_600_000))
    ⊎ ((u ≡ 100) × (ms ≡ 86_400_000))

-- A lifetime as it is written: one or more decimal digits, and s, m, h or d.
pub record IsLifetime (cs : List ℕ) (ms : ℕ) : Type 0 where
  pub first : ℕ
  pub digits : List ℕ
  pub unit : ℕ
  pub factor : ℕ
  pub first_digit : IsDigit first
  pub all_digits : All IsDigit digits
  pub unit_factor : IsUnit unit factor
  pub written : cs ≡ first ∷ (digits ++ unit ∷ [])
  pub value : ms ≡ number_from (first - 48) digits * factor

is_digit_iff : (c : ℕ) → (is_digit c ≡ true) ↔ IsDigit c
is_digit_iff c = ((λ e. (ground (arith, e), ground (arith, e))), (λ h. ground (arith, h.0, h.1)))

multiplier_iff : (u m : ℕ) → (multiplier u ≡ some m) ↔ IsUnit u m
multiplier_iff u m = (
  (λ e. elim (Bool-cases (u == 115)) [
    | inl s ↦ inl (ground (arith, e, s), ground (arith, e, s))
    | inr ns ↦ elim (Bool-cases (u == 109)) [
      | inl s ↦ inr (inl (ground (arith, e, s), ground (arith, e, s)))
      | inr nm ↦ elim (Bool-cases (u == 104)) [
        | inl s ↦ inr (inr (inl (ground (arith, e, s), ground (arith, e, s))))
        | inr nh ↦ elim (Bool-cases (u == 100)) [
          | inl s ↦ inr (inr (inr (ground (arith, e, s), ground (arith, e, s))))
          | inr nd ↦ absurd (ground (arith, e, ns, nm, nh, nd))
        ]
      ]
    ]
  ]),
  (λ h. elim h [
    | inl (u_is, m_is) ↦ rw u_is (rw m_is refl)
    | inr (inl (u_is, m_is)) ↦ rw u_is (rw m_is refl)
    | inr (inr (inl (u_is, m_is))) ↦ rw u_is (rw m_is refl)
    | inr (inr (inr (u_is, m_is))) ↦ rw u_is (rw m_is refl)
  ]),
)

-- The matcher answers `ms` for a text exactly when the text is a lifetime of `ms` milliseconds:
-- one or more decimal digits, the number they write, times 1000, 60,000, 3,600,000 or 86,400,000 for
-- the s, m, h or d that follows, and nothing else.
pub match_start_iff : (cs : List ℕ) (ms : ℕ) → (match_start cs ≡ some ms) ↔ IsLifetime cs ms
match_start_iff cs ms =
    let (to, from) = match_start-IsMatched cs ms in
    (
      (λ e.
          let h = to e in
          record {
            first = h.first;
            digits = h.digits;
            unit = h.unit;
            factor = h.factor;
            first_digit = (is_digit_iff h.first).0 h.first_digit;
            all_digits =
                All-mono (λ c. is_digit c ≡ true) IsDigit h.digits (λ c. (is_digit_iff c).0)
                  h.all_digits;
            unit_factor = (multiplier_iff h.unit h.factor).0 h.unit_factor;
            written = h.written;
            value = h.value;
          }),
      (λ h. from (record {
        first = h.first;
        digits = h.digits;
        unit = h.unit;
        factor = h.factor;
        first_digit = (is_digit_iff h.first).1 h.first_digit;
        all_digits =
            All-mono IsDigit (λ c. is_digit c ≡ true) h.digits (λ c. (is_digit_iff c).1)
              h.all_digits;
        unit_factor = (multiplier_iff h.unit h.factor).1 h.unit_factor;
        written = h.written;
        value = h.value;
      })),
    )

-- A configured lifetime is read as its number times its unit.
pub parse_expiry_lem :
    (value : String) (ms : ℕ) → IsLifetime (codes value) ms → parse_expiry value ≡ ms
unfolding parse_expiry
parse_expiry_lem value ms h = rw ((match_start_iff (codes value) ms).1 h) refl

-- Any other text means seven days.
pub parse_expiry-default :
    (value : String) → ((n : ℕ) → ¬ IsLifetime (codes value) n) → parse_expiry value ≡ 604_800_000
unfolding parse_expiry
parse_expiry-default value none_fits = elim (Option-cases (match_start (codes value))) [
  | inl e ↦ rw e refl
  | inr (n, e) ↦ absurd (none_fits n ((match_start_iff (codes value) n).0 e))
]

match_ms-eq : (n : ℕ) (cs : List ℕ) → match_ms n cs ≡ match_expiry n cs
unfolding match_ms match_expiry
match_ms-eq n [] = refl
match_ms-eq n (c ∷ []) = refl
match_ms-eq n (c ∷ d ∷ cs) = rw (match_ms-eq (n * 10 + (c - b'0')) (d ∷ cs))

-- The controller and the service, which parse a configured lifetime by functions of their own, read
-- the same number of milliseconds from every text, their default of seven days included.
pub parse_to_ms-eq-parse_expiry : (value : String) → parse_to_ms value ≡ parse_expiry value
unfolding parse_to_ms parse_expiry match_start
parse_to_ms-eq-parse_expiry value = by_codes (codes value)
  where
    by_codes :
        (cs : List ℕ)
        → get_or
            (elim cs [ [] ↦ none | c ∷ cs' ↦ if is_digit c then match_ms (c - b'0') cs' else none ])
            604_800_000
          ≡ get_or (match_start cs) 604_800_000
    by_codes [] = refl
    by_codes (c ∷ cs) = rw (match_ms-eq (c - b'0') cs)
