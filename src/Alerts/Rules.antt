-- ===== src/Alerts/Rules.antt =====
-- When a shipment row has an alert (apps/backend/src/modules/air-shipments/alert-evaluator.ts).
use shipment_tracking_system.Prelude.{
  ℕ, ◌+◌, ◌*◌, ◌≤◌, ◌<◌, Bool, true, false, ◌≡◌, refl, sym, ◌∙◌, Option, none, some, not, ◌&&◌,
  is_some, get_or, arith, ◌↔◌,
}
use shipment_tracking_system.Alerts.{
  Row, Engine, AlertType, AlertProfile, evaluate_alerts, flag, flags_of, raw_flag, is_enabled,
  is_overdue, is_past, limit, completed_time, spx_completed_time, atd_origin, needs_reservation,
  may_exceed_sla, may_exceed_tjph, is_empty_value, get_field_value, parse_date, parse_duration_safe,
}

flag-flags_of : (t : AlertType) (test : AlertType → Bool) → flag t (flags_of test) ≡ test t
flag-flags_of AlertType.reservasi_penerbangan test = refl
flag-flags_of AlertType.reservasi_kapal test = refl
flag-flags_of AlertType.flight_tracking test = refl
flag-flags_of AlertType.potensi_melebihi_sla test = refl
flag-flags_of AlertType.melewati_sla test = refl
flag-flags_of AlertType.potensi_melebihi_tjph test = refl
flag-flags_of AlertType.melewati_tjph test = refl
flag-flags_of AlertType.spx_tjph_alert test = refl
flag-flags_of AlertType.spx_sla_alert test = refl

flag-evaluate_alerts :
    (e : Engine) (row : Row) (n m now : ℕ) (profile : AlertProfile) (t : AlertType)
    → flag t (evaluate_alerts e row n m now profile)
      ≡ (is_enabled profile t && raw_flag e row profile n m now t)
unfolding evaluate_alerts
flag-evaluate_alerts e row n m now profile t =
    flag-flags_of t (λ t. is_enabled profile t && raw_flag e row profile n m now t)

-- What is past stays past, at the completion or as the clock runs.
is_past_mono :
    (done : Option ℕ) (now later : ℕ) (max : Option ℕ)
    → now ≤ later
    → is_past (get_or done now) max ≡ true
    → is_past (get_or done later) max ≡ true
is_past_mono none now later none le h = h
is_past_mono none now later (some max) le h = ground (arith, le, h)
is_past_mono (some t) now later max le h = h

-- One test among others changes from true to true.
and_mono : (a b : Bool) {c : Bool} → (b ≡ true → c ≡ true) → (a && b) ≡ true → (a && c) ≡ true
and_mono true b k h = k h
and_mono false b k h = h

both_true : {a b : Bool} → a ≡ true → b ≡ true → (a && b) ≡ true
both_true x y = rw x (rw y refl)

and_right : (a : Bool) {b : Bool} → (a && b) ≡ true → b ≡ true
and_right true h = h
and_right false h = absurd (ground (arith, h))

middle_mono :
    (a b c d t u : Bool)
    → (t ≡ true → u ≡ true)
    → (a && b && t && c && d) ≡ true
    → (a && b && u && c && d) ≡ true
middle_mono true true c d true u k h = rw (k refl) h
middle_mono true true c d false u k h = absurd (ground (arith, h))
middle_mono true false c d t u k h = absurd (ground (arith, h))
middle_mono false b c d t u k h = absurd (ground (arith, h))

is_overdue_mono :
    (o : Option ℕ) (n now later : ℕ)
    → now ≤ later
    → is_overdue o n now ≡ true
    → is_overdue o n later ≡ true
is_overdue_mono none n now later le h = h
is_overdue_mono (some atd) n now later le h = ground (arith, le, h)

module _ (e : Engine) (row : Row) (n m now later : ℕ) (profile : AlertProfile)
    (le : now ≤ later) where
  needs_reservation_mono :
      needs_reservation e row profile n now ≡ true → needs_reservation e row profile n later ≡ true
  unfolding needs_reservation
  needs_reservation_mono h =
      middle_mono (is_empty_value (get_field_value row profile.reservation_field))
        (not (is_some (completed_time e row profile)))
        (is_empty_value (get_field_value row profile.departure_field))
        (is_empty_value (get_field_value row profile.arrival_field))
        (is_overdue (atd_origin e row profile) (n * 3600000) now)
        (is_overdue (atd_origin e row profile) (n * 3600000) later)
        (is_overdue_mono (atd_origin e row profile) (n * 3600000) now later le) h

  raw_flag_mono :
      (t : AlertType)
      → raw_flag e row profile n m now t ≡ true
      → raw_flag e row profile n m later t ≡ true
  raw_flag_mono AlertType.flight_tracking h = h
  raw_flag_mono AlertType.potensi_melebihi_sla h = h
  raw_flag_mono AlertType.melewati_sla h =
      is_past_mono (completed_time e row profile) now later _ le h
  raw_flag_mono AlertType.potensi_melebihi_tjph h = h
  raw_flag_mono AlertType.melewati_tjph h =
      is_past_mono (completed_time e row profile) now later _ le h
  raw_flag_mono AlertType.spx_tjph_alert h =
      is_past_mono (spx_completed_time e row profile) now later _ le h
  raw_flag_mono AlertType.spx_sla_alert h =
      is_past_mono (spx_completed_time e row profile) now later _ le h
  raw_flag_mono AlertType.reservasi_penerbangan h = and_mono _ _ needs_reservation_mono h
  raw_flag_mono AlertType.reservasi_kapal h = and_mono _ _ needs_reservation_mono h

-- Time alone never clears an alert: with the row, the profile and the hours as they are, an alert that
-- is raised at one time is raised at every later time.
pub alerts_mono :
    (e : Engine) (row : Row) (n_hours m_hours now later : ℕ) (profile : AlertProfile)
    (t : AlertType)
    → now ≤ later
    → flag t (evaluate_alerts e row n_hours m_hours now profile) ≡ true
    → flag t (evaluate_alerts e row n_hours m_hours later profile) ≡ true
alerts_mono e row n m now later profile t le h =
    flag-evaluate_alerts e row n m later profile t
    ∙ and_mono _ _ (raw_flag_mono e row n m now later profile le t)
        (sym (flag-evaluate_alerts e row n m now profile t) ∙ h)

past_limit_iff :
    (o p : Option ℕ) (time : ℕ)
    → (is_past time (limit o p) ≡ true)
      ↔ ((a : ℕ) × (b : ℕ) × (o ≡ some a) × (p ≡ some b) × (a + b < time))
past_limit_iff none p time = ((λ h. absurd (ground (arith, h))), (λ (a, b, e, _, _). absurd (cc)))
past_limit_iff (some a) none time =
    ((λ h. absurd (ground (arith, h))), (λ (x, b, _, e, _). absurd (cc)))
past_limit_iff (some a) (some b) time =
    ((λ h. (a, b, refl, refl, ground (arith, h))), (λ (x, y, e, q, lt). ground (arith, e, q, lt)))

-- With a profile that computes it, the SLA alert is raised if and only if the row has a departure from
-- the origin and an SLA, and the completion, or the present where there is none, is after their sum.
pub melewati_sla_iff :
    (e : Engine) (row : Row) (n_hours m_hours now : ℕ) (profile : AlertProfile)
    → is_enabled profile AlertType.melewati_sla ≡ true
    → ((evaluate_alerts e row n_hours m_hours now profile).melewati_sla ≡ true) ↔ (
        (departed : ℕ) × (sla : ℕ) × (parse_date e (get_field_value row "atd_origin")
          ≡ some departed)
        × (parse_duration_safe e (get_field_value row "sla") ≡ some sla)
        × (departed + sla
            < get_or (parse_date e (get_field_value row profile.completion_field)) now))
melewati_sla_iff e row n m now profile enabled =
    let is = flag-evaluate_alerts e row n m now profile AlertType.melewati_sla in
    let past =
      past_limit_iff (parse_date e (get_field_value row "atd_origin"))
        (parse_duration_safe e (get_field_value row "sla"))
        (get_or (parse_date e (get_field_value row profile.completion_field)) now) in
    (
      (λ h. past.0 (and_right (is_enabled profile AlertType.melewati_sla) (sym is ∙ h))),
      (λ w. is ∙ both_true enabled (past.1 w)),
    )

and_false : (a : Bool) {b : Bool} → b ≡ false → (a && b) ≡ false
and_false a h = rw h (ground arith)

completed_needs_none :
    (e : Engine) (row : Row) (n now : ℕ) (profile : AlertProfile) (done : ℕ)
    → parse_date e (get_field_value row profile.completion_field) ≡ some done
    → needs_reservation e row profile n now ≡ false
unfolding needs_reservation
completed_needs_none e row n now profile done completed = ground (arith, completed)

flag-false :
    (e : Engine) (row : Row) (n m now : ℕ) (profile : AlertProfile) (t : AlertType)
    → raw_flag e row profile n m now t ≡ false
    → flag t (evaluate_alerts e row n m now profile) ≡ false
flag-false e row n m now profile t off =
    flag-evaluate_alerts e row n m now profile t ∙ and_false (is_enabled profile t) off

completed_no_sla :
    (e : Engine) (row : Row) (m : ℕ) (profile : AlertProfile) (done : ℕ)
    → parse_date e (get_field_value row profile.completion_field) ≡ some done
    → may_exceed_sla e row profile m ≡ false
unfolding may_exceed_sla
completed_no_sla e row m profile done completed = ground (arith, completed)

completed_no_tjph :
    (e : Engine) (row : Row) (m : ℕ) (profile : AlertProfile) (done : ℕ)
    → parse_date e (get_field_value row profile.completion_field) ≡ some done
    → may_exceed_tjph e row profile m ≡ false
unfolding may_exceed_tjph
completed_no_tjph e row m profile done completed = ground (arith, completed)

-- A completed row has no reservation alert and no alert of a potential breach.
pub completed_no_potential :
    (e : Engine) (row : Row) (n_hours m_hours now done : ℕ) (profile : AlertProfile)
    → parse_date e (get_field_value row profile.completion_field) ≡ some done
    → let flags = evaluate_alerts e row n_hours m_hours now profile in
      (flags.reservasi_penerbangan ≡ false)
      × (flags.reservasi_kapal ≡ false)
      × (flags.potensi_melebihi_sla ≡ false)
      × (flags.potensi_melebihi_tjph ≡ false)
completed_no_potential e row n m now done profile completed =
    let none_needed = completed_needs_none e row n now profile done completed in
    (
      flag-false e row n m now profile AlertType.reservasi_penerbangan (and_false _ none_needed),
      flag-false e row n m now profile AlertType.reservasi_kapal (and_false _ none_needed),
      flag-false e row n m now profile AlertType.potensi_melebihi_sla
          (completed_no_sla e row m profile done completed),
      flag-false e row n m now profile AlertType.potensi_melebihi_tjph
          (completed_no_tjph e row m profile done completed),
    )
