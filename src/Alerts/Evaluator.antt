-- ===== src/Alerts/Evaluator.antt =====
-- `evaluateAlerts` of alert-evaluator.ts, its profiles and its flags.
use shipment_tracking_system.Prelude.{
  ℕ, ◌+◌, ◌*◌, String, Bool, false, not, ◌&&◌, ◌||◌, Option, none, some, ltb, is_truthy, is_some,
  get_or, trim, if◌then◌else◌,
}
use shipment_tracking_system.Alerts.Fields.{
  Value, text, bool, undefined, Row, Engine, is_empty_value, get_field_value, parse_duration_safe,
  parse_date, reads_as,
}
use shipment_tracking_system.Alerts.Profiles.{
  AlertType, AlertFlags, AlertProfile, is_alert, is_enabled,
}

-- The flags of a test on the alert types.
abbrev pub flags_of : (AlertType → Bool) → AlertFlags
flags_of test = record {
  reservasi_penerbangan = test AlertType.reservasi_penerbangan;
  reservasi_kapal = test AlertType.reservasi_kapal;
  flight_tracking = test AlertType.flight_tracking;
  potensi_melebihi_sla = test AlertType.potensi_melebihi_sla;
  melewati_sla = test AlertType.melewati_sla;
  potensi_melebihi_tjph = test AlertType.potensi_melebihi_tjph;
  melewati_tjph = test AlertType.melewati_tjph;
  spx_tjph_alert = test AlertType.spx_tjph_alert;
  spx_sla_alert = test AlertType.spx_sla_alert;
}

-- `atdOrigin && time !== null ? atdOrigin + time : null`
abbrev pub limit : Option ℕ → Option ℕ → Option ℕ
limit (some atd) (some time) = some (atd + time)
limit _ _ = none

-- `max !== null && time > max`
abbrev pub is_past : ℕ → Option ℕ → Bool
is_past time none = false
is_past time (some max) = ltb max time

-- `arrival !== null && max !== null && arrival + m > max`
abbrev pub arrives_late : Option ℕ → ℕ → Option ℕ → Bool
arrives_late (some arrival) m max = is_past (arrival + m) max
arrives_late none m max = false

-- `typeof v === 'string'` and a status that reads as the word.
abbrev pub has_status : Value → String → Bool
has_status (text s) word = reads_as s word
has_status _ word = false

-- `smuNotOnboard`
abbrev pub is_not_onboard : Value → Bool
is_not_onboard (text s) = is_truthy (trim s) && not (reads_as s "onboard")
is_not_onboard _ = false

-- `v === true`
abbrev pub is_true : Value → Bool
is_true (bool b) = b
is_true _ = false

-- `atdOrigin !== null && now > atdOrigin + n`
abbrev pub is_overdue : Option ℕ → (n now : ℕ) → Bool
is_overdue none n now = false
is_overdue (some atd) n now = ltb (atd + n) now

module _ (e : Engine) (row : Row) (profile : AlertProfile) where
  abbrev pub completed_time : Option ℕ
  completed_time = parse_date e (get_field_value row profile.completion_field)

  abbrev pub spx_completed_time : Option ℕ
  spx_completed_time = parse_date e (get_field_value row profile.spx_completion_field)

  abbrev pub atd_origin : Option ℕ
  atd_origin = parse_date e (get_field_value row "atd_origin")

  abbrev pub max_sla : Option ℕ
  max_sla = limit atd_origin (parse_duration_safe e (get_field_value row "sla"))

  abbrev pub max_tjph : Option ℕ
  max_tjph = limit atd_origin (parse_duration_safe e (get_field_value row "tjph"))

  -- A value that only air rows have.
  abbrev pub smu_value : String → Value
  smu_value key = if profile.use_smu_tracking then get_field_value row key else undefined

  -- `isEmptyValue(reservationValue) && reservationAlertBase`
  unfoldable pub needs_reservation : (n_hours now : ℕ) → Bool
  needs_reservation n_hours now =
      is_empty_value (get_field_value row profile.reservation_field)
      && not (is_some completed_time)
      && is_overdue atd_origin (n_hours * 3600000) now
      && is_empty_value (get_field_value row profile.departure_field)
      && is_empty_value (get_field_value row profile.arrival_field)

  -- `potensiMelebihiSla`
  unfoldable pub may_exceed_sla : (m_hours : ℕ) → Bool
  may_exceed_sla m_hours =
      let arrival = parse_date e (get_field_value row profile.arrival_field) in
      not (is_some completed_time)
      && (arrives_late arrival (m_hours * 3600000) max_sla
          || (not (is_empty_value (get_field_value row profile.departure_field))
              && is_not_onboard (smu_value "trackingan_smu")))

  -- `potensiMelebihiTjph`
  unfoldable pub may_exceed_tjph : (m_hours : ℕ) → Bool
  may_exceed_tjph m_hours =
      let arrival = parse_date e (get_field_value row profile.arrival_field) in
      not (is_some completed_time) && arrives_late arrival (m_hours * 3600000) max_tjph

  -- The flags before the mask. The reservation flag is written first, the others over it.
  abbrev pub raw_flag : (n_hours m_hours now : ℕ) → AlertType → Bool
  raw_flag n m now AlertType.flight_tracking =
      has_status (smu_value "offload_status") "offload"
      && not (profile.use_smu_tracking && is_true (get_field_value row "offload_has_evidence"))
  raw_flag n m now AlertType.potensi_melebihi_sla = may_exceed_sla m
  raw_flag n m now AlertType.melewati_sla = is_past (get_or completed_time now) max_sla
  raw_flag n m now AlertType.potensi_melebihi_tjph = may_exceed_tjph m
  raw_flag n m now AlertType.melewati_tjph = is_past (get_or completed_time now) max_tjph
  raw_flag n m now AlertType.spx_tjph_alert = is_past (get_or spx_completed_time now) max_tjph
  raw_flag n m now AlertType.spx_sla_alert = is_past (get_or spx_completed_time now) max_sla
  raw_flag n m now AlertType.reservasi_penerbangan =
      is_alert profile.reservation_alert_type AlertType.reservasi_penerbangan
      && needs_reservation n now
  raw_flag n m now AlertType.reservasi_kapal =
      is_alert profile.reservation_alert_type AlertType.reservasi_kapal && needs_reservation n now

-- `evaluateAlerts`: the flags, those that the profile does not compute false.
unfoldable pub evaluate_alerts :
    Engine → Row → (n_hours m_hours now : ℕ) → AlertProfile → AlertFlags
evaluate_alerts e row n m now profile =
    flags_of (λ t. is_enabled profile t && raw_flag e row profile n m now t)
