-- ===== src/Tests/AlertTests.antt =====
-- One air shipment, before and after it is late.
use shipment_tracking_system.Prelude.{
  ℕ, ◌+◌, ◌<◌, ◌≡◌, refl, true, false, some, [], ◌∷◌, ◌↔◌, arith, codes, length, get_or, trim,
}
use shipment_tracking_system.Alerts.{
  Row, Engine, text, AlertType, air_alert_profile, evaluate_alerts, flag, get_field_value,
  parse_date, parse_duration_safe,
}
use shipment_tracking_system.Alerts.Rules.{alerts_mono, melewati_sla_iff, completed_no_potential}

-- Texts of the row are unary times; every number is 1.
abbrev engine : Engine
engine = record {
  date = λ s. some (length (codes s));
  number = λ s. some 1000;
  parse_float = λ s. some 1000;
}

-- Departed at 2, with one hour to go.
abbrev row : Row
row = record {
  fields = ("atd_origin", text "ii") ∷ ("sla", text "1") ∷ [];
  extra_fields = ("tjph", text "1:0:0") ∷ [];
}

abbrev done_row : Row
done_row = record row { fields = ("ata_vendor_wh_destination", text "iii") ∷ row.fields }

late : flag AlertType.melewati_sla (evaluate_alerts engine row 1 1 3600003 air_alert_profile) ≡ true
unfolding evaluate_alerts get_field_value parse_date parse_duration_safe trim
late = refl

alerts_mono_example :
    flag AlertType.melewati_sla (evaluate_alerts engine row 1 1 3700000 air_alert_profile) ≡ true
alerts_mono_example =
    alerts_mono engine row 1 1 3600003 3700000 air_alert_profile AlertType.melewati_sla
      (omega arith) late

melewati_sla_iff_example :
    ((evaluate_alerts engine row 1 1 3600003 air_alert_profile).melewati_sla ≡ true) ↔ (
      (departed : ℕ) × (sla : ℕ) × (parse_date engine (get_field_value row "atd_origin")
        ≡ some departed)
      × (parse_duration_safe engine (get_field_value row "sla") ≡ some sla)
      × (departed + sla
          < get_or (parse_date engine (get_field_value row "ata_vendor_wh_destination")) 3600003))
melewati_sla_iff_example = melewati_sla_iff engine row 1 1 3600003 air_alert_profile refl

completed : parse_date engine (get_field_value done_row "ata_vendor_wh_destination") ≡ some 3
unfolding get_field_value parse_date trim
completed = refl

completed_no_potential_example :
    let flags = evaluate_alerts engine done_row 1 1 3700000 air_alert_profile in
    (flags.reservasi_penerbangan ≡ false)
    × (flags.reservasi_kapal ≡ false)
    × (flags.potensi_melebihi_sla ≡ false)
    × (flags.potensi_melebihi_tjph ≡ false)
completed_no_potential_example =
    completed_no_potential engine done_row 1 1 3700000 3 air_alert_profile completed
