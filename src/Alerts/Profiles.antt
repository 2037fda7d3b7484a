-- ===== src/Alerts/Profiles.antt =====
-- Alert types, flags and profiles of alert-evaluator.ts.
use shipment_tracking_system.Prelude.{
  ℕ, String, Bool, true, false, ◌&&◌, List, [], ◌∷◌, ◌==◌, any, str_eq, is_truthy, trim,
  if◌then◌else◌,
}

pub data AlertType : Type 0 where
  reservasi_penerbangan reservasi_kapal flight_tracking potensi_melebihi_sla melewati_sla
        potensi_melebihi_tjph melewati_tjph spx_tjph_alert spx_sla_alert :
      AlertType

pub record AlertFlags : Type 0 where
  pub reservasi_penerbangan : Bool
  pub reservasi_kapal : Bool
  pub flight_tracking : Bool
  pub potensi_melebihi_sla : Bool
  pub melewati_sla : Bool
  pub potensi_melebihi_tjph : Bool
  pub melewati_tjph : Bool
  pub spx_tjph_alert : Bool
  pub spx_sla_alert : Bool

pub record AlertProfile : Type 0 where
  pub alert_types : List AlertType
  pub completion_field : String
  pub spx_completion_field : String
  pub arrival_field : String
  pub departure_field : String
  pub reservation_field : String
  pub reservation_alert_type : AlertType
  pub use_smu_tracking : Bool

abbrev pub air_alert_profile : AlertProfile
air_alert_profile = record {
  alert_types =
      AlertType.reservasi_penerbangan ∷ AlertType.flight_tracking ∷ AlertType.potensi_melebihi_sla
      ∷ AlertType.melewati_sla ∷ AlertType.potensi_melebihi_tjph ∷ AlertType.melewati_tjph
      ∷ AlertType.spx_tjph_alert ∷ AlertType.spx_sla_alert ∷ [];
  completion_field = "ata_vendor_wh_destination";
  spx_completion_field = "completed_time";
  arrival_field = "ata_flight";
  departure_field = "atd_flight";
  reservation_field = "awb";
  reservation_alert_type = AlertType.reservasi_penerbangan;
  use_smu_tracking = true;
}

abbrev pub sea_alert_profile : AlertProfile
sea_alert_profile = record {
  alert_types =
      AlertType.reservasi_kapal ∷ AlertType.potensi_melebihi_sla ∷ AlertType.melewati_sla
      ∷ AlertType.potensi_melebihi_tjph ∷ AlertType.melewati_tjph ∷ AlertType.spx_sla_alert
      ∷ AlertType.spx_tjph_alert ∷ [];
  completion_field = "ata_vendor_wh_destination_sertakan_link_evidence";
  spx_completion_field = "trip_completed";
  arrival_field = "ata_sailing";
  departure_field = "atd_sailing";
  reservation_field = "actual_ship_name";
  reservation_alert_type = AlertType.reservasi_kapal;
  use_smu_tracking = false;
}

-- `resolveAlertProfile`
unfoldable pub resolve_alert_profile : String → String → AlertProfile
resolve_alert_profile table_name sea_table_name =
    if is_truthy (trim sea_table_name) && str_eq (trim table_name) (trim sea_table_name)
    then sea_alert_profile
    else air_alert_profile

abbrev alert_number : AlertType → ℕ
alert_number AlertType.reservasi_penerbangan = 0
alert_number AlertType.reservasi_kapal = 1
alert_number AlertType.flight_tracking = 2
alert_number AlertType.potensi_melebihi_sla = 3
alert_number AlertType.melewati_sla = 4
alert_number AlertType.potensi_melebihi_tjph = 5
alert_number AlertType.melewati_tjph = 6
alert_number AlertType.spx_tjph_alert = 7
alert_number AlertType.spx_sla_alert = 8

-- `===` on alert types, and `enabled.has(key)`.
abbrev pub is_alert : AlertType → AlertType → Bool
is_alert a b = alert_number a == alert_number b

abbrev pub is_enabled : AlertProfile → AlertType → Bool
is_enabled profile t = any (λ a. is_alert a t) profile.alert_types

-- `flags[t]`
abbrev pub flag : AlertType → AlertFlags → Bool
flag AlertType.reservasi_penerbangan f = f.reservasi_penerbangan
flag AlertType.reservasi_kapal f = f.reservasi_kapal
flag AlertType.flight_tracking f = f.flight_tracking
flag AlertType.potensi_melebihi_sla f = f.potensi_melebihi_sla
flag AlertType.melewati_sla f = f.melewati_sla
flag AlertType.potensi_melebihi_tjph f = f.potensi_melebihi_tjph
flag AlertType.melewati_tjph f = f.melewati_tjph
flag AlertType.spx_tjph_alert f = f.spx_tjph_alert
flag AlertType.spx_sla_alert f = f.spx_sla_alert
