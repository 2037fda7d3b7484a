-- ===== src/Tests/TrackingTests.antt =====
-- Runs of the parser of tracking answers and of the registry of airlines.
use shipment_tracking_system.Prelude.{
  String, true, false, Option, none, some, [], ◌∷◌, ◌≡◌, refl, ok, is_ok, trim, List, ◌⊎◌,
}
use shipment_tracking_system.Tracking.{
  UpdateAirlineSourceDto, update, get_by_carrier, new_source, Payload, MovementRecord,
  parse_tracking, split_awb, AirlineSource, CreateAirlineSourceDto, create, remove,
}
use shipment_tracking_system.Tracking.Registry.{OneSource, OneSource-kept}

abbrev same_text : String → String
same_text s = s

abbrev flight : String → String → MovementRecord
flight action date = record {
  action = some action;
  flight_no = some " QG-0480";
  flight_date = some date;
}

-- Booked for the third, departed on the date given.
abbrev departed : String → Option Payload
departed date = some (record {
  table0 = none;
  table3 = some (flight "bkd" "03 Jun 2026" ∷ flight " dep " date ∷ []);
})

offloaded : (parse_tracking same_text (departed "04 Jun 2026")).offload ≡ true
unfolding parse_tracking trim
offloaded = refl

on_board : (parse_tracking same_text (departed "03 Jun 2026 ")).offload ≡ false
unfolding parse_tracking trim
on_board = refl

split_run : split_awb " 778-0407-0113" ≡ some (record { carrier_code = "778"; awb_no = "04070113" })
unfolding split_awb trim
split_run = refl

no_carrier : split_awb "-04070113" ≡ none
unfolding split_awb trim
no_carrier = refl

abbrev garuda : CreateAirlineSourceDto
garuda = record {
  carrier_code = "126";
  name = none;
  url = "https://example.org";
  payload = none;
  enabled = none;
}

abbrev garuda_row : AirlineSource
garuda_row = record {
  carrier_code = "126";
  name = none;
  url = "https://example.org";
  payload = [];
  enabled = true;
}

created : create garuda [] ≡ (ok garuda_row, garuda_row ∷ [])
unfolding create
created = refl

created_twice : is_ok (create garuda (garuda_row ∷ [])).0 ≡ false
unfolding create
created_twice = refl

removed_unknown : is_ok (remove true "778" (garuda_row ∷ [])).0 ≡ false
unfolding remove
removed_unknown = refl

abbrev move : UpdateAirlineSourceDto
move = record { name = none; url = some "https://example.com"; payload = none; enabled = none }

abbrev pelita : CreateAirlineSourceDto
pelita = record garuda { carrier_code = "778" }

abbrev registered : List AirlineSource
registered = garuda_row ∷ []

OneSource-kept_example :
    OneSource (create pelita registered).1
    × OneSource (update "126" move registered).1
    × OneSource (remove true "126" registered).1
    × (((get_by_carrier "778" registered ≡ none)
          × ((create pelita registered).0 ≡ ok (new_source pelita))
          × (get_by_carrier "778" (create pelita registered).1 ≡ some (new_source pelita)))
        ⊎ ((is_ok (create pelita registered).0 ≡ false)
            × ((create pelita registered).1 ≡ registered)))
OneSource-kept_example = OneSource-kept pelita move true "126" registered (tt, tt)
