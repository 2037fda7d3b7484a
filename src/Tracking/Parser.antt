-- ===== src/Tracking/Parser.antt =====
-- `airline-tracking.parser.ts`: the booked flight and the departures of an air waybill.
-- `toLowerCase` and `JSON.parse` are parameters.
use Prim.Native.Char.{code}
use shipment_tracking_system.Prelude.{
  ℕ, zero, suc, String, Bool, false, not, ◌&&◌, Option, none, some, List, [], ◌∷◌, map, ◌==◌,
  filter, str_eq, trim, is_truthy, is_some, get_or, if◌then◌else◌,
}

pub record DepLeg : Type 0 where
  pub flight_no : String
  pub flight_date : String

pub record ParsedTracking : Type 0 where
  pub booked_date : Option String
  pub booked_flight_no : Option String
  pub dep_legs : List DepLeg
  pub offload : Bool

-- A field that is absent or null is `none`.
pub record MovementRecord : Type 0 where
  pub action : Option String
  pub flight_no : Option String
  pub flight_date : Option String

-- The two tables that are read; one that is no array is `none`.
pub record Payload : Type 0 where
  pub table0 : Option (List MovementRecord)
  pub table3 : Option (List MovementRecord)

-- What the HTTP client answers: a text, an object, or another value.
pub data Body : Type 0 where
  text : String → Body
  object : Payload → Body
  scalar : Body

abbrev as_object : Body → Option Payload
as_object (object p) = some p
as_object _ = none

-- The loop of `coerceTrackingPayload`, with the rounds that it has left.
module _ (json_parse : String → Option Body) where
  abbrev pub decode : ℕ → Body → Option Payload
  decode zero v = as_object v
  decode (suc n) (text s) = elim (json_parse s) [ none ↦ none | some v ↦ decode n v ]
  decode (suc n) v = as_object v

  unfoldable pub coerce_tracking_payload : Body → Option Payload
  coerce_tracking_payload data_ = decode 4 data_

abbrev pub first : {A : Type 0} → List A → Option A
first [] = none
first (a ∷ rest) = some a

-- `v ? String(v).trim() : ''`
abbrev pub trimmed : Option String → String
trimmed none = ""
trimmed (some s) = if is_truthy s then trim s else ""

abbrev pub non_empty : String → Option String
non_empty s = if is_truthy s then some s else none

abbrev text_of : (MovementRecord → Option String) → Option MovementRecord → String
text_of field none = ""
text_of field (some r) = trimmed (field r)

-- `(bkd?.F && String(bkd.F).trim()) || (table0[0]?.F ? String(table0[0].F).trim() : '') || null`
abbrev pub booked_field :
    (MovementRecord → Option String) → Option MovementRecord → Option MovementRecord → Option String
booked_field field bkd row =
    let own = text_of field bkd in if is_truthy own then some own else non_empty (text_of field row)

abbrev pub dep_leg : MovementRecord → DepLeg
dep_leg r = record { flight_no = trimmed r.flight_no; flight_date = trimmed r.flight_date }

module _ (to_lower_case : String → String) where
  abbrev pub norm : Option String → String
  norm v = to_lower_case (trim (get_or v ""))

  -- The first departure was on another date than the booked one.
  abbrev pub is_offload : Option String → Option DepLeg → Bool
  is_offload (some booked) (some dep1) =
      not (str_eq dep1.flight_date "")
      && not (str_eq (norm (some dep1.flight_date)) (norm (some booked)))
  is_offload _ _ = false

  abbrev empty : ParsedTracking
  empty = record { booked_date = none; booked_flight_no = none; dep_legs = []; offload = false }

  abbrev pub parse_payload : Payload → ParsedTracking
  parse_payload payload =
      let table3 = get_or payload.table3 [] in
      let table0 = get_or payload.table0 [] in
      let bkd = first (filter (λ r. str_eq (norm r.action) "bkd") table3) in
      let booked = booked_field (λ r. r.flight_date) bkd (first table0) in
      let legs = map dep_leg (filter (λ r. str_eq (norm r.action) "dep") table3) in
      record {
        booked_date = booked;
        booked_flight_no = booked_field (λ r. r.flight_no) bkd (first table0);
        dep_legs = legs;
        offload = is_offload booked (first legs);
      }

  unfoldable pub parse_tracking : Option Payload → ParsedTracking
  parse_tracking none = empty
  parse_tracking (some payload) = parse_payload payload

-- The row of `air_shipments_awb_flight_tracking`.
pub record TrackingRow : Type 0 where
  pub awb : String
  pub carrier_code : String
  pub std_booking : Option String
  pub std_flight_no : Option String
  pub actual_flight_dep : Option String
  pub dep_flight_no : Option String
  pub dep2 : Option String
  pub dep2_flight_no : Option String
  pub dep3 : Option String
  pub dep3_flight_no : Option String
  pub dep4 : Option String
  pub dep4_flight_no : Option String
  pub dep5 : Option String
  pub dep5_flight_no : Option String
  pub offload : Bool

abbrev pub leg : List DepLeg → ℕ → DepLeg
leg [] i = record { flight_no = ""; flight_date = "" }
leg (l ∷ ls) zero = l
leg (l ∷ ls) (suc i) = leg ls i

abbrev pub or_null : String → Option String
or_null s = if is_truthy s && is_truthy (trim s) then some s else none

unfoldable pub to_tracking_row : String → String → ParsedTracking → TrackingRow
to_tracking_row awb carrier_code parsed =
    let at_leg = leg parsed.dep_legs in
    record {
      awb = awb;
      carrier_code = carrier_code;
      std_booking = parsed.booked_date;
      std_flight_no = parsed.booked_flight_no;
      actual_flight_dep = or_null (at_leg 0).flight_date;
      dep_flight_no = or_null (at_leg 0).flight_no;
      dep2 = or_null (at_leg 1).flight_date;
      dep2_flight_no = or_null (at_leg 1).flight_no;
      dep3 = or_null (at_leg 2).flight_date;
      dep3_flight_no = or_null (at_leg 2).flight_no;
      dep4 = or_null (at_leg 3).flight_date;
      dep4_flight_no = or_null (at_leg 3).flight_no;
      dep5 = or_null (at_leg 4).flight_date;
      dep5_flight_no = or_null (at_leg 4).flight_no;
      offload = parsed.offload;
    }

pub record AwbParts : Type 0 where
  pub carrier_code : String
  pub awb_no : String

abbrev pub before_dash : String → String
before_dash String.[] = String.[]
before_dash (String.◌∷◌ c s) = if code c == 45 then String.[] else String.◌∷◌ c (before_dash s)

-- What follows the first dash, where there is one.
abbrev pub after_dash : String → Option String
after_dash String.[] = none
after_dash (String.◌∷◌ c s) = if code c == 45 then some s else after_dash s

-- `.replace(/-/g, '')`
abbrev pub remove_dashes : String → String
remove_dashes String.[] = String.[]
remove_dashes (String.◌∷◌ c s) =
    let rest = remove_dashes s in if code c == 45 then rest else String.◌∷◌ c rest

-- A dash at the start, `idx <= 0`, leaves no text before it.
abbrev pub split_at_dash : String → Option AwbParts
split_at_dash trimmed_awb =
    let carrier = trim (before_dash trimmed_awb) in
    let number = trim (remove_dashes (get_or (after_dash trimmed_awb) "")) in
    if is_some (after_dash trimmed_awb)
      && is_truthy (before_dash trimmed_awb)
      && is_truthy carrier
      && is_truthy number
    then some (record { carrier_code = carrier; awb_no = number })
    else none

unfoldable pub split_awb : String → Option AwbParts
split_awb awb = split_at_dash (trim awb)
