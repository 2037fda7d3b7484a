-- ===== src/Tracking/Sources.antt =====
-- `AirlineTrackingSourceService`: the registry of airlines. Its statements are SQL text; they act on
-- the table as a list of rows with the carrier code as its key.
use shipment_tracking_system.Prelude.{
  String, Bool, true, ◌&&◌, ◌||◌, Option, List, [], ◌∷◌, ◌++◌, filter, str_eq, is_some, get_or,
  if◌then◌else◌, update_rows, delete_rows, length, ◌==◌, HttpError, bad_request, not_found,
  internal, Action, Void, pure, gets, modify, or_throw, throw_if, ◌>>=◌, ◌>>◌, join_words,
}
use shipment_tracking_system.Tracking.Parser.{first}

pub record AirlineSource : Type 0 where
  pub carrier_code : String
  pub name : Option String
  pub url : String
  pub payload : List (String × String)
  pub enabled : Bool

pub record CreateAirlineSourceDto : Type 0 where
  pub carrier_code : String
  pub name : Option String
  pub url : String
  pub payload : Option (List (String × String))
  pub enabled : Option Bool

pub record UpdateAirlineSourceDto : Type 0 where
  pub name : Option String
  pub url : Option String
  pub payload : Option (List (String × String))
  pub enabled : Option Bool

abbrev pub Sources : Type 0
Sources = List AirlineSource

abbrev pub is_carrier : String → AirlineSource → Bool
is_carrier carrier_code r = str_eq r.carrier_code carrier_code

unfoldable pub get_enabled : Sources → List AirlineSource
get_enabled s = filter (λ r. r.enabled) s

abbrev pub get_by_carrier : String → Sources → Option AirlineSource
get_by_carrier carrier_code s = first (filter (is_carrier carrier_code) s)

abbrev pub not_found_carrier : String → HttpError
not_found_carrier carrier_code =
    not_found (join_words "Carrier" (join_words carrier_code "not found"))

-- The `!` of the source: a row that is missing here has no answer.
abbrev pub reread : String → Action Sources AirlineSource
reread carrier_code = do row ← gets (get_by_carrier carrier_code); or_throw row internal

abbrev pub new_source : CreateAirlineSourceDto → AirlineSource
new_source dto = record {
  carrier_code = dto.carrier_code;
  name = dto.name;
  url = dto.url;
  payload = get_or dto.payload [];
  enabled = get_or dto.enabled true;
}

unfoldable pub create : CreateAirlineSourceDto → Action Sources AirlineSource
create dto = do
  existing ← gets (get_by_carrier dto.carrier_code)
  throw_if (is_some existing)
      (bad_request (join_words "Carrier" (join_words dto.carrier_code "already exists")))
  modify (λ s. s ++ new_source dto ∷ [])
  reread dto.carrier_code

-- The SET list: an absent field is left as it is.
abbrev pub patched : UpdateAirlineSourceDto → AirlineSource → AirlineSource
patched dto r = record r {
  name = if is_some dto.name then dto.name else r.name;
  url = get_or dto.url r.url;
  payload = get_or dto.payload r.payload;
  enabled = get_or dto.enabled r.enabled;
}

-- `sets.length > 0`
abbrev pub has_sets : UpdateAirlineSourceDto → Bool
has_sets dto = is_some dto.name || is_some dto.url || is_some dto.payload || is_some dto.enabled

abbrev pub write_update : String → UpdateAirlineSourceDto → Action Sources AirlineSource
write_update carrier_code dto = do
  modify (update_rows (is_carrier carrier_code) (patched dto))
  reread carrier_code

unfoldable pub update : String → UpdateAirlineSourceDto → Action Sources AirlineSource
update carrier_code dto = do
  found ← gets (get_by_carrier carrier_code)
  existing ← or_throw found (not_found_carrier carrier_code)
  if has_sets dto then write_update carrier_code dto else pure existing

-- `reports_count` is whether the driver answers the number of rows as its second element.
unfoldable pub remove : Bool → String → Action Sources Void
remove reports_count carrier_code = do
  affected ← gets (λ s. length (filter (is_carrier carrier_code) s))
  modify (delete_rows (is_carrier carrier_code))
  throw_if (reports_count && affected == 0) (not_found_carrier carrier_code)
