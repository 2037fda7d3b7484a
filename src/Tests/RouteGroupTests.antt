-- ===== src/Tests/RouteGroupTests.antt =====
-- The routes of a route group are replaced, one of them sent twice.
use shipment_tracking_system.Prelude.{[], ◌∷◌}
use shipment_tracking_system.RouteGroups.{Store, RouteGroupRouteDto}

abbrev store : Store
store = record {
  groups = [];
  members =
      record { route_group_id = 1; origin_station = "CGK"; dest_station = "DPS" }
      ∷ record { route_group_id = 2; origin_station = "CGK"; dest_station = "SUB" }
      ∷ [];
  available_routes = [];
}

abbrev to_medan : RouteGroupRouteDto
to_medan = record { origin = "CGK"; dest = "KNO" }
