-- ===== src/RouteGroups/Routes.antt =====
-- What a save of a route group does to its routes
-- (apps/backend/src/modules/route-groups/route-groups.service.ts, `replaceRoutes` and `dedupeRoutes`).
use shipment_tracking_system.Prelude.{ℕ, String, Bool, List, filter, map, any, ◌==◌, str_eq}
use shipment_tracking_system.Prelude.Orm.{Orm}
use shipment_tracking_system.RouteGroups.{RouteGroupRouteEntity, RouteGroupRouteDto, route_key}

-- The key has been seen.
abbrev is_seen : List String → RouteGroupRouteDto → Bool
is_seen seen r = any (λ k. str_eq k (route_key r)) seen

-- The row of a route, and the route of a row.
abbrev row_of : ℕ → RouteGroupRouteDto → RouteGroupRouteEntity
row_of id r = record { route_group_id = id; origin_station = r.origin; dest_station = r.dest }

abbrev pub route_at : RouteGroupRouteEntity → RouteGroupRouteDto
route_at m = record { origin = m.origin_station; dest = m.dest_station }

-- The routes of a group, in the order of the rows.
abbrev pub routes_in : ℕ → List RouteGroupRouteEntity → List RouteGroupRouteDto
routes_in id t = map route_at (filter (λ m. m.route_group_id == id) t)
