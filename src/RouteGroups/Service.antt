-- ===== src/RouteGroups/Service.antt =====
-- `RouteGroupsService`: named groups of routes between stations. The pairs that `getAvailableRoutes`
-- reads are an entry of the store; ORDER BY is a parameter of the reads.
use Prim.Native.String
use shipment_tracking_system.Prelude.{
  ℕ, String, Bool, false, not, ◌&&◌, ◌||◌, Option, none, some, List, [], ◌∷◌, ◌++◌, any, filter,
  map, concat_map, str_eq, ◌==◌, is_some, is_given, get_or, blank_to_null, if◌then◌else◌, HttpError,
  not_found, conflict, internal, Action, Void, pure, gets, modify, or_throw, throw_if, transaction,
  ◌>>=◌, ◌>>◌, throw,
}
use shipment_tracking_system.Prelude.Orm.{Orm}

pub record RouteGroupEntity : Type 0 where
  pub id : ℕ
  pub name : String
  pub description : Option String

pub record RouteGroupRouteEntity : Type 0 where
  pub route_group_id : ℕ
  pub origin_station : String
  pub dest_station : String

pub record RouteGroupRouteDto : Type 0 where
  pub origin : String
  pub dest : String

pub record Store : Type 0 where
  pub groups : List RouteGroupEntity
  pub members : List RouteGroupRouteEntity
  pub available_routes : List RouteGroupRouteDto

-- A row of the LEFT JOIN, and what the reads answer.
pub record JoinedRow : Type 0 where
  pub id : ℕ
  pub name : String
  pub description : Option String
  pub origin : Option String
  pub dest : Option String

pub record RouteGroupRoute : Type 0 where
  pub origin : String
  pub origin_label : String
  pub dest : String

pub record RouteGroup : Type 0 where
  pub id : ℕ
  pub name : String
  pub description : Option String
  pub routes : List RouteGroupRoute

-- An absent field is `none`; a description that is null has an inner `none`.
pub record CreateRouteGroupDto : Type 0 where
  pub name : String
  pub description : Option String
  pub routes : List RouteGroupRouteDto

pub record UpdateRouteGroupDto : Type 0 where
  pub name : Option String
  pub description : Option (Option String)
  pub routes : Option (List RouteGroupRouteDto)

-- `originLabel` of origin-labels.util.ts.
abbrev pub origin_label : String → String
origin_label origin =
    if str_eq origin "Jabo" then "CGK" else if str_eq origin "Surabaya" then "SUB" else origin

-- `if (row.origin && row.dest) group.routes.push(…)`: an empty text is no station.
abbrev pub route_of : JoinedRow → List RouteGroupRoute
route_of r =
    let origin = get_or r.origin "" in
    let dest = get_or r.dest "" in
    if is_given r.origin && is_given r.dest
    then (record { origin = origin; origin_label = origin_label origin; dest = dest }) ∷ []
    else []

abbrev pub push_route : JoinedRow → RouteGroup → RouteGroup
push_route r g = record g { routes = g.routes ++ route_of r }

-- One turn of the loop of `findAll`: the map of groups by id keeps the order of insertion.
abbrev pub add_route_row : JoinedRow → List RouteGroup → List RouteGroup
add_route_row r [] =
    record { id = r.id; name = r.name; description = r.description; routes = route_of r } ∷ []
add_route_row r (g ∷ gs) =
    let rest = add_route_row r gs in if g.id == r.id then push_route r g ∷ gs else g ∷ rest

abbrev pub group_from : List RouteGroup → List JoinedRow → List RouteGroup
group_from acc [] = acc
group_from acc (r ∷ rs) = group_from (add_route_row r acc) rs

unfoldable pub group_rows : List JoinedRow → List RouteGroup
group_rows rows = group_from [] rows

abbrev joined : RouteGroupEntity → Option RouteGroupRouteEntity → JoinedRow
joined g none = record {
  id = g.id;
  name = g.name;
  description = g.description;
  origin = none;
  dest = none;
}
joined g (some m) = record {
  id = g.id;
  name = g.name;
  description = g.description;
  origin = some m.origin_station;
  dest = some m.dest_station;
}

-- The rows of one group in the LEFT JOIN, given its routes.
abbrev join_members : RouteGroupEntity → List RouteGroupRouteEntity → List JoinedRow
join_members g [] = joined g none ∷ []
join_members g (m ∷ ms) = map (λ k. joined g (some k)) (m ∷ ms)

abbrev pub join_group : List RouteGroupRouteEntity → RouteGroupEntity → List JoinedRow
join_group members g = join_members g (filter (λ m. m.route_group_id == g.id) members)

-- `${route.origin}|${route.dest}`
abbrev pub route_key : RouteGroupRouteDto → String
route_key r = String.◌++◌ r.origin (String.◌++◌ "|" r.dest)

-- The loop of `dedupeRoutes`, over the keys seen so far.
abbrev pub dedupe_from : List String → List RouteGroupRouteDto → List RouteGroupRouteDto
dedupe_from seen [] = []
dedupe_from seen (r ∷ rs) =
    let skipped = dedupe_from seen rs in
    let kept = dedupe_from (route_key r ∷ seen) rs in
    if any (λ k. str_eq k (route_key r)) seen then skipped else r ∷ kept

unfoldable pub dedupe_routes : List RouteGroupRouteDto → List RouteGroupRouteDto
dedupe_routes rs = dedupe_from [] rs

-- The primary key of `route_group_routes` refuses a route of a group beside the same one.
abbrev pub is_route : ℕ → RouteGroupRouteDto → RouteGroupRouteEntity → Bool
is_route id r m =
    m.route_group_id == id && str_eq m.origin_station r.origin && str_eq m.dest_station r.dest

abbrev pub same_route : RouteGroupRouteDto → RouteGroupRouteDto → Bool
same_route r q = str_eq q.origin r.origin && str_eq q.dest r.dest

abbrev pub violates_key : ℕ → List RouteGroupRouteDto → List RouteGroupRouteEntity → Bool
violates_key id [] t = false
violates_key id (r ∷ rs) t = any (is_route id r) t || any (same_route r) rs || violates_key id rs t

abbrev pub name_conflict : String → HttpError
name_conflict name =
    conflict (String.◌++◌ "A route group named \"" (String.◌++◌ name "\" already exists"))

-- The first route that the master does not know.
abbrev pub first_unknown :
    List RouteGroupRouteDto → List RouteGroupRouteDto → Option RouteGroupRouteDto
first_unknown known [] = none
first_unknown known (r ∷ rs) =
    let rest = first_unknown known rs in
    if any (λ k. str_eq (route_key k) (route_key r)) known then rest else some r

abbrev pub throw_unknown : Option RouteGroupRouteDto → Action Store Void
throw_unknown none = pure tt
throw_unknown (some r) =
    throw
      (conflict (String.◌++◌ "Unknown route: " (String.◌++◌ r.origin (String.◌++◌ " → " r.dest))))

-- `order_by` is the ORDER BY of the read.
module _ (order_by : List JoinedRow → List JoinedRow) where
  unfoldable pub find_all : Store → List RouteGroup
  find_all s = group_rows (order_by (concat_map (join_group s.members) s.groups))

  abbrev first_group : List RouteGroup → Option RouteGroup
  first_group [] = none
  first_group (g ∷ gs) = some g

  unfoldable pub find_one_or_throw : ℕ → Action Store RouteGroup
  find_one_or_throw id = do
    group ← gets (λ s. first_group (filter (λ g. g.id == id) (find_all s)))
    or_throw group (not_found "Route group not found")

module _ (orm : Orm) where
  -- `assertNameFree`
  unfoldable pub assert_name_free : String → Action Store Void
  assert_name_free name = do
    clash ← gets (λ s. orm.find_one RouteGroupEntity (λ g. str_eq g.name name) s.groups)
    throw_if (is_some clash) (name_conflict name)

  -- `assertRoutesExist`
  unfoldable pub assert_routes_exist : List RouteGroupRouteDto → Action Store Void
  assert_routes_exist routes = do
    known ← gets (λ s. s.available_routes)
    throw_unknown (first_unknown known routes)

  -- `insert` of an array of rows.
  abbrev pub insert_routes :
      ℕ → List RouteGroupRouteDto → List RouteGroupRouteEntity → List RouteGroupRouteEntity
  insert_routes id [] t = t
  insert_routes id (r ∷ rs) t = insert_routes id rs (
      orm.insert RouteGroupRouteEntity
        (record { route_group_id = id; origin_station = r.origin; dest_station = r.dest }) t)

  unfoldable pub replace_routes : ℕ → List RouteGroupRouteDto → Action Store Void
  unfolding dedupe_routes
  replace_routes id routes = do
    modify (λ s. record s {
      members = orm.delete RouteGroupRouteEntity (λ m. m.route_group_id == id) s.members;
    })
    repeated ← gets (λ s. violates_key id (dedupe_routes routes) s.members)
    throw_if repeated internal
    modify (λ s. record s { members = insert_routes id (dedupe_routes routes) s.members })

  -- The columns that `update` patches; an empty name is not given.
  abbrev pub patched : UpdateRouteGroupDto → RouteGroupEntity → RouteGroupEntity
  patched dto g = record g {
    name = if is_given dto.name then get_or dto.name g.name else g.name;
    description = elim dto.description [ none ↦ g.description | some d ↦ blank_to_null d ];
  }

  -- `Object.keys(patch).length > 0`
  abbrev pub has_patch : UpdateRouteGroupDto → Bool
  has_patch dto = is_given dto.name || is_some dto.description

  -- The body of the transaction of `update`; the unique index refuses the name of another group.
  unfoldable pub write_update : ℕ → UpdateRouteGroupDto → Action Store Void
  unfolding replace_routes
  write_update id dto = do
    taken ← gets (λ s. any (λ g. str_eq g.name (get_or dto.name "") && not (g.id == id)) s.groups)
    throw_if (is_given dto.name && taken) (name_conflict (get_or dto.name ""))
    modify (λ s. record s {
      groups =
          if has_patch dto
          then orm.update RouteGroupEntity (λ g. g.id == id) (patched dto) s.groups
          else s.groups;
    })
    elim dto.routes [ none ↦ pure tt | some routes ↦ replace_routes id routes ]

  unfoldable pub remove : ℕ → Action Store Void
  remove id = do
    existing ← gets (λ s. orm.find_one RouteGroupEntity (λ g. g.id == id) s.groups)
    or_throw existing (not_found "Route group not found")
    modify (λ s. record s {
      groups = orm.delete RouteGroupEntity (λ g. g.id == id) s.groups;
      members = orm.delete RouteGroupRouteEntity (λ m. m.route_group_id == id) s.members;
    })

module _ (orm : Orm) (order_by : List JoinedRow → List JoinedRow) where
  -- The unique index refuses what the check let pass, and the transaction rolls back.
  unfoldable pub create : CreateRouteGroupDto → ℕ → Action Store RouteGroup
  unfolding assert_routes_exist assert_name_free replace_routes find_one_or_throw
  create dto new_id = do
    assert_routes_exist orm dto.routes
    assert_name_free orm dto.name
    transaction (do
      taken ← gets (λ s. any (λ g. str_eq g.name dto.name) s.groups)
      throw_if taken (name_conflict dto.name)
      let group : RouteGroupEntity = record {
        id = new_id;
        name = dto.name;
        description = blank_to_null dto.description;
      }
      modify (λ s. record s { groups = orm.insert RouteGroupEntity group s.groups })
      replace_routes orm new_id dto.routes)
    find_one_or_throw order_by new_id

  unfoldable pub update : ℕ → UpdateRouteGroupDto → Action Store RouteGroup
  unfolding assert_routes_exist assert_name_free write_update find_one_or_throw
  update id dto = do
    found ← gets (λ s. orm.find_one RouteGroupEntity (λ g. g.id == id) s.groups)
    existing ← or_throw found (not_found "Route group not found")
    elim dto.routes [ none ↦ pure tt | some routes ↦ assert_routes_exist orm routes ]
    if is_given dto.name && not (str_eq (get_or dto.name "") existing.name)
        then assert_name_free orm (get_or dto.name "")
        else pure tt
    transaction (write_update orm id dto)
    find_one_or_throw order_by id
