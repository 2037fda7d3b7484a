-- ===== src/Simulation/Scope.antt =====
-- `scope.ts`: the groups and routes that are ticked, and what they cover together.
use Prim.Native.String
use shipment_tracking_system.Prelude.{
  ℕ, ◌+◌, String, Bool, true, false, not, ◌&&◌, Option, List, [], ◌∷◌, ◌++◌, map, filter, any,
  if◌then◌else◌, str_eq, get, set, is_some, get_or, ltb, is_truthy,
}

pub record Slot : Type 0 where
  pub start : String
  pub end : String

-- A route of the scenario; tonnages and rates are whole numbers of their smallest unit.
pub record SimRoute : Type 0 where
  pub origin : String
  pub origin_label : String
  pub dest : String
  pub key : String
  pub rate_spx : ℕ
  pub slots : List Slot
  pub override_ton : Option ℕ
  pub custom : Bool

pub record GroupRoute : Type 0 where
  pub origin : String
  pub origin_label : String
  pub dest : String

pub record SimulationRouteGroup : Type 0 where
  pub id : String
  pub name : String
  pub description : Option String
  pub routes : List GroupRoute

-- Sets of group ids and of route keys.
pub record Scope : Type 0 where
  pub groups : List String
  pub routes : List String

pub data SectionKind : Type 0 where
  group_section routes_section : SectionKind

pub record ScopeSection : Type 0 where
  pub id : String
  pub name : String
  pub kind : SectionKind
  pub routes : List SimRoute

-- `routeKey` of state.ts
abbrev pub route_key : GroupRoute → String
route_key r = String.◌++◌ r.origin (String.◌++◌ "|" r.dest)

abbrev pub holds : SimulationRouteGroup → String → Bool
holds g key = any (λ x. str_eq (route_key x) key) g.routes

abbrev pub has : List String → String → Bool
has names name = any (λ n. str_eq n name) names

unfoldable pub groups_of_route : List SimulationRouteGroup → String → List SimulationRouteGroup
groups_of_route groups key = filter (λ g. holds g key) groups

-- `Array.prototype.join`
abbrev join_names : List String → String
join_names [] = ""
join_names (s ∷ []) = s
join_names (s ∷ t ∷ l) = String.◌++◌ s (String.◌++◌ ", " (join_names (t ∷ l)))

unfoldable pub group_names : List SimulationRouteGroup → String → String
unfolding groups_of_route
group_names groups key =
    let names = join_names (map (λ g. g.name) (groups_of_route groups key)) in
    if is_truthy names then names else "Tanpa Grup"

abbrev is_empty_list : {A : Type 0} → List A → Bool
is_empty_list [] = true
is_empty_list (a ∷ l) = false

unfoldable pub default_scope : List SimulationRouteGroup → List SimRoute → Scope
unfolding groups_of_route
default_scope groups routes = record {
  groups = map (λ g. g.id) groups;
  routes = map (λ r. r.key) (filter (λ r. is_empty_list (groups_of_route groups r.key)) routes);
}

-- `count[r.key] = (count[r.key] ?? 0) + 1`, for each route of a section.
abbrev pub count_routes : List SimRoute → List (String × ℕ) → List (String × ℕ)
count_routes [] count = count
count_routes (r ∷ rs) count =
    count_routes rs (set str_eq r.key (get_or (get str_eq r.key count) 0 + 1) count)

abbrev pub mark_routes : List SimRoute → List (String × ℕ) → List (String × ℕ)
mark_routes [] count = count
mark_routes (r ∷ rs) count = mark_routes rs (set str_eq r.key 1 count)

-- The loop over the groups: the sections, and how many of them hold each key.
abbrev pub group_sections :
    List SimulationRouteGroup
    → List SimRoute
    → Scope
    → List (String × ℕ)
    → List ScopeSection × List (String × ℕ)
group_sections [] routes scope count = ([], count)
group_sections (g ∷ gs) routes scope count =
    let own = filter (λ r. holds g r.key) routes in
    let skipped = group_sections gs routes scope count in
    let (sections, count') = group_sections gs routes scope (count_routes own count) in
    if not (has scope.groups g.id) then skipped else if is_empty_list own then skipped else (
      record { id = g.id; name = g.name; kind = group_section; routes = own } ∷ sections,
      count',
    )

pub record ResolvedScope : Type 0 where
  pub sections : List ScopeSection
  pub union : List SimRoute
  pub dupes : List String

unfoldable pub resolve_scope : List SimulationRouteGroup → List SimRoute → Scope → ResolvedScope
resolve_scope groups routes scope =
    let (sections, count) = group_sections groups routes scope [] in
    let picked =
      filter (λ r. has scope.routes r.key && not (is_some (get str_eq r.key count))) routes in
    let picked_section : ScopeSection = record {
      id = "picked";
      name = "Rute pilihan";
      kind = routes_section;
      routes = picked;
    } in
    let marked = mark_routes picked count in
    record {
      sections = if is_empty_list picked then sections else sections ++ picked_section ∷ [];
      union = filter (λ r. is_some (get str_eq r.key marked)) routes;
      dupes = map (λ e. e.0) (filter (λ e. ltb 1 e.1) marked);
    }
