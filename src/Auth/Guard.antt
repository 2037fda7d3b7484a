-- ===== src/Auth/Guard.antt =====
-- `RbacGuard.canActivate`, and `PermissionsService.getPermissionsForUser` with the cache that
-- nestjs-cls keeps for one request.
use shipment_tracking_system.Prelude.{
  String, Bool, true, ◌&&◌, Option, none, some, List, [], ◌∷◌, ◌==◌, str_eq, any, filter, map,
  if◌then◌else◌, concat_map, ok, err, forbidden, Action, pure, throw, ◌>>=◌,
}
use shipment_tracking_system.Identity.{Uuid, Store}
use shipment_tracking_system.Auth.Service.{AuthenticatedUser}

-- `perm:${userId}:${organizationId}`
pub record CacheEntry : Type 0 where
  pub user_id : Uuid
  pub organization_id : Uuid
  pub names : List String

-- The database as the guard reads it, and the request's cache.
pub record Context : Type 0 where
  pub store : Store
  pub cache : List CacheEntry

abbrev pub cached : Uuid → Uuid → List CacheEntry → Option (List String)
cached user org [] = none
cached user org (e ∷ es) =
    if e.user_id == user && e.organization_id == org then some e.names else cached user org es

-- The inner joins of user_roles, role_permissions and permissions.
unfoldable pub query_permissions : Uuid → Uuid → Store → List String
query_permissions user org s =
    concat_map
      (λ ur.
        concat_map (λ rp. map (λ q. q.name) (filter (λ q. q.id == rp.permission_id) s.permissions))
          (filter (λ rp. rp.role_id == ur.role_id) s.role_permissions))
      (filter (λ ur. ur.user_id == user && ur.organization_id == org) s.user_roles)

unfoldable pub get_permissions_for_user : Uuid → Uuid → Action Context (List String)
get_permissions_for_user user org c = elim (cached user org c.cache) [
  | some names ↦ (ok names, c)
  | none ↦
      let names = query_permissions user org c.store in
      (
        ok names,
        record c {
          cache = record { user_id = user; organization_id = org; names = names } ∷ c.cache;
        },
      )
]

-- The steps for a user with an organization and no bypass.
unfoldable pub check_permission : String → Uuid → Uuid → Action Context Bool
check_permission required user org = do
  permissions ← get_permissions_for_user user org
  if any (λ name. str_eq name required) permissions
      then pure true
      else throw (forbidden "Missing permission")

unfoldable pub can_activate : Option String → Option AuthenticatedUser → Action Context Bool
unfolding check_permission
can_activate none user c = (ok true, c)
can_activate (some required) none c = (err (forbidden "Not authenticated"), c)
can_activate (some required) (some user) c =
    if user.is_super_admin then (ok true, c) else elim user.organization_id [
      | none ↦ (err (forbidden "No organization context"), c)
      | some org ↦ check_permission required user.id org c
    ]
