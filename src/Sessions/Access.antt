-- ===== src/Sessions/Access.antt =====
-- Who passes `RbacGuard` (apps/backend/src/common/guards/rbac.guard.ts) and `JwtStrategy`
-- (apps/backend/src/modules/auth/strategies/jwt.strategy.ts).
use shipment_tracking_system.Prelude.{
  String, true, not, ◌&&◌, ◌||◌, ◌≡◌, ◌↔◌, ◌⊎◌, inl, inr, refl, ap, some, List, [], ◌∷◌, All, In,
  arith, Option-cases, Bool-cases, str_eq, ok, ◌==◌, ==_iff, any, filter, In-filter,
  In-filter_cases, In-map, In-map_cases, In-concat_map, In-concat_map_cases, any-str_eq_iff, is_ok,
}
use shipment_tracking_system.Identity.{
  Uuid, User, UserRole, RolePermission, PermissionEntity, Store, Platform, JwtPayload,
}
use shipment_tracking_system.Auth.{
  AuthenticatedUser, CacheEntry, Context, cached, query_permissions, get_permissions_for_user,
  check_permission, can_activate, validate_jwt,
}

-- A role of the user in the organization carries the permission.
pub record IsGranted (user org : Uuid) (name : String) (s : Store) : Type 0 where
  pub user_role : UserRole
  pub role_permission : RolePermission
  pub permission : PermissionEntity
  pub assigned : In user_role s.user_roles
  pub of_user : user_role.user_id ≡ user
  pub in_org : user_role.organization_id ≡ org
  pub carried : In role_permission s.role_permissions
  pub by_role : role_permission.role_id ≡ user_role.role_id
  pub known : In permission s.permissions
  pub is_permission : permission.id ≡ role_permission.permission_id
  pub named : name ≡ permission.name

query_permissions_iff :
    (user org : Uuid) (name : String) (s : Store)
    → In name (query_permissions user org s) ↔ IsGranted user org name s
unfolding query_permissions
query_permissions_iff user org name s = (
  (λ m.
      let (ur, mu, m₁) =
        In-concat_map_cases _ name
          (filter (λ v. v.user_id == user && v.organization_id == org) s.user_roles) m in
      let (iu, tu) = In-filter_cases _ ur s.user_roles mu in
      let (rp, mr, m₂) =
        In-concat_map_cases _ name (filter (λ v. v.role_id == ur.role_id) s.role_permissions) m₁ in
      let (ir, tr) = In-filter_cases _ rp s.role_permissions mr in
      let (q, mq, e) =
        In-map_cases _ name (filter (λ v. v.id == rp.permission_id) s.permissions) m₂ in
      let (iq, tq) = In-filter_cases _ q s.permissions mq in
      record {
        user_role = ur;
        role_permission = rp;
        permission = q;
        assigned = iu;
        of_user = ground (arith, tu);
        in_org = ground (arith, tu);
        carried = ir;
        by_role = (==_iff _ _).0 tr;
        known = iq;
        is_permission = (==_iff _ _).0 tq;
        named = e;
      }),
  λ g.
      In-concat_map _ g.user_role name _
        (In-filter _ g.user_role s.user_roles g.assigned (ground (arith, g.of_user, g.in_org)))
        (In-concat_map _ g.role_permission name _
          (In-filter _ g.role_permission s.role_permissions g.carried ((==_iff _ _).1 g.by_role))
          (rw g.named (
            In-map (λ q. q.name) g.permission
              (filter (λ v. v.id == g.role_permission.permission_id) s.permissions)
              (In-filter (λ v. v.id == g.role_permission.permission_id) g.permission s.permissions
                g.known ((==_iff _ _).1 g.is_permission))))),
)

-- The cache of the request holds what the query would answer.
abbrev pub IsCoherent : Context → Type 0
IsCoherent c = All (λ e. e.names ≡ query_permissions e.user_id e.organization_id c.store) c.cache

cached-IsCoherent :
    (user org : Uuid) (s : Store) (es : List CacheEntry) (names : List String)
    → All (λ e. e.names ≡ query_permissions e.user_id e.organization_id s) es
    → cached user org es ≡ some names
    → names ≡ query_permissions user org s
cached-IsCoherent user org s [] names h e = absurd (cc)
cached-IsCoherent user org s (x ∷ es) names h e =
    ground (arith, h.0, cached-IsCoherent user org s es names h.1)

-- From a coherent cache the names are those of the query, and the cache stays coherent.
get_permissions-IsCoherent :
    (user org : Uuid) (c : Context)
    → IsCoherent c
    → ((get_permissions_for_user user org c).0 ≡ ok (query_permissions user org c.store))
      × IsCoherent (get_permissions_for_user user org c).1
unfolding get_permissions_for_user
get_permissions-IsCoherent user org c h = elim (Option-cases (cached user org c.cache)) [
  | inl miss ↦ rw (miss, get_permissions_for_user) (refl, (refl, h))
  | inr (names, hit) ↦
      rw (hit, get_permissions_for_user)
        (ap ok (cached-IsCoherent user org c.store c.cache names h hit), h)
]

-- Why the guard lets a user through who is asked for a permission.
abbrev pub IsAllowed : AuthenticatedUser → String → Store → Type 0
IsAllowed user required s =
    (user.is_super_admin ≡ true)
    ⊎ ((org : Uuid) × (user.organization_id ≡ some org) × IsGranted user.id org required s)

check_permission_iff :
    (required : String) (user org : Uuid) (c : Context)
    → IsCoherent c
    → ((check_permission required user org c).0 ≡ ok true) ↔ IsGranted user org required c.store
unfolding check_permission
check_permission_iff required user org c h =
    let names = query_permissions user org c.store in
    let (answer, _) = get_permissions-IsCoherent user org c h in
    elim (Bool-cases (any (λ n. str_eq n required) names)) [
      | inl has ↦ (
        (λ e.
            (query_permissions_iff user org required c.store).0
              ((any-str_eq_iff required names).0 has)),
        λ g. ground (arith, answer, has),
      )
      | inr lacks ↦ (
        (λ e. absurd (ground (arith, answer, lacks, e))),
        λ g.
            let has =
              (any-str_eq_iff required names).1
                ((query_permissions_iff user org required c.store).1 g) in
            absurd (cc (has, lacks)),
      )
    ]

-- On a handler that requires a permission, and with a coherent cache, the guard answers true exactly
-- for a super admin and for a user whose organization gives it a role that carries the permission.
pub can_activate_iff :
    (required : String) (user : AuthenticatedUser) (c : Context)
    → IsCoherent c
    → ((can_activate (some required) (some user) c).0 ≡ ok true) ↔ IsAllowed user required c.store
unfolding can_activate
can_activate_iff required user c h = elim (Bool-cases user.is_super_admin) [
  | inl super ↦ ((λ e. inl super), λ a. rw (super, can_activate) refl)
  | inr ordinary ↦ elim (Option-cases user.organization_id) [
    | inl outside ↦ (
      (λ e. absurd (ground (arith, ordinary, outside, e))),
      λ a. elim a [ inl super ↦ absurd (cc) | inr (org, inside, g) ↦ absurd (cc) ],
    )
    | inr (org, inside) ↦
        let iff = check_permission_iff required user.id org c h in
        (
          (λ e. inr (org, inside, iff.0 (ground (arith, ordinary, inside, e)))),
          λ a. elim a [
            | inl super ↦ absurd (cc)
            | inr (org', inside', g) ↦
                let same : org' ≡ org = ground (arith, inside, inside') in
                ground (arith, ordinary, inside, iff.1 (rw same at g))
          ],
        )
  ]
]

-- Of the users that exist, the JWT strategy accepts exactly the super admins and those that are
-- active and not locked.
pub validate_jwt-is_ok :
    (p : Platform) (payload : JwtPayload) (s : Store) (u : User)
    → p.orm.find_one User (λ v. v.id == payload.sub) s.users ≡ some u
    → is_ok (validate_jwt p payload s).0 ≡ (u.is_super_admin || (u.is_active && not u.is_locked))
unfolding validate_jwt
validate_jwt-is_ok p payload s u found = ground (arith, found)
