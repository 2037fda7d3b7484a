-- ===== src/Auth/Strategies.antt =====
-- `JwtStrategy.validate` and `RefreshTokenStrategy.validate`. passport-jwt has verified the signature
-- and the expiry of the JWT before it calls them with the payload.
use shipment_tracking_system.Prelude.{
  ℕ, ◌+◌, ◌*◌, String, not, ◌&&◌, Option, none, some, List, [], ◌==◌, str_eq, ltb, map, get_or,
  concat_map, is_some, unauthorized, Action, or_throw, throw_if, gets, pure, ◌>>=◌, ◌>>◌,
}
use shipment_tracking_system.Identity.{
  Uuid, RefreshToken, Role, UserRole, Store, Platform, JwtPayload, find_user,
}
use shipment_tracking_system.Auth.Service.{AuthenticatedUser}

-- What `validate` of the refresh strategy puts on the request.
pub record RefreshUser : Type 0 where
  pub token_record : RefreshToken
  pub user_id : Uuid

module _ (p : Platform) where
  -- `userRoles.map((ur) => ur.role?.name).filter(Boolean)`
  unfoldable pub role_names : Uuid → Option Uuid → Store → List String
  role_names user_id none s = []
  role_names user_id (some org) s =
      concat_map (λ ur. map (λ r. r.name) (p.orm.find Role (λ r. r.id == ur.role_id) s.roles))
        (p.orm.find UserRole (λ ur. ur.user_id == user_id && ur.organization_id == org)
          s.user_roles)

  unfoldable pub validate_jwt : JwtPayload → Action Store AuthenticatedUser
  unfolding role_names
  validate_jwt payload = do
    user ← or_throw (← find_user p payload.sub) (unauthorized "User not found")
    throw_if (not user.is_super_admin && not user.is_active) (unauthorized "Account is not active")
    throw_if (not user.is_super_admin && user.is_locked) (unauthorized "Account is locked")
    names ← gets (role_names user.id payload.org_id)
    pure (record {
      id = user.id;
      username = user.username;
      organization_id = payload.org_id;
      is_super_admin = user.is_super_admin;
      roles = names;
      permissions = get_or payload.permissions [];
    })

  -- The cookie, which is `none` where it is absent or empty, as `!rawToken` reads it; the subject of the payload, and the clock.
  unfoldable pub validate_refresh : Option String → Uuid → ℕ → Action Store RefreshUser
  validate_refresh cookie sub now = do
    raw ← or_throw cookie (unauthorized "No refresh token")
    let hash = p.sha256 raw
    found ← gets (λ s. p.orm.find_one RefreshToken (λ t. str_eq t.token_hash hash) s.refresh_tokens)
    token ← or_throw found (unauthorized "INVALID_REFRESH_TOKEN")
    throw_if (is_some token.revoked_at) (unauthorized "INVALID_REFRESH_TOKEN")
    throw_if (ltb token.expires_at now) (unauthorized "INVALID_REFRESH_TOKEN")
    let inactivity_ms = get_or p.config.session_inactivity_minutes 30 * 60 * 1000
    throw_if (ltb (token.last_used_at + inactivity_ms) now) (unauthorized "SESSION_EXPIRED")
    pure (record { token_record = token; user_id = sub })
