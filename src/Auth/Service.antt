-- ===== src/Auth/Service.antt =====
-- `AuthService`: login with lockout, refresh-token rotation, logout. A handler reads the clock once.
use shipment_tracking_system.Prelude.{
  ℕ, ◌+◌, String, Bool, false, not, ◌&&◌, ◌||◌, Option, none, some, List, map, ◌==◌, str_eq, leb,
  any, if◌then◌else◌, get_or, concat_map, is_some, HttpError, unauthorized, forbidden, Action, Void,
  ok, err, pure, throw, gets, modify, throw_if, ◌>>=◌, ◌>>◌,
}
use shipment_tracking_system.Identity.{
  Uuid, User, RefreshToken, Profile, Role, UserRole, PermissionEntity, RolePermission, Store,
  Platform, JwtPayload, auth_login_failed, auth_login, auth_logout, auth_logout_all, emit,
  find_user, find_username, save_user, revoke_tokens,
}
use shipment_tracking_system.Auth.Expiry.{parse_expiry}

-- `current-user.decorator.ts`
pub record AuthenticatedUser : Type 0 where
  pub id : Uuid
  pub username : String
  pub organization_id : Option Uuid
  pub is_super_admin : Bool
  pub roles : List String
  pub permissions : List String

pub record TokenPair : Type 0 where
  pub access_token : String
  pub refresh_token : String

pub record LoginResult : Type 0 where
  pub tokens : TokenPair
  pub user : AuthenticatedUser

-- What a request brings: the clock, the caller's address and agent, and the identifiers that the
-- database and `uuidv4` would generate.
pub record Request : Type 0 where
  pub now : ℕ
  pub ip : Option String
  pub user_agent : Option String
  pub new_id : Uuid
  pub new_family : Uuid

-- `if (!user || !user.isActive) throw`
abbrev pub active_or_throw : Option User → HttpError → Action Store User
active_or_throw none e s = (err e, s)
active_or_throw (some u) e s = (if u.is_active then ok u else err e, s)

module _ (p : Platform) where
  -- The permission names of a role, through `loadPermissions` of role.entity.ts: an entry without
  -- its permission is dropped.
  unfoldable pub permissions_of : Store → Role → List String
  permissions_of s r =
      concat_map
        (λ rp.
          map (λ q. q.name)
            (p.orm.find PermissionEntity (λ q. q.id == rp.permission_id) s.permissions))
        (p.orm.find RolePermission (λ rp. rp.role_id == r.id) s.role_permissions)

  -- `getUserRoleAndPermissionNames`
  unfoldable pub role_and_permission_names : Uuid → Store → List String × List String
  role_and_permission_names user_id s =
      let user_roles = p.orm.find UserRole (λ ur. ur.user_id == user_id) s.user_roles in
      let roles = p.orm.find Role (λ r. any (λ ur. ur.role_id == r.id) user_roles) s.roles in
      (map (λ r. r.name) roles, concat_map (permissions_of s) roles)

  -- `issueTokenPair`
  unfoldable pub issue_token_pair :
      User → List String → List String → Option Uuid → Uuid → Request → Action Store TokenPair
  unfolding parse_expiry
  issue_token_pair user roles permissions organization_id family_id req = do
    let payload : JwtPayload = record {
      sub = user.id;
      org_id = organization_id;
      is_super_admin = user.is_super_admin;
      roles = some roles;
      permissions = some permissions;
    }
    let access = p.sign_access payload (get_or p.config.jwt_access_expires_in "15m") req.now
    let expires_in = get_or p.config.jwt_refresh_expires_in "7d"
    let raw = p.sign_refresh user.id family_id expires_in req.now
    let token : RefreshToken = record {
      id = req.new_id;
      user_id = user.id;
      organization_id = organization_id;
      token_hash = p.sha256 raw;
      family_id = family_id;
      expires_at = req.now + parse_expiry expires_in;
      last_used_at = req.now;
      revoked_at = none;
      ip_address = req.ip;
      user_agent = req.user_agent;
    }
    modify (λ s. record s { refresh_tokens = p.orm.insert RefreshToken token s.refresh_tokens })
    pure (record { access_token = access; refresh_token = raw })

  -- The branch of `login` for a wrong password: count it, and lock the account at the limit.
  unfoldable pub fail_login : User → Request → Action Store LoginResult
  fail_login user req = do
    let max_attempts = get_or p.config.login_max_attempts 5
    let attempts = user.failed_attempts + 1
    let reached = leb max_attempts attempts
    save_user p (record user {
      failed_attempts = attempts;
      is_locked = reached || user.is_locked;
      locked_at = if reached then some req.now else user.locked_at;
    })
    emit (auth_login_failed user.id req.ip)
    throw (unauthorized "INVALID_CREDENTIALS")

  -- The rest of `login` after the password was accepted.
  unfoldable pub complete_login : User → Request → Action Store LoginResult
  unfolding role_and_permission_names issue_token_pair
  complete_login user req = do
    save_user p (record user {
      failed_attempts = 0;
      is_locked = false;
      locked_at = none;
      last_login_at = some req.now;
    })
    profile ← gets (λ s. p.orm.find_one Profile (λ q. q.user_id == user.id) s.profiles)
    let organization_id : Option Uuid =
        if user.is_super_admin
        then none
        else elim profile [ none ↦ none | some q ↦ some q.organization_id ]
    names ← gets (role_and_permission_names user.id)
    tokens ← issue_token_pair user names.0 names.1 organization_id req.new_family req
    emit (auth_login user.id organization_id req.ip)
    pure (record {
      tokens = tokens;
      user = record {
        id = user.id;
        username = user.username;
        organization_id = organization_id;
        is_super_admin = user.is_super_admin;
        roles = names.0;
        permissions = names.1;
      };
    })

  unfoldable pub login : String → String → Request → Action Store LoginResult
  unfolding fail_login complete_login
  login username password req = do
    user ← active_or_throw (← find_username p username) (unauthorized "INVALID_CREDENTIALS")
    throw_if user.is_locked (forbidden "ACCOUNT_LOCKED")
    if p.bcrypt_compare password user.password then complete_login user req else fail_login user req

  -- `refreshToken`: the old record is revoked first, whatever follows.
  unfoldable pub refresh_token : RefreshToken → Uuid → Request → Action Store TokenPair
  unfolding role_and_permission_names issue_token_pair
  refresh_token token_record user_id req = do
    let old = record token_record { revoked_at = some req.now }
    modify (λ s. record s {
      refresh_tokens = p.orm.save RefreshToken (λ t. t.id) old s.refresh_tokens;
    })
    user ← active_or_throw (← find_user p user_id) (unauthorized "USER_INACTIVE")
    names ← gets (role_and_permission_names user.id)
    issue_token_pair user names.0 names.1 old.organization_id old.family_id req

  -- `if (user) { user.lastLogoutAt = now; save }`
  unfoldable pub stamp_logout : Option User → ℕ → Action Store Void
  stamp_logout none now = pure tt
  stamp_logout (some u) now = save_user p (record u { last_logout_at = some now })

  unfoldable pub logout : Uuid → String → ℕ → Action Store Void
  unfolding stamp_logout
  logout user_id token_hash now = do
    revoke_tokens p (λ t. t.user_id == user_id && str_eq t.token_hash token_hash) now
    stamp_logout (← find_user p user_id) now
    emit (auth_logout user_id)

  -- `{ userId, revokedAt: IsNull() }`
  abbrev pub live_tokens_of : Uuid → RefreshToken → Bool
  live_tokens_of user_id t = t.user_id == user_id && not (is_some t.revoked_at)

  unfoldable pub logout_all : Uuid → ℕ → Action Store Void
  unfolding stamp_logout
  logout_all user_id now = do
    revoke_tokens p (live_tokens_of user_id) now
    stamp_logout (← find_user p user_id) now
    emit (auth_logout_all user_id)

  unfoldable pub revoke_all_tokens : Uuid → ℕ → Action Store Void
  revoke_all_tokens user_id now = revoke_tokens p (live_tokens_of user_id) now
