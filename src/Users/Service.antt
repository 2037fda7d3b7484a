-- ===== src/Users/Service.antt =====
-- `UsersService`. A handler reads the clock once; the identifiers that the database would generate
-- and the salt of bcrypt are arguments.
use shipment_tracking_system.Prelude.{
  ℕ, String, Bool, true, false, not, ◌&&◌, Option, none, some, List, map, filter, any, ◌==◌,
  if◌then◌else◌, get_or, is_some, is_given, interpolate, join_words, internal, unauthorized,
  forbidden, not_found, conflict, Action, Void, pure, gets, modify, or_throw, throw_if, transaction,
  ◌>>=◌, ◌>>◌,
}
use shipment_tracking_system.Identity.{
  Uuid, User, Profile, Store, Platform, user_created, user_updated, user_inactivated,
  user_deactivated, user_password_reset, user_unlocked, user_password_changed, emit, find_user,
  find_username, save_user,
}
use shipment_tracking_system.Auth.{AuthenticatedUser, revoke_all_tokens}

-- dto/user.dto.ts
pub record CreateUserDto : Type 0 where
  pub username : String
  pub password : String
  pub email : Option String
  pub first_name : Option String
  pub last_name : Option String

pub record UpdateUserDto : Type 0 where
  pub email : Option String
  pub first_name : Option String
  pub last_name : Option String

pub record ChangePasswordDto : Type 0 where
  pub current_password : String
  pub new_password : String

pub record AdminResetPasswordDto : Type 0 where
  pub new_password : String
  pub require_change : Option Bool

-- The columns that `findAll` selects.
pub record UserSummary : Type 0 where
  pub id : Uuid
  pub username : String
  pub is_active : Bool
  pub is_locked : Bool
  pub last_login_at : Option ℕ

abbrev summary : User → UserSummary
summary u = record {
  id = u.id;
  username = u.username;
  is_active = u.is_active;
  is_locked = u.is_locked;
  last_login_at = u.last_login_at;
}

-- The inner join with user_roles; nothing joins on an organization that is null.
abbrev is_member : Option Uuid → Store → User → Bool
is_member none s u = false
is_member (some org) s u = any (λ ur. ur.user_id == u.id && ur.organization_id == org) s.user_roles

unfoldable pub find_all : AuthenticatedUser → Store → List UserSummary
find_all requesting s =
    if requesting.is_super_admin
    then map summary s.users
    else map summary (filter (is_member requesting.organization_id s) s.users)

module _ (p : Platform) where
  -- `profileRepo.findOne({ where: { userId, organizationId } })`
  abbrev find_profile : Uuid → Uuid → Action Store (Option Profile)
  find_profile user_id org = gets (λ s.
      p.orm.find_one Profile (λ q. q.user_id == user_id && q.organization_id == org) s.profiles)

  unfoldable pub find_one : Uuid → Uuid → Action Store (User × Option Profile)
  find_one id organization_id = do
    user ← or_throw (← find_user p id) (not_found "User not found")
    profile ← find_profile id organization_id
    pure (user, profile)

  -- `profile_saved` is whether the database accepts the profile.
  unfoldable pub create :
      CreateUserDto
      → Uuid
      → Uuid
      → (user_id profile_id : Uuid) → (salt : ℕ) → (profile_saved : Bool) → Action Store User
  create dto organization_id actor_id user_id profile_id salt profile_saved = do
    existing ← find_username p dto.username
    throw_if (is_some existing) (conflict "Username already taken")
    let user : User = record {
      id = user_id;
      username = dto.username;
      password = p.bcrypt_hash salt dto.password;
      is_super_admin = false;
      last_login_at = none;
      last_logout_at = none;
      failed_attempts = 0;
      is_locked = false;
      locked_at = none;
      require_password_reset = false;
      is_active = true;
    }
    let profile : Profile = record {
      id = profile_id;
      user_id = user_id;
      organization_id = organization_id;
      name = some (join_words (interpolate dto.first_name) (interpolate dto.last_name));
      email = dto.email;
    }
    transaction (do
      modify (λ s. record s { users = p.orm.insert User user s.users })
      throw_if (not profile_saved) internal
      modify (λ s. record s { profiles = p.orm.insert Profile profile s.profiles }))
    emit (user_created user_id organization_id actor_id)
    pure user

  unfoldable pub update : Uuid → UpdateUserDto → Uuid → Uuid → Action Store Profile
  update id dto organization_id actor_id = do
    profile ← or_throw (← find_profile id organization_id) (not_found "User profile not found")
    let saved = record profile {
      email = elim dto.email [ none ↦ profile.email | some e ↦ some e ];
      name =
          if is_given dto.first_name && is_given dto.last_name
          then some (join_words (interpolate dto.first_name) (interpolate dto.last_name))
          else profile.name;
    }
    modify (λ s. record s { profiles = p.orm.save Profile (λ q. q.id) saved s.profiles })
    emit (user_updated id organization_id actor_id)
    pure saved

  -- Both end a user's access: the row is switched off and every session is revoked.
  unfoldable pub inactivate : Uuid → Uuid → Uuid → ℕ → Action Store Void
  unfolding revoke_all_tokens
  inactivate id organization_id actor_id now = do
    user ← or_throw (← find_user p id) (not_found "User not found")
    save_user p (record user { is_active = false })
    revoke_all_tokens p id now
    emit (user_inactivated id organization_id actor_id)

  unfoldable pub deactivate : Uuid → Uuid → Uuid → ℕ → Action Store Void
  unfolding revoke_all_tokens
  deactivate id organization_id actor_id now = do
    user ← or_throw (← find_user p id) (not_found "User not found")
    save_user p (record user { is_active = false })
    revoke_all_tokens p id now
    emit (user_deactivated id organization_id actor_id)

  unfoldable pub change_password :
      Uuid → ChangePasswordDto → Uuid → (salt now : ℕ) → Action Store Void
  unfolding revoke_all_tokens
  change_password id dto actor_id salt now = do
    throw_if (not (id == actor_id)) (forbidden "Cannot change another user's password")
    user ← or_throw (← find_user p id) (not_found "User not found")
    throw_if (not (p.bcrypt_compare dto.current_password user.password))
        (unauthorized "Current password is incorrect")
    save_user p (record user {
      password = p.bcrypt_hash salt dto.new_password;
      require_password_reset = false;
    })
    revoke_all_tokens p id now
    emit (user_password_changed id actor_id)

  unfoldable pub admin_reset_password :
      Uuid → AdminResetPasswordDto → Uuid → Uuid → (salt now : ℕ) → Action Store Void
  unfolding revoke_all_tokens
  admin_reset_password id dto organization_id actor_id salt now = do
    user ← or_throw (← find_user p id) (not_found "User not found")
    save_user p (record user {
      password = p.bcrypt_hash salt dto.new_password;
      require_password_reset = get_or dto.require_change true;
      is_locked = false;
      locked_at = none;
      failed_attempts = 0;
    })
    revoke_all_tokens p id now
    emit (user_password_reset id organization_id actor_id)

  unfoldable pub unlock_user : Uuid → Uuid → Uuid → Action Store Void
  unlock_user id organization_id actor_id = do
    user ← or_throw (← find_user p id) (not_found "User not found")
    save_user p (record user { is_locked = false; locked_at = none; failed_attempts = 0 })
    emit (user_unlocked id organization_id actor_id)
