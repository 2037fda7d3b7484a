-- ===== src/Sessions/Rotation.antt =====
-- Rotation of refresh tokens, and the requests that end every session of a user
-- (apps/backend/src/modules/auth, apps/backend/src/modules/users).
use shipment_tracking_system.Prelude.{
  ℕ, true, ◌≡◌, refl, some, All, In, All-updated, IsUnique, arith, is_some, ◌==◌, ==_refl,
}
use shipment_tracking_system.Identity.{
  Uuid, User, RefreshToken, Store, Platform, PlatformLaws, revoke_tokens,
}
use shipment_tracking_system.Auth.{logout_all, live_tokens_of, stamp_logout}
use shipment_tracking_system.Users.{
  ChangePasswordDto, AdminResetPasswordDto, inactivate, deactivate, change_password,
  admin_reset_password,
}
use shipment_tracking_system.Sessions.Tokens

-- The indexes of refresh_tokens: the primary key, and one row for a hash.
pub record TokensAreUnique (s : Store) : Type 0 where
  pub ids : IsUnique (λ t. t.id) s.refresh_tokens
  pub hashes :
      (a b : RefreshToken)
      → In a s.refresh_tokens
      → In b s.refresh_tokens
      → a.token_hash ≡ b.token_hash
      → a ≡ b

-- No session of the user is left: every row of the user's is revoked.
abbrev pub HasNoSession : Uuid → Store → Type 0
HasNoSession id s = All (λ t. t.user_id ≡ id → is_some t.revoked_at ≡ true) s.refresh_tokens

module _ (p : Platform) (laws : PlatformLaws p) (id : Uuid) (now : ℕ) (s : Store) where
  revoke_all-HasNoSession : HasNoSession id (revoke_tokens p (live_tokens_of p id) now s).1
  revoke_all-HasNoSession =
      rw
        (laws.orm_laws.update_lem RefreshToken (live_tokens_of p id)
          (λ t. record t { revoked_at = some now }) s.refresh_tokens)
        (All-updated (λ t. t.user_id ≡ id → is_some t.revoked_at ≡ true) (live_tokens_of p id)
          (λ t. record t { revoked_at = some now }) s.refresh_tokens (λ t live e. refl)
          (λ t dead e. ground (arith, dead, e)))

  -- Logging out everywhere, deactivating, inactivating and resetting the password of an existing user,
  -- and a password change that the current password authorises, leave the user without a session.
  pub sessions_end :
      (u : User) (org actor salt : ℕ) (reset : AdminResetPasswordDto) (change : ChangePasswordDto)
      → p.orm.find_one User (λ v. v.id == id) s.users ≡ some u
      → p.bcrypt_compare change.current_password u.password ≡ true
      → HasNoSession id (logout_all p id now s).1
        × HasNoSession id (inactivate p id org actor now s).1
        × HasNoSession id (deactivate p id org actor now s).1
        × HasNoSession id (admin_reset_password p id reset org actor salt now s).1
        × HasNoSession id (change_password p id change id salt now s).1
  unfolding logout_all stamp_logout inactivate deactivate admin_reset_password change_password
  sessions_end u org actor salt reset change found right =
      let gone = revoke_all-HasNoSession in
      (
        rw found gone,
        rw found gone,
        rw found gone,
        rw found gone,
        rw (==_refl id, found, right) gone,
      )
