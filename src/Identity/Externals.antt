-- ===== src/Identity/Externals.antt =====
-- What is not part of the source: the ORM, the hash functions, the JWT library, the configuration.
use shipment_tracking_system.Prelude.{ℕ, String, Bool, true, Option, List, ◌≡◌}
use shipment_tracking_system.Prelude.Orm.{Orm, OrmLaws}
use shipment_tracking_system.Identity.Entities.{Uuid}

-- packages/shared: the claims of an access token.
pub record JwtPayload : Type 0 where
  pub sub : Uuid
  pub org_id : Option Uuid
  pub is_super_admin : Bool
  pub roles : Option (List String)
  pub permissions : Option (List String)

-- The variables that the services read; `none` is a variable that is not set.
pub record Config : Type 0 where
  pub login_max_attempts : Option ℕ
  pub jwt_access_expires_in : Option String
  pub jwt_refresh_expires_in : Option String
  pub session_inactivity_minutes : Option ℕ
  pub invitation_expiry_hours : Option ℕ

-- `sign_access` and `sign_refresh` are `jwtService.sign` with their secrets: the claims, the time to
-- live, and the time of signing.
pub record Platform : Type 1 where
  pub orm : Orm
  pub config : Config
  pub sha256 : String → String
  pub bcrypt_compare : String → String → Bool
  pub bcrypt_hash : (salt : ℕ) → String → String
  pub sign_access : JwtPayload → String → ℕ → String
  pub sign_refresh : Uuid → Uuid → String → ℕ → String

-- What is assumed of it: the laws of the ORM, and that bcrypt accepts the password it has hashed.
pub record PlatformLaws (p : Platform) : Type 1 where
  pub orm_laws : OrmLaws p.orm
  pub bcrypt_compare-hash :
      (salt : ℕ) (s : String) → p.bcrypt_compare s (p.bcrypt_hash salt s) ≡ true
