-- ===== src/Identity/Entities.antt =====
-- The entity classes, the event payloads, and the store: one list of rows for each table, the jobs
-- of the email queue, and the log of emitted events.
use shipment_tracking_system.Prelude.{ℕ, String, Bool, Option, List}

-- A UUID.
abbrev pub Uuid : Type 0
Uuid = ℕ

pub record User : Type 0 where
  pub id : Uuid
  pub username : String
  pub password : String
  pub is_super_admin : Bool
  pub last_login_at : Option ℕ
  pub last_logout_at : Option ℕ
  pub failed_attempts : ℕ
  pub is_locked : Bool
  pub locked_at : Option ℕ
  pub require_password_reset : Bool
  pub is_active : Bool

pub record RefreshToken : Type 0 where
  pub id : Uuid
  pub user_id : Uuid
  pub organization_id : Option Uuid
  pub token_hash : String
  pub family_id : Uuid
  pub expires_at : ℕ
  pub last_used_at : ℕ
  pub revoked_at : Option ℕ
  pub ip_address : Option String
  pub user_agent : Option String

pub record Profile : Type 0 where
  pub id : Uuid
  pub user_id : Uuid
  pub organization_id : Uuid
  pub name : Option String
  pub email : Option String

pub record Role : Type 0 where
  pub id : Uuid
  pub name : String
  pub description : Option String
  pub organization_id : Uuid
  pub is_system : Bool
  pub is_default : Bool

pub record UserRole : Type 0 where
  pub user_id : Uuid
  pub role_id : Uuid
  pub organization_id : Uuid
  pub assigned_by : Option Uuid

pub record PermissionEntity : Type 0 where
  pub id : Uuid
  pub name : String

pub record RolePermission : Type 0 where
  pub role_id : Uuid
  pub permission_id : Uuid

pub data InvitationStatus : Type 0 where
  pending accepted expired revoked : InvitationStatus

pub record Invitation : Type 0 where
  pub id : Uuid
  pub organization_id : Uuid
  pub email : String
  pub invited_by : Uuid
  pub role_id : Option Uuid
  pub invited_name : Option String
  pub token_hash : String
  pub status : InvitationStatus
  pub expires_at : ℕ
  pub used_at : Option ℕ

-- The events of `eventEmitter.emit`, with the fields of their payloads in order.
pub data Event : Type 0 where
  auth_login_failed : (user_id : Uuid) (ip : Option String) → Event
  auth_login : (user_id : Uuid) (organization_id : Option Uuid) (ip : Option String) → Event
  auth_logout auth_logout_all : (user_id : Uuid) → Event
  user_created user_updated user_inactivated user_deactivated user_password_reset user_unlocked :
      (user_id organization_id actor_id : Uuid) → Event
  user_password_changed : (user_id actor_id : Uuid) → Event
  role_created role_updated role_deleted role_permissions_updated :
      (role_id : Uuid) (organization_id : Option Uuid) (actor_id : Uuid) → Event
  role_assigned role_revoked :
      (user_id role_id : Uuid) (organization_id : Option Uuid) (actor_id : Uuid) → Event
  invitation_created invitation_cancelled : (invitation_id organization_id actor_id : Uuid) → Event
  invitation_accepted : (invitation_id user_id organization_id : Uuid) → Event

-- A job of the email queue: the address, the token of the link, and the organization.
pub record InvitationEmail : Type 0 where
  pub to : String
  pub token : String
  pub organization_id : Uuid

pub record Store : Type 0 where
  pub users : List User
  pub refresh_tokens : List RefreshToken
  pub profiles : List Profile
  pub user_roles : List UserRole
  pub roles : List Role
  pub role_permissions : List RolePermission
  pub permissions : List PermissionEntity
  pub invitations : List Invitation
  pub email_queue : List InvitationEmail
  pub events : List Event
