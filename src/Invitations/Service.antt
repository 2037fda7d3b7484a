-- ===== src/Invitations/Service.antt =====
-- `InvitationsService` and its DTOs. The raw token (32 random bytes), the clock, the identifiers that
-- the database would generate and the salt of bcrypt are arguments.
use shipment_tracking_system.Prelude.{
  ℕ, ◌+◌, ◌*◌, String, Bool, true, false, not, ◌&&◌, Option, none, some, List, [], ◌∷◌, ◌++◌, ◌==◌,
  str_eq, ltb, if◌then◌else◌, get_or, is_some, HttpError, bad_request, not_found, conflict, Action,
  Void, ok, err, pure, gets, modify, or_throw, throw_if, ◌>>=◌, ◌>>◌,
}
use shipment_tracking_system.Identity.{
  Uuid, User, Profile, UserRole, Invitation, InvitationStatus, pending, accepted, expired, revoked,
  InvitationEmail, Store, Platform, invitation_created, invitation_cancelled, invitation_accepted,
  emit, find_username,
}

-- dto/invitation.dto.ts
pub record CreateInvitationDto : Type 0 where
  pub email : String
  pub name : String
  pub role_id : Option Uuid
  pub organization_id : Option Uuid

pub record AcceptInvitationDto : Type 0 where
  pub token : String
  pub username : String
  pub password : String

-- What the world adds to `accept`.
pub record Arrival : Type 0 where
  pub now : ℕ
  pub user_id : Uuid
  pub profile_id : Uuid
  pub salt : ℕ

abbrev pub is_pending : InvitationStatus → Bool
is_pending pending = true
is_pending accepted = false
is_pending expired = false
is_pending revoked = false

-- `invitation.expiresAt < new Date()`, or nothing found.
abbrev pub valid_or_throw : Option Invitation → ℕ → HttpError → Action Store Invitation
valid_or_throw none now e s = (err e, s)
valid_or_throw (some i) now e s = (if ltb i.expires_at now then err e else ok i, s)

module _ (p : Platform) where
  -- `invitationRepo.save` of a loaded invitation.
  abbrev pub save_invitation : Invitation → Action Store Void
  save_invitation i =
      modify (λ s. record s { invitations = p.orm.save Invitation (λ j. j.id) i s.invitations })

  -- `where: { email, organizationId, status: 'pending' }`
  abbrev pub is_pending_for : String → Uuid → Invitation → Bool
  is_pending_for email org i =
      str_eq i.email email && i.organization_id == org && is_pending i.status

  unfoldable pub create :
      CreateInvitationDto
      → Uuid
      → Uuid
      → (new_id : Uuid) → (raw_token : String) → (now : ℕ) → Action Store Invitation
  create dto organization_id invited_by new_id raw_token now = do
    existing ←
        gets
          (λ s. p.orm.find_one Invitation (is_pending_for dto.email organization_id) s.invitations)
    throw_if (is_some existing) (conflict "Pending invitation already exists for this email")
    let expiry_hours = get_or p.config.invitation_expiry_hours 72
    let invitation : Invitation = record {
      id = new_id;
      organization_id = organization_id;
      email = dto.email;
      invited_by = invited_by;
      role_id = dto.role_id;
      invited_name = some dto.name;
      token_hash = p.sha256 raw_token;
      status = pending;
      expires_at = now + expiry_hours * 60 * 60 * 1000;
      used_at = none;
    }
    modify (λ s. record s { invitations = p.orm.insert Invitation invitation s.invitations })
    let email : InvitationEmail = record {
      to = dto.email;
      token = raw_token;
      organization_id = organization_id;
    }
    modify (λ s. record s { email_queue = s.email_queue ++ email ∷ [] })
    emit (invitation_created new_id organization_id invited_by)
    pure invitation

  -- The rows of an organization; the order is the database's.
  unfoldable pub find_all : Uuid → Store → List Invitation
  find_all organization_id s =
      p.orm.find Invitation (λ i. i.organization_id == organization_id) s.invitations

  -- The `catch` logs the error and throws it again.
  unfoldable pub cancel : Uuid → Uuid → Action Store Void
  cancel id actor_id = do
    found ← gets (λ s. p.orm.find_one Invitation (λ i. i.id == id) s.invitations)
    invitation ← or_throw found (not_found "Invitation not found")
    throw_if (not (is_pending invitation.status)) (bad_request "Invitation is not pending")
    save_invitation (record invitation { status = revoked })
    emit (invitation_cancelled id invitation.organization_id actor_id)

  -- The row that gives the user the role that the invitation names.
  abbrev pub invited_role : Invitation → Uuid → Uuid → UserRole
  invited_role i user_id role_id = record {
    user_id = user_id;
    role_id = role_id;
    organization_id = i.organization_id;
    assigned_by = some i.invited_by;
  }

  -- `if (invitation.roleId)`
  abbrev pub assign_invited_role : Invitation → Uuid → Action Store Void
  assign_invited_role i user_id = modify (λ s. record s {
    user_roles = elim i.role_id [
      | none ↦ s.user_roles
      | some role_id ↦ p.orm.insert UserRole (invited_role i user_id role_id) s.user_roles
    ];
  })

  -- The account that `accept` creates.
  abbrev pub invited_user : AcceptInvitationDto → Arrival → User
  invited_user dto a = record {
    id = a.user_id;
    username = dto.username;
    password = p.bcrypt_hash a.salt dto.password;
    is_super_admin = false;
    last_login_at = none;
    last_logout_at = none;
    failed_attempts = 0;
    is_locked = false;
    locked_at = none;
    require_password_reset = false;
    is_active = true;
  }

  abbrev pub invited_profile : Invitation → Arrival → Profile
  invited_profile i a = record {
    id = a.profile_id;
    user_id = a.user_id;
    organization_id = i.organization_id;
    name = i.invited_name;
    email = some i.email;
  }

  -- The writes of `accept`, after its checks.
  unfoldable pub join : AcceptInvitationDto → Arrival → Invitation → Action Store String
  join dto a invitation = do
    modify (λ s. record s { users = p.orm.insert User (invited_user dto a) s.users })
    modify (λ s. record s {
      profiles = p.orm.insert Profile (invited_profile invitation a) s.profiles;
    })
    assign_invited_role invitation a.user_id
    save_invitation (record invitation { status = accepted; used_at = some a.now })
    emit (invitation_accepted invitation.id a.user_id invitation.organization_id)
    pure "Account created successfully. You can now log in."

  unfoldable pub accept : AcceptInvitationDto → Arrival → Action Store String
  unfolding join
  accept dto a = do
    let token_hash = p.sha256 dto.token
    found ← gets (λ s.
        p.orm.find_one Invitation (λ i. str_eq i.token_hash token_hash && is_pending i.status)
          s.invitations)
    invitation ← valid_or_throw found a.now (bad_request "INVALID_OR_EXPIRED_INVITATION")
    existing ← find_username p dto.username
    throw_if (is_some existing) (conflict "Username already taken")
    join dto a invitation
