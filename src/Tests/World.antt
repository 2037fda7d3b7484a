-- ===== src/Tests/World.antt =====
-- A platform that computes: tables are lists, a hash is the text itself with a mark, and a token
-- writes its claims. It satisfies the laws that the properties assume of the platform.
use shipment_tracking_system.Prelude.{
  ℕ, zero, suc, String, Bool, true, false, ◌≡◌, refl, Option, none, some, List, [], ◌∷◌, ◌++◌, All,
  In, filter, length, update_rows, delete_rows, save_row, if◌then◌else◌, inl, inr, Bool-cases,
  arith, str_eq, str_eq_refl,
}
use shipment_tracking_system.Prelude.Orm.{Orm, OrmLaws}
use shipment_tracking_system.Identity.{
  Uuid, User, RefreshToken, Profile, Role, UserRole, PermissionEntity, RolePermission, Invitation,
  Store, Platform, PlatformLaws, Config,
}
use shipment_tracking_system.Auth.{Request}
use Prim.Native.String

unfoldable pub first : (Row : Type 0) → (Row → Bool) → List Row → Option Row
first Row p [] = none
first Row p (r ∷ t) = if p r then some r else first Row p t

first_none :
    (Row : Type 0) (p : Row → Bool) (t : List Row) → first Row p t ≡ none → All (λ r. p r ≡ false) t
unfolding first
first_none Row p [] e = tt
first_none Row p (r ∷ t) e = elim (Bool-cases (p r)) [
  | inl y ↦ absurd (ground (arith, y, e))
  | inr n ↦ (n, first_none Row p t (ground (arith, n, e)))
]

first_some :
    (Row : Type 0) (p : Row → Bool) (t : List Row) (r : Row)
    → first Row p t ≡ some r
    → In r t × (p r ≡ true)
unfolding first
first_some Row p [] r e = absurd (cc)
first_some Row p (x ∷ t) r e = elim (Bool-cases (p x)) [
  | inl y ↦ let is : r ≡ x = ground (arith, y, e) in (inl is, rw is y)
  | inr n ↦ let (m, q) = first_some Row p t r (ground (arith, n, e)) in (inr m, q)
]

abbrev pub list_orm : Orm
list_orm = record {
  find_one = first;
  find = λ Row p t. filter p t;
  count = λ Row p t. length (filter p t);
  save = λ Row key r t. save_row key r t;
  insert = λ Row r t. t ++ r ∷ [];
  update = λ Row p f t. update_rows p f t;
  delete = λ Row p t. delete_rows p t;
}

pub list_orm_laws : OrmLaws list_orm
list_orm_laws = record {
  find_one_none = first_none;
  find_one_some = first_some;
  find_lem = λ Row p t. refl;
  count_lem = λ Row p t. refl;
  save_lem = λ Row key r t. refl;
  insert_lem = λ Row r t. refl;
  update_lem = λ Row p f t. refl;
  delete_lem = λ Row p t. refl;
}

abbrev pub defaults : Config
defaults = record {
  login_max_attempts = none;
  jwt_access_expires_in = none;
  jwt_refresh_expires_in = none;
  session_inactivity_minutes = none;
  invitation_expiry_hours = none;
}

-- A number in unary, so that tokens of different sessions differ.
abbrev tally : ℕ → String
tally zero = ""
tally (suc n) = String.◌++◌ "i" (tally n)

abbrev pub world : Platform
world = record {
  orm = list_orm;
  config = defaults;
  sha256 = λ s. s;
  bcrypt_compare = λ s hash. str_eq s hash;
  bcrypt_hash = λ salt s. s;
  sign_access = λ claims life now. "access";
  sign_refresh = λ user family life now. String.◌++◌ (tally family) (String.◌++◌ "." (tally now));
}

pub world_laws : PlatformLaws world
world_laws = record { orm_laws = list_orm_laws; bcrypt_compare-hash = λ salt s. str_eq_refl s }

abbrev pub ann : User
ann = record {
  id = 1;
  username = "ann";
  password = "secret";
  is_super_admin = false;
  last_login_at = none;
  last_logout_at = none;
  failed_attempts = 0;
  is_locked = false;
  locked_at = none;
  require_password_reset = false;
  is_active = true;
}

abbrev pub old_token : RefreshToken
old_token = record {
  id = 7;
  user_id = 1;
  organization_id = some 5;
  token_hash = "cookie";
  family_id = 3;
  expires_at = 900;
  last_used_at = 100;
  revoked_at = none;
  ip_address = none;
  user_agent = none;
}

abbrev pub invitation : Invitation
invitation = record {
  id = 11;
  organization_id = 5;
  email = "bob@x";
  invited_by = 1;
  role_id = some 20;
  invited_name = none;
  token_hash = "invite";
  status = shipment_tracking_system.Identity.pending;
  expires_at = 500;
  used_at = none;
}

abbrev pub store : Store
store = record {
  users = ann ∷ [];
  refresh_tokens = old_token ∷ [];
  profiles = record { id = 2; user_id = 1; organization_id = 5; name = none; email = none } ∷ [];
  user_roles = record { user_id = 1; role_id = 20; organization_id = 5; assigned_by = none } ∷ [];
  roles =
      record {
        id = 20;
        name = "staff";
        description = none;
        organization_id = 5;
        is_system = false;
        is_default = false;
      }
      ∷ [];
  role_permissions = record { role_id = 20; permission_id = 30 } ∷ [];
  permissions = record { id = 30; name = "read.user" } ∷ [];
  invitations = invitation ∷ [];
  email_queue = [];
  events = [];
}

abbrev pub request : Request
request = record { now = 200; ip = none; user_agent = none; new_id = 8; new_family = 4 }
