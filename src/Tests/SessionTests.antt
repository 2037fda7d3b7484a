-- ===== src/Tests/SessionTests.antt =====
-- Sessions of one account: lockout, rotation, revocation, access.
use shipment_tracking_system.Prelude.{
  String, true, false, ◌≡◌, refl, ◌↔◌, ◌⊎◌, none, some, List, [], ◌∷◌, inl, inr, ok, err, forbidden,
  arith, codes, is_ok,
}
use shipment_tracking_system.Identity.{User, Store, JwtPayload}
use shipment_tracking_system.Auth.{
  Request, LoginResult, RefreshUser, AuthenticatedUser, login, logout_all, can_activate,
  get_permissions_for_user, query_permissions, validate_jwt, parse_to_ms, parse_expiry, match_start,
}
use shipment_tracking_system.Users.{inactivate, deactivate, change_password, admin_reset_password}
use shipment_tracking_system.Sessions.Lifetime.{
  IsLifetime, match_start_iff, parse_to_ms-eq-parse_expiry,
}
use shipment_tracking_system.Sessions.Lockout.{IsAccount, login_all, login-locks, login_cases}
use shipment_tracking_system.Sessions.Rotation.{HasNoSession, sessions_end}
use shipment_tracking_system.Sessions.Access.{IsAllowed, can_activate_iff, validate_jwt-is_ok}
use shipment_tracking_system.Tests.World.{world, world_laws, first, ann, old_token, store, request}

minutes_example : (match_start (codes "15m") ≡ some 900_000) ↔ IsLifetime (codes "15m") 900_000
minutes_example = match_start_iff (codes "15m") 900_000

parse_to_ms_example : parse_to_ms "90x" ≡ parse_expiry "90x"
parse_to_ms_example = parse_to_ms-eq-parse_expiry "90x"

parse_expiry_tests : (parse_expiry "15m" ≡ 900_000) × (parse_expiry "m" ≡ 604_800_000)
unfolding parse_expiry
parse_expiry_tests = (refl, refl)

ann-IsAccount : IsAccount world world_laws ann store
ann-IsAccount = record {
  ids = (tt, tt);
  stored = inl refl;
  sole = λ v m e. elim m [ inl is ↦ is | inr nothing ↦ absurd nothing ];
}

abbrev wrong_attempts : List (String × Request)
wrong_attempts =
    ("a", request) ∷ ("b", request) ∷ ("c", request) ∷ ("d", request) ∷ ("e", request) ∷ []

login-locks_example :
    let s' = login_all world world_laws "ann" wrong_attempts store in
    login world "ann" "secret" request s' ≡ (err (forbidden "ACCOUNT_LOCKED"), s')
login-locks_example =
    login-locks world world_laws ann store wrong_attempts "secret" request ann-IsAccount refl refl
      (omega arith) (refl, (refl, (refl, (refl, (refl, tt))))) (omega arith)

login_cases_example :
    let (r, s') = login world "ann" "secret" request store in
    ((true ≡ true)
      × (false ≡ false)
      × (world.bcrypt_compare "secret" ann.password ≡ true)
      × ((res : LoginResult) × (r ≡ ok res) × (res.user.id ≡ 1))
      × ((v : User) × IsAccount world world_laws v s'
          × (v.id ≡ 1)
          × (v.failed_attempts ≡ 0)
          × (v.is_locked ≡ false)))
    ⊎ (((true ≡ false) ⊎ (false ≡ true) ⊎ (world.bcrypt_compare "secret" ann.password ≡ false))
        × (is_ok r ≡ false))
login_cases_example = login_cases world world_laws ann store "secret" request ann-IsAccount

abbrev dead_store : Store
dead_store = record store { refresh_tokens = record old_token { revoked_at = some 150 } ∷ [] }

abbrev accepted_cookie : RefreshUser
accepted_cookie = record { token_record = old_token; user_id = 1 }

sessions_end_example :
    HasNoSession 1 (logout_all world 1 300 store).1
    × HasNoSession 1 (inactivate world 1 5 9 300 store).1
    × HasNoSession 1 (deactivate world 1 5 9 300 store).1
    × HasNoSession 1
        (admin_reset_password world 1
          (record { new_password = "n"; require_change = none })
          5
          9
          6
          300
          store).1
    × HasNoSession 1
        (change_password world 1
          (record { current_password = "secret"; new_password = "n" })
          1
          6
          300
          store).1
unfolding first
sessions_end_example =
    sessions_end world world_laws 1 300 store ann 5 9 6
      (record { new_password = "n"; require_change = none })
      (record { current_password = "secret"; new_password = "n" }) refl refl

abbrev ann_in_org : AuthenticatedUser
ann_in_org = record {
  id = 1;
  username = "ann";
  organization_id = some 5;
  is_super_admin = false;
  roles = [];
  permissions = [];
}

can_activate_iff_example :
    ((can_activate (some "read.user") (some ann_in_org) (record { store = store; cache = [] })).0
      ≡ ok true)
    ↔ IsAllowed ann_in_org "read.user" store
can_activate_iff_example =
    can_activate_iff "read.user" ann_in_org (record { store = store; cache = [] }) tt

can_activate_tests :
    ((can_activate (some "read.user") (some ann_in_org) (record { store = store; cache = [] })).0
      ≡ ok true)
    × ((can_activate (some "read.role") (some ann_in_org) (record { store = store; cache = [] })).0
        ≡ err (forbidden "Missing permission"))
unfolding can_activate get_permissions_for_user query_permissions
can_activate_tests = (refl, refl)

abbrev claims : JwtPayload
claims = record {
  sub = 1;
  org_id = some 5;
  is_super_admin = false;
  roles = none;
  permissions = none;
}

validate_jwt-is_ok_example : is_ok (validate_jwt world claims store).0 ≡ true
unfolding first
validate_jwt-is_ok_example = validate_jwt-is_ok world claims store ann refl
