-- ===== src/Sessions/Tokens.antt =====
-- What each handler of apps/backend/src/modules/auth and apps/backend/src/modules/users does to the
-- table of refresh tokens: it revokes rows, or adds one with a hash of its own, and nothing else.
use shipment_tracking_system.Prelude.{
  ℕ, String, Bool, ◌≡◌, refl, some, List, [], ◌∷◌, All, All-append, All-update, All-save, save_row,
  ◌⊎◌, inl, inr, arith, get_or, Option-cases, Bool-cases, str_eq, unauthorized, forbidden, err,
  HttpError, ◌==◌, ◌&&◌,
}
use shipment_tracking_system.Identity.{
  Uuid, User, RefreshToken, Store, Platform, PlatformLaws, revoke_tokens,
}
use shipment_tracking_system.Auth.{
  Request, login, fail_login, complete_login, issue_token_pair, refresh_token, logout, logout_all,
  live_tokens_of, stamp_logout,
}
use shipment_tracking_system.Users.{
  CreateUserDto, UpdateUserDto, ChangePasswordDto, AdminResetPasswordDto, create, update,
  inactivate, deactivate, change_password, admin_reset_password, unlock_user,
}

-- The hash of the refresh token that a session of the family gets at the time.
abbrev pub issued_hash : Platform → Uuid → Uuid → ℕ → String
issued_hash p user family now =
    p.sha256 (p.sign_refresh user family (get_or p.config.jwt_refresh_expires_in "7d") now)

module _ (p : Platform) where
  -- `login` ends in one of three ways: refused at once, refused and counted, or let in.
  pub login_cases :
      (username password : String) (req : Request) (s : Store)
      → ((e : HttpError) × (login p username password req s ≡ (err e, s)))
        ⊎ ((u : User) × (login p username password req s ≡ fail_login p u req s))
        ⊎ ((u : User) × (login p username password req s ≡ complete_login p u req s))
  unfolding login
  login_cases username password req s =
      elim (Option-cases (p.orm.find_one User (λ u. str_eq u.username username) s.users)) [
        | inl missing ↦ inl (unauthorized "INVALID_CREDENTIALS", rw missing refl)
        | inr (u, found) ↦ elim (Bool-cases u.is_active) [
          | inr off ↦ inl (unauthorized "INVALID_CREDENTIALS", ground (arith, found, off))
          | inl active ↦ elim (Bool-cases u.is_locked) [
            | inl locked ↦ inl (forbidden "ACCOUNT_LOCKED", ground (arith, found, active, locked))
            | inr unlocked ↦ elim (Bool-cases (p.bcrypt_compare password u.password)) [
              | inl right ↦ inr (inr (u, ground (arith, found, active, unlocked, right)))
              | inr wrong ↦ inr (inl (u, ground (arith, found, active, unlocked, wrong)))
            ]
          ]
        ]
      ]

module _ (p : Platform) (laws : PlatformLaws p) (P : RefreshToken → Type 0)
    (keeps : (t : RefreshToken) (now : ℕ) → P t → P (record t { revoked_at = some now })) where
  revoke-All :
      (which : RefreshToken → Bool) (now : ℕ) (s : Store)
      → All P s.refresh_tokens
      → All P (revoke_tokens p which now s).1.refresh_tokens
  revoke-All which now s h =
      rw
        (laws.orm_laws.update_lem RefreshToken which (λ t. record t { revoked_at = some now })
          s.refresh_tokens)
        (All-update P which (λ t. record t { revoked_at = some now }) s.refresh_tokens
          (λ t e. keeps t now) h)

  insert-All :
      (t : RefreshToken) (ts : List RefreshToken)
      → P t
      → All P ts
      → All P (p.orm.insert RefreshToken t ts)
  insert-All t ts pt h =
      rw (laws.orm_laws.insert_lem RefreshToken t ts) (All-append P ts (t ∷ []) h (pt, tt))

  pub login-All :
      (username password : String) (req : Request) (s : Store)
      → ((t : RefreshToken) (user : Uuid)
          → t.token_hash ≡ issued_hash p user req.new_family req.now
          → P t)
      → All P s.refresh_tokens
      → All P (login p username password req s).1.refresh_tokens
  unfolding fail_login complete_login issue_token_pair
  login-All username password req s fresh h = elim (login_cases p username password req s) [
    | inl (e, refused) ↦ rw refused h
    | inr (inl (u, failed)) ↦ rw failed h
    | inr (inr (u, done)) ↦ rw done (insert-All _ s.refresh_tokens (fresh _ u.id refl) h)
  ]

  -- From what holds of the table once the old row is saved as revoked.
  pub refresh_token-All_saved :
      (old : RefreshToken) (user_id : Uuid) (req : Request) (s : Store)
      → ((t : RefreshToken) (user : Uuid)
          → t.token_hash ≡ issued_hash p user old.family_id req.now
          → P t)
      → All P (save_row (λ t. t.id) (record old { revoked_at = some req.now }) s.refresh_tokens)
      → All P (refresh_token p old user_id req s).1.refresh_tokens
  unfolding refresh_token issue_token_pair
  refresh_token-All_saved old user_id req s fresh h =
      let r = record old { revoked_at = some req.now } in
      let saved : All P (p.orm.save RefreshToken (λ t. t.id) r s.refresh_tokens) =
        rw (laws.orm_laws.save_lem RefreshToken (λ t. t.id) r s.refresh_tokens) h in
      elim (Option-cases (p.orm.find_one User (λ u. u.id == user_id) s.users)) [
        | inl missing ↦ rw missing saved
        | inr (u, found) ↦ elim (Bool-cases u.is_active) [
          | inr off ↦ rw (found, off) saved
          | inl active ↦ rw (found, active) (insert-All _ _ (fresh _ u.id refl) saved)
        ]
      ]

  pub refresh_token-All :
      (old : RefreshToken) (user_id : Uuid) (req : Request) (s : Store)
      → ((t : RefreshToken) (user : Uuid)
          → t.token_hash ≡ issued_hash p user old.family_id req.now
          → P t)
      → P (record old { revoked_at = some req.now })
      → All P s.refresh_tokens
      → All P (refresh_token p old user_id req s).1.refresh_tokens
  refresh_token-All old user_id req s fresh po h =
      let r = record old { revoked_at = some req.now } in
      refresh_token-All_saved old user_id req s fresh
        (All-save P (λ t. t.id) r s.refresh_tokens po h)

  -- The handlers that end sessions, and those of `UsersService`.
  pub logout-All :
      (user_id : Uuid) (hash : String) (now : ℕ) (s : Store)
      → All P s.refresh_tokens
      → All P (logout p user_id hash now s).1.refresh_tokens
  unfolding logout stamp_logout
  logout-All user_id hash now s h =
      let r = revoke-All (λ t. t.user_id == user_id && str_eq t.token_hash hash) now s h in
      elim (Option-cases (p.orm.find_one User (λ u. u.id == user_id) s.users)) [
        | inl missing ↦ rw missing r
        | inr (u, found) ↦ rw found r
      ]

  pub logout_all-All :
      (user_id : Uuid) (now : ℕ) (s : Store)
      → All P s.refresh_tokens
      → All P (logout_all p user_id now s).1.refresh_tokens
  unfolding logout_all stamp_logout
  logout_all-All user_id now s h =
      let r = revoke-All (live_tokens_of p user_id) now s h in
      elim (Option-cases (p.orm.find_one User (λ u. u.id == user_id) s.users)) [
        | inl missing ↦ rw missing r
        | inr (u, found) ↦ rw found r
      ]

  pub inactivate-All :
      (id org actor : Uuid) (now : ℕ) (s : Store)
      → All P s.refresh_tokens
      → All P (inactivate p id org actor now s).1.refresh_tokens
  unfolding inactivate
  inactivate-All id org actor now s h =
      elim (Option-cases (p.orm.find_one User (λ u. u.id == id) s.users)) [
        | inl missing ↦ rw missing h
        | inr (u, found) ↦ rw found (revoke-All (live_tokens_of p id) now s h)
      ]

  pub deactivate-All :
      (id org actor : Uuid) (now : ℕ) (s : Store)
      → All P s.refresh_tokens
      → All P (deactivate p id org actor now s).1.refresh_tokens
  unfolding deactivate
  deactivate-All id org actor now s h =
      elim (Option-cases (p.orm.find_one User (λ u. u.id == id) s.users)) [
        | inl missing ↦ rw missing h
        | inr (u, found) ↦ rw found (revoke-All (live_tokens_of p id) now s h)
      ]

  pub admin_reset_password-All :
      (id : Uuid) (dto : AdminResetPasswordDto) (org actor : Uuid) (salt now : ℕ) (s : Store)
      → All P s.refresh_tokens
      → All P (admin_reset_password p id dto org actor salt now s).1.refresh_tokens
  unfolding admin_reset_password
  admin_reset_password-All id dto org actor salt now s h =
      elim (Option-cases (p.orm.find_one User (λ u. u.id == id) s.users)) [
        | inl missing ↦ rw missing h
        | inr (u, found) ↦ rw found (revoke-All (live_tokens_of p id) now s h)
      ]

  pub change_password-All :
      (id : Uuid) (dto : ChangePasswordDto) (actor : Uuid) (salt now : ℕ) (s : Store)
      → All P s.refresh_tokens
      → All P (change_password p id dto actor salt now s).1.refresh_tokens
  unfolding change_password
  change_password-All id dto actor salt now s h = elim (Bool-cases (id == actor)) [
    | inr other ↦ rw other h
    | inl self ↦ elim (Option-cases (p.orm.find_one User (λ u. u.id == id) s.users)) [
      | inl missing ↦ rw (self, missing) h
      | inr (u, found) ↦ elim (Bool-cases (p.bcrypt_compare dto.current_password u.password)) [
        | inr wrong ↦ rw (self, found, wrong) h
        | inl right ↦ rw (self, found, right) (revoke-All (live_tokens_of p id) now s h)
      ]
    ]
  ]

module _ (p : Platform) where
  pub create-tokens :
      (dto : CreateUserDto) (org actor user profile : Uuid) (salt : ℕ) (saved : Bool) (s : Store)
      → (create p dto org actor user profile salt saved s).1.refresh_tokens ≡ s.refresh_tokens
  unfolding create
  create-tokens dto org actor user profile salt saved s = ground arith

  pub update-tokens :
      (id : Uuid) (dto : UpdateUserDto) (org actor : Uuid) (s : Store)
      → (update p id dto org actor s).1.refresh_tokens ≡ s.refresh_tokens
  unfolding update
  update-tokens id dto org actor s = ground arith

  pub unlock_user-tokens :
      (id org actor : Uuid) (s : Store)
      → (unlock_user p id org actor s).1.refresh_tokens ≡ s.refresh_tokens
  unfolding unlock_user
  unlock_user-tokens id org actor s = ground arith
