-- ===== src/Sessions/Revocation.antt =====
-- Revoked refresh tokens of apps/backend/src/modules/auth stay revoked through every later request.
use shipment_tracking_system.Prelude.{
  ℕ, String, Bool, true, ◌≡◌, ◌≢◌, refl, sym, ◌∙◌, some, All, All-In, Option-cases, str_eq, eq_iff,
  err, unauthorized, is_some, inl, inr,
}
use shipment_tracking_system.Identity.{Uuid, RefreshToken, Store, Platform, PlatformLaws}
use shipment_tracking_system.Auth.{
  Request, login, refresh_token, logout, logout_all, validate_refresh,
}
use shipment_tracking_system.Users.{
  CreateUserDto, UpdateUserDto, ChangePasswordDto, AdminResetPasswordDto, create, update,
  inactivate, deactivate, change_password, admin_reset_password, unlock_user,
}
use shipment_tracking_system.Sessions.Tokens

-- Every row with the hash is revoked.
abbrev pub IsDead : String → Store → Type 0
IsDead h s = All (λ t. t.token_hash ≡ h → is_some t.revoked_at ≡ true) s.refresh_tokens

-- No session of the family that starts at the time gets the hash.
abbrev pub IsFresh : Platform → String → Uuid → ℕ → Type 0
IsFresh p h family now = (user : Uuid) → Tokens.issued_hash p user family now ≢ h

-- One request, to any handler that writes users or tokens. The sessions that it opens get hashes
-- other than `h`.
pub data Step (p : Platform) (h : String) : Store → Store → Type 0 where
  logs_in :
      (username password : String) (req : Request) (s : Store)
      → IsFresh p h req.new_family req.now
      → Step p h s (login p username password req s).1
  refreshes :
      (token : RefreshToken) (user_id : Uuid) (req : Request) (s : Store)
      → IsFresh p h token.family_id req.now
      → Step p h s (refresh_token p token user_id req s).1
  logs_out :
      (user_id : Uuid) (hash : String) (now : ℕ) (s : Store)
      → Step p h s (logout p user_id hash now s).1
  logs_out_all : (user_id : Uuid) (now : ℕ) (s : Store) → Step p h s (logout_all p user_id now s).1
  creates :
      (dto : CreateUserDto) (org actor user profile : Uuid) (salt : ℕ) (saved : Bool) (s : Store)
      → Step p h s (create p dto org actor user profile salt saved s).1
  updates :
      (id : Uuid) (dto : UpdateUserDto) (org actor : Uuid) (s : Store)
      → Step p h s (update p id dto org actor s).1
  inactivates :
      (id org actor : Uuid) (now : ℕ) (s : Store) → Step p h s (inactivate p id org actor now s).1
  deactivates :
      (id org actor : Uuid) (now : ℕ) (s : Store) → Step p h s (deactivate p id org actor now s).1
  changes_password :
      (id : Uuid) (dto : ChangePasswordDto) (actor : Uuid) (salt now : ℕ) (s : Store)
      → Step p h s (change_password p id dto actor salt now s).1
  resets_password :
      (id : Uuid) (dto : AdminResetPasswordDto) (org actor : Uuid) (salt now : ℕ) (s : Store)
      → Step p h s (admin_reset_password p id dto org actor salt now s).1
  unlocks : (id org actor : Uuid) (s : Store) → Step p h s (unlock_user p id org actor s).1

pub data Reach (p : Platform) (h : String) (s : Store) : Store → Type 0 where
  here : Reach p h s s
  next : {t u : Store} → Reach p h s t → Step p h t u → Reach p h s u

module _ (p : Platform) (laws : PlatformLaws p) (h : String) where
  abbrev Dead : RefreshToken → Type 0
  Dead t = t.token_hash ≡ h → is_some t.revoked_at ≡ true

  keeps : (t : RefreshToken) (now : ℕ) → Dead t → Dead (record t { revoked_at = some now })
  keeps t now d e = refl

  fresh-Dead :
      (family : Uuid) (now : ℕ)
      → IsFresh p h family now
      → (t : RefreshToken) (user : Uuid) → t.token_hash ≡ Tokens.issued_hash p user family now
      → Dead t
  fresh-Dead family now fresh t user e q = absurd (fresh user (sym e ∙ q))

  Step-IsDead : {s t : Store} → Step p h s t → IsDead h s → IsDead h t
  Step-IsDead (logs_in username password req s fresh) d =
      Tokens.login-All p laws Dead keeps username password req s
        (fresh-Dead req.new_family req.now fresh) d
  Step-IsDead (refreshes token user_id req s fresh) d =
      Tokens.refresh_token-All p laws Dead keeps token user_id req s
        (fresh-Dead token.family_id req.now fresh) (λ e. refl) d
  Step-IsDead (logs_out user_id hash now s) d =
      Tokens.logout-All p laws Dead keeps user_id hash now s d
  Step-IsDead (logs_out_all user_id now s) d =
      Tokens.logout_all-All p laws Dead keeps user_id now s d
  Step-IsDead (creates dto org actor user profile salt saved s) d =
      rw (Tokens.create-tokens p dto org actor user profile salt saved s) d
  Step-IsDead (updates id dto org actor s) d = rw (Tokens.update-tokens p id dto org actor s) d
  Step-IsDead (inactivates id org actor now s) d =
      Tokens.inactivate-All p laws Dead keeps id org actor now s d
  Step-IsDead (deactivates id org actor now s) d =
      Tokens.deactivate-All p laws Dead keeps id org actor now s d
  Step-IsDead (changes_password id dto actor salt now s) d =
      Tokens.change_password-All p laws Dead keeps id dto actor salt now s d
  Step-IsDead (resets_password id dto org actor salt now s) d =
      Tokens.admin_reset_password-All p laws Dead keeps id dto org actor salt now s d
  Step-IsDead (unlocks id org actor s) d = rw (Tokens.unlock_user-tokens p id org actor s) d

  pub Reach-IsDead : {s t : Store} → IsDead h s → Reach p h s t → IsDead h t
  Reach-IsDead d here = d
  Reach-IsDead d (next r st) = Step-IsDead st (Reach-IsDead d r)

-- The strategy refuses a cookie whose token is dead.
pub validate_refresh-IsDead :
    (p : Platform) (laws : PlatformLaws p) (raw : String) (sub : Uuid) (now : ℕ) (s : Store)
    → IsDead (p.sha256 raw) s
    → validate_refresh p (some raw) sub now s ≡ (err (unauthorized "INVALID_REFRESH_TOKEN"), s)
unfolding validate_refresh
validate_refresh-IsDead p laws raw sub now s d =
    elim (Option-cases
      (p.orm.find_one RefreshToken (λ t. str_eq t.token_hash (p.sha256 raw)) s.refresh_tokens)) [
        | inl missing ↦ rw missing refl
        | inr (t, found) ↦
            let (m, e) = laws.orm_laws.find_one_some RefreshToken _ s.refresh_tokens t found in
            let revoked =
              All-In (λ v. v.token_hash ≡ p.sha256 raw → is_some v.revoked_at ≡ true) t
                s.refresh_tokens d m ((eq_iff _ _).0 e) in
            rw (found, revoked) refl
      ]
