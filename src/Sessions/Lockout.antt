-- ===== src/Sessions/Lockout.antt =====
-- `login` of apps/backend/src/modules/auth/auth.service.ts counts wrong passwords and locks.
use shipment_tracking_system.Prelude.{
  ℕ, ◌+◌, ◌≤◌, ◌<◌, String, true, false, ◌≡◌, refl, sym, ap, ◌∙◌, none, some, List, [], ◌∷◌, All,
  In, IsUnique, length, inl, inr, ◌⊎◌, is_ok, arith, get_or, Option-cases, Bool-cases, eq_iff,
  str_eq, ok, err, forbidden, In-save_self, In-save_cases, IsUnique-save, eq_of_In-save, All-In,
  save_row, leb, ◌||◌, str_eq_refl, if◌then◌else◌,
}
use shipment_tracking_system.Identity.{User, Store, Platform, PlatformLaws}
use shipment_tracking_system.Auth.{
  Request, LoginResult, login, fail_login, complete_login, issue_token_pair,
}

abbrev pub max_attempts : Platform → ℕ
max_attempts p = get_or p.config.login_max_attempts 5

module _ (p : Platform) (laws : PlatformLaws p) where
  -- `u` is the row of its username: ids are unique, and no other row has the name.
  pub record IsAccount (u : User) (s : Store) : Type 0 where
    pub ids : IsUnique (λ v. v.id) s.users
    pub stored : In u s.users
    pub sole : (v : User) → In v s.users → v.username ≡ u.username → v ≡ u

  find_account :
      (u : User) (s : Store)
      → IsAccount u s
      → p.orm.find_one User (λ v. str_eq v.username u.username) s.users ≡ some u
  find_account u s h =
      elim (Option-cases (p.orm.find_one User (λ v. str_eq v.username u.username) s.users)) [
        | inl missing ↦
            let all = laws.orm_laws.find_one_none User _ s.users missing in
            absurd (cc (All-In _ u s.users all h.stored, str_eq_refl u.username))
        | inr (v, found) ↦
            let (m, e) = laws.orm_laws.find_one_some User _ s.users v found in
            found ∙ ap some (h.sole v m ((eq_iff v.username u.username).0 e))
      ]

  -- A save that keeps the id and the name replaces the account.
  save-IsAccount :
      (u u' : User) (s s' : Store)
      → IsAccount u s
      → u'.id ≡ u.id
      → u'.username ≡ u.username
      → s'.users ≡ p.orm.save User (λ v. v.id) u' s.users
      → IsAccount u' s'
  save-IsAccount u u' s s' h same_id same_name e =
      let q : s'.users ≡ save_row (λ v. v.id) u' s.users =
        e ∙ laws.orm_laws.save_lem User (λ v. v.id) u' s.users in
      record {
        ids = rw q (IsUnique-save (λ v. v.id) u' s.users h.ids);
        stored = rw q (In-save_self (λ v. v.id) u' s.users);
        sole = λ v m name.
            let m' : In v (save_row (λ w. w.id) u' s.users) = rw q at m in
            elim (In-save_cases (λ w. w.id) v u' s.users m') [
              | inl is ↦ is
              | inr old ↦
                  let was = h.sole v old (name ∙ same_name) in
                  eq_of_In-save (λ w. w.id) v u' s.users h.ids m' (ap (λ w. w.id) was ∙ sym same_id)
            ];
      }

  -- The row that a wrong password leaves.
  abbrev counted : User → ℕ → User
  counted u now =
      let attempts = u.failed_attempts + 1 in
      let reached = leb (max_attempts p) attempts in
      record u {
        failed_attempts = attempts;
        is_locked = reached || u.is_locked;
        locked_at = if reached then some now else u.locked_at;
      }

  login_wrong :
      (u : User) (s : Store) (password : String) (req : Request)
      → IsAccount u s
      → u.is_active ≡ true
      → u.is_locked ≡ false
      → p.bcrypt_compare password u.password ≡ false
      → (login p u.username password req s).1.users
        ≡ p.orm.save User (λ v. v.id) (counted u req.now) s.users
  unfolding login fail_login
  login_wrong u s password req h active unlocked wrong =
      rw (find_account u s h, active, unlocked, wrong) refl

  login_locked :
      (u : User) (s : Store) (password : String) (req : Request)
      → IsAccount u s
      → u.is_active ≡ true
      → u.is_locked ≡ true
      → login p u.username password req s ≡ (err (forbidden "ACCOUNT_LOCKED"), s)
  unfolding login
  login_locked u s password req h active locked = rw (find_account u s h, active, locked) refl

  -- A run of logins with the given passwords, each with its request.
  abbrev pub login_all : String → List (String × Request) → Store → Store
  login_all username [] s = s
  login_all username ((password, req) ∷ rest) s =
      login_all username rest (login p username password req s).1

  -- Once locked, every later login of the run is refused and changes nothing.
  login_all-locked :
      (u : User) (s : Store) (attempts : List (String × Request))
      → IsAccount u s
      → u.is_active ≡ true
      → u.is_locked ≡ true
      → login_all u.username attempts s ≡ s
  login_all-locked u s [] h active locked = refl
  login_all-locked u s ((password, req) ∷ rest) h active locked =
      rw (login_locked u s password req h active locked) (login_all-locked u s rest h active locked)

  -- From a number of failures below the limit, a run of wrong passwords that reaches the limit locks
  -- the account: the next login is refused as ACCOUNT_LOCKED whatever its password, and changes
  -- nothing.
  pub login-locks :
      (u : User) (s : Store) (attempts : List (String × Request)) (password : String)
      (req : Request)
      → IsAccount u s
      → u.is_active ≡ true
      → u.is_locked ≡ false
      → u.failed_attempts < max_attempts p
      → All (λ a. p.bcrypt_compare a.0 u.password ≡ false) attempts
      → max_attempts p ≤ u.failed_attempts + length attempts
      → let s' = login_all u.username attempts s in
        login p u.username password req s' ≡ (err (forbidden "ACCOUNT_LOCKED"), s')
  login-locks u s [] password req h active unlocked below wrong enough = absurd (omega arith)
  login-locks u s ((pw, r) ∷ rest) password req h active unlocked below wrong enough =
      let s₁ = (login p u.username pw r s).1 in
      let u₁ = counted u r.now in
      let h₁ : IsAccount u₁ s₁ =
        save-IsAccount u u₁ s s₁ h refl refl (login_wrong u s pw r h active unlocked wrong.0) in
      elim (Bool-cases (leb (max_attempts p) (u.failed_attempts + 1))) [
        | inl reached ↦
            let locked : u₁.is_locked ≡ true = rw reached refl in
            rw (login_all-locked u₁ s₁ rest h₁ active locked)
              (login_locked u₁ s₁ password req h₁ active locked)
        | inr not_yet ↦
            let open₁ : u₁.is_locked ≡ false = rw (not_yet, unlocked) refl in
            login-locks u₁ s₁ rest password req h₁ active open₁ (ground arith) wrong.1 (omega arith)
      ]

  login_right :
      (u : User) (s : Store) (password : String) (req : Request)
      → IsAccount u s
      → u.is_active ≡ true
      → u.is_locked ≡ false
      → p.bcrypt_compare password u.password ≡ true
      → login p u.username password req s ≡ complete_login p u req s
  unfolding login
  login_right u s password req h active unlocked right =
      ground (arith, find_account u s h, active, unlocked, right)

  -- The row that a correct password leaves.
  abbrev reset : User → ℕ → User
  reset u now = record u {
    failed_attempts = 0;
    is_locked = false;
    locked_at = none;
    last_login_at = some now;
  }

  complete_login-ok :
      (u : User) (s : Store) (req : Request)
      → ((res : LoginResult) × ((complete_login p u req s).0 ≡ ok res) × (res.user.id ≡ u.id))
        × ((complete_login p u req s).1.users
            ≡ p.orm.save User (λ v. v.id) (reset u req.now) s.users)
  unfolding complete_login issue_token_pair
  complete_login-ok u s req = ((_, refl, refl), refl)

  -- An open account's correct password is let in, and the count of failures starts again from zero.
  pub login-resets :
      (u : User) (s : Store) (password : String) (req : Request)
      → IsAccount u s
      → u.is_active ≡ true
      → u.is_locked ≡ false
      → p.bcrypt_compare password u.password ≡ true
      → let (r, s') = login p u.username password req s in
        ((res : LoginResult) × (r ≡ ok res) × (res.user.id ≡ u.id))
        × ((v : User) × IsAccount v s'
            × (v.id ≡ u.id)
            × (v.failed_attempts ≡ 0)
            × (v.is_locked ≡ false))
  login-resets u s password req h active unlocked right =
      let (answer, users) = complete_login-ok u s req in
      let s' = (complete_login p u req s).1 in
      rw (login_right u s password req h active unlocked right) (
        answer,
        (
          reset u req.now,
          save-IsAccount u (reset u req.now) s s' h refl refl users,
          refl,
          refl,
          refl,
        ),
      )

  login_inactive :
      (u : User) (s : Store) (password : String) (req : Request)
      → IsAccount u s
      → u.is_active ≡ false
      → is_ok (login p u.username password req s).0 ≡ false
  unfolding login
  login_inactive u s password req h inactive = rw (find_account u s h, inactive) refl

  login_fails :
      (u : User) (s : Store) (password : String) (req : Request)
      → IsAccount u s
      → u.is_active ≡ true
      → u.is_locked ≡ false
      → p.bcrypt_compare password u.password ≡ false
      → is_ok (login p u.username password req s).0 ≡ false
  unfolding login fail_login
  login_fails u s password req h active unlocked wrong =
      rw (find_account u s h, active, unlocked, wrong) refl

  -- A login to an account goes through exactly where the account is active and not locked and the
  -- password is the account's. It is then answered as the account's user, and the account stands with no
  -- failures counted and unlocked. In every other case the login is refused.
  pub login_cases :
      (u : User) (s : Store) (password : String) (req : Request)
      → IsAccount u s
      → let (r, s') = login p u.username password req s in
        ((u.is_active ≡ true)
          × (u.is_locked ≡ false)
          × (p.bcrypt_compare password u.password ≡ true)
          × ((res : LoginResult) × (r ≡ ok res) × (res.user.id ≡ u.id))
          × ((v : User) × IsAccount v s'
              × (v.id ≡ u.id)
              × (v.failed_attempts ≡ 0)
              × (v.is_locked ≡ false)))
        ⊎ (((u.is_active ≡ false)
              ⊎ (u.is_locked ≡ true)
              ⊎ (p.bcrypt_compare password u.password ≡ false))
            × (is_ok r ≡ false))
  login_cases u s password req h = elim (Bool-cases u.is_active) [
    | inr inactive ↦ inr (inl inactive, login_inactive u s password req h inactive)
    | inl active ↦ elim (Bool-cases u.is_locked) [
      | inl locked ↦
          inr
            (inr (inl locked), ap (λ r. is_ok r.0) (login_locked u s password req h active locked))
      | inr unlocked ↦ elim (Bool-cases (p.bcrypt_compare password u.password)) [
        | inl right ↦
            let (answer, account) = login-resets u s password req h active unlocked right in
            inl (active, unlocked, right, answer, account)
        | inr wrong ↦ inr (inr (inr wrong), login_fails u s password req h active unlocked wrong)
      ]
    ]
  ]
