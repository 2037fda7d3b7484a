-- ===== src/Invitations/Joining.antt =====
-- What follows on an `accept` of apps/backend/src/modules/invitations: the login, and no second accept.
use shipment_tracking_system.Prelude.{
  Bool, true, false, ◌≡◌, ◌≢◌, refl, ◌∙◌, ap, none, some, [], ◌∷◌, ◌++◌, All, In, IsUnique,
  IsUnique-append, In-append_right, In-append_cases, All-In, arith, Option-cases, str_eq, eq_iff,
  ◌&&◌, inl, inr, ltb, ok, err, bad_request, save_row, In-save_cases, eq_of_In-save,
}
use shipment_tracking_system.Identity.{User, Invitation, accepted, Store, Platform, PlatformLaws}
use shipment_tracking_system.Auth.{Request, LoginResult, login}
use shipment_tracking_system.Invitations.{
  AcceptInvitationDto, Arrival, accept, join, is_pending, invited_user,
}
use shipment_tracking_system.Sessions.Lockout
use shipment_tracking_system.Sessions.Lockout.{IsAccount}

-- The test of `accept`: the hash of the token, and pending.
abbrev pub is_invited : Platform → AcceptInvitationDto → Invitation → Bool
is_invited p dto i = str_eq i.token_hash (p.sha256 dto.token) && is_pending i.status

accept-none :
    (p : Platform) (dto : AcceptInvitationDto) (a : Arrival) (s : Store)
    → p.orm.find_one Invitation (is_invited p dto) s.invitations ≡ none
    → accept p dto a s ≡ (err (bad_request "INVALID_OR_EXPIRED_INVITATION"), s)
unfolding accept
accept-none p dto a s missing = rw missing refl

module _ (p : Platform) (laws : PlatformLaws p) (dto : AcceptInvitationDto) (a : Arrival)
    (s : Store) (i : Invitation)
    (found : p.orm.find_one Invitation (is_invited p dto) s.invitations ≡ some i)
    (in_time : ltb i.expires_at a.now ≡ false)
    (free : p.orm.find_one User (λ u. str_eq u.username dto.username) s.users ≡ none) where
  accept-eq-join : accept p dto a s ≡ join p dto a i s
  unfolding accept
  accept-eq-join = ground (arith, found, in_time, free)

  joined-IsAccount :
      IsUnique (λ v. v.id) s.users
      → All (λ v. v.id ≢ a.user_id) s.users
      → IsAccount p laws (invited_user p dto a) (join p dto a i s).1
  unfolding join
  joined-IsAccount ids new_id =
      let u = invited_user p dto a in
      let others = laws.orm_laws.find_one_none User _ s.users free in
      let e = laws.orm_laws.insert_lem User u s.users in
      record {
        ids = rw e (IsUnique-append (λ v. v.id) u s.users new_id ids);
        stored = rw e (In-append_right u s.users);
        sole = λ v m name.
            let m' : In v (s.users ++ u ∷ []) = rw e at m in
            elim (In-append_cases v s.users (u ∷ []) m') [
              | inl old ↦
                  let differs =
                    All-In (λ w. str_eq w.username dto.username ≡ false) v s.users others old in
                  absurd (cc ((eq_iff v.username dto.username).1 name, differs))
              | inr new ↦ elim new [ inl is ↦ is | inr nothing ↦ absurd nothing ]
            ];
      }

  -- Whoever has accepted an invitation can log in with the name and the password of the form.
  pub accept-login :
      (req : Request)
      → IsUnique (λ v. v.id) s.users
      → All (λ v. v.id ≢ a.user_id) s.users
      → (res : LoginResult) × ((login p dto.username dto.password req (accept p dto a s).1).0
          ≡ ok res)
        × (res.user.id ≡ a.user_id)
  accept-login req ids new_id =
      rw accept-eq-join
        (Lockout.login-resets p laws (invited_user p dto a) (join p dto a i s).1 dto.password req
          (joined-IsAccount ids new_id) refl refl (laws.bcrypt_compare-hash a.salt dto.password)).0

  joined_not_invited :
      (again : AcceptInvitationDto)
      → again.token ≡ dto.token
      → IsUnique (λ j. j.id) s.invitations
      → ((j : Invitation) → In j s.invitations → j.token_hash ≡ p.sha256 dto.token → j ≡ i)
      → (j : Invitation) → In j (join p dto a i s).1.invitations
      → is_invited p again j ≡ true
      → ⊥
  unfolding join
  joined_not_invited again same ids sole j m test =
      let i' = record i { status = accepted; used_at = some a.now } in
      let m' : In j (save_row (λ v. v.id) i' s.invitations) =
        rw (laws.orm_laws.save_lem Invitation (λ v. v.id) i' s.invitations) at m in
      let hash : j.token_hash ≡ p.sha256 again.token = (eq_iff _ _).0 (ground (arith, test)) in
      let waits : is_pending j.status ≡ true = ground (arith, test) in
      elim (In-save_cases (λ v. v.id) j i' s.invitations m') [
        | inl is ↦ cc
        | inr old ↦
            let was : j ≡ i = sole j old (hash ∙ ap p.sha256 same) in
            let is : j ≡ i' =
              eq_of_In-save (λ v. v.id) j i' s.invitations ids m' (ap (λ v. v.id) was) in
            cc
      ]

  -- A token is accepted once: where it belongs to one invitation, a second `accept` of it is refused
  -- and changes nothing, whatever name and password come with it.
  pub accept_once :
      (again : AcceptInvitationDto) (b : Arrival)
      → again.token ≡ dto.token
      → IsUnique (λ j. j.id) s.invitations
      → ((j : Invitation) → In j s.invitations → j.token_hash ≡ p.sha256 dto.token → j ≡ i)
      → accept p again b (accept p dto a s).1
        ≡ (err (bad_request "INVALID_OR_EXPIRED_INVITATION"), (accept p dto a s).1)
  accept_once again b same ids sole =
      let s' = (join p dto a i s).1 in
      rw accept-eq-join
        (elim (Option-cases (p.orm.find_one Invitation (is_invited p again) s'.invitations)) [
          | inl gone ↦ accept-none p again b s' gone
          | inr (j, still) ↦
              let (m, test) =
                laws.orm_laws.find_one_some Invitation (is_invited p again) s'.invitations j
                  still in
              absurd (joined_not_invited again same ids sole j m test)
        ])
