-- ===== src/Invitations/Pending.antt =====
-- The life of an invitation (apps/backend/src/modules/invitations): one pending invitation for an
-- address in an organization, and answers that are final.
use shipment_tracking_system.Prelude.{
  ℕ, String, true, false, ◌≡◌, ◌≢◌, refl, some, List, All, In, Pairwise, Pairwise-append,
  Pairwise-save, All-mono, All-append, All-save, All-In, arith, Option-cases, Bool-cases, str_eq,
  eq_iff, ◌==◌, ==_iff, ◌&&◌, inl, inr, ◌⊎◌, save_row, ltb,
}
use shipment_tracking_system.Identity.{
  Uuid, User, Invitation, InvitationStatus, accepted, revoked, Store, Platform, PlatformLaws,
}
use shipment_tracking_system.Invitations.{
  CreateInvitationDto, AcceptInvitationDto, Arrival, create, cancel, accept, is_pending,
  is_pending_for,
}

-- Not two pending invitations for one address in one organization.
abbrev pub Exclusive : Invitation → Invitation → Type 0
Exclusive i j =
    is_pending i.status ≡ true
    → is_pending j.status ≡ true
    → i.email ≡ j.email
    → i.organization_id ≡ j.organization_id
    → ⊥

abbrev pub OnePending : Store → Type 0
OnePending s = Pairwise Exclusive s.invitations

-- The invitation `k` has got the answer `st`.
abbrev pub Answered : Uuid → InvitationStatus → Store → Type 0
Answered k st s = All (λ i. i.id ≡ k → i.status ≡ st) s.invitations

module _ (p : Platform) (laws : PlatformLaws p) where
  -- What a handler does to the table of invitations: nothing, or the write that its branch makes.
  cancel_cases :
      (id actor : Uuid) (s : Store)
      → ((cancel p id actor s).1.invitations ≡ s.invitations)
        ⊎ ((i : Invitation) × In i s.invitations
            × (is_pending i.status ≡ true)
            × (i.id ≡ id)
            × ((cancel p id actor s).1.invitations
                ≡ save_row (λ j. j.id) (record i { status = revoked }) s.invitations))
  unfolding cancel
  cancel_cases id actor s =
      elim (Option-cases (p.orm.find_one Invitation (λ i. i.id == id) s.invitations)) [
        | inl missing ↦ inl (rw missing refl)
        | inr (i, found) ↦
            let (m, e) = laws.orm_laws.find_one_some Invitation _ s.invitations i found in
            elim (Bool-cases (is_pending i.status)) [
              | inr closed ↦ inl (ground (arith, found, closed))
              | inl waiting ↦ inr (
                i,
                m,
                waiting,
                (==_iff _ _).0 e,
                ground (
                  arith,
                  found,
                  waiting,
                  laws.orm_laws.save_lem Invitation (λ j. j.id) (record i { status = revoked })
                      s.invitations,
                ),
              )
            ]
      ]

  accept_cases :
      (dto : AcceptInvitationDto) (a : Arrival) (s : Store)
      → ((accept p dto a s).1.invitations ≡ s.invitations)
        ⊎ ((i : Invitation) × In i s.invitations
            × (is_pending i.status ≡ true)
            × (i.token_hash ≡ p.sha256 dto.token)
            × ((accept p dto a s).1.invitations
                ≡ save_row
                    (λ j. j.id)
                    (record i { status = accepted; used_at = some a.now })
                    s.invitations))
  unfolding accept
  accept_cases dto a s =
      let test =
        λ (i : Invitation). str_eq i.token_hash (p.sha256 dto.token) && is_pending i.status in
      elim (Option-cases (p.orm.find_one Invitation test s.invitations)) [
        | inl missing ↦ inl (rw missing refl)
        | inr (i, found) ↦
            let (m, e) = laws.orm_laws.find_one_some Invitation test s.invitations i found in
            elim (Bool-cases (ltb i.expires_at a.now)) [
              | inl late ↦ inl (ground (arith, found, late))
              | inr in_time ↦
                  elim (Option-cases
                    (p.orm.find_one User (λ u. str_eq u.username dto.username) s.users)) [
                      | inr (u, taken) ↦ inl (ground (arith, found, in_time, taken))
                      | inl free ↦ inr (
                        i,
                        m,
                        ground (arith, e),
                        (eq_iff _ _).0 (ground (arith, e)),
                        ground (
                          arith,
                          found,
                          in_time,
                          free,
                          laws.orm_laws.save_lem Invitation (λ j. j.id)
                              (record i { status = accepted; used_at = some a.now }) s.invitations,
                        ),
                      )
                    ]
            ]
      ]

  save-OnePending :
      (i : Invitation) (l : List Invitation)
      → is_pending i.status ≡ false
      → Pairwise Exclusive l
      → Pairwise Exclusive (save_row (λ j. j.id) i l)
  save-OnePending i l closed h =
      Pairwise-save Exclusive (λ j. j.id) i l (λ x a b e o. cc) (λ x a b e o. cc) h

  create-OnePending :
      (dto : CreateInvitationDto) (org by id : Uuid) (raw : String) (now : ℕ) (s : Store)
      → OnePending s
      → OnePending (create p dto org by id raw now s).1
  unfolding create
  create-OnePending dto org by id raw now s h =
      let test = is_pending_for p dto.email org in
      elim (Option-cases (p.orm.find_one Invitation test s.invitations)) [
        | inr (i, found) ↦ rw found h
        | inl free ↦
            rw (free, laws.orm_laws.insert_lem Invitation _ s.invitations)
              (Pairwise-append Exclusive _ s.invitations
                (All-mono (λ i. test i ≡ false) _ s.invitations
                  (λ i other a b e o.
                    ground (arith, other, a, e, o, (eq_iff i.email dto.email).1 e))
                  (laws.orm_laws.find_one_none Invitation test s.invitations free))
                h)
      ]

  -- None of the three handlers lets an address have two pending invitations in one organization.
  pub OnePending-kept :
      (invite : CreateInvitationDto) (answer : AcceptInvitationDto) (a : Arrival)
      (org actor id : Uuid) (raw : String) (now : ℕ) (s : Store)
      → OnePending s
      → OnePending (create p invite org actor id raw now s).1
        × OnePending (cancel p id actor s).1
        × OnePending (accept p answer a s).1
  OnePending-kept invite answer a org actor id raw now s h = (
    create-OnePending invite org actor id raw now s h,
    elim (cancel_cases id actor s) [
      | inl same ↦ rw same h
      | inr (i, m, w, e, q) ↦
          rw q (save-OnePending (record i { status = revoked }) s.invitations refl h)
    ],
    elim (accept_cases answer a s) [
      | inl same ↦ rw same h
      | inr (i, m, w, e, q) ↦ rw q (
          save-OnePending (record i { status = accepted; used_at = some a.now }) s.invitations refl
            h)
    ],
  )

  -- An answer is final: when an invitation is no longer pending, creating another, cancelling and
  -- accepting leave its status.
  pub Answered-kept :
      (k : Uuid) (st : InvitationStatus) (invite : CreateInvitationDto)
      (answer : AcceptInvitationDto) (a : Arrival) (org actor id new_id : Uuid) (raw : String)
      (now : ℕ) (s : Store)
      → is_pending st ≡ false
      → new_id ≢ k
      → Answered k st s
      → Answered k st (create p invite org actor new_id raw now s).1
        × Answered k st (cancel p id actor s).1
        × Answered k st (accept p answer a s).1
  unfolding create
  Answered-kept k st invite answer a org actor id new_id raw now s closed fresh h =
      let Keeps = λ (i : Invitation). i.id ≡ k → i.status ≡ st in
      let final =
        λ (i : Invitation) (m : In i s.invitations) (w : is_pending i.status ≡ true) (e : i.id ≡ k).
          absurd {A = ⊥} (cc (All-In Keeps i s.invitations h m e, w, closed)) in
      (
        elim (Option-cases
            (p.orm.find_one Invitation (is_pending_for p invite.email org) s.invitations)) [
              | inr (i, found) ↦ rw found h
              | inl free ↦
                  rw (free, laws.orm_laws.insert_lem Invitation _ s.invitations)
                    (All-append Keeps s.invitations _ h ((λ e. absurd (fresh e)), tt))
            ],
        elim (cancel_cases id actor s) [
          | inl same ↦ rw same h
          | inr (i, m, w, e, q) ↦ rw q (
              All-save Keeps (λ j. j.id) (record i { status = revoked }) s.invitations
                (λ e'. absurd (final i m w e')) h)
        ],
        elim (accept_cases answer a s) [
          | inl same ↦ rw same h
          | inr (i, m, w, e, q) ↦ rw q (
              All-save Keeps (λ j. j.id) (record i { status = accepted; used_at = some a.now })
                s.invitations (λ e'. absurd (final i m w e')) h)
        ],
      )
