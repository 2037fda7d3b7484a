-- ===== src/Tests/InvitationTests.antt =====
-- One invitation: created, answered, used to join.
use shipment_tracking_system.Prelude.{
  ◌≡◌, refl, none, [], ◌∷◌, inl, inr, ok, err, bad_request, arith,
}
use shipment_tracking_system.Identity.{revoked, Store}
use shipment_tracking_system.Auth.{LoginResult, login}
use shipment_tracking_system.Invitations.{
  CreateInvitationDto, AcceptInvitationDto, Arrival, create, cancel, accept,
}
use shipment_tracking_system.Invitations.Pending.{
  OnePending, Answered, OnePending-kept, Answered-kept,
}
use shipment_tracking_system.Invitations.Joining.{accept-login, accept_once}
use shipment_tracking_system.Tests.World.{world, world_laws, first, store, request, invitation}

abbrev form : AcceptInvitationDto
form = record { token = "invite"; username = "bob"; password = "hunter22" }

abbrev arrival : Arrival
arrival = record { now = 400; user_id = 40; profile_id = 41; salt = 6 }

abbrev invite : CreateInvitationDto
invite = record { email = "bob@x"; name = "Bob"; role_id = none; organization_id = none }

OnePending-kept_example :
    OnePending (create world invite 6 1 11 "other" 300 store).1
    × OnePending (cancel world 11 1 store).1
    × OnePending (accept world form arrival store).1
OnePending-kept_example =
    OnePending-kept world world_laws invite form arrival 6 1 11 "other" 300 store (tt, tt)

abbrev closed_store : Store
closed_store = record store { invitations = record invitation { status = revoked } ∷ [] }

Answered-kept_example :
    Answered 11 revoked (create world invite 5 1 12 "other" 300 closed_store).1
    × Answered 11 revoked (cancel world 11 1 closed_store).1
    × Answered 11 revoked (accept world form arrival closed_store).1
Answered-kept_example =
    Answered-kept world world_laws 11 revoked invite form arrival 5 1 11 12 "other" 300 closed_store
      refl (omega arith) ((λ e. refl), tt)

accept-login_example :
    (res : LoginResult) × ((login world "bob" "hunter22" request
        (accept world form arrival store).1).0
      ≡ ok res)
    × (res.user.id ≡ 40)
unfolding first
accept-login_example =
    accept-login world world_laws form arrival store invitation refl refl refl request (tt, tt)
      ((omega arith), tt)

accept_once_example :
    accept world form arrival (accept world form arrival store).1
    ≡ (err (bad_request "INVALID_OR_EXPIRED_INVITATION"), (accept world form arrival store).1)
unfolding first
accept_once_example =
    accept_once world world_laws form arrival store invitation refl refl refl form arrival refl
      (tt, tt) (λ j m e. elim m [ inl is ↦ is | inr nothing ↦ absurd nothing ])
