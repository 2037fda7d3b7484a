-- ===== src/Roles/Protection.antt =====
-- Which roles an organization can change (apps/backend/src/modules/roles/roles.service.ts).
use shipment_tracking_system.Prelude.{
  Option, true, false, ◌≡◌, ◌≢◌, sym, ◌∙◌, ap, List, [], ◌∷◌, All, In, All-In, All-append, All-save,
  All-filter, In-filter, In-append_left, In-save_other, not, ◌==◌, inl, inr, ◌⊎◌, arith,
}
use shipment_tracking_system.Identity.{Uuid, Role, Store, Platform, PlatformLaws}
use shipment_tracking_system.Roles.{
  CreateRoleDto, UpdateRoleDto, AssignRoleDto, create, update, delete, assign_permissions,
  assign_role, revoke_role, assigned, is_in,
}
use shipment_tracking_system.Roles.Writes.{
  update_cases, delete_cases, create_cases, assign_permissions-roles, assign_role-roles,
}

-- The table has the role `r`, and no other row with its id.
abbrev pub Holds : Role → Store → Type 0
Holds r s = In r s.roles × All (λ v. v.id ≡ r.id → v ≡ r) s.roles

-- A request of a caller with the organization `org`, which a super admin does not have, to the service; new roles get an id that is not `k`.
pub data Request (p : Platform) (k : Uuid) (org : Option Uuid) : Store → Store → Type 0 where
  creates :
      (dto : CreateRoleDto) (actor new_id : Uuid) (s : Store)
      → new_id ≢ k
      → Request p k org s (create p dto org actor new_id s).1
  updates :
      (id : Uuid) (dto : UpdateRoleDto) (actor : Uuid) (s : Store)
      → Request p k org s (update p id dto org actor s).1
  deletes : (id actor : Uuid) (s : Store) → Request p k org s (delete p id org actor s).1
  assigns_permissions :
      (id : Uuid) (permission_ids : List Uuid) (actor : Uuid) (s : Store)
      → Request p k org s (assign_permissions p id permission_ids org actor s).1
  assigns_role :
      (dto : AssignRoleDto) (actor : Uuid) (s : Store)
      → Request p k org s (assign_role p dto org actor s).1
  revokes_role :
      (user_id role_id actor : Uuid) (s : Store)
      → Request p k org s (revoke_role p user_id role_id org actor s).1

-- Requests of such callers, one after another.
pub data Requests (p : Platform) (k : Uuid) : List (Option Uuid) → Store → Store → Type 0 where
  here : {s : Store} → Requests p k [] s s
  next :
      {org : Option Uuid} {orgs : List (Option Uuid)} {s t u : Store}
      → Request p k org s t
      → Requests p k orgs t u
      → Requests p k (org ∷ orgs) s u

module _ (p : Platform) (laws : PlatformLaws p) where
  -- A row that a request may change is not the protected one.
  other_id :
      (sys r : Role) (s : Store) (org : Option Uuid)
      → (sys.is_system ≡ true) ⊎ (is_in org sys ≡ false)
      → Holds sys s
      → In r s.roles
      → r.is_system ≡ false
      → is_in org r ≡ true
      → r.id ≢ sys.id
  other_id sys r s org protected h m free o e =
      let same = All-In (λ v. v.id ≡ sys.id → v ≡ sys) r s.roles h.1 m e in
      elim protected [
        | inl system ↦ absurd (ground (arith, free, same, system))
        | inr foreign ↦ absurd (cc (sym foreign ∙ ap (is_in org) (sym same) ∙ o))
      ]

  -- One request leaves a protected role as it is.
  Request-Holds :
      (sys : Role) (org : Option Uuid) {s t : Store}
      → (sys.is_system ≡ true) ⊎ (is_in org sys ≡ false)
      → Holds sys s
      → Request p sys.id org s t
      → Holds sys t
  unfolding revoke_role
  Request-Holds sys org protected h (creates dto actor new_id s fresh) =
      elim (create_cases p laws dto org actor new_id s) [
        | inl same ↦ rw same h
        | inr (r, is_new, wrote) ↦
            let Kept = λ (v : Role). v.id ≡ sys.id → v ≡ sys in
            rw wrote (
              In-append_left sys s.roles (r ∷ []) h.0,
              All-append Kept s.roles (r ∷ []) h.1 ((λ e. absurd (fresh (sym is_new ∙ e))), tt),
            )
      ]
  Request-Holds sys org protected h (updates id dto actor s) =
      elim (update_cases p laws id dto org actor s) [
        | inl same ↦ rw same h
        | inr (r, m, free, o, wrote) ↦
            let Kept = λ (v : Role). v.id ≡ sys.id → v ≡ sys in
            let ne = other_id sys r s org protected h m free o in
            rw wrote (
              In-save_other (λ v. v.id) sys (assigned dto r) s.roles (λ e. ne (sym e)) h.0,
              All-save Kept (λ v. v.id) (assigned dto r) s.roles (λ e. absurd (ne e)) h.1,
            )
      ]
  Request-Holds sys org protected h (deletes id actor s) =
      elim (delete_cases p laws id org actor s) [
        | inl same ↦ rw same h
        | inr (r, m, free, o, wrote) ↦
            let Kept = λ (v : Role). v.id ≡ sys.id → v ≡ sys in
            let ne = other_id sys r s org protected h m free o in
            rw wrote (
              In-filter (λ v. not (v.id == r.id)) sys s.roles h.0 (ground (arith, ne)),
              All-filter Kept (λ v. not (v.id == r.id)) s.roles h.1,
            )
      ]
  Request-Holds sys org protected h (assigns_permissions id ids actor s) =
      rw (assign_permissions-roles p laws id ids org actor s) h
  Request-Holds sys org protected h (assigns_role dto actor s) =
      rw (assign_role-roles p laws dto org actor s) h
  Request-Holds sys org protected h (revokes_role user_id role_id actor s) = h

-- A system role stays as it is through any requests to the service, of a super admin too, and so does
-- any role through the requests of callers who all have an organization other than the role's: no
-- update, deletion or assignment changes its row. Ids are unique, and new roles get new ids. A caller
-- without an organization, as a super admin is, is not among those callers.
pub protected_role_stays :
    (p : Platform) (laws : PlatformLaws p) (sys : Role) (orgs : List (Option Uuid)) (s t : Store)
    → (sys.is_system ≡ true) ⊎ All (λ org. is_in org sys ≡ false) orgs
    → Holds sys s
    → Requests p sys.id orgs s t
    → Holds sys t
protected_role_stays p laws sys [] s t protected h here = h
protected_role_stays p laws sys (org ∷ orgs) s t protected h (next first rest) =
    let one : (sys.is_system ≡ true) ⊎ (is_in org sys ≡ false) = elim protected [
      | inl system ↦ inl system
      | inr foreign ↦ inr foreign.0
    ] in
    let more : (sys.is_system ≡ true) ⊎ All (λ o. is_in o sys ≡ false) orgs = elim protected [
      | inl system ↦ inl system
      | inr foreign ↦ inr foreign.1
    ] in
    protected_role_stays p laws sys orgs _ t more (Request-Holds p laws sys org one h first) rest
