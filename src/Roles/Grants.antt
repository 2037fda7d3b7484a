-- ===== src/Roles/Grants.antt =====
-- What a change of a role's permissions means to its members (apps/backend/src/modules/roles and the
-- permission lookup of apps/backend/src/modules/permissions).
use shipment_tracking_system.Prelude.{
  Option, All, All-In, String, true, false, ◌≡◌, refl, sym, ◌∙◌, ap, some, List, [], ◌∷◌, ◌++◌, In,
  map, filter, In-map, In-map_cases, In-append_cases, In-append_right_of, In-filter,
  In-filter_cases, In-concat_map, In-concat_map_cases, delete_rows, not, ◌==◌, ==_iff, ==_refl,
  ◌&&◌, inl, inr, ◌↔◌, ok, arith, Option-cases, is_ok,
}
use mathlib.Core.List.{append-nil, append_assoc}
use shipment_tracking_system.Identity.{
  Uuid, Role, UserRole, RolePermission, PermissionEntity, Store, Platform, PlatformLaws,
}
use shipment_tracking_system.Auth.{query_permissions}
use shipment_tracking_system.Roles.{
  entry, is_in, insert_entries, assign_permissions, has_repeats, check_permissions,
}
use shipment_tracking_system.Roles.Writes.{loaded_cases}

-- The permissions of a role.
abbrev entries_of : Uuid → List RolePermission → List RolePermission
entries_of k t = filter (λ rp. rp.role_id == k) t

module _ (p : Platform) (laws : PlatformLaws p) where
  insert_entries_lem :
      (id : Uuid) (ids : List Uuid) (t : List RolePermission)
      → insert_entries p id ids t ≡ t ++ map (entry id) ids
  insert_entries_lem id [] t = sym (append-nil t)
  insert_entries_lem id (k ∷ ids) t =
      insert_entries_lem id ids (p.orm.insert RolePermission (entry id k) t)
      ∙ ap (λ u. u ++ map (entry id) ids) (laws.orm_laws.insert_lem RolePermission (entry id k) t)
      ∙ append_assoc t (entry id k ∷ []) (map (entry id) ids)

  -- A row that meets the test is found, whichever it is.
  loaded :
      (id : Uuid) (org : Option Uuid) (s : Store) (r : Role)
      → In r s.roles
      → r.id ≡ id
      → is_in org r ≡ true
      → (v : Role) × (p.orm.find_one Role (λ r. r.id == id && is_in org r) s.roles ≡ some v)
        × (v.id ≡ id)
  loaded id org s r m e o = elim (loaded_cases p laws id org s) [
    | inl missing ↦
        let none_left = laws.orm_laws.find_one_none Role _ s.roles missing in
        let not_it = All-In (λ v. (v.id == id && is_in org v) ≡ false) r s.roles none_left m in
        absurd (ground (arith, not_it, e, o))
    | inr (v, found, _, is_id, _) ↦ (v, found, is_id)
  ]

  -- The loop passes where every permission exists.
  check_permissions_ok :
      (ids : List Uuid) (s : Store)
      → All (λ k. (q : PermissionEntity) × In q s.permissions × (q.id ≡ k)) ids
      → check_permissions p ids s ≡ (ok tt, s)
  unfolding check_permissions
  check_permissions_ok [] s h = refl
  check_permissions_ok (k ∷ ids) s ((q, m, e), h) =
      let rest = check_permissions_ok ids s h in
      elim (Option-cases (p.orm.find_one PermissionEntity (λ q. q.id == k) s.permissions)) [
        | inl missing ↦
            let none_left = laws.orm_laws.find_one_none PermissionEntity _ s.permissions missing in
            let not_it = All-In (λ v. (v.id == k) ≡ false) q s.permissions none_left m in
            absurd (ground (arith, not_it, e))
        | inr (v, found) ↦ ground (arith, found, rest)
      ]

  -- What an accepted assignment leaves.
  assign_permissions_lem :
      (id : Uuid) (ids : List Uuid) (org : Option Uuid) (actor : Uuid) (s : Store) (r : Role)
      → has_repeats ids ≡ false
      → (p.orm.find_one Role (λ r. r.id == id && is_in org r) s.roles ≡ some r)
      → r.id ≡ id
      → check_permissions p ids s ≡ (ok tt, s)
      → let done = assign_permissions p id ids org actor s in
        (is_ok done.0 ≡ true)
        × (done.1.role_permissions
            ≡ delete_rows (λ rp. rp.role_id == id) s.role_permissions ++ map (entry id) ids)
        × (done.1.user_roles ≡ s.user_roles)
        × (done.1.permissions ≡ s.permissions)
  unfolding assign_permissions
  assign_permissions_lem id ids org actor s r distinct found is_id passed =
      let table = p.orm.delete RolePermission (λ rp. rp.role_id == r.id) s.role_permissions in
      let wrote =
        laws.orm_laws.delete_lem RolePermission (λ rp. rp.role_id == r.id) s.role_permissions in
      let step : (assign_permissions p id ids org actor s).1.role_permissions
          ≡ insert_entries p r.id ids table =
        ground (arith, found, passed, distinct) in
      let ends =
        insert_entries_lem r.id ids table
        ∙ ap (λ t. t ++ map (entry r.id) ids) wrote
        ∙ ap (λ k. delete_rows (λ rp. rp.role_id == k) s.role_permissions ++ map (entry k) ids)
            is_id in
      (
        ground (arith, found, passed, distinct),
        step ∙ ends,
        ground (arith, found, passed, distinct),
        ground (arith, found, passed, distinct),
      )

-- The only grants of the user in the organization are of the role.
abbrev pub HasOnly : Uuid → Uuid → Uuid → Store → Type 0
HasOnly user org role_id s =
    ((ur : UserRole) × In ur s.user_roles
      × (ur.user_id ≡ user)
      × (ur.organization_id ≡ org)
      × (ur.role_id ≡ role_id))
    × All (λ v. v.user_id ≡ user → v.organization_id ≡ org → v.role_id ≡ role_id) s.user_roles

-- One of the permissions of `ids` has the name.
abbrev pub IsNamed : String → List Uuid → Store → Type 0
IsNamed name ids s = (q : PermissionEntity) × In q s.permissions × In q.id ids × (q.name ≡ name)

module _ (id user org : Uuid) (ids : List Uuid) (name : String) (s t : Store)
    (entries : t.role_permissions
      ≡ delete_rows (λ rp. rp.role_id == id) s.role_permissions ++ map (entry id) ids)
    (members : t.user_roles ≡ s.user_roles) (names : t.permissions ≡ s.permissions)
    (only : HasOnly user org id s) where
  entry_of :
      (rp : RolePermission)
      → In rp (delete_rows (λ v. v.role_id == id) s.role_permissions ++ map (entry id) ids)
      → rp.role_id ≡ id
      → (k : Uuid) × In k ids × (rp ≡ entry id k)
  entry_of rp m e =
      elim (In-append_cases rp (delete_rows (λ v. v.role_id == id) s.role_permissions)
        (map (entry id) ids) m) [
          | inl old ↦
              let (_, other) =
                In-filter_cases (λ v. not (v.role_id == id)) rp s.role_permissions old in
              absurd (ground (arith, e, other))
          | inr new ↦ In-map_cases (entry id) rp ids new
        ]

  granted-IsNamed : In name (query_permissions user org t) → IsNamed name ids s
  unfolding query_permissions
  granted-IsNamed m =
      let (ur, um, c) = In-concat_map_cases _ name _ m in
      let (ur_in, mine) =
        In-filter_cases (λ v. v.user_id == user && v.organization_id == org) ur t.user_roles um in
      let is_role =
        All-In (λ v. v.user_id ≡ user → v.organization_id ≡ org → v.role_id ≡ id) ur s.user_roles
          only.1 (rw (← members) ur_in) (ground (arith, mine)) (ground (arith, mine)) in
      let (rp, rm, d) = In-concat_map_cases _ name _ c in
      let (rp_in, of_role) =
        In-filter_cases (λ v. v.role_id == ur.role_id) rp t.role_permissions rm in
      let (k, k_in, at) = entry_of rp (rw (← entries) rp_in) (ground (arith, of_role, is_role)) in
      let (q, qm, e) = In-map_cases _ name _ d in
      let (q_in, is) = In-filter_cases (λ v. v.id == rp.permission_id) q t.permissions qm in
      let here : rp.permission_id ≡ k = ap (λ v. v.permission_id) at in
      let is_q : q.id ≡ rp.permission_id = (==_iff _ _).0 is in
      let is_k : q.id ≡ k = is_q ∙ here in (q, rw (← names) q_in, rw is_k k_in, sym e)

  IsNamed-granted : IsNamed name ids s → In name (query_permissions user org t)
  unfolding query_permissions
  IsNamed-granted (q, qm, k, e) =
      let (ur, ur_in, u, o, r) = only.0 in
      let rp = entry id q.id in
      let rp_in : In rp t.role_permissions = rw entries (
        In-append_right_of rp (delete_rows (λ v. v.role_id == id) s.role_permissions)
          (map (entry id) ids) (In-map (entry id) q.id ids k)) in
      let ur_in' : In ur t.user_roles = rw members ur_in in
      let q_in : In q t.permissions = rw names qm in
      In-concat_map _ ur name _
        (In-filter (λ v. v.user_id == user && v.organization_id == org) ur t.user_roles ur_in'
          (ground (arith, u, o)))
        (In-concat_map _ rp name _
          (In-filter (λ v. v.role_id == ur.role_id) rp t.role_permissions rp_in (ground (arith, r)))
          (rw (← e) (
            In-map (λ v. v.name) q _
              (In-filter (λ v. v.id == q.id) q t.permissions q_in (==_refl q.id)))))

-- An assignment of existing permissions, without repeats, to a role of the caller's organization, or
-- to any role by a caller without an organization, as a super admin is, is
-- accepted; a user whose only grants in an organization are of that role then has a permission name
-- there if and only if it names one of those permissions, whatever the role allowed before.
pub assign_permissions_iff :
    (p : Platform) (laws : PlatformLaws p) (role : Role) (ids : List Uuid) (caller : Option Uuid)
    (actor user org : Uuid) (name : String) (s : Store)
    → In role s.roles
    → is_in caller role ≡ true
    → has_repeats ids ≡ false
    → All (λ k. (q : PermissionEntity) × In q s.permissions × (q.id ≡ k)) ids
    → HasOnly user org role.id s
    → let done = assign_permissions p role.id ids caller actor s in
      (is_ok done.0 ≡ true) × (In name (query_permissions user org done.1) ↔ IsNamed name ids s)
assign_permissions_iff p laws role ids caller actor user org name s m scope distinct exist only =
    let (v, found, is_id) = loaded p laws role.id caller s role m refl scope in
    let t = (assign_permissions p role.id ids caller actor s).1 in
    let (accepted, entries, members, names) =
      assign_permissions_lem p laws role.id ids caller actor s v distinct found is_id
        (check_permissions_ok p laws ids s exist) in
    (
      accepted,
      (
        granted-IsNamed role.id user org ids name s t entries members names only,
        IsNamed-granted role.id user org ids name s t entries members names only,
      ),
    )
