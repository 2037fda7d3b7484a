-- ===== src/Roles/Writes.antt =====
-- What each operation of `RolesService` does to the table of roles
-- (apps/backend/src/modules/roles/roles.service.ts).
use shipment_tracking_system.Prelude.{
  Option, true, false, ◌≡◌, refl, none, some, List, [], ◌∷◌, ◌++◌, In, save_row, delete_rows, ◌==◌,
  ◌&&◌, str_eq, any, HttpError, inl, inr, ◌⊎◌, ok, err, not_found, arith, Bool-cases, Option-cases,
}
use shipment_tracking_system.Identity.{
  Uuid, Role, UserRole, PermissionEntity, Store, Platform, PlatformLaws,
}
use shipment_tracking_system.Roles.{
  CreateRoleDto, UpdateRoleDto, AssignRoleDto, new_role, is_in, create, update, delete,
  assign_permissions, assign_role, assigned, has_its_name, has_repeats, check_permissions,
}

module _ (p : Platform) (laws : PlatformLaws p) where
  -- The row that `findOne` loads.
  pub loaded_cases :
      (id : Uuid) (org : Option Uuid) (s : Store)
      → let loaded = p.orm.find_one Role (λ r. r.id == id && is_in org r) s.roles in
        (loaded ≡ none)
        ⊎ ((r : Role) × (loaded ≡ some r) × In r s.roles × (r.id ≡ id) × (is_in org r ≡ true))
  loaded_cases id org s =
      elim (Option-cases (p.orm.find_one Role (λ r. r.id == id && is_in org r) s.roles)) [
        | inl missing ↦ inl missing
        | inr (r, found) ↦
            let (m, e) = laws.orm_laws.find_one_some Role _ s.roles r found in
            inr (r, found, m, ground (arith, e), ground (arith, e))
      ]

  pub update_cases :
      (id : Uuid) (dto : UpdateRoleDto) (org : Option Uuid) (actor : Uuid) (s : Store)
      → ((update p id dto org actor s).1.roles ≡ s.roles)
        ⊎ ((r : Role) × In r s.roles
            × (r.is_system ≡ false)
            × (is_in org r ≡ true)
            × ((update p id dto org actor s).1.roles
                ≡ save_row (λ v. v.id) (assigned dto r) s.roles))
  unfolding update
  update_cases id dto org actor s = elim (loaded_cases id org s) [
    | inl missing ↦ inl (ground (arith, missing))
    | inr (r, found, m, _, o) ↦ elim (Bool-cases r.is_system) [
      | inl system ↦ inl (ground (arith, found, system))
      | inr free ↦ elim (Bool-cases (any (has_its_name (assigned dto r)) s.roles)) [
        | inl taken ↦ inl (ground (arith, found, free, taken))
        | inr fresh ↦ inr (
          r,
          m,
          free,
          o,
          ground (
            arith,
            found,
            free,
            fresh,
            laws.orm_laws.save_lem Role (λ v. v.id) (assigned dto r) s.roles,
          ),
        )
      ]
    ]
  ]

  pub delete_cases :
      (id : Uuid) (org : Option Uuid) (actor : Uuid) (s : Store)
      → ((delete p id org actor s).1.roles ≡ s.roles)
        ⊎ ((r : Role) × In r s.roles
            × (r.is_system ≡ false)
            × (is_in org r ≡ true)
            × ((delete p id org actor s).1.roles ≡ delete_rows (λ v. v.id == r.id) s.roles))
  unfolding delete
  delete_cases id org actor s = elim (loaded_cases id org s) [
    | inl missing ↦ inl (ground (arith, missing))
    | inr (r, found, m, _, o) ↦ elim (Bool-cases r.is_system) [
      | inl system ↦ inl (ground (arith, found, system))
      | inr free ↦ inr (
        r,
        m,
        free,
        o,
        ground (arith, found, free, laws.orm_laws.delete_lem Role (λ v. v.id == r.id) s.roles),
      )
    ]
  ]

  pub create_cases :
      (dto : CreateRoleDto) (org : Option Uuid) (actor new_id : Uuid) (s : Store)
      → ((create p dto org actor new_id s).1.roles ≡ s.roles)
        ⊎ ((r : Role) × (r.id ≡ new_id)
            × ((create p dto org actor new_id s).1.roles ≡ s.roles ++ r ∷ []))
  unfolding create
  create_cases dto org actor new_id s =
      elim (Option-cases
        (p.orm.find_one Role (λ r. str_eq r.name dto.name && is_in org r) s.roles)) [
          | inr (r, found) ↦ inl (ground (arith, found))
          | inl missing ↦ elim (Option-cases org) [
            | inl nobody ↦ inl (ground (arith, missing, nobody))
            | inr (o, is) ↦
                let role = new_role dto o new_id in
                let wrote = laws.orm_laws.insert_lem Role role s.roles in
                inr (role, refl, ground (arith, missing, is, wrote))
          ]
        ]

  -- The loop over the permissions passes, or throws; it writes nothing.
  pub check_permissions_cases :
      (ids : List Uuid) (s : Store)
      → ((e : HttpError) × (check_permissions p ids s ≡ (err e, s)))
        ⊎ (check_permissions p ids s ≡ (ok tt, s))
  unfolding check_permissions
  check_permissions_cases [] s = inr refl
  check_permissions_cases (id ∷ ids) s =
      elim (Option-cases (p.orm.find_one PermissionEntity (λ q. q.id == id) s.permissions)) [
        | inl missing ↦ inl (not_found "Permission not found", ground (arith, missing))
        | inr (q, found) ↦ elim (check_permissions_cases ids s) [
          | inl (e, refused) ↦ inl (e, ground (arith, found, refused))
          | inr passed ↦ inr (ground (arith, found, passed))
        ]
      ]

  pub assign_permissions-roles :
      (id : Uuid) (ids : List Uuid) (org : Option Uuid) (actor : Uuid) (s : Store)
      → (assign_permissions p id ids org actor s).1.roles ≡ s.roles
  unfolding assign_permissions
  assign_permissions-roles id ids org actor s = elim (loaded_cases id org s) [
    | inl missing ↦ ground (arith, missing)
    | inr (r, found, _, _, _) ↦ elim (check_permissions_cases ids s) [
      | inl (e, refused) ↦ ground (arith, found, refused)
      | inr passed ↦ elim (Bool-cases (has_repeats ids)) [
        | inl repeated ↦ ground (arith, found, passed, repeated)
        | inr distinct ↦ ground (arith, found, passed, distinct)
      ]
    ]
  ]

  pub assign_role-roles :
      (dto : AssignRoleDto) (org : Option Uuid) (actor : Uuid) (s : Store)
      → (assign_role p dto org actor s).1.roles ≡ s.roles
  unfolding assign_role
  assign_role-roles dto org actor s = elim (loaded_cases dto.role_id org s) [
    | inl missing ↦ ground (arith, missing)
    | inr (r, found, _, _, _) ↦
        elim (Option-cases (
          p.orm.find_one UserRole (λ ur. ur.user_id == dto.user_id && ur.role_id == dto.role_id)
            s.user_roles)) [
              | inl fresh ↦ elim (Option-cases org) [
                | inl nobody ↦ ground (arith, found, fresh, nobody)
                | inr (o, is) ↦ ground (arith, found, fresh, is)
              ]
              | inr (ur, taken) ↦ ground (arith, found, taken)
            ]
  ]
