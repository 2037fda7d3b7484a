-- ===== src/Roles/Service.antt =====
-- `RolesService`: the roles of an organization, their permissions and their members.
use shipment_tracking_system.Prelude.{
  String, Bool, true, false, not, ◌&&◌, ◌||◌, any, internal, Option, none, some, List, [], ◌∷◌,
  ◌==◌, str_eq, get_or, is_some, if◌then◌else◌, not_found, conflict, bad_request, Action, Void,
  pure, gets, modify, or_throw, throw_if, ok, err, ◌>>=◌, ◌>>◌,
}
use shipment_tracking_system.Identity.{
  Uuid, Role, UserRole, Invitation, PermissionEntity, RolePermission, Store, Platform, emit,
  role_created, role_updated, role_deleted, role_permissions_updated, role_assigned, role_revoked,
}

pub record CreateRoleDto : Type 0 where
  pub name : String
  pub description : Option String

-- An absent field leaves the column.
pub record UpdateRoleDto : Type 0 where
  pub name : Option String
  pub description : Option String

pub record AssignRoleDto : Type 0 where
  pub user_id : Uuid
  pub role_id : Uuid

-- The row of `create`; the flags have their defaults.
abbrev pub new_role : CreateRoleDto → Uuid → Uuid → Role
new_role dto organization_id new_id = record {
  id = new_id;
  name = dto.name;
  description = dto.description;
  organization_id = organization_id;
  is_system = false;
  is_default = false;
}

-- `Object.assign(role, dto)`
abbrev pub assigned : UpdateRoleDto → Role → Role
assigned dto r = record r {
  name = get_or dto.name r.name;
  description = elim dto.description [ none ↦ r.description | some d ↦ some d ];
}

-- The unique index on the name and the organization refuses `saved` beside this row.
abbrev pub has_its_name : Role → Role → Bool
has_its_name saved r =
    str_eq r.name saved.name && r.organization_id == saved.organization_id && not (r.id == saved.id)

-- The entry of a role for one permission.
abbrev pub entry : Uuid → Uuid → RolePermission
entry role_id permission_id = record { role_id = role_id; permission_id = permission_id }

-- The invitation names the role; the foreign key sets it to null.
abbrev pub names_role : Uuid → Invitation → Bool
names_role role_id i = elim i.role_id [ none ↦ false | some r ↦ r == role_id ]

abbrev pub without_role : Invitation → Invitation
without_role i = record i { role_id = none }

abbrev pub has_repeats : List Uuid → Bool
has_repeats [] = false
has_repeats (id ∷ ids) = any (λ other. other == id) ids || has_repeats ids

-- The caller's organization in a `where`: TypeORM skips a condition on null, which a super admin has.
abbrev pub is_in : Option Uuid → Role → Bool
is_in none r = true
is_in (some organization_id) r = r.organization_id == organization_id

module _ (p : Platform) where
  -- The rows that the caller may see, in the database's order.
  unfoldable pub find_all : Bool → Option Uuid → Store → List Role
  find_all is_super_admin organization_id s =
      p.orm.find Role (λ r. if is_super_admin then true else is_in organization_id r) s.roles

  unfoldable pub find_one : Uuid → Option Uuid → Action Store Role
  find_one id organization_id = do
    found ← gets (λ s. p.orm.find_one Role (λ r. r.id == id && is_in organization_id r) s.roles)
    or_throw found (not_found "Role not found")

  -- The column of the organization is not null: the database refuses the role of a caller without one.
  unfoldable pub create : CreateRoleDto → Option Uuid → (actor_id new_id : Uuid) → Action Store Role
  create dto organization_id actor_id new_id = do
    existing ←
        gets (λ s.
          p.orm.find_one Role (λ r. str_eq r.name dto.name && is_in organization_id r) s.roles)
    throw_if (is_some existing) (conflict "Role with this name already exists")
    organization ← or_throw organization_id internal
    let role = new_role dto organization new_id
    modify (λ s. record s { roles = p.orm.insert Role role s.roles })
    emit (role_created new_id organization_id actor_id)
    pure role

  unfoldable pub update : Uuid → UpdateRoleDto → Option Uuid → Uuid → Action Store Role
  unfolding find_one
  update id dto organization_id actor_id = do
    role ← find_one id organization_id
    throw_if role.is_system (bad_request "Cannot modify system roles")
    let saved = assigned dto role
    taken ← gets (λ s. any (has_its_name saved) s.roles)
    throw_if taken internal
    modify (λ s. record s { roles = p.orm.save Role (λ r. r.id) saved s.roles })
    emit (role_updated id organization_id actor_id)
    pure saved

  -- `remove`, with the rows that the foreign keys delete with the role, and the invitations that lose it.
  unfoldable pub delete : Uuid → Option Uuid → Uuid → Action Store Void
  unfolding find_one
  delete id organization_id actor_id = do
    role ← find_one id organization_id
    throw_if role.is_system (bad_request "Cannot delete system roles")
    modify (λ s. record s {
      roles = p.orm.delete Role (λ r. r.id == role.id) s.roles;
      user_roles = p.orm.delete UserRole (λ ur. ur.role_id == role.id) s.user_roles;
      role_permissions =
          p.orm.delete RolePermission (λ rp. rp.role_id == role.id) s.role_permissions;
      invitations = p.orm.update Invitation (names_role role.id) without_role s.invitations;
    })
    emit (role_deleted id organization_id actor_id)

  -- The loop that looks every permission up.
  unfoldable pub check_permissions : List Uuid → Action Store Void
  check_permissions [] s = (ok tt, s)
  check_permissions (id ∷ ids) s =
      let rest = check_permissions ids s in
      elim (p.orm.find_one PermissionEntity (λ q. q.id == id) s.permissions) [
        | none ↦ (err (not_found "Permission not found"), s)
        | some q ↦ rest
      ]

  -- `save` of an array of new entities, in a transaction of its own. The primary key refuses a
  -- repeated entry.
  abbrev pub insert_entries : Uuid → List Uuid → List RolePermission → List RolePermission
  insert_entries role_id [] t = t
  insert_entries role_id (id ∷ ids) t =
      insert_entries role_id ids (p.orm.insert RolePermission (entry role_id id) t)

  -- `assignPermissions`; the `catch` logs the error and throws it again.
  unfoldable pub assign_permissions : Uuid → List Uuid → Option Uuid → Uuid → Action Store Void
  unfolding find_one
  assign_permissions id permission_ids organization_id actor_id = do
    role ← find_one id organization_id
    check_permissions permission_ids
    modify (λ s. record s {
      role_permissions =
          p.orm.delete RolePermission (λ rp. rp.role_id == role.id) s.role_permissions;
    })
    throw_if (has_repeats permission_ids) internal
    modify (λ s. record s {
      role_permissions = insert_entries role.id permission_ids s.role_permissions;
    })
    emit (role_permissions_updated id organization_id actor_id)

  unfoldable pub assign_role : AssignRoleDto → Option Uuid → Uuid → Action Store Void
  unfolding find_one
  assign_role dto organization_id actor_id = do
    find_one dto.role_id organization_id
    existing ← gets (λ s.
        p.orm.find_one UserRole (λ ur. ur.user_id == dto.user_id && ur.role_id == dto.role_id)
          s.user_roles)
    throw_if (is_some existing) (conflict "User already has this role")
    organization ← or_throw organization_id internal
    let row : UserRole = record {
      user_id = dto.user_id;
      role_id = dto.role_id;
      organization_id = organization;
      assigned_by = some actor_id;
    }
    modify (λ s. record s { user_roles = p.orm.insert UserRole row s.user_roles })
    emit (role_assigned dto.user_id dto.role_id organization_id actor_id)

  unfoldable pub revoke_role : (user_id role_id : Uuid) → Option Uuid → Uuid → Action Store Void
  revoke_role user_id role_id organization_id actor_id = do
    modify (λ s. record s {
      user_roles =
          p.orm.delete UserRole (λ ur. ur.user_id == user_id && ur.role_id == role_id) s.user_roles;
    })
    emit (role_revoked user_id role_id organization_id actor_id)
