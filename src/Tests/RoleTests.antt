-- ===== src/Tests/RoleTests.antt =====
-- Roles: a system role under the requests of its own organization and of a super admin, and a change of permissions.
use shipment_tracking_system.Prelude.{
  ◌≡◌, refl, true, false, none, some, [], ◌∷◌, inl, inr, In, ◌↔◌, is_ok, arith,
}
use shipment_tracking_system.Identity.{Role, Store}
use shipment_tracking_system.Auth.{query_permissions}
use shipment_tracking_system.Roles.{assign_permissions, update, delete}
use shipment_tracking_system.Roles.Protection.{
  Holds, here, next, updates, deletes, protected_role_stays,
}
use shipment_tracking_system.Roles.Grants.{IsNamed, assign_permissions_iff}
use shipment_tracking_system.Tests.World.{world, world_laws, store}

abbrev staff : Role
staff = record {
  id = 20;
  name = "staff";
  description = none;
  organization_id = 5;
  is_system = false;
  is_default = false;
}

abbrev admin : Role
admin = record staff { id = 21; name = "admin"; is_system = true }

abbrev two_roles : Store
two_roles = record store { roles = staff ∷ admin ∷ [] }

-- The organization renames the system role, and then a super admin deletes it.
abbrev attack : Store
attack =
    (delete world 21 none 1
      (update world 21 (record { name = some "mine"; description = none }) (some 5) 1
        two_roles).1).1

protected_role_stays_example : Holds admin attack
protected_role_stays_example =
    protected_role_stays world world_laws admin (some 5 ∷ none ∷ []) two_roles attack (inl refl)
      (inr (inl refl), ((λ e. absurd (omega (arith, e))), ((λ e. refl), tt)))
      (next (updates 21 (record { name = some "mine"; description = none }) 1 two_roles)
        (next (deletes 21 1 _) here))

assign_permissions_iff_example :
    (is_ok (assign_permissions world 20 (30 ∷ []) (some 5) 1 store).0 ≡ true)
    × (In "read.user"
          (query_permissions 1 5 (assign_permissions world 20 (30 ∷ []) (some 5) 1 store).1)
        ↔ IsNamed "read.user" (30 ∷ []) store)
assign_permissions_iff_example =
    assign_permissions_iff world world_laws staff (30 ∷ []) (some 5) 1 1 5 "read.user" store
      (inl refl) refl refl ((record { id = 30; name = "read.user" }, inl refl, refl), tt)
      ((_, inl refl, refl, refl, refl), ((λ u o. refl), tt))
