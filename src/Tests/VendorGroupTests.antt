-- ===== src/Tests/VendorGroupTests.antt =====
-- A vendor group whose vendors are replaced, and joined rows that are gathered.
use shipment_tracking_system.Prelude.{
  ℕ, String, ◌≡◌, refl, Option, none, some, List, [], ◌∷◌, ok, err, In, ◌↔◌, ◌⊎◌, transaction,
  IsUnique, map, is_given, true,
}
use shipment_tracking_system.VendorGroups.{
  Store, JoinedRow, UpdateVendorGroupDto, write_update, name_conflict, group_rows,
}
use shipment_tracking_system.VendorGroups.Reading.{vendors_of, group_rows_lem}
use shipment_tracking_system.VendorGroups.Membership.{members_of, IsTaken, update_members}
use shipment_tracking_system.Tests.World.{list_orm, list_orm_laws}

abbrev store : Store
store = record {
  groups = record { id = 1; name = "java"; description = none } ∷ [];
  members = record { vendor_group_id = 1; vendor = "a" } ∷ [];
  available_vendors = "a" ∷ "b" ∷ [];
}

-- The same vendor twice.
abbrev change : UpdateVendorGroupDto
change = record { name = none; description = none; vendors = some ("b" ∷ "b" ∷ []) }

update_members_example :
    ((is_given none ≡ true)
      × IsTaken "" 1 store
      × (transaction (write_update list_orm 1 change) store ≡ (err name_conflict, store)))
    ⊎ (((transaction (write_update list_orm 1 change) store).0 ≡ ok tt)
        × (In {A = String} "b" (members_of 1 (transaction (write_update list_orm 1 change) store).1)
            ↔ In {A = String} "b" ("b" ∷ "b" ∷ [])))
update_members_example =
    update_members list_orm list_orm_laws 1 1 change ("b" ∷ "b" ∷ []) "b" store refl

abbrev row : ℕ → Option String → JoinedRow
row id vendor = record { id = id; name = "g"; description = none; vendor = vendor }

abbrev rows : List JoinedRow
rows = row 1 (some "a") ∷ row 2 none ∷ row 1 (some "b") ∷ []

group_rows_lem_example :
    IsUnique (λ g. g.id) (group_rows rows)
    × (In {A = ℕ} 2 (map (λ g. g.id) (group_rows rows)) ↔ In {A = ℕ} 2 (1 ∷ 2 ∷ 1 ∷ []))
    × (vendors_of 2 (group_rows rows) ≡ [])
group_rows_lem_example = group_rows_lem 2 rows
