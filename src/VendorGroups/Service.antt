-- ===== src/VendorGroups/Service.antt =====
-- `VendorGroupsService`: named groups of vendors. The vendors that `getAvailableVendors` reads are an
-- entry of the store; ORDER BY is a parameter of the reads.
use shipment_tracking_system.Prelude.{
  ℕ, String, Bool, true, false, not, ◌&&◌, ◌||◌, Option, none, some, List, [], ◌∷◌, ◌++◌, any,
  filter, map, concat_map, str_eq, ◌==◌, is_some, is_given, get_or, blank_to_null, if◌then◌else◌,
  HttpError, not_found, conflict, internal, Action, Void, pure, gets, modify, or_throw, throw_if,
  transaction, ◌>>=◌, ◌>>◌,
}
use shipment_tracking_system.Prelude.Orm.{Orm}

pub record VendorGroupRow : Type 0 where
  pub id : ℕ
  pub name : String
  pub description : Option String

pub record VendorGroupVendor : Type 0 where
  pub vendor_group_id : ℕ
  pub vendor : String

pub record Store : Type 0 where
  pub groups : List VendorGroupRow
  pub members : List VendorGroupVendor
  pub available_vendors : List String

-- A row of the LEFT JOIN, and what the reads answer.
pub record JoinedRow : Type 0 where
  pub id : ℕ
  pub name : String
  pub description : Option String
  pub vendor : Option String

pub record VendorGroup : Type 0 where
  pub id : ℕ
  pub name : String
  pub description : Option String
  pub vendors : List String

-- An absent field is `none`; a description that is null has an inner `none`.
pub record CreateVendorGroupDto : Type 0 where
  pub name : String
  pub description : Option String
  pub vendors : List String

pub record UpdateVendorGroupDto : Type 0 where
  pub name : Option String
  pub description : Option (Option String)
  pub vendors : Option (List String)

-- `if (row.vendor !== null) group.vendors.push(row.vendor)`
abbrev pub optional : Option String → List String
optional none = []
optional (some v) = v ∷ []

abbrev pub push_vendor : JoinedRow → VendorGroup → VendorGroup
push_vendor r g = record g { vendors = g.vendors ++ optional r.vendor }

-- One turn of the loop of `findAll`: the map of groups by id keeps the order of insertion.
abbrev pub add_row : JoinedRow → List VendorGroup → List VendorGroup
add_row r [] =
    record { id = r.id; name = r.name; description = r.description; vendors = optional r.vendor }
    ∷ []
add_row r (g ∷ gs) =
    let rest = add_row r gs in if g.id == r.id then push_vendor r g ∷ gs else g ∷ rest

abbrev pub group_from : List VendorGroup → List JoinedRow → List VendorGroup
group_from acc [] = acc
group_from acc (r ∷ rs) = group_from (add_row r acc) rs

unfoldable pub group_rows : List JoinedRow → List VendorGroup
group_rows rows = group_from [] rows

abbrev joined : VendorGroupRow → Option String → JoinedRow
joined g v = record { id = g.id; name = g.name; description = g.description; vendor = v }

-- The rows of one group in the LEFT JOIN, given its members.
abbrev join_members : VendorGroupRow → List VendorGroupVendor → List JoinedRow
join_members g [] = joined g none ∷ []
join_members g (m ∷ ms) = map (λ k. joined g (some k.vendor)) (m ∷ ms)

abbrev pub join_group : List VendorGroupVendor → VendorGroupRow → List JoinedRow
join_group members g = join_members g (filter (λ m. m.vendor_group_id == g.id) members)

-- `[...new Set(vendors)]`
abbrev pub unique : List String → List String
unique [] = []
unique (v ∷ vs) = v ∷ filter (λ w. not (str_eq w v)) (unique vs)

-- The primary key of `vendor_group_vendors` refuses a membership beside the same one.
abbrev pub is_member : ℕ → String → VendorGroupVendor → Bool
is_member id v m = m.vendor_group_id == id && str_eq m.vendor v

abbrev pub violates_key : ℕ → List String → List VendorGroupVendor → Bool
violates_key id [] t = false
violates_key id (v ∷ vs) t =
    any (is_member id v) t || any (λ w. str_eq w v) vs || violates_key id vs t

abbrev pub name_conflict : HttpError
name_conflict = conflict "A vendor group with this name already exists"

-- The vendors are all known.
abbrev pub all_known : List String → List String → Bool
all_known known [] = true
all_known known (v ∷ vs) = any (λ w. str_eq w v) known && all_known known vs

-- `order_by` is the ORDER BY of the read.
module _ (order_by : List JoinedRow → List JoinedRow) where
  unfoldable pub find_all : Store → List VendorGroup
  find_all s = group_rows (order_by (concat_map (join_group s.members) s.groups))

  abbrev first_group : List VendorGroup → Option VendorGroup
  first_group [] = none
  first_group (g ∷ gs) = some g

  unfoldable pub find_one_or_throw : ℕ → Action Store VendorGroup
  find_one_or_throw id = do
    group ← gets (λ s. first_group (filter (λ g. g.id == id) (find_all s)))
    or_throw group (not_found "Vendor group not found")

module _ (orm : Orm) where
  -- `assertNameFree`
  unfoldable pub assert_name_free : String → Action Store Void
  assert_name_free name = do
    clash ← gets (λ s. orm.find_one VendorGroupRow (λ g. str_eq g.name name) s.groups)
    throw_if (is_some clash) name_conflict

  -- `assertVendorsExist`
  unfoldable pub assert_vendors_exist : List String → Action Store Void
  assert_vendors_exist vendors = do
    known ← gets (λ s. s.available_vendors)
    throw_if (not (all_known known vendors)) (conflict "Unknown vendor")

  -- `insert` of an array of rows.
  abbrev pub insert_members : ℕ → List String → List VendorGroupVendor → List VendorGroupVendor
  insert_members id [] t = t
  insert_members id (v ∷ vs) t =
      insert_members id vs
        (orm.insert VendorGroupVendor (record { vendor_group_id = id; vendor = v }) t)

  -- The transaction of the caller rolls back the deletion when the primary key refuses a row.
  unfoldable pub replace_vendors : ℕ → List String → Action Store Void
  replace_vendors id vendors = do
    modify (λ s. record s {
      members = orm.delete VendorGroupVendor (λ m. m.vendor_group_id == id) s.members;
    })
    repeated ← gets (λ s. violates_key id (unique vendors) s.members)
    throw_if repeated internal
    modify (λ s. record s { members = insert_members id (unique vendors) s.members })

  -- The columns that `update` patches; an empty name is not given.
  abbrev pub patched : UpdateVendorGroupDto → VendorGroupRow → VendorGroupRow
  patched dto g = record g {
    name = if is_given dto.name then get_or dto.name g.name else g.name;
    description = elim dto.description [ none ↦ g.description | some d ↦ blank_to_null d ];
  }

  -- `Object.keys(patch).length > 0`
  abbrev pub has_patch : UpdateVendorGroupDto → Bool
  has_patch dto = is_given dto.name || is_some dto.description

  -- The body of the transaction of `update`; the unique index refuses the name of another group.
  unfoldable pub write_update : ℕ → UpdateVendorGroupDto → Action Store Void
  unfolding replace_vendors
  write_update id dto = do
    taken ← gets (λ s. any (λ g. str_eq g.name (get_or dto.name "") && not (g.id == id)) s.groups)
    throw_if (is_given dto.name && taken) name_conflict
    modify (λ s. record s {
      groups =
          if has_patch dto
          then orm.update VendorGroupRow (λ g. g.id == id) (patched dto) s.groups
          else s.groups;
    })
    elim dto.vendors [ none ↦ pure tt | some vendors ↦ replace_vendors id vendors ]

  unfoldable pub remove : ℕ → Action Store Void
  remove id = do
    existing ← gets (λ s. orm.find_one VendorGroupRow (λ g. g.id == id) s.groups)
    or_throw existing (not_found "Vendor group not found")
    modify (λ s. record s {
      groups = orm.delete VendorGroupRow (λ g. g.id == id) s.groups;
      members = orm.delete VendorGroupVendor (λ m. m.vendor_group_id == id) s.members;
    })

module _ (orm : Orm) (order_by : List JoinedRow → List JoinedRow) where
  -- The unique index refuses what the check let pass, and the transaction rolls back.
  unfoldable pub create : CreateVendorGroupDto → ℕ → Action Store VendorGroup
  unfolding assert_vendors_exist assert_name_free replace_vendors find_one_or_throw
  create dto new_id = do
    assert_vendors_exist orm dto.vendors
    assert_name_free orm dto.name
    transaction (do
      taken ← gets (λ s. any (λ g. str_eq g.name dto.name) s.groups)
      throw_if taken name_conflict
      let group : VendorGroupRow = record {
        id = new_id;
        name = dto.name;
        description = blank_to_null dto.description;
      }
      modify (λ s. record s { groups = orm.insert VendorGroupRow group s.groups })
      replace_vendors orm new_id dto.vendors)
    find_one_or_throw order_by new_id

  unfoldable pub update : ℕ → UpdateVendorGroupDto → Action Store VendorGroup
  unfolding assert_vendors_exist assert_name_free write_update find_one_or_throw
  update id dto = do
    found ← gets (λ s. orm.find_one VendorGroupRow (λ g. g.id == id) s.groups)
    existing ← or_throw found (not_found "Vendor group not found")
    elim dto.vendors [ none ↦ pure tt | some vendors ↦ assert_vendors_exist orm vendors ]
    if is_given dto.name && not (str_eq (get_or dto.name "") existing.name)
        then assert_name_free orm (get_or dto.name "")
        else pure tt
    transaction (write_update orm id dto)
    find_one_or_throw order_by id
