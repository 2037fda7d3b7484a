-- ===== src/VendorGroups/Membership.antt =====
-- What a save of a vendor group does to its memberships
-- (apps/backend/src/modules/vendor-groups/vendor-groups.service.ts, `replaceVendors` and `update`).
use shipment_tracking_system.Prelude.{
  transaction, any, is_given, get_or, ◌&&◌, ℕ, String, Bool, true, false, ◌≢◌, ==_ne, ◌≡◌, refl,
  sym, ◌∙◌, ap, some, List, [], ◌∷◌, ◌++◌, In, filter, map, delete_rows, not, ◌==◌, str_eq, inl,
  inr, ◌⊎◌, ◌↔◌, ok, err, arith, Bool-cases, any-filter_out, filter-append, In-filter,
  In-filter_cases, eq_iff, if◌then◌else◌,
}
use mathlib.Core.List.{append-nil, append_assoc}
use shipment_tracking_system.Prelude.Orm.{Orm, OrmLaws}
use shipment_tracking_system.VendorGroups.{
  VendorGroupVendor, Store, unique, is_member, violates_key, insert_members, replace_vendors,
  write_update, name_conflict, UpdateVendorGroupDto, VendorGroupRow, patched, has_patch,
}

-- The membership of a vendor in a group.
abbrev pub member : ℕ → String → VendorGroupVendor
member id v = record { vendor_group_id = id; vendor = v }

-- The names of the members of a group, in the order of the rows.
abbrev pub members_of : ℕ → Store → List String
members_of id s = map (λ m. m.vendor) (filter (λ m. m.vendor_group_id == id) s.members)

-- Taking out repeats keeps every name.
In-unique : (v : String) (vs : List String) → In v vs ↔ In v (unique vs)
In-unique v [] = ((λ m. m), (λ m. m))
In-unique v (w ∷ vs) =
    let rest = In-unique v vs in
    (
      (λ m. elim m [
        | inl e ↦ inl e
        | inr k ↦ elim (Bool-cases (str_eq v w)) [
          | inl same ↦ inl ((eq_iff v w).0 same)
          | inr other ↦
              inr
                (In-filter (λ u. not (str_eq u w)) v (unique vs) (rest.0 k) (ground (arith, other)))
        ]
      ]),
      (λ m. elim m [
        | inl e ↦ inl e
        | inr k ↦ inr (rest.1 (In-filter_cases (λ u. not (str_eq u w)) v (unique vs) k).0)
      ]),
    )

any-filter :
    {A : Type 0} (p q : A → Bool) (xs : List A) → any p xs ≡ false → any p (filter q xs) ≡ false
any-filter p q [] h = refl
any-filter p q (x ∷ xs) h = elim (Bool-cases (q x)) [
  | inl stays ↦ elim (Bool-cases (p x)) [
    | inl y ↦ absurd (ground (arith, h, y))
    | inr n ↦ rw stays (rw n (any-filter p q xs (rw n at h)))
  ]
  | inr gone ↦ elim (Bool-cases (p x)) [
    | inl y ↦ absurd (ground (arith, h, y))
    | inr n ↦ rw gone (any-filter p q xs (rw n at h))
  ]
]

violates_key-filter :
    (id : ℕ) (q : String → Bool) (vs : List String) (t : List VendorGroupVendor)
    → violates_key id vs t ≡ false
    → violates_key id (filter q vs) t ≡ false
violates_key-filter id q [] t h = refl
violates_key-filter id q (v ∷ vs) t h =
    let taken : any (is_member id v) t ≡ false = ground (arith, h) in
    let once : any (λ w. str_eq w v) vs ≡ false = ground (arith, h) in
    let rest = violates_key-filter id q vs t (ground (arith, h)) in
    let still = any-filter (λ w. str_eq w v) q vs once in
    elim (Bool-cases (q v)) [
      | inl y ↦ ground (arith, y, taken, still, rest)
      | inr n ↦ ground (arith, n, rest)
    ]

-- A membership of the group is gone after the deletion, and the names without repeats fit the key.
unique-fits :
    (id : ℕ) (vs : List String) (t : List VendorGroupVendor)
    → violates_key id (unique vs) (delete_rows (λ m. m.vendor_group_id == id) t) ≡ false
unique-fits id [] t = refl
unique-fits id (v ∷ vs) t =
    let left = delete_rows (λ m. m.vendor_group_id == id) t in
    let taken : any (is_member id v) left ≡ false =
      any-filter_out (is_member id v) (λ m. m.vendor_group_id == id) t (λ m e. ground (arith, e)) in
    let once : any (λ w. str_eq w v) (filter (λ w. not (str_eq w v)) (unique vs)) ≡ false =
      any-filter_out (λ w. str_eq w v) (λ w. str_eq w v) (unique vs) (λ w e. e) in
    let rest =
      violates_key-filter id (λ w. not (str_eq w v)) (unique vs) left (unique-fits id vs t) in
    ground (arith, taken, once, rest)

-- What `any` finds.
In-any :
    {A : Type 0} (p : A → Bool) (xs : List A) → any p xs ≡ true → (x : A) × In x xs × (p x ≡ true)
In-any p [] h = absurd (cc (h))
In-any p (x ∷ xs) h = elim (Bool-cases (p x)) [
  | inl y ↦ (x, inl refl, y)
  | inr n ↦ let (z, m, y) = In-any p xs (rw n at h) in (z, inr m, y)
]

module _ (orm : Orm) (laws : OrmLaws orm) where
  insert_members_lem :
      (id : ℕ) (vs : List String) (t : List VendorGroupVendor)
      → insert_members orm id vs t ≡ t ++ map (member id) vs
  insert_members_lem id [] t = sym (append-nil t)
  insert_members_lem id (v ∷ vs) t =
      insert_members_lem id vs (orm.insert VendorGroupVendor (member id v) t)
      ∙ ap (λ u. u ++ map (member id) vs) (laws.insert_lem VendorGroupVendor (member id v) t)
      ∙ append_assoc t (member id v ∷ []) (map (member id) vs)

-- The rows that are added belong to their group, those that are kept to the others.
members_added :
    (k id : ℕ) (vs : List String)
    → filter (λ m. m.vendor_group_id == k) (map (member id) vs)
      ≡ (if id == k then map (member id) vs else [])
members_added k id [] = ground arith
members_added k id (v ∷ vs) = ground (arith, members_added k id vs)

members_kept :
    (k id : ℕ) (t : List VendorGroupVendor)
    → filter (λ m. m.vendor_group_id == k) (delete_rows (λ m. m.vendor_group_id == id) t)
      ≡ (if id == k then [] else filter (λ m. m.vendor_group_id == k) t)
members_kept k id [] = ground arith
members_kept k id (m ∷ t) =
    let rest = members_kept k id t in
    elim (Bool-cases (m.vendor_group_id == id)) [
      | inl gone ↦ elim (Bool-cases (id == k)) [
        | inl e ↦ ground (arith, gone, e, rest)
        | inr ne ↦
            let at : (m.vendor_group_id == k) ≡ false = ground (arith, gone, ne) in
            ground (arith, gone, ne, at, rest)
      ]
      | inr stays ↦ elim (Bool-cases (id == k)) [
        | inl e ↦
            let at : (m.vendor_group_id == k) ≡ false = ground (arith, stays, e) in
            ground (arith, stays, e, at, rest)
        | inr ne ↦ elim (Bool-cases (m.vendor_group_id == k)) [
          | inl at ↦ ground (arith, stays, ne, at, rest)
          | inr at ↦ ground (arith, stays, ne, at, rest)
        ]
      ]
    ]

vendors-member : (id : ℕ) (vs : List String) → map (λ m. m.vendor) (map (member id) vs) ≡ vs
vendors-member id [] = refl
vendors-member id (v ∷ vs) = ap (λ l. v ∷ l) (vendors-member id vs)

-- The names in a group after a replacement.
members_of-replaced :
    (k id : ℕ) (vs : List String) (t : List VendorGroupVendor)
    → map
        (λ m. m.vendor)
        (filter
          (λ m. m.vendor_group_id == k)
          (delete_rows (λ m. m.vendor_group_id == id) t ++ map (member id) (unique vs)))
      ≡ (if id == k
          then unique vs
          else map (λ m. m.vendor) (filter (λ m. m.vendor_group_id == k) t))
members_of-replaced k id vs t =
    let parts =
      filter-append (λ m. m.vendor_group_id == k) (delete_rows (λ m. m.vendor_group_id == id) t)
        (map (member id) (unique vs)) in
    let kept = members_kept k id t in
    let added = members_added k id (unique vs) in
    rw parts (
      rw kept (
        rw added (elim (Bool-cases (id == k)) [
          | inl e ↦ rw e (vendors-member id (unique vs))
          | inr ne ↦ rw ne (ap (λ ms. map (λ m. m.vendor) ms) (append-nil _))
        ])))

-- The repeats that are taken out do not matter to membership.
sent_iff :
    (v : String) (k id : ℕ) (vs others : List String) {found : List String}
    → found ≡ (if id == k then unique vs else others)
    → In v found ↔ In v (if id == k then vs else others)
sent_iff v k id vs others e =
    let u = In-unique v vs in
    elim (Bool-cases (id == k)) [
      | inl same ↦ rw e (rw same (u.1, u.0))
      | inr other ↦ rw e (rw other ((λ m. m), (λ m. m)))
    ]

-- The group `id` may not take the name: another group has it.
abbrev pub IsTaken : String → ℕ → Store → Type 0
IsTaken name id s = (g : VendorGroupRow) × In g s.groups × (g.name ≡ name) × (g.id ≢ id)

-- The transaction of an update that sends vendors is refused, with the conflict of names, only where
-- another group has the name that was sent, and then stores nothing; otherwise it succeeds, although
-- the primary key refuses repeated memberships and the vendors may be sent more than once: the group
-- has exactly the vendors that were sent, and every other group keeps its own.
pub update_members :
    (orm : Orm) (laws : OrmLaws orm) (id k : ℕ) (dto : UpdateVendorGroupDto) (vs : List String)
    (v : String) (s : Store)
    → dto.vendors ≡ some vs
    → let done = transaction (write_update orm id dto) s in
      ((is_given dto.name ≡ true)
        × IsTaken (get_or dto.name "") id s
        × (done ≡ (err name_conflict, s)))
      ⊎ ((done.0 ≡ ok tt)
          × (In v (members_of k done.1) ↔ In v (if id == k then vs else members_of k s)))
unfolding write_update replace_vendors
update_members orm laws id k dto vs v s sent =
    let taken = any (λ g. str_eq g.name (get_or dto.name "") && not (g.id == id)) s.groups in
    elim (Bool-cases (is_given dto.name && taken)) [
      | inl refused ↦
          let (g, m, e) =
            In-any (λ g. str_eq g.name (get_or dto.name "") && not (g.id == id)) s.groups
              (ground (arith, refused)) in
          inl (
            ground (arith, refused),
            (g, m, (eq_iff _ _).0 (ground (arith, e)), ==_ne _ _ (ground (arith, e))),
            ground (arith, refused),
          )
      | inr free ↦
          let table = orm.delete VendorGroupVendor (λ m. m.vendor_group_id == id) s.members in
          let fits : violates_key id (unique vs) table ≡ false =
            ap (violates_key id (unique vs))
              (laws.delete_lem VendorGroupVendor (λ m. m.vendor_group_id == id) s.members)
            ∙ unique-fits id vs s.members in
          let groups =
            if has_patch orm dto
            then orm.update VendorGroupRow (λ g. g.id == id) (patched orm dto) s.groups
            else s.groups in
          let written : transaction (write_update orm id dto) s ≡ (
            ok tt,
            record s { groups = groups; members = insert_members orm id (unique vs) table },
          ) =
            ground (arith, free, sent, fits) in
          let rows : insert_members orm id (unique vs) table
              ≡ delete_rows (λ m. m.vendor_group_id == id) s.members
                ++ map (member id) (unique vs) =
            insert_members_lem orm laws id (unique vs) table
            ∙ ap (λ t. t ++ map (member id) (unique vs))
                (laws.delete_lem VendorGroupVendor (λ m. m.vendor_group_id == id) s.members) in
          let names : members_of k (transaction (write_update orm id dto) s).1
              ≡ (if id == k then unique vs else members_of k s) =
            ap (λ r. members_of k r.1) written
            ∙ ap (λ t. map (λ m. m.vendor) (filter (λ m. m.vendor_group_id == k) t)) rows
            ∙ members_of-replaced k id vs s.members in
          inr (ap (λ r. r.0) written, sent_iff v k id vs (members_of k s) names)
    ]
