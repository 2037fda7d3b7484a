-- ===== src/VendorGroups/Reading.antt =====
-- The loop that gathers joined rows into groups
-- (apps/backend/src/modules/vendor-groups/vendor-groups.service.ts, `findAll`).
use shipment_tracking_system.Prelude.{
  ℕ, String, true, false, ◌≡◌, ◌≢◌, refl, sym, ◌∙◌, ap, List, [], ◌∷◌, ◌++◌, All, In, map, ◌↔◌, ◌⊎◌,
  ==_iff, IsUnique, concat_map, if◌then◌else◌, ◌==◌, ==_ne, inl, inr, arith, Bool-cases,
}
use mathlib.Core.List.{append-nil, append_assoc}
use shipment_tracking_system.VendorGroups.{
  JoinedRow, VendorGroup, optional, add_row, group_from, group_rows,
}

-- The vendors listed under an id.
abbrev pub vendors_of : ℕ → List VendorGroup → List String
vendors_of id [] = []
vendors_of id (g ∷ gs) = if g.id == id then g.vendors else vendors_of id gs

-- What a joined row says of an id.
abbrev pub vendor_at : ℕ → JoinedRow → List String
vendor_at id r = if r.id == id then optional r.vendor else []

vendors_of-add_row :
    (id : ℕ) (r : JoinedRow) (gs : List VendorGroup)
    → vendors_of id (add_row r gs) ≡ vendors_of id gs ++ vendor_at id r
vendors_of-add_row id r [] = refl
vendors_of-add_row id r (g ∷ gs) = elim (Bool-cases (g.id == r.id)) [
  | inl same ↦ elim (Bool-cases (g.id == id)) [
    | inl here ↦
        let at : (r.id == id) ≡ true = ground (arith, same, here) in rw same (rw here (rw at refl))
    | inr there ↦
        let at : (r.id == id) ≡ false = ground (arith, same, there) in
        rw same (rw there (rw at (sym (append-nil (vendors_of id gs)))))
  ]
  | inr other ↦ elim (Bool-cases (g.id == id)) [
    | inl here ↦
        let at : (r.id == id) ≡ false = ground (arith, other, here) in
        rw other (rw here (rw at (sym (append-nil g.vendors))))
    | inr there ↦ rw other (rw there (vendors_of-add_row id r gs))
  ]
]

vendors_of-group_from :
    (id : ℕ) (gs : List VendorGroup) (rows : List JoinedRow)
    → vendors_of id (group_from gs rows) ≡ vendors_of id gs ++ concat_map (vendor_at id) rows
vendors_of-group_from id gs [] = sym (append-nil (vendors_of id gs))
vendors_of-group_from id gs (r ∷ rows) =
    vendors_of-group_from id (add_row r gs) rows
    ∙ ap (λ l. l ++ concat_map (vendor_at id) rows) (vendors_of-add_row id r gs)
    ∙ append_assoc (vendors_of id gs) (vendor_at id r) (concat_map (vendor_at id) rows)

All-add_row :
    (k : ℕ) (r : JoinedRow) (gs : List VendorGroup)
    → r.id ≢ k
    → All (λ g. g.id ≢ k) gs
    → All (λ g. g.id ≢ k) (add_row r gs)
All-add_row k r [] ne h = (ne, tt)
All-add_row k r (g ∷ gs) ne h = elim (Bool-cases (g.id == r.id)) [
  | inl same ↦ rw same h
  | inr other ↦ rw other (h.0, All-add_row k r gs ne h.1)
]

IsUnique-add_row :
    (r : JoinedRow) (gs : List VendorGroup)
    → IsUnique (λ g. g.id) gs
    → IsUnique (λ g. g.id) (add_row r gs)
IsUnique-add_row r [] u = (tt, tt)
IsUnique-add_row r (g ∷ gs) u = elim (Bool-cases (g.id == r.id)) [
  | inl same ↦ rw same u
  | inr other ↦
      rw other (All-add_row g.id r gs (λ e. ==_ne _ _ other (sym e)) u.0, IsUnique-add_row r gs u.1)
]

IsUnique-group_from :
    (gs : List VendorGroup) (rows : List JoinedRow)
    → IsUnique (λ g. g.id) gs
    → IsUnique (λ g. g.id) (group_from gs rows)
IsUnique-group_from gs [] u = u
IsUnique-group_from gs (r ∷ rows) u =
    IsUnique-group_from (add_row r gs) rows (IsUnique-add_row r gs u)

In-add_row :
    (k : ℕ) (r : JoinedRow) (gs : List VendorGroup)
    → In k (map (λ g. g.id) (add_row r gs)) ↔ ((k ≡ r.id) ⊎ In k (map (λ g. g.id) gs))
In-add_row k r [] = ((λ m. m), (λ m. m))
In-add_row k r (g ∷ gs) =
    let (to, from) = In-add_row k r gs in
    elim (Bool-cases (g.id == r.id)) [
      | inl same ↦
          let e : g.id ≡ r.id = (==_iff _ _).0 same in
          rw same ((λ m. inr m), (λ m. elim m [ inl is ↦ inl (is ∙ sym e) | inr old ↦ old ]))
      | inr other ↦ rw other (
        (λ m. elim m [
          | inl here ↦ inr (inl here)
          | inr there ↦ elim (to there) [ inl is ↦ inl is | inr old ↦ inr (inr old) ]
        ]),
        (λ m. elim m [
          | inl is ↦ inr (from (inl is))
          | inr old ↦ elim old [ inl here ↦ inl here | inr there ↦ inr (from (inr there)) ]
        ]),
      )
    ]

In-group_from :
    (k : ℕ) (gs : List VendorGroup) (rows : List JoinedRow)
    → In k (map (λ g. g.id) (group_from gs rows))
      ↔ (In k (map (λ g. g.id) gs) ⊎ In k (map (λ r. r.id) rows))
In-group_from k gs [] =
    ((λ m. inl m), (λ m. elim m [ inl old ↦ old | inr nothing ↦ absurd nothing ]))
In-group_from k gs (r ∷ rows) =
    let (to, from) = In-group_from k (add_row r gs) rows in
    let (split, join) = In-add_row k r gs in
    (
      (λ m. elim (to m) [
        | inl first ↦ elim (split first) [ inl is ↦ inr (inl is) | inr old ↦ inl old ]
        | inr later ↦ inr (inr later)
      ]),
      (λ m. elim m [
        | inl old ↦ from (inl (join (inr old)))
        | inr new ↦ elim new [ inl is ↦ from (inl (join (inl is))) | inr later ↦ from (inr later) ]
      ]),
    )

-- However the joined rows are ordered, the loop makes exactly one group of each id that stands in a
-- row, also where no row of it has a vendor, and no group of another id; it lists under an id the
-- vendors of its rows in the order of the rows, those without a vendor left out.
pub group_rows_lem :
    (id : ℕ) (rows : List JoinedRow)
    → IsUnique (λ g. g.id) (group_rows rows)
      × (In id (map (λ g. g.id) (group_rows rows)) ↔ In id (map (λ r. r.id) rows))
      × (vendors_of id (group_rows rows) ≡ concat_map (vendor_at id) rows)
unfolding group_rows
group_rows_lem id rows =
    let (to, from) = In-group_from id [] rows in
    (
      IsUnique-group_from [] rows tt,
      ((λ m. elim (to m) [ inl nothing ↦ absurd nothing | inr is ↦ is ]), (λ m. from (inr m))),
      vendors_of-group_from id [] rows,
    )
