-- ===== src/Tracking/Registry.antt =====
-- The registry of airlines has one row per carrier
-- (apps/backend/src/modules/air-shipments/airline-tracking/airline-tracking-source.service.ts).
use shipment_tracking_system.Prelude.{
  String, Bool, false, ◌≡◌, ◌≢◌, refl, none, some, List, [], ◌∷◌, ◌++◌, All, IsUnique,
  IsUnique-append, All-filter, ◌⊎◌, filter, str_eq, str_eq_refl, eq_iff, update_rows, delete_rows,
  length, ◌==◌, ◌&&◌, not, is_ok, ok, inl, inr, arith, Bool-cases, Option-cases,
}
use shipment_tracking_system.Tracking.{
  AirlineSource, CreateAirlineSourceDto, UpdateAirlineSourceDto, is_carrier, get_by_carrier,
  new_source, patched, has_sets, create, update, remove,
}

-- No two sources have the same carrier code.
abbrev pub OneSource : List AirlineSource → Type 0
OneSource s = IsUnique (λ r. r.carrier_code) s

unregistered :
    (code : String) (s : List AirlineSource)
    → get_by_carrier code s ≡ none
    → All (λ r. r.carrier_code ≢ code) s
unregistered code [] h = tt
unregistered code (r ∷ s) h = elim (Bool-cases (str_eq r.carrier_code code)) [
  | inl is ↦ absurd (ground (arith, h, is))
  | inr other ↦ (
    (λ e. absurd (cc ((eq_iff r.carrier_code code).1 e, other))),
    unregistered code s (rw other at h),
  )
]

-- The row that was appended is found where no other has its carrier.
found_appended :
    (r : AirlineSource) (s : List AirlineSource)
    → get_by_carrier r.carrier_code s ≡ none
    → get_by_carrier r.carrier_code (s ++ r ∷ []) ≡ some r
found_appended r [] h = rw (str_eq_refl r.carrier_code) refl
found_appended r (x ∷ s) h = elim (Bool-cases (str_eq x.carrier_code r.carrier_code)) [
  | inl is ↦ absurd (ground (arith, h, is))
  | inr other ↦ rw other (found_appended r s (rw other at h))
]

All-update_codes :
    (code : String) (dto : UpdateAirlineSourceDto) (k : String) (s : List AirlineSource)
    → All (λ r. r.carrier_code ≢ k) s
    → All (λ r. r.carrier_code ≢ k) (update_rows (is_carrier code) (patched dto) s)
All-update_codes code dto k [] h = tt
All-update_codes code dto k (r ∷ s) h = elim (Bool-cases (is_carrier code r)) [
  | inl y ↦ rw y (h.0, All-update_codes code dto k s h.1)
  | inr n ↦ rw n (h.0, All-update_codes code dto k s h.1)
]

OneSource-update_rows :
    (code : String) (dto : UpdateAirlineSourceDto) (s : List AirlineSource)
    → OneSource s
    → OneSource (update_rows (is_carrier code) (patched dto) s)
OneSource-update_rows code dto [] u = tt
OneSource-update_rows code dto (r ∷ s) u =
    let all = All-update_codes code dto r.carrier_code s u.0 in
    let rest = OneSource-update_rows code dto s u.1 in
    elim (Bool-cases (is_carrier code r)) [ inl y ↦ rw y (all, rest) | inr n ↦ rw n (all, rest) ]

IsUnique-filter :
    (p : AirlineSource → Bool) (s : List AirlineSource) → OneSource s → OneSource (filter p s)
IsUnique-filter p [] u = tt
IsUnique-filter p (r ∷ s) u = elim (Bool-cases (p r)) [
  | inl y ↦
      rw y (All-filter (λ v. v.carrier_code ≢ r.carrier_code) p s u.0, IsUnique-filter p s u.1)
  | inr n ↦ rw n (IsUnique-filter p s u.1)
]

-- A carrier is registered, and its row read back, exactly where it is not in the registry yet.
create_cases :
    (dto : CreateAirlineSourceDto) (s : List AirlineSource)
    → ((get_by_carrier dto.carrier_code s ≡ none)
        × (create dto s ≡ (ok (new_source dto), s ++ new_source dto ∷ [])))
      ⊎ ((is_ok (create dto s).0 ≡ false) × ((create dto s).1 ≡ s))
unfolding create
create_cases dto s = elim (Option-cases (get_by_carrier dto.carrier_code s)) [
  | inl free ↦
      let back = found_appended (new_source dto) s free in inl (free, ground (arith, free, back))
  | inr (r, taken) ↦ inr (ground (arith, taken), ground (arith, taken))
]

update-table :
    (code : String) (dto : UpdateAirlineSourceDto) (s : List AirlineSource)
    → ((update code dto s).1 ≡ s)
      ⊎ ((update code dto s).1 ≡ update_rows (is_carrier code) (patched dto) s)
unfolding update
update-table code dto s = elim (Option-cases (get_by_carrier code s)) [
  | inl missing ↦ inl (ground (arith, missing))
  | inr (r, found) ↦ elim (Bool-cases (has_sets dto)) [
    | inr nothing ↦ inl (ground (arith, found, nothing))
    | inl sets ↦
        let table = update_rows (is_carrier code) (patched dto) s in
        elim (Option-cases (get_by_carrier code table)) [
          | inl gone ↦ inr (ground (arith, found, sets, gone))
          | inr (v, back) ↦ inr (ground (arith, found, sets, back))
        ]
  ]
]

remove-table :
    (reports : Bool) (code : String) (s : List AirlineSource)
    → (remove reports code s).1 ≡ delete_rows (is_carrier code) s
unfolding remove
remove-table reports code s =
    elim (Bool-cases (reports && length (filter (is_carrier code) s) == 0)) [
      | inl none_gone ↦ ground (arith, none_gone)
      | inr gone ↦ ground (arith, gone)
    ]

-- The registry keeps one row per carrier through every operation, whatever it answers: a registration,
-- a change and a removal. A registration that is answered with a row has stored that row, and the
-- carrier was not registered before; one that is refused changes nothing.
pub OneSource-kept :
    (dto : CreateAirlineSourceDto) (change : UpdateAirlineSourceDto) (reports : Bool)
    (code : String) (s : List AirlineSource)
    → OneSource s
    → OneSource (create dto s).1
      × OneSource (update code change s).1
      × OneSource (remove reports code s).1
      × (((get_by_carrier dto.carrier_code s ≡ none)
            × ((create dto s).0 ≡ ok (new_source dto))
            × (get_by_carrier dto.carrier_code (create dto s).1 ≡ some (new_source dto)))
          ⊎ ((is_ok (create dto s).0 ≡ false) × ((create dto s).1 ≡ s)))
OneSource-kept dto change reports code s u =
    let removed : OneSource (remove reports code s).1 =
      rw (remove-table reports code s) (IsUnique-filter (λ r. not (is_carrier code r)) s u) in
    let changed : OneSource (update code change s).1 = elim (update-table code change s) [
      | inl same ↦ rw same u
      | inr wrote ↦ rw wrote (OneSource-update_rows code change s u)
    ] in
    elim (create_cases dto s) [
      | inl (free, wrote) ↦
          let all = unregistered dto.carrier_code s free in
          let back = found_appended (new_source dto) s free in
          (
            rw wrote (IsUnique-append (λ r. r.carrier_code) (new_source dto) s all u),
            changed,
            removed,
            inl (free, rw wrote refl, rw wrote back),
          )
      | inr (refused, same) ↦ (rw same u, changed, removed, inr (refused, same))
    ]
