-- ===== src/Fleet/Closing.antt =====
-- The end of a lease contract (apps/backend/src/modules/fleet-vehicles/fleet-contracts.service.ts).
use shipment_tracking_system.Prelude.{
  Refers, Refers-update, All-update, HttpError, ◌≢◌, ap, ℕ, false, ◌≡◌, refl, Option, none, some,
  List, All, All-In, All-updated, In, ◌==◌, ==_iff, ==_ne, inl, inr, ◌⊎◌, ok, err, conflict,
  not_found, arith, Option-cases, update_rows, sym, ◌∙◌,
}
use shipment_tracking_system.Prelude.Orm.{Orm, OrmLaws}
use shipment_tracking_system.Fleet.{Date, FleetLeaseContract, Store}
use shipment_tracking_system.Fleet.Contracts.{FleetVehicleLeaseView, close}

-- A row has the id, and every such row is closed, on that day.
abbrev pub IsClosed : ℕ → Date → Store → Type 0
IsClosed id day s =
    Refers (λ c. c.id) (λ _. Unit {0}) s.contracts (some id)
    × All (λ c. c.id ≡ id → c.closed_at ≡ some day) s.contracts

abbrev closed : ℕ → Date → Store → List FleetLeaseContract
closed id today s =
    update_rows (λ c. c.id == id) (λ c. record c { closed_at = some today }) s.contracts

abbrev pub already_closed : HttpError
already_closed = conflict "Contract is already closed"

-- Requests to close contracts, on any days.
pub data Closes (orm : Orm) (s : Store) : Store → Type 0 where
  here : Closes orm s s
  next : {t : Store} (id : ℕ) (day : Date) → Closes orm s t → Closes orm s (close orm id day t).1

-- A row is not both closed and open.
cc_open : {A : Type 0} {o : Option A} {a : A} → o ≡ some a → o ≡ none → ⊥
cc_open e q = cc

module _ (orm : Orm) (laws : OrmLaws orm) where
  close_cases :
      (id : ℕ) (today : Date) (s : Store)
      → ((e : HttpError) × (close orm id today s ≡ (err e, s)))
        ⊎ ((c : FleetLeaseContract) × In c s.contracts
            × (c.id ≡ id)
            × (c.closed_at ≡ none)
            × ((close orm id today s).1 ≡ record s { contracts = closed id today s }))
  unfolding close
  close_cases id today s =
      elim (Option-cases (orm.find_one FleetLeaseContract (λ c. c.id == id) s.contracts)) [
        | inl missing ↦ inl (not_found "Contract not found", ground (arith, missing))
        | inr (c, found) ↦ elim (Option-cases c.closed_at) [
          | inr (day, shut) ↦ inl (already_closed, ground (arith, found, shut))
          | inl unclosed ↦
              let (m, e) =
                laws.find_one_some FleetLeaseContract (λ c. c.id == id) s.contracts c found in
              let table =
                orm.update FleetLeaseContract (λ c. c.id == id)
                  (λ c. record c { closed_at = some today }) s.contracts in
              let ends : record s { contracts = table }
                  ≡ record s { contracts = closed id today s } =
                ap (λ t. record s { contracts = t })
                  (laws.update_lem FleetLeaseContract (λ c. c.id == id)
                    (λ c. record c { closed_at = some today }) s.contracts) in
              elim (Option-cases (orm.find_one FleetLeaseContract (λ c. c.id == id) table)) [
                | inl gone ↦
                    let step : (close orm id today s).1 ≡ record s { contracts = table } =
                      ground (arith, found, unclosed, gone) in
                    inr (c, m, (==_iff _ _).0 e, unclosed, step ∙ ends)
                | inr (again, reloaded) ↦
                    let step : (close orm id today s).1 ≡ record s { contracts = table } =
                      ground (arith, found, unclosed, reloaded) in
                    inr (c, m, (==_iff _ _).0 e, unclosed, step ∙ ends)
              ]
        ]
      ]

  close-IsClosed :
      (id : ℕ) (today : Date) (s : Store) (v : FleetVehicleLeaseView)
      → (close orm id today s).0 ≡ ok v
      → IsClosed id today (close orm id today s).1
  close-IsClosed id today s v saved = elim (close_cases id today s) [
    | inl (e, refused) ↦ absurd (ground (arith, refused, saved))
    | inr (c, m, e, unclosed, wrote) ↦ rw wrote (
      Refers-update (λ c. c.id) (λ _. Unit {0}) (λ c. c.id == id)
          (λ c. record c { closed_at = some today }) s.contracts (some id) (λ a. refl) (λ a g. g)
          (c, m, e, tt),
      All-updated (λ c. c.id ≡ id → c.closed_at ≡ some today) (λ c. c.id == id)
          (λ c. record c { closed_at = some today }) s.contracts (λ a hit e. refl)
          (λ a miss e. absurd (==_ne _ _ miss e)),
    )
  ]

  Closes-IsClosed :
      (id : ℕ) (day : Date) (s t : Store) → IsClosed id day s → Closes orm s t → IsClosed id day t
  Closes-IsClosed id day s t h here = h
  Closes-IsClosed id day s _ h (next {t = u} k later cs) =
      let before = Closes-IsClosed id day s u h cs in
      elim (close_cases k later u) [
        | inl (e, refused) ↦ rw refused before
        | inr (c, m, e, unclosed, wrote) ↦
            let apart : k ≢ id = λ q. absurd (
              cc_open
                (All-In (λ c. c.id ≡ id → c.closed_at ≡ some day) c u.contracts before.1 m (e ∙ q))
                unclosed) in
            rw wrote (
              Refers-update (λ c. c.id) (λ _. Unit {0}) (λ c. c.id == k)
                  (λ c. record c { closed_at = some later }) u.contracts (some id) (λ a. refl)
                  (λ a g. g) before.0,
              All-update (λ c. c.id ≡ id → c.closed_at ≡ some day) (λ c. c.id == k)
                  (λ c. record c { closed_at = some later }) u.contracts
                  (λ a hit kept q. absurd (apart (sym ((==_iff _ _).0 hit) ∙ q))) before.1,
            )
      ]

  closed_refused :
      (id : ℕ) (day today : Date) (s : Store)
      → IsClosed id day s
      → close orm id today s ≡ (err already_closed, s)
  unfolding close
  closed_refused id day today s ((c, m, e, _), all) =
      elim (Option-cases (orm.find_one FleetLeaseContract (λ c. c.id == id) s.contracts)) [
        | inl missing ↦
            let none_left =
              laws.find_one_none FleetLeaseContract (λ c. c.id == id) s.contracts missing in
            let not_it = All-In (λ v. (v.id == id) ≡ false) c s.contracts none_left m in
            absurd (ground (arith, not_it, e))
        | inr (r, found) ↦
            let (i, q) =
              laws.find_one_some FleetLeaseContract (λ c. c.id == id) s.contracts r found in
            let shut =
              All-In (λ c. c.id ≡ id → c.closed_at ≡ some day) r s.contracts all i
                ((==_iff _ _).0 q) in
            ground (arith, found, shut)
      ]

-- A contract is closed once: after a successful close, and any closing of contracts that follows, it
-- has the day of that first close, and closing it again is refused and changes nothing.
pub close_once :
    (orm : Orm) (laws : OrmLaws orm) (id : ℕ) (today later : Date) (s t : Store)
    (v : FleetVehicleLeaseView)
    → (close orm id today s).0 ≡ ok v
    → Closes orm (close orm id today s).1 t
    → IsClosed id today t × (close orm id later t ≡ (err already_closed, t))
close_once orm laws id today later s t v saved cs =
    let kept =
      Closes-IsClosed orm laws id today _ t (close-IsClosed orm laws id today s v saved) cs in
    (kept, closed_refused orm laws id today later t kept)
