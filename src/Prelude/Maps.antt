-- ===== src/Prelude/Maps.antt =====
-- JavaScript's `Map`: its entries in the order of insertion. `set` of a key that is there keeps its
-- place.
use mathlib.Core.Path.{◌≡◌, refl, sym, ◌∙◌}
use mathlib.Core.Logic.{◌≢◌, ◌↔◌, inl, inr}
use mathlib.Core.Bool.{Bool, true, false, not}
use mathlib.Core.Option.{Option, none, some}
use mathlib.Core.List.{List, [], ◌∷◌}
use shipment_tracking_system.Prelude.Tests.{if◌then◌else◌, Bool-cases}
use shipment_tracking_system.Prelude.Rows.{filter}

eq_ne :
    {K : Type 0} (eq : K → K → Bool)
    → ((j k : K) → (eq j k ≡ true) ↔ (j ≡ k))
    → (j k : K) → j ≢ k
    → eq j k ≡ false
eq_ne eq eq_iff j k ne = elim (Bool-cases (eq j k)) [
  | inl y ↦ absurd (ne ((eq_iff j k).0 y))
  | inr n ↦ n
]

module _ {K : Type 0} (eq : K → K → Bool) {A : Type 0} where
  -- `map.get(k)`, where `none` is undefined.
  abbrev pub get : K → List (K × A) → Option A
  get k [] = none
  get k ((j, a) ∷ m) = if eq j k then some a else get k m

  -- `map.set(k, a)`
  abbrev pub set : K → A → List (K × A) → List (K × A)
  set k a [] = (k, a) ∷ []
  set k a ((j, b) ∷ m) = if eq j k then (j, a) ∷ m else (j, b) ∷ set k a m

  -- `map.delete(k)`
  abbrev pub remove : K → List (K × A) → List (K × A)
  remove k = filter (λ e. not (eq e.0 k))

  module _ (eq_iff : (j k : K) → (eq j k ≡ true) ↔ (j ≡ k)) where
    pub get-set_same : (k : K) (a : A) (m : List (K × A)) → get k (set k a m) ≡ some a
    get-set_same k a [] = rw ((eq_iff k k).1 refl) refl
    get-set_same k a ((j, b) ∷ m) = elim (Bool-cases (eq j k)) [
      | inl y ↦ rw y (rw y refl)
      | inr n ↦ rw n (rw n (get-set_same k a m))
    ]

    pub get-set_other : (i k : K) (a : A) (m : List (K × A)) → i ≢ k → get i (set k a m) ≡ get i m
    get-set_other i k a [] ne = rw (eq_ne eq eq_iff k i (λ e. ne (sym e))) refl
    get-set_other i k a ((j, b) ∷ m) ne = elim (Bool-cases (eq j k)) [
      | inl y ↦
          let apart = eq_ne eq eq_iff j i (λ e. ne (sym e ∙ (eq_iff j k).0 y)) in
          rw y (rw apart refl)
      | inr n ↦ rw n (elim (Bool-cases (eq j i)) [
        | inl y ↦ rw y refl
        | inr m' ↦ rw m' (get-set_other i k a m ne)
      ])
    ]

    pub get-remove_same : (k : K) (m : List (K × A)) → get k (remove k m) ≡ none
    get-remove_same k [] = refl
    get-remove_same k ((j, b) ∷ m) = elim (Bool-cases (eq j k)) [
      | inl y ↦ rw y (get-remove_same k m)
      | inr n ↦ rw n (rw n (get-remove_same k m))
    ]

    pub get-remove_other : (i k : K) (m : List (K × A)) → i ≢ k → get i (remove k m) ≡ get i m
    get-remove_other i k [] ne = refl
    get-remove_other i k ((j, b) ∷ m) ne = elim (Bool-cases (eq j k)) [
      | inl y ↦
          let apart = eq_ne eq eq_iff j i (λ e. ne (sym e ∙ (eq_iff j k).0 y)) in
          rw y (rw apart (get-remove_other i k m ne))
      | inr n ↦ rw n (elim (Bool-cases (eq j i)) [
        | inl y ↦ rw y refl
        | inr m' ↦ rw m' (get-remove_other i k m ne)
      ])
    ]
