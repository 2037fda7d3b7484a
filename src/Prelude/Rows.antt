-- ===== src/Prelude/Rows.antt =====
-- Tables as lists of rows: predicates over rows, and what an update, a delete or a save leaves.
use Prim.Native.Nat.{ℕ, suc}
use mathlib.Core.Path.{◌≡◌, refl, sym, ap, ◌∙◌}
use mathlib.Core.Logic.{◌≢◌, ◌⊎◌, inl, inr}
use mathlib.Core.Bool.{Bool, true, false, not, ◌||◌}
use mathlib.Core.List.{List, [], ◌∷◌, ◌++◌, map}
use native.Mathlib.Omega.{arith}
use shipment_tracking_system.Prelude.Tests.{◌==◌, if◌then◌else◌, Bool-cases, ==_iff, ==_ne}

module _ {A : Type 0} where
  abbrev pub All : (A → Type 0) → List A → Type 0
  All P [] = Unit
  All P (x ∷ xs) = P x × All P xs

  -- One of the rows is `a`.
  abbrev pub In : A → List A → Type 0
  In a [] = ⊥
  In a (x ∷ xs) = (a ≡ x) ⊎ In a xs

  abbrev pub length : List A → ℕ
  length [] = 0
  length (x ∷ xs) = suc (length xs)

  -- The rows that satisfy the test, in order.
  abbrev pub filter : (A → Bool) → List A → List A
  filter p [] = []
  filter p (x ∷ xs) = if p x then x ∷ filter p xs else filter p xs

  abbrev pub any : (A → Bool) → List A → Bool
  any p [] = false
  any p (x ∷ xs) = p x || any p xs

  -- `UPDATE … WHERE p`
  abbrev pub update_rows : (A → Bool) → (A → A) → List A → List A
  update_rows p f = map (λ x. if p x then f x else x)

  -- `DELETE … WHERE p`
  abbrev pub delete_rows : (A → Bool) → List A → List A
  delete_rows p = filter (λ x. not (p x))

  -- `save` of an entity: its row is rewritten, or appended where the table has none.
  abbrev pub save_row : (A → ℕ) → A → List A → List A
  save_row key a [] = a ∷ []
  save_row key a (x ∷ xs) = if key x == key a then a ∷ xs else x ∷ save_row key a xs

  -- No two rows have the same key.
  abbrev pub IsUnique : {K : Type 0} → (A → K) → List A → Type 0
  IsUnique key [] = Unit
  IsUnique key (x ∷ xs) = All (λ y. key y ≢ key x) xs × IsUnique key xs

-- Rows as a predicate sees them.
module _ {A : Type 0} (P : A → Type 0) where
  pub All-In : (a : A) (xs : List A) → All P xs → In a xs → P a
  All-In a [] h m = absurd m
  All-In a (x ∷ xs) h (inl e) = rw e h.0
  All-In a (x ∷ xs) h (inr m) = All-In a xs h.1 m

  pub All-of_In : (xs : List A) → ((a : A) → In a xs → P a) → All P xs
  All-of_In [] h = tt
  All-of_In (x ∷ xs) h = (h x (inl refl), All-of_In xs (λ a m. h a (inr m)))

  pub All-append : (xs ys : List A) → All P xs → All P ys → All P (xs ++ ys)
  All-append [] ys hx hy = hy
  All-append (x ∷ xs) ys hx hy = (hx.0, All-append xs ys hx.1 hy)

  pub All-filter : (p : A → Bool) (xs : List A) → All P xs → All P (filter p xs)
  All-filter p [] h = tt
  All-filter p (x ∷ xs) h = ground (arith, All-filter p xs h.1)

  pub All-update :
      (p : A → Bool) (f : A → A) (xs : List A)
      → ((a : A) → p a ≡ true → P a → P (f a))
      → All P xs
      → All P (update_rows p f xs)
  All-update p f [] k h = tt
  All-update p f (x ∷ xs) k h = ground (arith, k x, All-update p f xs k h.1)

  pub All-save : (key : A → ℕ) (a : A) (xs : List A) → P a → All P xs → All P (save_row key a xs)
  All-save key a [] pa h = (pa, tt)
  All-save key a (x ∷ xs) pa h = ground (arith, All-save key a xs pa h.1)

-- What holds of every row that passes the test after an update which makes it so.
pub All-updated :
    {A : Type 0} (P : A → Type 0) (p : A → Bool) (f : A → A) (xs : List A)
    → ((a : A) → p a ≡ true → P (f a))
    → ((a : A) → p a ≡ false → P a)
    → All P (update_rows p f xs)
All-updated P p f [] k l = tt
All-updated P p f (x ∷ xs) k l = ground (arith, k x, l x, All-updated P p f xs k l)

pub All-mono :
    {A : Type 0} (P Q : A → Type 0) (xs : List A) → ((a : A) → P a → Q a) → All P xs → All Q xs
All-mono P Q [] k h = tt
All-mono P Q (x ∷ xs) k h = (k x h.0, All-mono P Q xs k h.1)

module _ {A : Type 0} (key : A → ℕ) where
  pub In-save_self : (a : A) (xs : List A) → In a (save_row key a xs)
  In-save_self a [] = inl refl
  In-save_self a (x ∷ xs) = elim (Bool-cases (key x == key a)) [
    | inl same ↦ rw same (inl refl)
    | inr other ↦ rw other (inr (In-save_self a xs))
  ]

  pub In-save_other : (r a : A) (xs : List A) → key r ≢ key a → In r xs → In r (save_row key a xs)
  In-save_other r a [] ne m = absurd m
  In-save_other r a (x ∷ xs) ne (inl e) =
      let other : (key x == key a) ≡ false = let k = ap key e in ground (arith, k, ne) in
      rw other (inl e)
  In-save_other r a (x ∷ xs) ne (inr m) = elim (Bool-cases (key x == key a)) [
    | inl same ↦ rw same (inr m)
    | inr other ↦ rw other (inr (In-save_other r a xs ne m))
  ]

  -- After a save, the rows with the key of `a` are `a` alone, if keys are unique.
  pub All-save_self :
      (a : A) (xs : List A) → IsUnique key xs → All (λ y. key y ≡ key a → y ≡ a) (save_row key a xs)
  All-save_self a [] u = ((λ e. refl), tt)
  All-save_self a (x ∷ xs) u = elim (Bool-cases (key x == key a)) [
    | inl same ↦ rw same (
      (λ e. refl),
      All-mono (λ y. key y ≢ key x) (λ y. key y ≡ key a → y ≡ a) xs
          (λ y ne e. absurd (ne (e ∙ sym ((==_iff _ _).0 same)))) u.0,
    )
    | inr other ↦ rw other ((λ e. absurd (==_ne _ _ other e)), All-save_self a xs u.1)
  ]

pub In-append_right : {A : Type 0} (a : A) (xs : List A) → In a (xs ++ a ∷ [])
In-append_right a [] = inl refl
In-append_right a (x ∷ xs) = inr (In-append_right a xs)

pub In-append_left : {A : Type 0} (a : A) (xs ys : List A) → In a xs → In a (xs ++ ys)
In-append_left a [] ys m = absurd m
In-append_left a (x ∷ xs) ys (inl e) = inl e
In-append_left a (x ∷ xs) ys (inr m) = inr (In-append_left a xs ys m)

-- Every row after a write, and where it comes from.
pub In-append_cases : {A : Type 0} (a : A) (xs ys : List A) → In a (xs ++ ys) → In a xs ⊎ In a ys
In-append_cases a [] ys m = inr m
In-append_cases a (x ∷ xs) ys (inl e) = inl (inl e)
In-append_cases a (x ∷ xs) ys (inr m) = elim (In-append_cases a xs ys m) [
  | inl l ↦ inl (inr l)
  | inr r ↦ inr r
]

pub In-save_cases :
    {A : Type 0} (key : A → ℕ) (v a : A) (xs : List A)
    → In v (save_row key a xs)
    → (v ≡ a) ⊎ In v xs
In-save_cases key v a [] (inl e) = inl e
In-save_cases key v a [] (inr m) = absurd m
In-save_cases key v a (x ∷ xs) m = elim (Bool-cases (key x == key a)) [
  | inl same ↦
      let m' : (v ≡ a) ⊎ In v xs = rw same at m in elim m' [ inl e ↦ inl e | inr r ↦ inr (inr r) ]
  | inr other ↦
      let m' : (v ≡ x) ⊎ In v (save_row key a xs) = rw other at m in
      elim m' [
        | inl e ↦ inr (inl e)
        | inr r ↦ elim (In-save_cases key v a xs r) [ inl e ↦ inl e | inr q ↦ inr (inr q) ]
      ]
]

module _ {A : Type 0} (key : A → ℕ) where
  All-ne-save :
      (k : ℕ) (a : A) (xs : List A)
      → key a ≢ k
      → All (λ y. key y ≢ k) xs
      → All (λ y. key y ≢ k) (save_row key a xs)
  All-ne-save k a xs ne h = All-save (λ y. key y ≢ k) key a xs ne h

  pub IsUnique-save : (a : A) (xs : List A) → IsUnique key xs → IsUnique key (save_row key a xs)
  IsUnique-save a [] u = (tt, tt)
  IsUnique-save a (x ∷ xs) u = elim (Bool-cases (key x == key a)) [
    | inl same ↦
        let e : key x ≡ key a = (==_iff _ _).0 same in
        rw same (
          All-mono (λ y. key y ≢ key x) (λ y. key y ≢ key a) xs (λ y ne q. ne (q ∙ sym e)) u.0,
          u.1,
        )
    | inr other ↦
        let ne = ==_ne _ _ other in
        rw other (All-ne-save (key x) a xs (λ q. ne (sym q)) u.0, IsUnique-save a xs u.1)
  ]

  -- Saved under unique keys, the row is the only one with its key.
  pub eq_of_In-save :
      (v a : A) (xs : List A) → IsUnique key xs → In v (save_row key a xs) → key v ≡ key a → v ≡ a
  eq_of_In-save v a xs u m e =
      All-In (λ y. key y ≡ key a → y ≡ a) v (save_row key a xs) (All-save_self key a xs u) m e
