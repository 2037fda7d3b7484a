-- ===== src/Prelude/Keys.antt =====
-- Foreign keys: a nullable column that points at a row, as the table it points into changes.
use Prim.Native.Nat.{ℕ}
use mathlib.Core.Path.{◌≡◌, refl, ◌∙◌}
use mathlib.Core.Logic.{◌≢◌, inl, inr, ◌⊎◌}
use mathlib.Core.Bool.{Bool, true, false, not}
use mathlib.Core.Option.{Option, none, some}
use mathlib.Core.List.{List, [], ◌∷◌, ◌++◌}
use native.Mathlib.Omega.{arith}
use shipment_tracking_system.Prelude.Tests.{◌==◌, Bool-cases}
use shipment_tracking_system.Prelude.Rows.{
  All, In, In-append_left, filter, length, update_rows, delete_rows, any,
}
use shipment_tracking_system.Prelude.Lists.{In-filter}

-- Where no row is counted, none passes the test.
pub All-filter_none :
    {A : Type 0} (p : A → Bool) (xs : List A) → length (filter p xs) ≡ 0 → All (λ x. p x ≡ false) xs
All-filter_none p [] e = tt
All-filter_none p (x ∷ xs) e = elim (Bool-cases (p x)) [
  | inl y ↦ absurd (ground (arith, y, e))
  | inr n ↦ (n, All-filter_none p xs (ground (arith, n, e)))
]

pub In-update :
    {A : Type 0} (p : A → Bool) (f : A → A) (a : A) (xs : List A)
    → In a xs
    → In a (update_rows p f xs) ⊎ In (f a) (update_rows p f xs)
In-update p f a [] m = absurd m
In-update p f a (x ∷ xs) (inl e) = elim (Bool-cases (p x)) [
  | inl y ↦ inr (rw e (rw y (inl refl)))
  | inr n ↦ inl (rw n (inl e))
]
In-update p f a (x ∷ xs) (inr m) = elim (In-update p f a xs m) [
  | inl l ↦ elim (Bool-cases (p x)) [ inl y ↦ inl (rw y (inr l)) | inr n ↦ inl (rw n (inr l)) ]
  | inr r ↦ elim (Bool-cases (p x)) [ inl y ↦ inr (rw y (inr r)) | inr n ↦ inr (rw n (inr r)) ]
]

module _ {A : Type 0} (key : A → ℕ) (Good : A → Type 0) where
  -- The column is null, or a good row has its value as key.
  abbrev pub Refers : List A → Option ℕ → Type 0
  Refers xs none = Unit
  Refers xs (some k) = (a : A) × In a xs × (key a ≡ k) × Good a

  pub Refers-append : (xs ys : List A) (o : Option ℕ) → Refers xs o → Refers (xs ++ ys) o
  Refers-append xs ys none r = tt
  Refers-append xs ys (some k) (a, m, e, g) = (a, In-append_left a xs ys m, e, g)

  pub Refers-update :
      (p : A → Bool) (f : A → A) (xs : List A) (o : Option ℕ)
      → ((a : A) → key (f a) ≡ key a)
      → ((a : A) → Good a → Good (f a))
      → Refers xs o
      → Refers (update_rows p f xs) o
  Refers-update p f xs none k g r = tt
  Refers-update p f xs (some n) k g (a, m, e, good) = elim (In-update p f a xs m) [
    | inl l ↦ (a, l, e, good)
    | inr r ↦ (f a, r, k a ∙ e, g a good)
  ]

  pub Refers-delete :
      (n : ℕ) (xs : List A) (o : Option ℕ)
      → ((k : ℕ) → o ≡ some k → k ≢ n)
      → Refers xs o
      → Refers (delete_rows (λ a. key a == n) xs) o
  Refers-delete n xs none other r = tt
  Refers-delete n xs (some k) other (a, m, e, good) =
      let ne = other k refl in
      (a, In-filter (λ v. not (key v == n)) a xs m (ground (arith, e, ne)), e, good)

pub any-In :
    {A : Type 0} (p : A → Bool) (a : A) (xs : List A) → In a xs → p a ≡ true → any p xs ≡ true
any-In p a [] m e = absurd m
any-In p a (x ∷ xs) (inl q) e = let h : p x ≡ true = rw q at e in ground (arith, h)
any-In p a (x ∷ xs) (inr m) e = ground (arith, any-In p a xs m e)
