-- ===== src/Prelude/Pairs.antt =====
-- Tables whose rows are related two by two, and unique keys, as rows are added and saved.
use Prim.Native.Nat.{ℕ}
use mathlib.Core.Path.{sym}
use mathlib.Core.Logic.{◌≢◌, inl, inr}
use mathlib.Core.List.{List, [], ◌∷◌, ◌++◌}
use shipment_tracking_system.Prelude.Tests.{◌==◌, Bool-cases}
use shipment_tracking_system.Prelude.Rows.{All, All-append, All-of_In, All-save, IsUnique, save_row}

-- Every two rows are related, the earlier one first.
abbrev pub Pairwise : {A : Type 0} → (A → A → Type 0) → List A → Type 0
Pairwise R [] = Unit
Pairwise R (x ∷ xs) = All (R x) xs × Pairwise R xs

module _ {A : Type 0} (R : A → A → Type 0) where
  pub Pairwise-append :
      (a : A) (xs : List A) → All (λ x. R x a) xs → Pairwise R xs → Pairwise R (xs ++ a ∷ [])
  Pairwise-append a [] h u = (tt, tt)
  Pairwise-append a (x ∷ xs) h u =
      (All-append (R x) xs (a ∷ []) u.0 (h.0, tt), Pairwise-append a xs h.1 u.1)

  pub Pairwise-save :
      (key : A → ℕ) (a : A) (xs : List A)
      → ((x : A) → R x a)
      → ((x : A) → R a x)
      → Pairwise R xs
      → Pairwise R (save_row key a xs)
  Pairwise-save key a [] l r u = (tt, tt)
  Pairwise-save key a (x ∷ xs) l r u = elim (Bool-cases (key x == key a)) [
    | inl same ↦ rw same (All-of_In (R a) xs (λ y m. r y), u.1)
    | inr other ↦ rw other (All-save (R x) key a xs (l x) u.0, Pairwise-save key a xs l r u.1)
  ]

pub IsUnique-append :
    {A K : Type 0} (key : A → K) (a : A) (xs : List A)
    → All (λ x. key x ≢ key a) xs
    → IsUnique key xs
    → IsUnique key (xs ++ a ∷ [])
IsUnique-append key a [] h u = (tt, tt)
IsUnique-append key a (x ∷ xs) h u = (
  All-append (λ y. key y ≢ key x) xs (a ∷ []) u.0 ((λ e. h.0 (sym e)), tt),
  IsUnique-append key a xs h.1 u.1,
)
