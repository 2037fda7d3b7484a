-- ===== src/Prelude/Orm.antt =====
-- What the services use of a TypeORM repository, which is not part of the source: its calls are
-- functions from the contents of a table, and the laws are what its documentation promises.
use mathlib.Core.Path.{◌≡◌}
use mathlib.Core.Bool.{Bool, true, false}
use mathlib.Core.Option.{Option, none, some}
use mathlib.Core.List.{List, [], ◌∷◌, ◌++◌}
use Prim.Native.Nat.{ℕ}
use shipment_tracking_system.Prelude.Rows.{
  All, In, filter, update_rows, delete_rows, save_row, length,
}

-- The calls. `find_one` may answer any of the rows that satisfy its test.
pub record Orm : Type 1 where
  pub find_one : (Row : Type 0) → (Row → Bool) → List Row → Option Row
  pub find : (Row : Type 0) → (Row → Bool) → List Row → List Row
  pub count : (Row : Type 0) → (Row → Bool) → List Row → ℕ
  pub save : (Row : Type 0) → (Row → ℕ) → Row → List Row → List Row
  pub insert : (Row : Type 0) → Row → List Row → List Row
  pub update : (Row : Type 0) → (Row → Bool) → (Row → Row) → List Row → List Row
  pub delete : (Row : Type 0) → (Row → Bool) → List Row → List Row

-- Their documented behaviour.
pub record OrmLaws (orm : Orm) : Type 1 where
  pub find_one_none :
      (Row : Type 0) (p : Row → Bool) (t : List Row)
      → orm.find_one Row p t ≡ none
      → All (λ r. p r ≡ false) t
  pub find_one_some :
      (Row : Type 0) (p : Row → Bool) (t : List Row) (r : Row)
      → orm.find_one Row p t ≡ some r
      → In r t × (p r ≡ true)
  pub find_lem : (Row : Type 0) (p : Row → Bool) (t : List Row) → orm.find Row p t ≡ filter p t
  pub count_lem :
      (Row : Type 0) (p : Row → Bool) (t : List Row) → orm.count Row p t ≡ length (filter p t)
  pub save_lem :
      (Row : Type 0) (key : Row → ℕ) (r : Row) (t : List Row)
      → orm.save Row key r t ≡ save_row key r t
  pub insert_lem : (Row : Type 0) (r : Row) (t : List Row) → orm.insert Row r t ≡ t ++ r ∷ []
  pub update_lem :
      (Row : Type 0) (p : Row → Bool) (f : Row → Row) (t : List Row)
      → orm.update Row p f t ≡ update_rows p f t
  pub delete_lem :
      (Row : Type 0) (p : Row → Bool) (t : List Row) → orm.delete Row p t ≡ delete_rows p t
