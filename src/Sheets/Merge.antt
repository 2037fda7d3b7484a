-- ===== src/Sheets/Merge.antt =====
-- `cell-merge.ts`: the two renderings of a range, merged cell by cell.
use shipment_tracking_system.Prelude.{
  String, Bool, false, List, [], ◌∷◌, ◌==◌, any, codes, if◌then◌else◌,
}

-- A cell as the Sheets API renders it.
pub data Cell (Number : Type 0) : Type 0 where
  null : Cell Number
  text : String → Cell Number
  number : Number → Cell Number
  bool : Bool → Cell Number

module _ {Number : Type 0} where
  -- `typeof formatted === 'string' && formatted.includes('%')`
  abbrev is_percent : Cell Number → Bool
  is_percent (text s) = any (λ c. c == 37) (codes s)
  is_percent _ = false

  -- `formatted ?? unformatted ?? ''`, for cells of which none is a number.
  abbrev first_given : Cell Number → Cell Number → Cell Number
  first_given null null = text ""
  first_given null u = u
  first_given f u = f

  abbrev unless_number : Cell Number → Cell Number → Cell Number
  unless_number f (number x) = number x
  unless_number f u = first_given f u

  -- `mergeRenderedCell`; a missing cell is undefined, which is read as null is.
  unfoldable pub merge_rendered_cell : Cell Number → Cell Number → Cell Number
  merge_rendered_cell f u = if is_percent f then f else unless_number f u

  -- The loop over the columns of two rows, as long as the longer one.
  abbrev pub merge_rows : List (Cell Number) → List (Cell Number) → List (Cell Number)
  merge_rows [] [] = []
  merge_rows [] (u ∷ us) = merge_rendered_cell null u ∷ merge_rows [] us
  merge_rows (f ∷ fs) [] = merge_rendered_cell f null ∷ merge_rows fs []
  merge_rows (f ∷ fs) (u ∷ us) = merge_rendered_cell f u ∷ merge_rows fs us

  -- The loop over the rows of two grids; a missing row is an empty one.
  unfoldable pub merge_range_values :
      List (List (Cell Number)) → List (List (Cell Number)) → List (List (Cell Number))
  merge_range_values [] [] = []
  merge_range_values [] (u ∷ us) = merge_rows [] u ∷ merge_range_values [] us
  merge_range_values (f ∷ fs) [] = merge_rows f [] ∷ merge_range_values fs []
  merge_range_values (f ∷ fs) (u ∷ us) = merge_rows f u ∷ merge_range_values fs us
