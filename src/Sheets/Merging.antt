-- ===== src/Sheets/Merging.antt =====
-- What a merged range holds at each place
-- (apps/backend/src/modules/air-shipments/cell-merge.ts, `mergeRangeValues`).
use shipment_tracking_system.Prelude.{ℕ, zero, suc, List, [], ◌∷◌, leb, if◌then◌else◌}
use shipment_tracking_system.Sheets.{Cell, null}

-- The greater of two lengths.
abbrev pub longer : ℕ → ℕ → ℕ
longer a b = if leb a b then b else a

module _ {Number : Type 0} where
  -- `row[c]`, where a missing cell reads as null.
  abbrev pub cell_at : ℕ → List (Cell Number) → Cell Number
  cell_at c [] = null
  cell_at zero (x ∷ row) = x
  cell_at (suc c) (x ∷ row) = cell_at c row

  -- `grid[r] ?? []`
  abbrev pub row_at : ℕ → List (List (Cell Number)) → List (Cell Number)
  row_at r [] = []
  row_at zero (row ∷ grid) = row
  row_at (suc r) (row ∷ grid) = row_at r grid
