-- ===== src/Tests/SheetTests.antt =====
-- Two renderings of a range, ragged in different rows.
use shipment_tracking_system.Prelude.{ℕ, ◌≡◌, refl, List, [], ◌∷◌}
use shipment_tracking_system.Sheets.{Cell, text, number, merge_rendered_cell, merge_range_values}

abbrev formatted : List (List (Cell ℕ))
formatted = (text "2,838" ∷ text "11%" ∷ []) ∷ []

abbrev unformatted : List (List (Cell ℕ))
unformatted = (number 2838 ∷ []) ∷ (number 5 ∷ []) ∷ []

merged :
    merge_range_values formatted unformatted
    ≡ (number 2838 ∷ text "11%" ∷ []) ∷ (number 5 ∷ []) ∷ []
unfolding merge_range_values merge_rendered_cell
merged = refl
