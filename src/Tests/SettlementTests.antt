-- ===== src/Tests/SettlementTests.antt =====
-- A workbook with one detail sheet, a sheet of another kind, and a name without a sheet.
use shipment_tracking_system.Prelude.{
  ℕ, ◌+◌, true, ◌≡◌, refl, none, some, [], ◌∷◌, map, codes, length, trim, is_space,
}
use shipment_tracking_system.Sheets.{normalize_header, make_unique_headers}
use shipment_tracking_system.Sheets.Names.{is_name, at_start, normalize_header-is_name}
use shipment_tracking_system.Settlement.{
  Numbers, text, number, null, Sheets, parse_settlement_workbook, parse_sheets, parse_sheet,
  parse_rows, parse_row, find_header, InvoicePeriodInput, Shipment, settle, updated_by, commit,
}
use shipment_tracking_system.Settlement.Counting.{total, data_rows, counts_add_up}
use shipment_tracking_system.Settlement.Commit.{commit-settles}

abbrev naturals : Numbers
naturals = record {
  Number = ℕ;
  zero = 0;
  plus = λ a b. a + b;
  to_text = λ a. "7";
  of_text = λ s. some (length (codes s));
  is_finite = λ a. true;
}

abbrev workbook : Sheets naturals
workbook =
    ("Invoice", some ((text "INV.835" ∷ []) ∷ []))
    ∷ (
      "CGK-DPS",
      some (
          (text "LT Number" ∷ text "TO\nNumber" ∷ text "Amount" ∷ text "Packing Kayu (IDR)" ∷ [])
          ∷ (text "LT1" ∷ text "TO1" ∷ number 100 ∷ number 5 ∷ [])
          ∷ (text "LT1" ∷ text "TO2" ∷ null ∷ [])
          ∷ (text "LT1" ∷ text " TO1 " ∷ number 70 ∷ [])
          ∷ (null ∷ null ∷ number 170 ∷ [])
          ∷ []),
    )
    ∷ ("Rate", none)
    ∷ []

counted :
    let r = parse_settlement_workbook naturals workbook in
    (map (λ x. x.actual_revenue) r.rows ≡ 70 ∷ [])
    × (map (λ x. x.rows_parsed) r.sheet_summary ≡ 0 ∷ 2 ∷ [])
    × (length r.errors ≡ 1)
unfolding parse_settlement_workbook parse_sheets parse_sheet parse_rows parse_row find_header
    normalize_header trim
counted = (refl, refl, refl)

counts_add_up_example :
    let r = parse_settlement_workbook naturals workbook in
    (total (λ x. x.rows_parsed) r.sheet_summary + total (λ x. x.rows_error) r.sheet_summary
      ≡ data_rows naturals workbook)
    × (total (λ x. x.rows_parsed) r.sheet_summary ≡ length r.rows + r.duplicate_count)
    × (total (λ x. x.rows_error) r.sheet_summary ≡ length r.errors)
counts_add_up_example = counts_add_up naturals workbook

abbrev period : InvoicePeriodInput
period = record { label = "C05"; start = "2026-03-01"; end = "2026-03-15" }

abbrev shipment : Shipment naturals
shipment = record {
  lt_number = some "LT1";
  to_number = some "TO1";
  actual_revenue = none;
  settled_at = none;
  invoice_period = none;
}

commit-settles_example :
    let rows = (parse_settlement_workbook naturals workbook).rows in
    commit naturals workbook period 9 (shipment ∷ []) ≡ (
      parse_settlement_workbook naturals workbook,
      updated_by naturals rows (shipment ∷ []),
      map (settle naturals period 9 rows) (shipment ∷ []),
    )
commit-settles_example = commit-settles naturals period 9 workbook (shipment ∷ [])

header_runs : normalize_header (codes " Gross\nWeight (Kg) ") ≡ codes "gross_weight_kg"
unfolding normalize_header is_space
header_runs = refl

normalize_header-is_name_example :
    is_name at_start (normalize_header (codes " Gross\nWeight (Kg) ")) ≡ true
normalize_header-is_name_example = normalize_header-is_name (codes " Gross\nWeight (Kg) ")

-- A header that reads like the second of two others gets no name of its own.
collision :
    make_unique_headers (λ k. codes "2") (codes "a" ∷ codes "a" ∷ codes "a_2" ∷ [])
    ≡ codes "a" ∷ codes "a_2" ∷ codes "a_2" ∷ []
unfolding make_unique_headers
collision = refl
