-- ===== src/Settlement/Service.antt =====
-- `pnl-settlement.service.ts`: the preview of a workbook, and its commit in chunks of 500 rows.
use shipment_tracking_system.Prelude.{
  ℕ, zero, suc, ◌+◌, ◌-◌, String, Bool, false, not, ◌&&◌, Option, none, some, List, [], ◌∷◌, ◌++◌,
  map, if◌then◌else◌, length, filter, any, str_eq, is_some,
}
use shipment_tracking_system.Settlement.Columns.{Numbers}
use shipment_tracking_system.Settlement.Parser.{
  SheetSummary, ParseError, ParsedSettlementRow, ParseResult, Sheets, key_of,
  parse_settlement_workbook,
}

abbrev pub chunk_size : ℕ
chunk_size = 500

abbrev pub take : {A : Type 0} → ℕ → List A → List A
take zero l = []
take (suc n) [] = []
take (suc n) (a ∷ l) = a ∷ take n l

abbrev pub drop : {A : Type 0} → ℕ → List A → List A
drop zero l = l
drop (suc n) [] = []
drop (suc n) (a ∷ l) = drop n l

-- The chunks of `for (let i = 0; i < rows.length; i += CHUNK) rows.slice(i, i + CHUNK)`, for at most
-- `fuel` rounds.
unfoldable pub chunks : {A : Type 0} → ℕ → List A → List (List A)
chunks zero l = []
chunks (suc fuel) [] = []
chunks (suc fuel) (a ∷ l) = take chunk_size (a ∷ l) ∷ chunks fuel (drop chunk_size (a ∷ l))

-- A round takes a row at least, so as many rounds as rows are enough.
abbrev pub all_chunks : {A : Type 0} → List A → List (List A)
all_chunks l = chunks (length l) l

pub record InvoicePeriodInput : Type 0 where
  pub label : String
  pub start : String
  pub end : String

pub record SettlementPreview : Type 0 where
  pub total_parsed : ℕ
  pub matched : ℕ
  pub unmatched : ℕ
  pub error_rows : ℕ
  pub duplicate_rows : ℕ
  pub sheet_summary : List SheetSummary
  pub errors : List ParseError
  pub unmatched_sample : List (String × String)

module _ (n : Numbers) where
  -- The columns of `air_shipments_compileaircgk` that the service touches.
  pub record Shipment : Type 0 where
    pub lt_number : Option String
    pub to_number : Option String
    pub actual_revenue : Option n.Number
    pub settled_at : Option ℕ
    pub invoice_period : Option InvoicePeriodInput

  -- `c.lt_number = v.lt AND c.to_number = v.to_num`, where a null is equal to nothing.
  abbrev pub same_text : Option String → String → Bool
  same_text none s = false
  same_text (some t) s = str_eq t s

  abbrev pub matches : Shipment → ParsedSettlementRow n → Bool
  matches c v = same_text c.lt_number v.lt_number && same_text c.to_number v.to_number

  abbrev pub find_value : Shipment → List (ParsedSettlementRow n) → Option (ParsedSettlementRow n)
  find_value c [] = none
  find_value c (v ∷ vs) = if matches c v then some v else find_value c vs

  abbrev pub settle_with :
      InvoicePeriodInput → ℕ → Shipment → Option (ParsedSettlementRow n) → Shipment
  settle_with period now c none = c
  settle_with period now c (some v) = record c {
    actual_revenue = some v.actual_revenue;
    settled_at = some now;
    invoice_period = some period;
  }

  -- One row under `UPDATE … FROM (VALUES …) AS v`.
  abbrev pub settle : InvoicePeriodInput → ℕ → List (ParsedSettlementRow n) → Shipment → Shipment
  settle period now vs c = settle_with period now c (find_value c vs)

  -- The number of rows that the statement reports.
  abbrev pub updated_by : List (ParsedSettlementRow n) → List Shipment → ℕ
  updated_by vs table = length (filter (λ c. is_some (find_value c vs)) table)

  -- The statements of `commit`, one for each chunk, and the sum of their counts.
  unfoldable pub run_chunks :
      InvoicePeriodInput
      → ℕ
      → List (List (ParsedSettlementRow n))
      → List Shipment
      → ℕ × List Shipment
  run_chunks period now [] table = (0, table)
  run_chunks period now (vs ∷ rest) table =
      let (updated, table') = run_chunks period now rest (map (settle period now vs) table) in
      (updated_by vs table + updated, table')

  -- `commit`: the rows of the workbook, the number of updated rows, and the table.
  unfoldable pub commit :
      Sheets n → InvoicePeriodInput → ℕ → List Shipment → ParseResult n × ℕ × List Shipment
  commit sheets period now table =
      let parsed = parse_settlement_workbook n sheets in
      let (updated, table') = run_chunks period now (all_chunks parsed.rows) table in
      (parsed, updated, table')

  abbrev pub row_key : ParsedSettlementRow n → String
  row_key r = key_of r.lt_number r.to_number

  -- The keys that one statement of `matchedKeySet` reads: its join answers a pair for every shipment
  -- and every row of the chunk that it matches.
  abbrev pub keys_of_chunk : List Shipment → List (ParsedSettlementRow n) → List String
  keys_of_chunk table [] = []
  keys_of_chunk table (v ∷ vs) =
      map (λ c. row_key v) (filter (λ c. matches c v) table) ++ keys_of_chunk table vs

  abbrev pub keys_of_chunks : List Shipment → List (List (ParsedSettlementRow n)) → List String
  keys_of_chunks table [] = []
  keys_of_chunks table (vs ∷ rest) = keys_of_chunk table vs ++ keys_of_chunks table rest

  -- `matchedKeySet`
  unfoldable pub matched_key_set : List Shipment → List (ParsedSettlementRow n) → List String
  matched_key_set table rows = keys_of_chunks table (all_chunks rows)

  -- `preview`
  unfoldable pub preview : Sheets n → List Shipment → SettlementPreview
  preview sheets table =
      let parsed = parse_settlement_workbook n sheets in
      let keys = matched_key_set table parsed.rows in
      let unmatched = filter (λ r. not (any (str_eq (row_key r)) keys)) parsed.rows in
      record {
        total_parsed = length parsed.rows;
        matched = length parsed.rows - length unmatched;
        unmatched = length unmatched;
        error_rows = length parsed.errors;
        duplicate_rows = parsed.duplicate_count;
        sheet_summary = parsed.sheet_summary;
        errors = take 100 parsed.errors;
        unmatched_sample = map (λ r. (r.lt_number, r.to_number)) (take 20 unmatched);
      }
