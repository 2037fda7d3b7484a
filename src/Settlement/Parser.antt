-- ===== src/Settlement/Parser.antt =====
-- `settlement-parser.ts`: the rows of an invoice workbook.
use Prim.Native.String
use shipment_tracking_system.Prelude.{
  ℕ, ◌+◌, String, Bool, true, false, not, ◌||◌, Option, none, some, List, [], ◌∷◌, ◌++◌, map,
  if◌then◌else◌, is_truthy, codes, str_eq, get, set, is_some, get_or,
}
use shipment_tracking_system.Sheets.{normalize_header}
use shipment_tracking_system.Settlement.Columns.{
  Numbers, ColMap, Cell, reads, as_key, as_number, at, find_header,
}

pub record SheetSummary : Type 0 where
  pub sheet : String
  pub detected : Bool
  pub rows_parsed : ℕ
  pub rows_error : ℕ

pub record ParseError : Type 0 where
  pub sheet : String
  pub row_number : ℕ
  pub message : String

-- `${lt}|${to}`
abbrev pub key_of : String → String → String
key_of lt to = String.◌++◌ lt (String.◌++◌ "|" to)

abbrev error_message : String → String → String
error_message lt to =
    String.◌++◌ "Amount kosong/invalid untuk " (String.◌++◌ lt (String.◌++◌ "/" to))

module _ (n : Numbers) where
  pub record ParsedSettlementRow : Type 0 where
    pub lt_number : String
    pub to_number : String
    pub actual_revenue : n.Number
    pub sheet : String
    pub row_number : ℕ

  -- What the parse has so far: rows by key, and what it counts.
  pub record Parsing : Type 0 where
    pub by_key : List (String × ParsedSettlementRow)
    pub duplicate_count : ℕ
    pub errors : List ParseError
    pub rows_parsed : ℕ
    pub rows_error : ℕ

  -- `cols.packing !== null ? asNumber(row[cols.packing]) ?? 0 : 0`
  abbrev packing_of : ColMap → List (Cell n) → n.Number
  packing_of cols row = elim cols.packing [
    | none ↦ n.zero
    | some c ↦ get_or (as_number n (at n c row)) n.zero
  ]

  -- A row with an amount is put under its key.
  abbrev pub put_row : String → ParsedSettlementRow → Parsing → Parsing
  put_row key parsed st = record st {
    by_key = set str_eq key parsed st.by_key;
    duplicate_count =
        if is_some (get str_eq key st.by_key) then st.duplicate_count + 1 else st.duplicate_count;
    rows_parsed = st.rows_parsed + 1;
  }

  -- A row without one is an error.
  abbrev pub put_error : ParseError → Parsing → Parsing
  put_error e st = record st { errors = st.errors ++ e ∷ []; rows_error = st.rows_error + 1 }

  -- What becomes of a row with keys, by its amount.
  abbrev pub put_amount :
      Option n.Number → n.Number → String → String → String → ℕ → Parsing → Parsing
  put_amount none packing sheet lt to row_number st =
      put_error (record { sheet = sheet; row_number = row_number; message = error_message lt to })
        st
  put_amount (some amount) packing sheet lt to row_number st =
      put_row (key_of lt to)
        (record {
          lt_number = lt;
          to_number = to;
          actual_revenue = n.plus amount packing;
          sheet = sheet;
          row_number = row_number;
        })
        st

  -- One row below the header, which has the index `i`.
  unfoldable pub parse_row : String → ColMap → ℕ → List (Cell n) → Parsing → Parsing
  parse_row sheet cols i row st =
      let lt = as_key n (at n cols.lt row) in
      let to = as_key n (at n cols.to row) in
      if not (is_truthy lt) || not (is_truthy to)
      then st
      else if reads (normalize_header (codes to)) "to_number"
      then st
      else put_amount (as_number n (at n cols.amount row)) (packing_of cols row) sheet lt to (i + 1)
          st

  unfoldable pub parse_rows : String → ColMap → ℕ → List (List (Cell n)) → Parsing → Parsing
  parse_rows sheet cols i [] st = st
  parse_rows sheet cols i (row ∷ aoa) st =
      parse_rows sheet cols (i + 1) aoa (parse_row sheet cols i row st)

  -- A sheet of the workbook: its name, and its rows, if the workbook has it.
  abbrev pub Sheets : Type 0
  Sheets = List (String × Option (List (List (Cell n))))

  -- One sheet that has rows, by its header: a detail sheet is parsed, any other is only listed.
  abbrev pub parse_found :
      String → Option (ℕ × ColMap × List (List (Cell n))) → Parsing → Parsing × SheetSummary
  parse_found name none st =
      (st, record { sheet = name; detected = false; rows_parsed = 0; rows_error = 0 })
  parse_found name (some (i, cols, below)) st =
      let done =
        parse_rows name cols (i + 1) below (record st { rows_parsed = 0; rows_error = 0 }) in
      (
        done,
        record {
          sheet = name;
          detected = true;
          rows_parsed = done.rows_parsed;
          rows_error = done.rows_error;
        },
      )

  unfoldable pub parse_sheet : String → List (List (Cell n)) → Parsing → Parsing × SheetSummary
  parse_sheet name aoa st = parse_found name (find_header n aoa) st

  unfoldable pub parse_sheets : Sheets → Parsing → Parsing × List SheetSummary
  parse_sheets [] st = (st, [])
  parse_sheets ((name, none) ∷ sheets) st = parse_sheets sheets st
  parse_sheets ((name, some aoa) ∷ sheets) st =
      let (st', summary) = parse_sheet name aoa st in
      let (done, summaries) = parse_sheets sheets st' in (done, summary ∷ summaries)

  pub record ParseResult : Type 0 where
    pub rows : List ParsedSettlementRow
    pub sheet_summary : List SheetSummary
    pub errors : List ParseError
    pub duplicate_count : ℕ

  abbrev pub nothing_parsed : Parsing
  nothing_parsed = record {
    by_key = [];
    duplicate_count = 0;
    errors = [];
    rows_parsed = 0;
    rows_error = 0;
  }

  -- `parseSettlementWorkbook`, from the sheets as xlsx reads them; the warning repeats the count.
  unfoldable pub parse_settlement_workbook : Sheets → ParseResult
  parse_settlement_workbook sheets =
      let (done, summaries) = parse_sheets sheets nothing_parsed in
      record {
        rows = map (λ e. e.1) done.by_key;
        sheet_summary = summaries;
        errors = done.errors;
        duplicate_count = done.duplicate_count;
      }
