-- ===== src/Settlement/Counting.antt =====
-- The counts that settlement-parser.ts reports of a workbook.
use shipment_tracking_system.Prelude.{
  ℕ, ◌+◌, String, Bool, filter, ◌&&◌, not, ◌||◌, Option, none, some, List, [], ◌∷◌, ◌++◌, map, ◌≡◌,
  inl, inr, refl, arith, Bool-cases, length, get, set, is_some, is_truthy, str_eq, if◌then◌else◌,
  codes,
}
use shipment_tracking_system.Sheets.{normalize_header}
use shipment_tracking_system.Settlement.Columns.{
  Numbers, Cell, ColMap, reads, as_key, at, find_header,
}
use shipment_tracking_system.Settlement.Parser.{
  SheetSummary, ParsedSettlementRow, Parsing, put_row, put_amount, parse_row, parse_rows, Sheets,
  parse_sheet, parse_found, parse_sheets, parse_settlement_workbook, nothing_parsed,
}

length-set :
    {A : Type 0} (k : String) (a : A) (m : List (String × A))
    → length (set str_eq k a m) ≡ (if is_some (get str_eq k m) then length m else length m + 1)
length-set k a [] = refl
length-set k a ((j, b) ∷ m) = elim (Bool-cases (str_eq j k)) [
  | inl y ↦ rw y refl
  | inr f ↦ rw f (ground (arith, length-set k a m))
]

length-snoc : {A : Type 0} (a : A) (l : List A) → length (l ++ a ∷ []) ≡ length l + 1
length-snoc a [] = refl
length-snoc a (x ∷ l) = omega (arith, length-snoc a l)

-- The sum of one count over the sheets.
abbrev pub total : (SheetSummary → ℕ) → List SheetSummary → ℕ
total f [] = 0
total f (s ∷ l) = f s + total f l

module _ (n : Numbers) where
  -- Rows and errors are counted from one state of the parse to a later one.
  record Counts (s t : Parsing n) : Type 0 where
    pub parsed :
        length t.by_key + t.duplicate_count + s.rows_parsed
        ≡ length s.by_key + s.duplicate_count + t.rows_parsed
    pub failed : length t.errors + s.rows_error ≡ length s.errors + t.rows_error

  put_row-Counts :
      (key : String) (r : ParsedSettlementRow n) (s : Parsing n) → Counts s (put_row n key r s)
  put_row-Counts key r s = record {
    parsed = elim (Bool-cases (is_some (get str_eq key s.by_key))) [
      | inl y ↦
          let e = length-set key r s.by_key in
          let e' : length (set str_eq key r s.by_key) ≡ length s.by_key = rw y at e in
          rw y (omega (arith, e'))
      | inr f ↦
          let e = length-set key r s.by_key in
          let e' : length (set str_eq key r s.by_key) ≡ length s.by_key + 1 = rw f at e in
          rw f (omega (arith, e'))
    ];
    failed = refl;
  }

  put_amount-Counts :
      (a : Option n.Number) (packing : n.Number) (sheet lt to : String) (i : ℕ) (s : Parsing n)
      → Counts s (put_amount n a packing sheet lt to i s)
  put_amount-Counts none packing sheet lt to i s = record {
    parsed = refl;
    failed = omega (arith, length-snoc _ s.errors);
  }
  put_amount-Counts (some a) packing sheet lt to i s = put_row-Counts _ _ s

  parse_row-Counts :
      (sheet : String) (cols : ColMap) (i : ℕ) (row : List (Cell n)) (s : Parsing n)
      → Counts s (parse_row n sheet cols i row s)
  unfolding parse_row
  parse_row-Counts sheet cols i row s =
      let lt = as_key n (at n cols.lt row) in
      let to = as_key n (at n cols.to row) in
      elim (Bool-cases (not (is_truthy lt) || not (is_truthy to))) [
        | inl y ↦ rw y (record { parsed = refl; failed = refl })
        | inr f ↦ elim (Bool-cases (reads (normalize_header (codes to)) "to_number")) [
          | inl y ↦ rw f (rw y (record { parsed = refl; failed = refl }))
          | inr g ↦ rw f (rw g (put_amount-Counts _ _ sheet lt to (i + 1) s))
        ]
      ]

  parse_rows-Counts :
      (sheet : String) (cols : ColMap) (i : ℕ) (aoa : List (List (Cell n))) (s : Parsing n)
      → Counts s (parse_rows n sheet cols i aoa s)
  unfolding parse_rows
  parse_rows-Counts sheet cols i [] s = record { parsed = refl; failed = refl }
  parse_rows-Counts sheet cols i (row ∷ aoa) s =
      let first = parse_row-Counts sheet cols i row s in
      let rest = parse_rows-Counts sheet cols (i + 1) aoa (parse_row n sheet cols i row s) in
      record {
        parsed = omega (arith, first.parsed, rest.parsed);
        failed = omega (arith, first.failed, rest.failed);
      }

  -- One sheet adds what its summary says.
  abbrev Adds : Parsing n → Parsing n → SheetSummary → Type 0
  Adds s t x =
      (length t.by_key + t.duplicate_count ≡ length s.by_key + s.duplicate_count + x.rows_parsed)
      × (length t.errors ≡ length s.errors + x.rows_error)

  parse_found-Adds :
      (name : String) (o : Option (ℕ × ColMap × List (List (Cell n)))) (s : Parsing n)
      → Adds s (parse_found n name o s).0 (parse_found n name o s).1
  parse_found-Adds name none s = (omega arith, omega arith)
  parse_found-Adds name (some (i, cols, below)) s =
      let h =
        parse_rows-Counts name cols (i + 1) below (record s { rows_parsed = 0; rows_error = 0 }) in
      (omega (arith, h.parsed), omega (arith, h.failed))

  parse_sheet-Adds :
      (name : String) (aoa : List (List (Cell n))) (s : Parsing n)
      → Adds s (parse_sheet n name aoa s).0 (parse_sheet n name aoa s).1
  unfolding parse_sheet
  parse_sheet-Adds name aoa s = parse_found-Adds name (find_header n aoa) s

  parse_sheets-counts :
      (sheets : Sheets n) (s : Parsing n)
      → let t = (parse_sheets n sheets s).0 in
        let l = (parse_sheets n sheets s).1 in
        (length t.by_key + t.duplicate_count
          ≡ length s.by_key + s.duplicate_count + total (λ x. x.rows_parsed) l)
        × (length t.errors ≡ length s.errors + total (λ x. x.rows_error) l)
  unfolding parse_sheets
  parse_sheets-counts [] s = (omega arith, omega arith)
  parse_sheets-counts ((name, none) ∷ sheets) s = parse_sheets-counts sheets s
  parse_sheets-counts ((name, some aoa) ∷ sheets) s =
      let first = parse_sheet-Adds name aoa s in
      let rest = parse_sheets-counts sheets (parse_sheet n name aoa s).0 in
      (omega (arith, first.0, rest.0), omega (arith, first.1, rest.1))

  -- A row that the parse must count: it has both keys, and does not repeat the header.
  abbrev pub is_data : ColMap → List (Cell n) → Bool
  is_data cols row =
      let to = as_key n (at n cols.to row) in
      is_truthy (as_key n (at n cols.lt row))
      && is_truthy to
      && not (reads (normalize_header (codes to)) "to_number")

  -- The number of those below the header of a sheet, and of all sheets.
  abbrev pub data_below : Option (ℕ × ColMap × List (List (Cell n))) → ℕ
  data_below none = 0
  data_below (some (i, cols, below)) = length (filter (is_data cols) below)

  abbrev pub data_rows : Sheets n → ℕ
  data_rows [] = 0
  data_rows ((name, none) ∷ sheets) = data_rows sheets
  data_rows ((name, some aoa) ∷ sheets) = data_below (find_header n aoa) + data_rows sheets

  put_amount-counted :
      (a : Option n.Number) (packing : n.Number) (sheet lt to : String) (i : ℕ) (s : Parsing n)
      → let t = put_amount n a packing sheet lt to i s in
        t.rows_parsed + t.rows_error ≡ s.rows_parsed + s.rows_error + 1
  put_amount-counted none packing sheet lt to i s = omega arith
  put_amount-counted (some a) packing sheet lt to i s = omega arith

  parse_row-counted :
      (sheet : String) (cols : ColMap) (i : ℕ) (row : List (Cell n)) (s : Parsing n)
      → let t = parse_row n sheet cols i row s in
        t.rows_parsed + t.rows_error
        ≡ s.rows_parsed + s.rows_error + (if is_data cols row then 1 else 0)
  unfolding parse_row
  parse_row-counted sheet cols i row s =
      let lt = as_key n (at n cols.lt row) in
      let to = as_key n (at n cols.to row) in
      elim (Bool-cases (is_truthy lt)) [
        | inr f ↦ rw f (omega arith)
        | inl y ↦ elim (Bool-cases (is_truthy to)) [
          | inr f ↦ rw y (rw f (omega arith))
          | inl z ↦ elim (Bool-cases (reads (normalize_header (codes to)) "to_number")) [
            | inl h ↦ rw y (rw z (rw h (omega arith)))
            | inr h ↦ rw y (rw z (rw h (put_amount-counted _ _ sheet lt to (i + 1) s)))
          ]
        ]
      ]

  parse_rows-counted :
      (sheet : String) (cols : ColMap) (i : ℕ) (aoa : List (List (Cell n))) (s : Parsing n)
      → let t = parse_rows n sheet cols i aoa s in
        t.rows_parsed + t.rows_error
        ≡ s.rows_parsed + s.rows_error + length (filter (is_data cols) aoa)
  unfolding parse_rows
  parse_rows-counted sheet cols i [] s = omega arith
  parse_rows-counted sheet cols i (row ∷ aoa) s =
      let first = parse_row-counted sheet cols i row s in
      let rest = parse_rows-counted sheet cols (i + 1) aoa (parse_row n sheet cols i row s) in
      elim (Bool-cases (is_data cols row)) [
        | inl y ↦ let first' = (rw y at first) in rw y (omega (arith, first', rest))
        | inr f ↦ let first' = (rw f at first) in rw f (omega (arith, first', rest))
      ]

  parse_found-counted :
      (name : String) (o : Option (ℕ × ColMap × List (List (Cell n)))) (s : Parsing n)
      → let x = (parse_found n name o s).1 in x.rows_parsed + x.rows_error ≡ data_below o
  parse_found-counted name none s = refl
  parse_found-counted name (some (i, cols, below)) s =
      let h =
        parse_rows-counted name cols (i + 1) below (record s { rows_parsed = 0; rows_error = 0 }) in
      omega (arith, h)

  parse_sheets-counted :
      (sheets : Sheets n) (s : Parsing n)
      → let l = (parse_sheets n sheets s).1 in
        total (λ x. x.rows_parsed) l + total (λ x. x.rows_error) l ≡ data_rows sheets
  unfolding parse_sheets parse_sheet
  parse_sheets-counted [] s = refl
  parse_sheets-counted ((name, none) ∷ sheets) s = parse_sheets-counted sheets s
  parse_sheets-counted ((name, some aoa) ∷ sheets) s =
      let first = parse_found-counted name (find_header n aoa) s in
      let rest = parse_sheets-counted sheets (parse_sheet n name aoa s).0 in
      omega (arith, first, rest)

  length-map : {A B : Type 0} (f : A → B) (l : List A) → length (map f l) ≡ length l
  length-map f [] = refl
  length-map f (a ∷ l) = omega (arith, length-map f l)

  -- Of the sheets in which a header is found, every row below the header that has both keys and does
  -- not repeat the header is counted once, as parsed or as an error, and no other row is. The rows that
  -- the sheets report as parsed are the rows of the result and the duplicates that they replaced, and
  -- the errors that the sheets report are as many as those listed.
  pub counts_add_up :
      (sheets : Sheets n)
      → let r = parse_settlement_workbook n sheets in
        (total (λ x. x.rows_parsed) r.sheet_summary + total (λ x. x.rows_error) r.sheet_summary
          ≡ data_rows sheets)
        × (total (λ x. x.rows_parsed) r.sheet_summary ≡ length r.rows + r.duplicate_count)
        × (total (λ x. x.rows_error) r.sheet_summary ≡ length r.errors)
  unfolding parse_settlement_workbook
  counts_add_up sheets =
      let done = (parse_sheets n sheets (nothing_parsed n)).0 in
      let (parsed, failed) = parse_sheets-counts sheets (nothing_parsed n) in
      let rows = length-map (λ (e : String × ParsedSettlementRow n). e.1) done.by_key in
      (
        parse_sheets-counted sheets (nothing_parsed n),
        omega (arith, parsed, rows),
        omega (arith, failed),
      )
