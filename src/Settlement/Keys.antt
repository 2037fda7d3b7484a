-- ===== src/Settlement/Keys.antt =====
-- The keys under which settlement-parser.ts keeps the rows of a workbook.
use shipment_tracking_system.Prelude.{
  ℕ, ◌+◌, String, not, ◌||◌, Option, none, some, List, [], ◌∷◌, map, ◌≡◌, ◌≢◌, inl, inr, refl, sym,
  ◌∙◌, Bool-cases, All, IsUnique, set, is_truthy, str_eq, eq_iff, codes,
}
use shipment_tracking_system.Sheets.{normalize_header}
use shipment_tracking_system.Settlement.Columns.{
  Numbers, Cell, ColMap, reads, as_key, at, find_header,
}
use shipment_tracking_system.Settlement.Parser.{
  ParsedSettlementRow, Parsing, key_of, put_amount, parse_row, parse_rows, Sheets, parse_sheet,
  parse_found, parse_sheets, parse_settlement_workbook, nothing_parsed,
}
use shipment_tracking_system.Settlement.Service.{row_key}

module _ {A : Type 0} where
  All-set :
      (P : String × A → Type 0) (k : String) (a : A) (m : List (String × A))
      → P (k, a)
      → All P m
      → All P (set str_eq k a m)
  All-set P k a [] p h = (p, tt)
  All-set P k a ((j, b) ∷ m) p h = elim (Bool-cases (str_eq j k)) [
    | inl y ↦ let same = (eq_iff j k).0 y in rw y (rw same p, h.1)
    | inr f ↦ rw f (h.0, All-set P k a m p h.1)
  ]

  -- A set key stays the only one.
  IsUnique-set :
      (k : String) (a : A) (m : List (String × A))
      → IsUnique (λ e. e.0) m
      → IsUnique (λ e. e.0) (set str_eq k a m)
  IsUnique-set k a [] u = (tt, tt)
  IsUnique-set k a ((j, b) ∷ m) u = elim (Bool-cases (str_eq j k)) [
    | inl y ↦ rw y u
    | inr f ↦
        let ne : k ≢ j = λ e. let q = (eq_iff j k).1 (sym e) in absurd (cc) in
        rw f (All-set (λ e. e.0 ≢ j) k a m ne u.0, IsUnique-set k a m u.1)
  ]

module _ (n : Numbers) where
  -- No key twice, and each row under its own.
  abbrev IsKeyed : Parsing n → Type 0
  IsKeyed st = IsUnique (λ e. e.0) st.by_key × All (λ e. e.0 ≡ row_key n e.1) st.by_key

  put_amount-IsKeyed :
      (a : Option n.Number) (packing : n.Number) (sheet lt to : String) (i : ℕ) (s : Parsing n)
      → IsKeyed s
      → IsKeyed (put_amount n a packing sheet lt to i s)
  put_amount-IsKeyed none packing sheet lt to i s h = h
  put_amount-IsKeyed (some a) packing sheet lt to i s h =
      let row : ParsedSettlementRow n = record {
        lt_number = lt;
        to_number = to;
        actual_revenue = n.plus a packing;
        sheet = sheet;
        row_number = i;
      } in
      (
        IsUnique-set (key_of lt to) row s.by_key h.0,
        All-set (λ e. e.0 ≡ row_key n e.1) (key_of lt to) row s.by_key refl h.1,
      )

  parse_row-IsKeyed :
      (sheet : String) (cols : ColMap) (i : ℕ) (row : List (Cell n)) (s : Parsing n)
      → IsKeyed s
      → IsKeyed (parse_row n sheet cols i row s)
  unfolding parse_row
  parse_row-IsKeyed sheet cols i row s h =
      let lt = as_key n (at n cols.lt row) in
      let to = as_key n (at n cols.to row) in
      elim (Bool-cases (not (is_truthy lt) || not (is_truthy to))) [
        | inl y ↦ rw y h
        | inr f ↦ elim (Bool-cases (reads (normalize_header (codes to)) "to_number")) [
          | inl y ↦ rw f (rw y h)
          | inr g ↦ rw f (rw g (put_amount-IsKeyed _ _ sheet lt to (i + 1) s h))
        ]
      ]

  parse_rows-IsKeyed :
      (sheet : String) (cols : ColMap) (i : ℕ) (aoa : List (List (Cell n))) (s : Parsing n)
      → IsKeyed s
      → IsKeyed (parse_rows n sheet cols i aoa s)
  unfolding parse_rows
  parse_rows-IsKeyed sheet cols i [] s h = h
  parse_rows-IsKeyed sheet cols i (row ∷ aoa) s h =
      parse_rows-IsKeyed sheet cols (i + 1) aoa (parse_row n sheet cols i row s)
        (parse_row-IsKeyed sheet cols i row s h)

  parse_found-IsKeyed :
      (name : String) (o : Option (ℕ × ColMap × List (List (Cell n)))) (s : Parsing n)
      → IsKeyed s
      → IsKeyed (parse_found n name o s).0
  parse_found-IsKeyed name none s h = h
  parse_found-IsKeyed name (some (i, cols, below)) s h =
      parse_rows-IsKeyed name cols (i + 1) below _ h

  parse_sheets-IsKeyed :
      (sheets : Sheets n) (s : Parsing n) → IsKeyed s → IsKeyed (parse_sheets n sheets s).0
  unfolding parse_sheets parse_sheet
  parse_sheets-IsKeyed [] s h = h
  parse_sheets-IsKeyed ((name, none) ∷ sheets) s h = parse_sheets-IsKeyed sheets s h
  parse_sheets-IsKeyed ((name, some aoa) ∷ sheets) s h =
      parse_sheets-IsKeyed sheets (parse_sheet n name aoa s).0
        (parse_found-IsKeyed name (find_header n aoa) s h)

  rows-IsUnique :
      (m : List (String × ParsedSettlementRow n))
      → IsUnique (λ e. e.0) m
      → All (λ e. e.0 ≡ row_key n e.1) m
      → IsUnique (row_key n) (map (λ e. e.1) m)
  rows-IsUnique [] u h = tt
  rows-IsUnique (e ∷ m) u h = (others m u.0 h.1, rows-IsUnique m u.1 h.1)
    where
      others :
          (l : List (String × ParsedSettlementRow n))
          → All (λ x. x.0 ≢ e.0) l
          → All (λ x. x.0 ≡ row_key n x.1) l
          → All (λ r. row_key n r ≢ row_key n e.1) (map (λ x. x.1) l)
      others [] a b = tt
      others (x ∷ l) a b = ((λ q. a.0 (b.0 ∙ q ∙ sym h.0)), others l a.1 b.1)

  -- No two rows of a parsed workbook have the same key.
  pub parsed-IsUnique :
      (sheets : Sheets n) → IsUnique (row_key n) (parse_settlement_workbook n sheets).rows
  unfolding parse_settlement_workbook
  parsed-IsUnique sheets =
      let (u, h) = parse_sheets-IsKeyed sheets (nothing_parsed n) (tt, tt) in
      rows-IsUnique (parse_sheets n sheets (nothing_parsed n)).0.by_key u h
