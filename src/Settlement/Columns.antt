-- ===== src/Settlement/Columns.antt =====
-- `settlement-parser.ts`: the cells of an invoice workbook, and the columns that its headers name.
use Prim.Native.Char.{code}
use shipment_tracking_system.Prelude.{
  ℕ, zero, suc, ◌+◌, String, Bool, true, false, not, ◌&&◌, ◌||◌, Option, none, some, List, [], ◌∷◌,
  ◌==◌, if◌then◌else◌, trim, is_truthy, codes, is_some,
}
use shipment_tracking_system.Sheets.{Header, normalize_header, same_header}

-- The numbers of JavaScript, as far as the parser reads them: `String(n)`, `Number(s)` where NaN is
-- `none`, `Number.isFinite` and the sum.
pub record Numbers : Type 1 where
  pub Number : Type 0
  pub zero : Number
  pub plus : Number → Number → Number
  pub to_text : Number → String
  pub of_text : String → Option Number
  pub is_finite : Number → Bool

-- `text.replace(/[, ]/g, '')`
abbrev remove_separators : String → String
remove_separators String.[] = String.[]
remove_separators (String.◌∷◌ c s) =
    let rest = remove_separators s in
    if code c == 44 || code c == 32 then rest else String.◌∷◌ c rest

-- `text.replace(/%$/, '')`
abbrev drop_percent : String → String
drop_percent String.[] = String.[]
drop_percent (String.◌∷◌ c s) =
    let rest = String.◌∷◌ c (drop_percent s) in
    if code c == 37 && not (is_truthy s) then String.[] else rest

abbrev pub starts_with : Header → Header → Bool
starts_with s [] = true
starts_with [] (b ∷ t) = false
starts_with (a ∷ s) (b ∷ t) = a == b && starts_with s t

-- A column that has been found, none for -1, and the columns of a detail sheet.
pub record Found : Type 0 where
  pub lt : Option ℕ
  pub to : Option ℕ
  pub amount : Option ℕ
  pub packing : Option ℕ

pub record ColMap : Type 0 where
  pub lt : ℕ
  pub to : ℕ
  pub amount : ℕ
  pub packing : Option ℕ

abbrev header_scan_rows : ℕ
header_scan_rows = 15

abbrev pub reads : Header → String → Bool
reads norm name = same_header norm (codes name)

-- One header cell, by its normalized name.
abbrev note_header : ℕ → Header → Found → Found
note_header c norm f =
    if reads norm "lt_number"
    then record f { lt = some c }
    else if reads norm "to_number"
    then record f { to = some c }
    else if reads norm "amount"
    then record f { amount = some c }
    else if not (is_some f.packing) && starts_with norm (codes "packing_kayu")
    then record f { packing = some c }
    else f

abbrev complete : Found → Option ColMap
complete f = elim f.lt [
  | none ↦ none
  | some lt ↦ elim f.to [
    | none ↦ none
    | some to ↦ elim f.amount [
      | none ↦ none
      | some amount ↦ some (record { lt = lt; to = to; amount = amount; packing = f.packing })
    ]
  ]
]

module _ (n : Numbers) where
  -- A cell as xlsx reads it, where a blank cell is null.
  pub data Cell : Type 0 where
    null : Cell
    text : String → Cell
    number : n.Number → Cell
    bool : Bool → Cell

  abbrev cell_text : Cell → String
  cell_text null = "null"
  cell_text (text s) = s
  cell_text (number x) = n.to_text x
  cell_text (bool true) = "true"
  cell_text (bool false) = "false"

  abbrev pub as_key : Cell → String
  as_key null = ""
  as_key (text s) = trim s
  as_key (number x) = trim (n.to_text x)
  as_key (bool b) = trim (cell_text (bool b))

  -- The number that a text stands for, without separators and a percent sign at its end.
  abbrev number_of : String → Option n.Number
  number_of s =
      let bare = drop_percent (remove_separators (trim s)) in
      if is_truthy bare then n.of_text bare else none

  abbrev pub as_number : Cell → Option n.Number
  as_number null = none
  as_number (text s) = if is_truthy s then number_of s else none
  as_number (number x) = if n.is_finite x then some x else none
  as_number (bool b) = number_of (cell_text (bool b))

  -- `row[c]`, where a missing cell is undefined, which is read as null is.
  abbrev pub at : ℕ → List Cell → Cell
  at c [] = null
  at zero (x ∷ xs) = x
  at (suc c) (x ∷ xs) = at c xs

  abbrev is_null : Cell → Bool
  is_null null = true
  is_null _ = false

  abbrev scan_cells : ℕ → List Cell → Found → Found
  scan_cells c [] f = f
  scan_cells c (x ∷ xs) f =
      scan_cells (c + 1) xs
        (if is_null x then f else note_header c (normalize_header (codes (cell_text x))) f)

  abbrev not_found : Found
  not_found = record { lt = none; to = none; amount = none; packing = none }

  -- The loop of `findHeader`, over at most `left` rows: the columns, and the rows below the header.
  abbrev scan_rows : ℕ → ℕ → List (List Cell) → Option (ℕ × ColMap × List (List Cell))
  scan_rows zero i aoa = none
  scan_rows (suc left) i [] = none
  scan_rows (suc left) i (row ∷ aoa) =
      let rest = scan_rows left (i + 1) aoa in
      elim (complete (scan_cells 0 row not_found)) [ some cols ↦ some (i, cols, aoa) | none ↦ rest ]

  unfoldable pub find_header : List (List Cell) → Option (ℕ × ColMap × List (List Cell))
  find_header aoa = scan_rows header_scan_rows 0 aoa
