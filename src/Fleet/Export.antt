-- ===== src/Fleet/Export.antt =====
-- What a reader of comma-separated values makes of the export of fleet-csv.ts.
use Prim.Native.String
use Prim.Native.Char.{code}
use text.Mathlib.TextLemmas.{nil-append, cons-append}
use mathlib.Core.Path.{ap₂}
use shipment_tracking_system.Prelude.{
  String, some, List, [], ◌∷◌, ◌++◌, map, ◌==◌, if◌then◌else◌, any, codes, All, length, ◌+◌, ◌≡◌,
  inl, inr, refl, sym, ap, ◌∙◌, arith, Bool-cases,
}
use shipment_tracking_system.Fleet.Csv.{
  FleetVehicleView, NumberText, is_special, doubled, escape, join_with, table, to_csv, line_of,
  header_of, document_columns, expiry_cell, by_code, cell_text, base_columns, trailing_columns,
}
use shipment_tracking_system.Fleet.CsvReader.{
  Text, read_csv, doubled_codes, escape_codes, join_codes, line_codes, lines_codes, HasField,
  read_csv-lines,
}

codes-append : (s t : String) → codes (String.◌++◌ s t) ≡ codes s ++ codes t
codes-append String.[] t = rw (nil-append t) refl
codes-append (String.◌∷◌ c s) t = rw (cons-append c s t) (ap (λ l. code c ∷ l) (codes-append s t))

codes-doubled : (s : String) → codes (doubled s) ≡ doubled_codes (codes s)
unfolding doubled
codes-doubled String.[] = refl
codes-doubled (String.◌∷◌ c s) = elim (Bool-cases (code c == 34)) [
  | inl y ↦ rw y (ap (λ l. code c ∷ code c ∷ l) (codes-doubled s))
  | inr n ↦ rw n (ap (λ l. code c ∷ l) (codes-doubled s))
]

codes-escape : (s : String) → codes (escape s) ≡ escape_codes (codes s)
unfolding escape
codes-escape s = elim (Bool-cases (any is_special (codes s))) [
  | inl y ↦ rw y (
      codes-append "\"" (String.◌++◌ (doubled s) "\"")
      ∙ ap (λ l. 34 ∷ l) (codes-append (doubled s) "\"" ∙ ap (λ l. l ++ 34 ∷ []) (codes-doubled s)))
  | inr n ↦ rw n refl
]

codes-join_with :
    (separator : String) (l : List String)
    → codes (join_with separator l) ≡ join_codes (codes separator) (map codes l)
unfolding join_with
codes-join_with separator [] = refl
codes-join_with separator (s ∷ []) = refl
codes-join_with separator (s ∷ t ∷ l) =
    codes-append s (String.◌++◌ separator (join_with separator (t ∷ l)))
    ∙ ap (λ x. codes s ++ x)
        (codes-append separator (join_with separator (t ∷ l))
          ∙ ap (λ x. codes separator ++ x) (codes-join_with separator (t ∷ l)))

-- The lines as they are written, on code points.
codes-lines :
    (ls : List (List String))
    → map codes (map (λ l. join_with "," (map escape l)) ls) ≡ map line_codes (map (map codes) ls)
codes-lines [] = refl
codes-lines (l ∷ ls) = ap₂ (λ x y. x ∷ y) (line l) (codes-lines ls)
  where
    fields : (l : List String) → map codes (map escape l) ≡ map escape_codes (map codes l)
    fields [] = refl
    fields (s ∷ l) = ap₂ (λ x y. x ∷ y) (codes-escape s) (fields l)

    line : (l : List String) → codes (join_with "," (map escape l)) ≡ line_codes (map codes l)
    line l = codes-join_with "," (map escape l) ∙ ap (join_codes (44 ∷ [])) (fields l)

-- A byte order mark at the start is no part of the text.
abbrev pub drop_bom : Text → Text
drop_bom [] = []
drop_bom (c ∷ s) = if c == 0xFEFF then s else c ∷ s

length-map : {A B : Type 0} (f : A → B) (l : List A) → length (map f l) ≡ length l
length-map f [] = refl
length-map f (a ∷ l) = omega (arith, length-map f l)

length-append : {A : Type 0} (l m : List A) → length (l ++ m) ≡ length l + length m
length-append [] m = omega arith
length-append (a ∷ l) m = omega (arith, length-append l m)

-- Three parts of the headings and of a line have the same lengths.
length-parts :
    {X D C B : Type 0} (f : C → B) (g : X → C) (h : D → C) (g' : X → B) (h' : D → B)
    (front back : List X) (middle : List D)
    → length (map f (map g front ++ map h middle ++ map g back))
      ≡ length (map g' front ++ map h' middle ++ map g' back)
length-parts f g h g' h' front back middle =
    length-map f (map g front ++ map h middle ++ map g back)
    ∙ parts (map g front) (map h middle) (map g back)
    ∙ omega (
      arith,
      length-map g front,
      length-map h middle,
      length-map g back,
      length-map g' front,
      length-map h' middle,
      length-map g' back,
    )
    ∙ sym (parts (map g' front) (map h' middle) (map g' back))
  where
    parts : {A : Type 0} (a b c : List A) → length (a ++ b ++ c) ≡ length a + length b + length c
    parts a b c = omega (arith, length-append (a ++ b) c, length-append a b)

module _ (n : NumberText) where
  -- Every vehicle has a cell under every heading.
  length-line_of :
      (doc_cols : List (String × String)) (v : FleetVehicleView)
      → length (line_of n doc_cols v) ≡ length (header_of n doc_cols)
  length-line_of doc_cols v =
      length-parts (cell_text n) (λ c. c.1 v)
        (λ (c : String × String). expiry_cell (by_code v.documents []) c.0) (λ c. c.0)
        (λ (c : String × String). String.◌++◌ c.1 " Berlaku Sampai") base_columns
        (trailing_columns n) doc_cols

  lines-HasField :
      (doc_cols : List (String × String)) (rows : List FleetVehicleView)
      → All HasField (map (map codes) (map (line_of n doc_cols) rows))
  lines-HasField doc_cols [] = tt
  lines-HasField doc_cols (v ∷ rows) = (tt, lines-HasField doc_cols rows)

  table-rows :
      (doc_cols : List (String × String)) (rows : List FleetVehicleView)
      → All (λ l. length l ≡ length (header_of n doc_cols)) (map (line_of n doc_cols) rows)
  table-rows doc_cols [] = tt
  table-rows doc_cols (v ∷ rows) = (length-line_of doc_cols v, table-rows doc_cols rows)

-- What a reader of RFC 4180 finds in the export, after the byte order mark: the headings and then every
-- vehicle's cells, as they were before they were escaped, whatever characters are in them; and every
-- vehicle has as many cells as there are headings.
pub to_csv_reads_back :
    (n : NumberText) (rows : List FleetVehicleView)
    → (read_csv (drop_bom (codes (to_csv n rows))) ≡ some (map (map codes) (table n rows)))
      × All
          (λ l. length l ≡ length (header_of n (document_columns rows)))
          (map (line_of n (document_columns rows)) rows)
unfolding to_csv
to_csv_reads_back n rows =
    let doc_cols = document_columns rows in
    let body = join_with "\r\n" (map (λ l. join_with "," (map escape l)) (table n rows)) in
    let written : codes (String.◌++◌ "\u{feff}" body)
        ≡ 0xFEFF ∷ lines_codes (map (map codes) (table n rows)) =
      codes-append "\u{feff}" body
      ∙ ap (λ l. 0xFEFF ∷ l)
          (codes-join_with "\r\n" _
            ∙ ap (join_codes (13 ∷ 10 ∷ [])) (codes-lines (table n rows))) in
    (
      ap (λ l. read_csv (drop_bom l)) written
          ∙ read_csv-lines (map codes (header_of n doc_cols))
              (map (map codes) (map (line_of n doc_cols) rows)) tt (lines-HasField n doc_cols rows),
      table-rows n doc_cols rows,
    )
