-- ===== src/Fleet/CsvReader.antt =====
-- A reader of comma-separated values after RFC 4180, on code points.
use mathlib.Core.List.{append_assoc, append-nil}
use shipment_tracking_system.Prelude.{
  ℕ, false, Option, none, some, List, [], ◌∷◌, ◌++◌, map, ◌==◌, if◌then◌else◌, any, All, ◌≡◌, inl,
  inr, refl, sym, ap, ◌∙◌, arith, Bool-cases,
}
use shipment_tracking_system.Fleet.Csv.{is_special}

abbrev pub Text : Type 0
Text = List ℕ

-- The characters that RFC 4180 tells apart.
data Kind : Type 0 where
  quote comma cr lf other : Kind

kind : ℕ → Kind
kind c =
    if c == 34
    then quote
    else if c == 44
    then comma
    else if c == 13
    then cr
    else if c == 10
    then lf
    else other

-- At the start of a field, inside one, inside quotes, after a quote in quotes, after a CR.
pub data Mode : Type 0 where
  start plain quoted quote_seen after_cr : Mode

abbrev pub Records : Type 0
Records = Option (List (List Text))

-- A character before the first field, an empty field and an empty record before what follows.
abbrev with_char : ℕ → Records → Records
with_char c (some ((f ∷ fs) ∷ rs)) = some (((c ∷ f) ∷ fs) ∷ rs)
with_char c _ = none

abbrev new_field : Records → Records
new_field (some (fs ∷ rs)) = some (([] ∷ fs) ∷ rs)
new_field _ = none

abbrev new_record : Records → Records
new_record (some rs) = some (([] ∷ []) ∷ rs)
new_record none = none

step : Mode → ℕ → Kind → (Mode → Records) → Records
step quoted c quote k = k quote_seen
step quoted c _ k = with_char c (k quoted)
step quote_seen c quote k = with_char c (k quoted)
step start c quote k = k quoted
step after_cr c lf k = new_record (k start)
step after_cr c _ k = none
step _ c comma k = new_field (k start)
step _ c cr k = k after_cr
step start c other k = with_char c (k plain)
step plain c other k = with_char c (k plain)
step _ c _ k = none

read_end : Mode → Records
read_end quoted = none
read_end after_cr = none
read_end _ = some (([] ∷ []) ∷ [])

pub read : Mode → Text → Records
unfolding step read_end kind
read m [] = read_end m
read m (c ∷ s) = step m c (kind c) (λ m'. read m' s)

-- The records of a text: fields between commas, a field in quotes with its quotes doubled, and records
-- between line breaks. `none` is a text that breaks the grammar.
pub read_csv : Text → Option (List (List Text))
unfolding read
read_csv s = read start s

-- What `escape` and `join` write, on code points.
abbrev pub doubled_codes : Text → Text
doubled_codes [] = []
doubled_codes (c ∷ s) = let rest = c ∷ doubled_codes s in if c == 34 then c ∷ rest else rest

abbrev pub escape_codes : Text → Text
escape_codes s = if any is_special s then 34 ∷ doubled_codes s ++ 34 ∷ [] else s

abbrev pub join_codes : Text → List Text → Text
join_codes separator [] = []
join_codes separator (s ∷ []) = s
join_codes separator (s ∷ t ∷ l) = s ++ (separator ++ join_codes separator (t ∷ l))

abbrev pub line_codes : List Text → Text
line_codes fs = join_codes (44 ∷ []) (map escape_codes fs)

-- A text before the first field of what follows.
abbrev pub with_text : Text → Records → Records
with_text f (some ((g ∷ fs) ∷ rs)) = some (((f ++ g) ∷ fs) ∷ rs)
with_text f _ = none

with_text-cons :
    (c : ℕ) (f : Text) (r : Records) → with_char c (with_text f r) ≡ with_text (c ∷ f) r
with_text-cons c f none = refl
with_text-cons c f (some []) = refl
with_text-cons c f (some ([] ∷ rs)) = refl
with_text-cons c f (some ((g ∷ fs) ∷ rs)) = refl

with_text-nil :
    (r : Records) (g : Text) (fs : List Text) (rs : List (List Text))
    → r ≡ some ((g ∷ fs) ∷ rs)
    → with_text [] r ≡ r
with_text-nil r g fs rs e = rw e refl

-- Where a field ends, and what is read from there.
pub data EndsField : Text → Type 0 where
  finished : EndsField []
  at_comma : (s : Text) → EndsField (44 ∷ s)
  at_line : (s : Text) → EndsField (13 ∷ 10 ∷ s)

end_anywhere :
    (t : Text) → EndsField t → (read start t ≡ read plain t) × (read quote_seen t ≡ read plain t)
unfolding read step kind
end_anywhere _ finished = (refl, refl)
end_anywhere _ (at_comma s) = (refl, refl)
end_anywhere _ (at_line s) = (refl, refl)

step-quoted :
    (c : ℕ)
    → (c == 34) ≡ false
    → (k : Mode → Records) → step quoted c (kind c) k ≡ with_char c (k quoted)
unfolding step kind
step-quoted c n k = ground (arith, n)

kind-plain : (c : ℕ) → is_special c ≡ false → kind c ≡ other
unfolding kind
kind-plain c n = ground (arith, n)

-- Doubled quotes are read back in quotes.
read-doubled :
    (s t : Text)
    → with_text [] (read quote_seen t) ≡ read quote_seen t
    → read quoted (doubled_codes s ++ 34 ∷ t) ≡ with_text s (read quote_seen t)
unfolding read step kind
read-doubled [] t e = sym e
read-doubled (c ∷ s) t e = elim (Bool-cases (c == 34)) [
  | inl y ↦ rw y (rw y (rw (read-doubled s t e) (with_text-cons c s _)))
  | inr n ↦ rw n (step-quoted c n _ ∙ ap (with_char c) (read-doubled s t e) ∙ with_text-cons c s _)
]

-- A text without special characters is read back, inside a field and at the start of one.
read-plain :
    (s t : Text)
    → any is_special s ≡ false
    → with_text [] (read plain t) ≡ read plain t
    → read plain (s ++ t) ≡ with_text s (read plain t)
unfolding read step
read-plain [] t n e = sym e
read-plain (c ∷ s) t n e =
    let here : is_special c ≡ false = ground (arith, n) in
    let rest : any is_special s ≡ false = ground (arith, n) in
    rw (kind-plain c here) (rw (read-plain s t rest e) (with_text-cons c s _))

read-start :
    (s t : Text)
    → any is_special s ≡ false
    → EndsField t
    → with_text [] (read plain t) ≡ read plain t
    → read start (s ++ t) ≡ with_text s (read plain t)
unfolding read step
read-start [] t n d e = (end_anywhere t d).0 ∙ sym e
read-start (c ∷ s) t n d e =
    let here : is_special c ≡ false = ground (arith, n) in
    let rest : any is_special s ≡ false = ground (arith, n) in
    rw (kind-plain c here) (rw (read-plain s t rest e) (with_text-cons c s _))

-- One escaped field.
pub read-escape :
    (s t : Text)
    → EndsField t
    → with_text [] (read plain t) ≡ read plain t
    → read start (escape_codes s ++ t) ≡ with_text s (read plain t)
unfolding read step kind
read-escape s t d e = elim (Bool-cases (any is_special s)) [
  | inr n ↦ rw n (read-start s t n d e)
  | inl y ↦
      let seen : read quote_seen t ≡ read plain t = (end_anywhere t d).1 in
      let e' : with_text [] (read quote_seen t) ≡ read quote_seen t = rw seen e in
      rw y (
        rw (append_assoc (doubled_codes s) (34 ∷ []) t)
          (read-doubled s t e' ∙ ap (with_text s) seen))
]

crlf-append : (x : Text) → (13 ∷ 10 ∷ []) ++ x ≡ 13 ∷ 10 ∷ x
crlf-append x = refl

comma-append : (x t : Text) → ((44 ∷ []) ++ x) ++ t ≡ 44 ∷ (x ++ t)
comma-append x t = refl

line_codes-cons :
    (f g : Text) (fs : List Text) (t : Text)
    → line_codes (f ∷ g ∷ fs) ++ t ≡ escape_codes f ++ 44 ∷ (line_codes (g ∷ fs) ++ t)
line_codes-cons f g fs t = go (line_codes (g ∷ fs))
  where
    go : (x : Text) → (escape_codes f ++ ((44 ∷ []) ++ x)) ++ t ≡ escape_codes f ++ 44 ∷ (x ++ t)
    go x =
        append_assoc (escape_codes f) ((44 ∷ []) ++ x) t
        ∙ ap (λ z. escape_codes f ++ z) (comma-append x t)

-- One line, whose first field is there, and the lines after it.
read-line :
    (f : Text) (fs : List Text) (t : Text) (rs : List (List Text))
    → EndsField t
    → read plain t ≡ some (([] ∷ []) ∷ rs)
    → read start (line_codes (f ∷ fs) ++ t) ≡ some ((f ∷ fs) ∷ rs)
unfolding read step kind
read-line f [] t rs d e =
    read-escape f t d (rw e refl) ∙ rw e (ap (λ x. some ((x ∷ []) ∷ rs)) (append-nil _))
read-line f (g ∷ fs) t rs d e =
    let s = line_codes (g ∷ fs) ++ t in
    let after : read plain (44 ∷ s) ≡ some (([] ∷ g ∷ fs) ∷ rs) =
      ap new_field (read-line g fs t rs d e) in
    ap (read start) (line_codes-cons f g fs t)
    ∙ read-escape f (44 ∷ s) (at_comma s) (rw after refl)
    ∙ rw after (ap (λ x. some ((x ∷ g ∷ fs) ∷ rs)) (append-nil _))

-- The record has a field.
abbrev pub HasField : {A : Type 0} → List A → Type 0
HasField [] = ⊥
HasField (f ∷ fs) = Unit

abbrev pub lines_codes : List (List Text) → Text
lines_codes rs = join_codes (13 ∷ 10 ∷ []) (map line_codes rs)

-- The first line, and the lines after it.
lines_codes-cons :
    (f r : List Text) (rs : List (List Text))
    → lines_codes (f ∷ r ∷ rs) ≡ line_codes f ++ 13 ∷ 10 ∷ lines_codes (r ∷ rs)
lines_codes-cons f r rs = go (lines_codes (r ∷ rs))
  where
    go : (x : Text) → line_codes f ++ ((13 ∷ 10 ∷ []) ++ x) ≡ line_codes f ++ 13 ∷ 10 ∷ x
    go x = ap (λ z. line_codes f ++ z) (crlf-append x)

read-lines :
    (r : List Text) (rs : List (List Text))
    → HasField r
    → All HasField rs
    → read start (lines_codes (r ∷ rs)) ≡ some (r ∷ rs)
unfolding read step kind read_end
read-lines [] rs h k = absurd h
read-lines (f ∷ fs) [] h k =
    ap (read start) (sym (append-nil (line_codes (f ∷ fs)))) ∙ read-line f fs [] [] finished refl
read-lines (f ∷ fs) (r ∷ rs) h k =
    let s = lines_codes (r ∷ rs) in
    let after : read plain (13 ∷ 10 ∷ s) ≡ some (([] ∷ []) ∷ r ∷ rs) =
      ap new_record (read-lines r rs k.0 k.1) in
    ap (read start) (lines_codes-cons (f ∷ fs) r rs)
    ∙ read-line f fs (13 ∷ 10 ∷ s) (r ∷ rs) (at_line s) after

-- What is written line by line is read back, record by record.
pub read_csv-lines :
    (r : List Text) (rs : List (List Text))
    → HasField r
    → All HasField rs
    → read_csv (lines_codes (r ∷ rs)) ≡ some (r ∷ rs)
unfolding read_csv
read_csv-lines r rs h k = read-lines r rs h k
