-- ===== src/Alerts/Fields.antt =====
-- The fields of a shipment row in alert-evaluator.ts: lookup, dates and durations. A number is a count
-- of thousandths, a time is in milliseconds. Negative numbers, times before 1970, infinities and finer
-- fractions are not represented.
use Prim.Native.Char.{Char, code}
use shipment_tracking_system.Prelude.{
  ℕ, ◌+◌, ◌*◌, String, Bool, true, false, not, ◌&&◌, Option, none, some, List, [], ◌∷◌, ◌==◌, leb,
  str_eq, any, codes, is_truthy, trim, if◌then◌else◌,
}

-- The values that sheet rows hold.
pub data Value : Type 0 where
  undefined null : Value
  text : String → Value
  number : ℕ → Value
  bool : Bool → Value

-- The own properties of the row, and those of its `extra_fields`.
pub record Row : Type 0 where
  pub fields : List (String × Value)
  pub extra_fields : List (String × Value)

-- What the JavaScript engine makes of a text, in the server's time zone: `new Date(s).getTime()`,
-- `Number(s)` and `parseFloat(s)`, `none` for NaN.
pub record Engine : Type 0 where
  pub date : String → Option ℕ
  pub number : String → Option ℕ
  pub parse_float : String → Option ℕ

-- `isEmptyValue`
abbrev pub is_empty_value : Value → Bool
is_empty_value undefined = true
is_empty_value null = true
is_empty_value (text s) = not (is_truthy (trim s))
is_empty_value (number n) = false
is_empty_value (bool b) = false

abbrev pub lookup : String → List (String × Value) → Option Value
lookup key [] = none
lookup key ((k, v) ∷ fs) = if str_eq k key then some v else lookup key fs

-- `getFieldValue`
unfoldable pub get_field_value : Row → String → Value
get_field_value row key = elim (lookup key row.fields) [
  | some v ↦ v
  | none ↦ elim (lookup key row.extra_fields) [ some v ↦ v | none ↦ undefined ]
]

-- A character before the first part.
abbrev push : Char → List String → List String
push c [] = (String.◌∷◌ c String.[]) ∷ []
push c (w ∷ ws) = (String.◌∷◌ c w) ∷ ws

-- `s.split(':')`
abbrev split_colon : String → List String
split_colon String.[] = "" ∷ []
split_colon (String.◌∷◌ c s) =
    let rest = split_colon s in if code c == 58 then "" ∷ rest else push c rest

-- Hours, minutes and seconds in thousandths, as milliseconds.
abbrev hms : Option ℕ → Option ℕ → Option ℕ → Option ℕ
hms (some h) (some m) (some s) = some (h * 3600 + m * 60 + s)
hms _ _ _ = none

-- `parseDuration`: a missing part is NaN, parts after the third are ignored.
abbrev pub parse_duration : Engine → List String → Option ℕ
parse_duration e (h ∷ m ∷ s ∷ rest) = hms (e.number h) (e.number m) (e.number s)
parse_duration e _ = none

-- `parseDurationSafe`: HH:MM:SS, or hours.
unfoldable pub parse_duration_safe : Engine → Value → Option ℕ
parse_duration_safe e (text s) =
    if not (is_truthy (trim s))
    then none
    else if any (λ c. c == 58) (codes s)
    then parse_duration e (split_colon s)
    else elim (e.parse_float s) [ none ↦ none | some h ↦ some (h * 3600) ]
parse_duration_safe e (number h) = some (h * 3600)
parse_duration_safe e _ = none

-- `parseDate`
unfoldable pub parse_date : Engine → Value → Option ℕ
parse_date e (text s) = if is_truthy (trim s) then e.date s else none
parse_date e _ = none

-- `toLowerCase` of one code point, as far as it makes a letter of ASCII.
abbrev lower : ℕ → ℕ
lower c = if leb 65 c && leb c 90 then c + 32 else c

abbrev same_codes : List ℕ → List ℕ → Bool
same_codes [] [] = true
same_codes (a ∷ rest) (b ∷ word) = lower a == b && same_codes rest word
same_codes _ _ = false

-- `s.trim().toLowerCase() === word`, for a word of small letters of ASCII other than k.
unfoldable pub reads_as : String → String → Bool
reads_as s word = same_codes (codes (trim s)) (codes word)
