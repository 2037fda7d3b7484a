-- ===== src/Prelude/Texts.antt =====
-- Texts: JavaScript's `===`, truthiness and `trim` on strings.
use Prim.Native.Nat.{ℕ, ◌+◌}
use Prim.Native.Char.{code}
use Prim.Native.String
use Prim.Native.String.{String}
use mathlib.Core.Path.{◌≡◌}
use mathlib.Core.Bool.{Bool, true, false, not, ◌&&◌, ◌||◌}
use mathlib.Core.Option.{Option, none, some}
use mathlib.Core.List.{List, [], ◌∷◌}
use text.Mathlib.Text
use text.Mathlib.TextPositions.{eq_refl}
use shipment_tracking_system.Prelude.Tests.{leb, ltb, ◌==◌, if◌then◌else◌}

-- `===` on strings.
abbrev pub str_eq : String → String → Bool
str_eq s t = Text.◌==◌ s t

pub str_eq_refl : (s : String) → str_eq s s ≡ true
str_eq_refl s = eq_refl s

-- The code points of a text.
abbrev pub codes : String → List ℕ
codes String.[] = []
codes (String.◌∷◌ c s) = code c ∷ codes s

-- `Buffer.byteLength(s, 'utf8')`
abbrev utf8_length : ℕ → ℕ
utf8_length c = if ltb c 0x80 then 1 else if ltb c 0x800 then 2 else if ltb c 0x10000 then 3 else 4

abbrev pub byte_length : String → ℕ
byte_length String.[] = 0
byte_length (String.◌∷◌ c s) = utf8_length (code c) + byte_length s

-- `if (s)`: every string but the empty one is truthy.
abbrev pub is_truthy : String → Bool
is_truthy String.[] = false
is_truthy (String.◌∷◌ c s) = true

-- The white space that `String.prototype.trim` removes.
unfoldable pub is_space : ℕ → Bool
is_space c =
    (leb 9 c && leb c 13)
    || c == 32
    || c == 160
    || c == 0x1680
    || (leb 0x2000 c && leb c 0x200a)
    || c == 0x2028
    || c == 0x2029
    || c == 0x202f
    || c == 0x205f
    || c == 0x3000
    || c == 0xfeff

trim_start : String → String
trim_start String.[] = String.[]
trim_start (String.◌∷◌ c s) = if is_space (code c) then trim_start s else String.◌∷◌ c s

-- A text without the white space at its end: a space is kept only before something kept.
trim_end : String → String
trim_end String.[] = String.[]
trim_end (String.◌∷◌ c s) =
    let rest = trim_end s in
    if is_space (code c) && not (is_truthy rest) then String.[] else String.◌∷◌ c rest

unfoldable pub trim : String → String
unfolding trim_start trim_end is_space
trim s = trim_end (trim_start s)

-- `normalizeDescription` and `blankToNull`, which several services repeat, fold blank text into null.
abbrev pub blank_to_null : Option String → Option String
blank_to_null none = none
blank_to_null (some s) = let t = trim s in if str_eq t "" then none else some t

-- `${s}` of a string that may be undefined.
abbrev pub interpolate : Option String → String
interpolate none = "undefined"
interpolate (some s) = s

-- `${a} ${b}`
abbrev pub join_words : String → String → String
join_words a b = String.◌++◌ a (String.◌++◌ " " b)

-- `if (x)` for a string that may be undefined.
abbrev pub is_given : Option String → Bool
is_given none = false
is_given (some s) = is_truthy s
