-- ===== src/Auth/Expiry.antt =====
-- `parseExpiry` of auth.service.ts and `parseToMs` of auth.controller.ts: a lifetime such as "15m".
use shipment_tracking_system.Prelude.{
  ℕ, ◌+◌, ◌-◌, ◌*◌, Bool, ◌&&◌, Option, none, some, List, [], ◌∷◌, String, codes, leb, ◌==◌,
  if◌then◌else◌, get_or,
}

-- `\d`
abbrev pub is_digit : ℕ → Bool
is_digit c = leb b'0' c && leb c b'9'

-- The `multipliers` of the two functions, on the code of the unit.
abbrev pub multiplier : ℕ → Option ℕ
multiplier u =
    if u == b's'
    then some 1000
    else if u == b'm'
    then some (60 * 1000)
    else if u == b'h'
    then some (60 * 60 * 1000)
    else if u == b'd'
    then some (24 * 60 * 60 * 1000)
    else none

-- The match of `^(\d+)([smhd])$` with the digits read so far as a number: `parseInt` of the first
-- group times the multiplier of the second.
unfoldable pub match_expiry : ℕ → List ℕ → Option ℕ
match_expiry amount [] = none
match_expiry amount (c ∷ []) = elim (multiplier c) [ none ↦ none | some m ↦ some (amount * m) ]
match_expiry amount (c ∷ d ∷ cs) =
    let rest = match_expiry (amount * 10 + (c - b'0')) (d ∷ cs) in if is_digit c then rest else none

-- The first character must be a digit.
unfoldable pub match_start : List ℕ → Option ℕ
match_start [] = none
match_start (c ∷ cs) = if is_digit c then match_expiry (c - b'0') cs else none

-- `parseExpiry`, whose default is seven days.
unfoldable pub parse_expiry : String → ℕ
unfolding match_start match_expiry
parse_expiry value = get_or (match_start (codes value)) (7 * 24 * 60 * 60 * 1000)

-- The `multipliers` of the controller.
abbrev pub multiplier_ms : ℕ → Option ℕ
multiplier_ms u =
    if u == b's'
    then some 1000
    else if u == b'm'
    then some 60_000
    else if u == b'h'
    then some 3_600_000
    else if u == b'd'
    then some 86_400_000
    else none

unfoldable pub match_ms : ℕ → List ℕ → Option ℕ
match_ms amount [] = none
match_ms amount (c ∷ []) = elim (multiplier_ms c) [ none ↦ none | some m ↦ some (amount * m) ]
match_ms amount (c ∷ d ∷ cs) =
    let rest = match_ms (amount * 10 + (c - b'0')) (d ∷ cs) in if is_digit c then rest else none

-- `parseToMs` of the controller, which sets the lifetime of the cookie.
unfoldable pub parse_to_ms : String → ℕ
unfolding match_ms
parse_to_ms value =
    get_or
      (elim (codes value) [
        | [] ↦ none
        | c ∷ cs ↦ if is_digit c then match_ms (c - b'0') cs else none
      ])
      (7 * 24 * 60 * 60 * 1000)
