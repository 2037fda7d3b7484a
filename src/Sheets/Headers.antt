-- ===== src/Sheets/Headers.antt =====
-- `normalizer.ts` and `cell-merge.ts`. A header is the list of its code points.
use shipment_tracking_system.Prelude.{
  ℕ, ◌+◌, Bool, true, false, ◌&&◌, ◌||◌, List, [], ◌∷◌, ◌++◌, map, ◌==◌, leb, if◌then◌else◌, filter,
  get_or, is_space, get, set,
}

abbrev pub Header : Type 0
Header = List ℕ

-- `/[a-zA-Z0-9]/`
abbrev pub is_alphanumeric : ℕ → Bool
is_alphanumeric c = (leb 97 c && leb c 122) || (leb 65 c && leb c 90) || (leb 48 c && leb c 57)

abbrev pub newline_to_space : ℕ → ℕ
newline_to_space c = if c == 10 then 32 else c

abbrev pub is_kept : ℕ → Bool
is_kept c = is_alphanumeric c || c == 32

abbrev pub trim_start : Header → Header
trim_start [] = []
trim_start (c ∷ s) = if is_space c then trim_start s else c ∷ s

abbrev pub is_empty : Header → Bool
is_empty [] = true
is_empty (c ∷ s) = false

abbrev pub trim_end : Header → Header
trim_end [] = []
trim_end (c ∷ s) = let rest = trim_end s in if is_space c && is_empty rest then [] else c ∷ rest

-- `replace(/ +/g, '_')`; the flag tells whether the character before is a space.
abbrev pub underscores : Bool → Header → Header
underscores after [] = []
underscores after (c ∷ s) =
    let run = underscores true s in
    let word = underscores false s in
    if c == 32 then (if after then run else 95 ∷ run) else c ∷ word

abbrev pub lower : ℕ → ℕ
lower c = if leb 65 c && leb c 90 then c + 32 else c

unfoldable pub normalize_header : Header → Header
normalize_header raw =
    map lower
      (underscores false (trim_end (trim_start (filter is_kept (map newline_to_space raw)))))

abbrev pub same_header : Header → Header → Bool
same_header [] [] = true
same_header (a ∷ s) (b ∷ t) = a == b && same_header s t
same_header _ _ = false

-- The loop of `makeUniqueHeaders` over the counts so far; `number_text` is `String(n)`.
abbrev unique_from : (ℕ → Header) → List (Header × ℕ) → List Header → List Header
unique_from number_text counts [] = []
unique_from number_text counts (h ∷ hs) =
    let count = get_or (get same_header h counts) 0 + 1 in
    let rest = unique_from number_text (set same_header h count counts) hs in
    (if count == 1 then h else h ++ 95 ∷ number_text count) ∷ rest

unfoldable pub make_unique_headers : (ℕ → Header) → List Header → List Header
make_unique_headers number_text hs = unique_from number_text [] hs
