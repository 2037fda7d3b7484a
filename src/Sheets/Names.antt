-- ===== src/Sheets/Names.antt =====
-- The names that `normalizeHeader` of normalizer.ts makes.
use shipment_tracking_system.Prelude.{
  ℕ, Bool, true, false, ◌&&◌, ◌||◌, [], ◌∷◌, map, ◌==◌, leb, if◌then◌else◌, filter, All, ◌≡◌, inl,
  inr, refl, ==_iff, arith, Bool-cases, is_space,
}
use shipment_tracking_system.Sheets.Headers.{
  Header, is_alphanumeric, is_kept, newline_to_space, trim_start, trim_end, is_empty, underscores,
  lower, normalize_header,
}

-- Where a name stands: at its start, after a letter or a digit, after an underscore.
pub data Place : Type 0 where
  at_start in_word after_underscore : Place

abbrev pub is_name_character : ℕ → Bool
is_name_character c = (leb 97 c && leb c 122) || (leb 48 c && leb c 57)

-- Words of small letters and digits, with single underscores between them, or nothing.
pub is_name : Place → Header → Bool
is_name after_underscore [] = false
is_name _ [] = true
is_name in_word (c ∷ s) =
    let word = is_name in_word s in
    let next = is_name after_underscore s in if c == 95 then next else is_name_character c && word
is_name _ (c ∷ s) = is_name_character c && is_name in_word s

lower-is_alphanumeric : (c : ℕ) → is_alphanumeric c ≡ true → is_name_character (lower c) ≡ true
lower-is_alphanumeric c h = ground (arith, h)

-- What is kept is a letter, a digit or a space, and of these only the space is white.
kept-cases : (c : ℕ) → is_kept c ≡ true → (c == 32) ≡ false → is_alphanumeric c ≡ true
kept-cases c h n = ground (arith, h, n)

is_space-alphanumeric : (c : ℕ) → is_alphanumeric c ≡ true → is_space c ≡ false
unfolding is_space
is_space-alphanumeric c h = ground (arith, h)

lower-underscore : (c : ℕ) → is_alphanumeric c ≡ true → (lower c == 95) ≡ false
lower-underscore c h = ground (arith, h)

space_is_white : is_space 32 ≡ true
unfolding is_space
space_is_white = refl

is_name-word :
    (c : ℕ) (s : Header) (p : Place)
    → is_alphanumeric c ≡ true
    → is_name in_word s ≡ true
    → is_name p (lower c ∷ s) ≡ true
unfolding is_name
is_name-word c s at_start h k = rw (lower-is_alphanumeric c h) (rw k refl)
is_name-word c s after_underscore h k = rw (lower-is_alphanumeric c h) (rw k refl)
is_name-word c s in_word h k =
    rw (lower-underscore c h) (rw (lower-is_alphanumeric c h) (rw k refl))

abbrev Kept : Header → Type 0
Kept s = All (λ c. is_kept c ≡ true) s

-- The rest of a name, after a word, and after an underscore where a word must follow.
abbrev EndsWell : Header → Type 0
EndsWell t =
    (is_name in_word (map lower (underscores false t)) ≡ true)
    × (is_empty t ≡ false → is_name after_underscore (map lower (underscores true t)) ≡ true)

space-EndsWell :
    (t : Header) → EndsWell t → EndsWell (if is_space 32 && is_empty t then [] else 32 ∷ t)
unfolding is_name is_space
space-EndsWell [] h = (refl, λ e. absurd (cc))
space-EndsWell (c ∷ t) h = (h.1 refl, λ e. h.1 refl)

trim_end-EndsWell : (s : Header) → Kept s → EndsWell (trim_end s)
unfolding is_name
trim_end-EndsWell [] k = (refl, λ e. absurd (cc))
trim_end-EndsWell (c ∷ s) (k, ks) = elim (Bool-cases (c == 32)) [
  | inl space ↦ rw ((==_iff c 32).0 space) (space-EndsWell (trim_end s) (trim_end-EndsWell s ks))
  | inr n ↦
      let letter = kept-cases c k n in
      let word = (trim_end-EndsWell s ks).0 in
      let rest = map lower (underscores false (trim_end s)) in
      rw (is_space-alphanumeric c letter) (
        rw n (
          is_name-word c rest in_word letter word,
          λ e. is_name-word c rest after_underscore letter word,
        ))
]

-- After the first trim the text is empty or begins with a word.
trim_start-is_name :
    (s : Header)
    → Kept s
    → is_name at_start (map lower (underscores false (trim_end (trim_start s)))) ≡ true
unfolding is_name
trim_start-is_name [] k = refl
trim_start-is_name (c ∷ s) (k, ks) = elim (Bool-cases (c == 32)) [
  | inl space ↦ rw ((==_iff c 32).0 space) (rw space_is_white (trim_start-is_name s ks))
  | inr n ↦
      let letter = kept-cases c k n in
      let rest = map lower (underscores false (trim_end s)) in
      let keep = is_space-alphanumeric c letter in
      rw keep (rw keep (rw n (is_name-word c rest at_start letter (trim_end-EndsWell s ks).0)))
]

filter-Kept : (s : Header) → Kept (filter is_kept s)
filter-Kept [] = tt
filter-Kept (c ∷ s) = elim (Bool-cases (is_kept c)) [
  | inl y ↦ rw y (y, filter-Kept s)
  | inr n ↦ rw n (filter-Kept s)
]

-- Every header, whatever its text, becomes words of small letters of ASCII and digits with single
-- underscores between them, or the empty text.
pub normalize_header-is_name : (raw : Header) → is_name at_start (normalize_header raw) ≡ true
unfolding normalize_header
normalize_header-is_name raw =
    trim_start-is_name (filter is_kept (map newline_to_space raw))
      (filter-Kept (map newline_to_space raw))
