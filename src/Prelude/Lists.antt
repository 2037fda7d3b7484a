-- ===== src/Prelude/Lists.antt =====
-- Members of filtered, mapped and concatenated lists, and Boolean searches.
use mathlib.Core.Path.{◌≡◌, refl, sym, ap}
use mathlib.Core.Logic.{◌↔◌, ◌⊎◌, inl, inr}
use mathlib.Core.Bool.{Bool, true, false, not}
use mathlib.Core.List.{List, [], ◌∷◌, ◌++◌, map}
use Prim.Native.String.{String}
use native.Mathlib.Omega.{arith}
use text.Mathlib.TextEquality.{eq_iff}
use shipment_tracking_system.Prelude.Tests.{Bool-cases}
use shipment_tracking_system.Prelude.Texts.{str_eq, str_eq_refl}
use shipment_tracking_system.Prelude.Rows.{In, filter, any, In-append_left, In-append_cases}

-- `flatMap`
abbrev pub concat_map : {A B : Type 0} → (A → List B) → List A → List B
concat_map f [] = []
concat_map f (x ∷ xs) = f x ++ concat_map f xs

pub In-filter :
    {A : Type 0} (p : A → Bool) (a : A) (xs : List A) → In a xs → p a ≡ true → In a (filter p xs)
In-filter p a [] m e = m
In-filter p a (x ∷ xs) (inl q) e = rw (← q) (rw e (inl refl))
In-filter p a (x ∷ xs) (inr m) e = elim (Bool-cases (p x)) [
  | inl y ↦ rw y (inr (In-filter p a xs m e))
  | inr n ↦ rw n (In-filter p a xs m e)
]

pub In-filter_cases :
    {A : Type 0} (p : A → Bool) (a : A) (xs : List A) → In a (filter p xs) → In a xs × (p a ≡ true)
In-filter_cases p a [] m = absurd m
In-filter_cases p a (x ∷ xs) m = elim (Bool-cases (p x)) [
  | inl y ↦
      let m' : (a ≡ x) ⊎ In a (filter p xs) = rw y at m in
      elim m' [
        | inl e ↦ (inl e, rw e y)
        | inr r ↦ let (i, q) = In-filter_cases p a xs r in (inr i, q)
      ]
  | inr n ↦
      let m' : In a (filter p xs) = rw n at m in
      let (i, q) = In-filter_cases p a xs m' in (inr i, q)
]

pub In-map : {A B : Type 0} (f : A → B) (a : A) (xs : List A) → In a xs → In (f a) (map f xs)
In-map f a [] m = absurd m
In-map f a (x ∷ xs) (inl e) = inl (ap f e)
In-map f a (x ∷ xs) (inr m) = inr (In-map f a xs m)

pub In-map_cases :
    {A B : Type 0} (f : A → B) (b : B) (xs : List A)
    → In b (map f xs)
    → (a : A) × In a xs × (b ≡ f a)
In-map_cases f b [] m = absurd m
In-map_cases f b (x ∷ xs) (inl e) = (x, inl refl, e)
In-map_cases f b (x ∷ xs) (inr m) = let (a, i, e) = In-map_cases f b xs m in (a, inr i, e)

pub In-append_right_of : {A : Type 0} (a : A) (xs ys : List A) → In a ys → In a (xs ++ ys)
In-append_right_of a [] ys m = m
In-append_right_of a (x ∷ xs) ys m = inr (In-append_right_of a xs ys m)

pub In-concat_map :
    {A B : Type 0} (f : A → List B) (a : A) (b : B) (xs : List A)
    → In a xs
    → In b (f a)
    → In b (concat_map f xs)
In-concat_map f a b [] m k = absurd m
In-concat_map f a b (x ∷ xs) (inl e) k = In-append_left b (f x) (concat_map f xs) (rw (← e) k)
In-concat_map f a b (x ∷ xs) (inr m) k =
    In-append_right_of b (f x) (concat_map f xs) (In-concat_map f a b xs m k)

pub In-concat_map_cases :
    {A B : Type 0} (f : A → List B) (b : B) (xs : List A)
    → In b (concat_map f xs)
    → (a : A) × In a xs × In b (f a)
In-concat_map_cases f b [] m = absurd m
In-concat_map_cases f b (x ∷ xs) m = elim (In-append_cases b (f x) (concat_map f xs) m) [
  | inl l ↦ (x, inl refl, l)
  | inr r ↦ let (a, i, k) = In-concat_map_cases f b xs r in (a, inr i, k)
]

-- `set.has(name)`, on the names in any order.
pub any-str_eq_iff :
    (name : String) (names : List String) → (any (λ n. str_eq n name) names ≡ true) ↔ In name names
any-str_eq_iff name [] = ((λ e. absurd (cc)), λ m. absurd m)
any-str_eq_iff name (n ∷ ns) = (
  (λ e. elim (Bool-cases (str_eq n name)) [
    | inl same ↦ inl (sym ((eq_iff n name).0 same))
    | inr other ↦ inr ((any-str_eq_iff name ns).0 (ground (arith, e, other)))
  ]),
  λ m. elim m [
    | inl e ↦ rw e (ground (arith, str_eq_refl n))
    | inr i ↦ ground (arith, (any-str_eq_iff name ns).1 i)
  ],
)

-- What is no longer met by any row.
pub any-filter_out :
    {A : Type 0} (p q : A → Bool) (xs : List A)
    → ((x : A) → p x ≡ true → q x ≡ true)
    → any p (filter (λ x. not (q x)) xs) ≡ false
any-filter_out p q [] h = refl
any-filter_out p q (x ∷ xs) h = elim (Bool-cases (q x)) [
  | inl gone ↦ rw gone (any-filter_out p q xs h)
  | inr stays ↦ elim (Bool-cases (p x)) [
    | inl y ↦ absurd (cc (h x y, stays))
    | inr n ↦ rw stays (rw n (any-filter_out p q xs h))
  ]
]

-- A test over two lists, one after the other.
pub filter-append :
    {A : Type 0} (p : A → Bool) (xs ys : List A) → filter p (xs ++ ys) ≡ filter p xs ++ filter p ys
filter-append p [] ys = refl
filter-append p (x ∷ xs) ys = elim (Bool-cases (p x)) [
  | inl y ↦ rw y (ap (λ l. x ∷ l) (filter-append p xs ys))
  | inr n ↦ rw n (filter-append p xs ys)
]
