-- ===== src/Prelude/Actions.antt =====
-- A request handler: state and HTTP exceptions. What was written before an exception stays written.
use mathlib.Core.Path.{◌≡◌, refl}
use mathlib.Core.Logic.{◌⊎◌, inl, inr}
use mathlib.Core.Bool.{Bool, true, false}
use mathlib.Core.Option.{Option, none, some}
use Prim.Native.String.{String}
use shipment_tracking_system.Prelude.Tests.{if◌then◌else◌}

-- The exception classes of @nestjs/common that the handlers throw, each with its message, and an
-- error of the database that no handler reshapes.
pub data HttpError : Type 0 where
  bad_request unauthorized forbidden not_found conflict payload_too_large : String → HttpError
  internal : HttpError

pub data Result {ℓ} (A : Type ℓ) : Type ℓ where
  ok : A → Result A
  err : HttpError → Result A

abbrev pub Action : Type 0 → Type 0 → Type 0
Action S A = S → Result A × S

abbrev pub Void : Type 0
Void = Unit {0}

module _ {S A : Type 0} where
  abbrev pub pure : A → Action S A
  pure a s = (ok a, s)

  abbrev pub throw : HttpError → Action S A
  throw e s = (err e, s)

  abbrev pub gets : (S → A) → Action S A
  gets f s = (ok (f s), s)

  -- `if (!x) throw e`, after which `x` is defined.
  abbrev pub or_throw : Option A → HttpError → Action S A
  or_throw none e s = (err e, s)
  or_throw (some a) e s = (ok a, s)

infixl 5 ◌>>=◌ ◌>>◌
abbrev pub ◌>>=◌ : {S A B : Type 0} → Action S A → (A → Action S B) → Action S B
◌>>=◌ m f s = let (r, s') = m s in elim r [ ok a ↦ f a s' | err e ↦ (err e, s') ]

abbrev pub ◌>>◌ : {S A B : Type 0} → Action S A → Action S B → Action S B
m >> k = m >>= λ _. k

module _ {S : Type 0} where
  -- `if (c) throw e`
  abbrev pub throw_if : Bool → HttpError → Action S Void
  throw_if c e s = (if c then err e else ok tt, s)

  abbrev pub modify : (S → S) → Action S Void
  modify f s = (ok tt, f s)

-- Whether the handler returned.
abbrev pub is_ok : {A : Type 0} → Result A → Bool
is_ok (ok a) = true
is_ok (err e) = false

-- `dataSource.transaction`: what was written is rolled back when the body throws.
abbrev pub transaction : {S A : Type 0} → Action S A → Action S A
transaction m s = let (r, s') = m s in elim r [ ok a ↦ (ok a, s') | err e ↦ (err e, s) ]

pub Result-cases :
    {A : Type 0} (r : Result A) → ((a : A) × (r ≡ ok a)) ⊎ ((e : HttpError) × (r ≡ err e))
Result-cases (ok a) = inl (a, refl)
Result-cases (err e) = inr (e, refl)

-- What two steps establish, by what the first one does: it is enough where the first throws.
pub >>-takes :
    {S A B : Type 0} (P Q : S → Type 0) (m : Action S A) (k : Action S B) (s : S)
    → P (m s).1
    → ((t : S) → P t → Q t)
    → ((t : S) → P t → Q (k t).1)
    → Q ((m >> k) s).1
>>-takes {S} {A} {B} P Q m k s h f g = go (m s).0
  where
    go :
        (r : Result A)
        → Q (elim r as (λ _. Result B × S) [ ok a ↦ k (m s).1 | err e ↦ (err e, (m s).1) ]).1
    go (ok a) = g (m s).1 h
    go (err e) = f (m s).1 h

-- What a step and the next one keep, the two together keep.
pub >>-keeps :
    {S A B : Type 0} (P : S → Type 0) (m : Action S A) (k : Action S B) (s : S)
    → P (m s).1
    → ((t : S) → P t → P (k t).1)
    → P ((m >> k) s).1
>>-keeps P m k s h g = >>-takes P P m k s h (λ t p. p) g

-- Where the first step returns, the second is what decides.
pub >>-ok :
    {S A B : Type 0} (P : S → Type 0) (m : Action S A) (k : Action S B) (s : S) (a : A)
    → (m s).0 ≡ ok a
    → P (k (m s).1).1
    → P ((m >> k) s).1
>>-ok {S} {A} {B} P m k s a e h = go (m s).0 e
  where
    go :
        (r : Result A)
        → r ≡ ok a
        → P (elim r as (λ _. Result B × S) [ ok a ↦ k (m s).1 | err e ↦ (err e, (m s).1) ]).1
    go (ok a) e = h
    go (err x) e = absurd (cc)
