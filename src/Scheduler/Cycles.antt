-- ===== src/Scheduler/Cycles.antt =====
-- The sync cycles of scheduler.service.ts: which run together, and what their state objects say.
use shipment_tracking_system.Prelude.{
  ℕ, ◌+◌, ◌≤◌, ◌<◌, Bool, true, some, List, [], ◌∷◌, ◌≡◌, ◌≢◌, ◌⊎◌, inl, inr, refl, sym, ◌∙◌, ◌==◌,
  ==_iff, if◌then◌else◌, get, set, remove, get-set_same, get-set_other, get-remove_same,
  get-remove_other, All, In, arith, Bool-cases,
}
use shipment_tracking_system.Scheduler.State.{Cycle, SyncState, Scheduler, idle, put, settled}

-- What concerns the cycles: the map of state objects, the objects, and the running calls.
pub record Core : Type 0 where
  pub states : List (ℕ × ℕ)
  pub objects : ℕ → SyncState
  pub next_object : ℕ
  pub running : List Cycle

abbrev pub core : Scheduler → Core
core s = record {
  states = s.states;
  objects = s.objects;
  next_object = s.next_object;
  running = s.running;
}

-- How many running cycles hold the state object.
abbrev pub cycles_of : ℕ → List Cycle → ℕ
cycles_of a [] = 0
cycles_of a (c ∷ cs) = (if c.state == a then 1 else 0) + cycles_of a cs

abbrev pub flag : Bool → ℕ
flag b = if b then 1 else 0

-- The cycle belongs to the sheet that its state object stands for, if it stands for one.
abbrev pub IsOwned : Core → Cycle → Type 0
IsOwned k c =
    (c.state < k.next_object) × ((x : ℕ) → get ◌==◌ x k.states ≡ some c.state → x ≡ c.sheet_id)

pub record IsSound (k : Core) : Type 0 where
  pub below : (x a : ℕ) → get ◌==◌ x k.states ≡ some a → a < k.next_object
  pub apart : (x y a : ℕ) → get ◌==◌ x k.states ≡ some a → get ◌==◌ y k.states ≡ some a → x ≡ y
  pub owned : All (IsOwned k) k.running
  pub exact : (a : ℕ) → cycles_of a k.running ≡ flag (k.objects a).is_syncing
  pub paused : (a : ℕ) → (k.objects a).is_paused ≡ true → (k.objects a).is_syncing ≡ true

-- The moves of the cycles.
abbrev pub allocated : ℕ → Core → Core
allocated x k = record k {
  states = set ◌==◌ x k.next_object k.states;
  objects = put k.next_object idle k.objects;
  next_object = k.next_object + 1;
}

abbrev pub forgotten : ℕ → Core → Core
forgotten x k = record k { states = remove ◌==◌ x k.states }

abbrev pub begun : ℕ → ℕ → Core → Core
begun x a k = record k {
  objects = put a (record (k.objects a) { is_syncing = true }) k.objects;
  running = (record { sheet_id = x; state = a }) ∷ k.running;
}

abbrev pub touched : ℕ → SyncState → Core → Core
touched a o k = record k { objects = put a o k.objects }

abbrev pub ended : ℕ → Core → Core
ended a k = record k { objects = put a idle k.objects; running = settled a k.running }

-- Looking up a sheet after its map has got a fresh object, or has lost a sheet.
pub get-allocated :
    (k : Core) (x y a : ℕ)
    → get ◌==◌ y (allocated x k).states ≡ some a
    → ((y ≡ x) × (a ≡ k.next_object)) ⊎ (get ◌==◌ y k.states ≡ some a)
get-allocated k x y a e = elim (Bool-cases (y == x)) [
  | inl same ↦
      let is = (==_iff y x).0 same in
      let e' : get ◌==◌ x (set ◌==◌ x k.next_object k.states) ≡ some a = rw is at e in
      let found = get-set_same ◌==◌ ==_iff x k.next_object k.states in inl (is, cc)
  | inr other ↦ inr (
      sym (get-set_other ◌==◌ ==_iff y x k.next_object k.states (λ q. ground (arith, other, q)))
      ∙ e)
]

pub get-forgotten :
    (k : Core) (x y a : ℕ)
    → get ◌==◌ y (forgotten x k).states ≡ some a
    → get ◌==◌ y k.states ≡ some a
get-forgotten k x y a e = elim (Bool-cases (y == x)) [
  | inl same ↦
      let is = (==_iff y x).0 same in
      let e' : get ◌==◌ x (remove ◌==◌ x k.states) ≡ some a = rw is at e in
      let gone = get-remove_same ◌==◌ ==_iff x k.states in absurd (cc)
  | inr other ↦ sym (get-remove_other ◌==◌ ==_iff y x k.states (λ q. ground (arith, other, q))) ∙ e
]

pub cycles_of-fresh :
    (k : Core) (cs : List Cycle) → All (IsOwned k) cs → cycles_of k.next_object cs ≡ 0
cycles_of-fresh k [] h = refl
cycles_of-fresh k (c ∷ cs) h =
    let rest = cycles_of-fresh k cs h.1 in let low = h.0.0 in ground (arith, rest, low)

pub cycles_of-settled_other :
    (a b : ℕ) (cs : List Cycle) → b ≢ a → cycles_of b (settled a cs) ≡ cycles_of b cs
cycles_of-settled_other a b [] ne = refl
cycles_of-settled_other a b (c ∷ cs) ne = ground (arith, ne, cycles_of-settled_other a b cs ne)

pub cycles_of-settled_same :
    (a : ℕ) (cs : List Cycle) → cycles_of a cs ≤ 1 → cycles_of a (settled a cs) ≡ 0
cycles_of-settled_same a [] h = refl
cycles_of-settled_same a (c ∷ cs) h = ground (arith, h, cycles_of-settled_same a cs)

pub All-settled : (P : Cycle → Type 0) (a : ℕ) (cs : List Cycle) → All P cs → All P (settled a cs)
All-settled P a [] h = tt
All-settled P a (c ∷ cs) h = ground (arith, All-settled P a cs h.1)

-- A counted cycle is one of those that run.
pub cycles_of-In :
    (a : ℕ) (cs : List Cycle) → 1 ≤ cycles_of a cs → (c : Cycle) × In c cs × (c.state ≡ a)
cycles_of-In a [] h = absurd (omega (arith, h))
cycles_of-In a (c ∷ cs) h = elim (Bool-cases (c.state == a)) [
  | inl y ↦ (c, inl refl, (==_iff c.state a).0 y)
  | inr n ↦ let (d, m, e) = cycles_of-In a cs (ground (arith, h, n)) in (d, inr m, e)
]

pub In-cycles_of : (c : Cycle) (cs : List Cycle) → In c cs → 1 ≤ cycles_of c.state cs
In-cycles_of c [] m = absurd m
In-cycles_of c (d ∷ cs) (inl e) = rw (← e) (ground arith)
In-cycles_of c (d ∷ cs) (inr m) = omega (arith, In-cycles_of c cs m)
