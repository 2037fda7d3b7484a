-- ===== src/Scheduler/Moves.antt =====
-- The moves of the sync cycles of scheduler.service.ts keep the map, the objects and the running
-- calls in step.
use shipment_tracking_system.Prelude.{
  ℕ, true, false, some, ◌≡◌, inl, inr, refl, sym, ◌∙◌, ◌==◌, ==_iff, get, All-mono, arith,
  Bool-cases, Bool, ◌≤◌, ◌≢◌,
}
use shipment_tracking_system.Scheduler.State.{SyncState, idle}
use shipment_tracking_system.Scheduler.Cycles.{
  Core, IsSound, IsOwned, flag, cycles_of, allocated, forgotten, begun, touched, ended,
  get-allocated, get-forgotten, cycles_of-fresh, cycles_of-settled_other, cycles_of-settled_same,
  All-settled,
}

pub flag-le : (b : Bool) → flag b ≤ 1
flag-le true = omega arith
flag-le false = omega arith

pub allocated-IsSound : (x : ℕ) (k : Core) → IsSound k → IsSound (allocated x k)
allocated-IsSound x k h = record {
  below = λ y a e. elim (get-allocated k x y a e) [
    | inl (_, new) ↦ omega (arith, new)
    | inr old ↦ omega (arith, h.below y a old)
  ];
  apart = λ y z a e f. elim (get-allocated k x y a e) [
    | inl (is, new) ↦ elim (get-allocated k x z a f) [
      | inl (is', _) ↦ is ∙ sym is'
      | inr old ↦ absurd (omega (arith, new, h.below z a old))
    ]
    | inr old ↦ elim (get-allocated k x z a f) [
      | inl (_, new) ↦ absurd (omega (arith, new, h.below y a old))
      | inr old' ↦ h.apart y z a old old'
    ]
  ];
  owned =
      All-mono (IsOwned k) (IsOwned (allocated x k)) k.running
        (λ c o. (
          omega (arith, o.0),
          λ y e. elim (get-allocated k x y c.state e) [
            | inl (_, new) ↦ absurd (omega (arith, new, o.0))
            | inr old ↦ o.1 y old
          ],
        ))
        h.owned;
  exact = λ a. elim (Bool-cases (a == k.next_object)) [
    | inl new ↦
        let is = (==_iff a k.next_object).0 new in
        rw new (rw is (cycles_of-fresh k k.running h.owned))
    | inr old ↦ rw old (h.exact a)
  ];
  paused = λ a p. elim (Bool-cases (a == k.next_object)) [
    | inl new ↦ absurd (ground (arith, new, p))
    | inr old ↦ ground (arith, old, p, h.paused a)
  ];
}

pub forgotten-IsSound : (x : ℕ) (k : Core) → IsSound k → IsSound (forgotten x k)
forgotten-IsSound x k h = record {
  below = λ y a e. h.below y a (get-forgotten k x y a e);
  apart = λ y z a e f. h.apart y z a (get-forgotten k x y a e) (get-forgotten k x z a f);
  owned =
      All-mono (IsOwned k) (IsOwned (forgotten x k)) k.running
        (λ c o. (o.0, λ y e. o.1 y (get-forgotten k x y c.state e))) h.owned;
  exact = h.exact;
  paused = h.paused;
}

pub begun-IsSound :
    (x a : ℕ) (k : Core)
    → get ◌==◌ x k.states ≡ some a
    → (k.objects a).is_syncing ≡ false
    → IsSound k
    → IsSound (begun x a k)
begun-IsSound x a k found idle h = record {
  below = h.below;
  apart = h.apart;
  owned = ((h.below x a found, λ y e. h.apart y x a e found), h.owned);
  exact = λ b.
      let old = h.exact b in
      elim (Bool-cases (b == a)) [
        | inl same ↦
            let is = (==_iff b a).0 same in
            let none_of : cycles_of b k.running ≡ 0 = rw is (h.exact a ∙ rw idle refl) in
            ground (arith, same, none_of)
        | inr other ↦ ground (arith, other, old)
      ];
  paused = λ b p. ground (arith, p, h.paused b);
}

pub touched-IsSound :
    (a : ℕ) (o : SyncState) (k : Core)
    → o.is_syncing ≡ true
    → (k.objects a).is_syncing ≡ true
    → IsSound k
    → IsSound (touched a o k)
touched-IsSound a o k now before h = record {
  below = h.below;
  apart = h.apart;
  owned = h.owned;
  exact = λ b. elim (Bool-cases (b == a)) [
    | inl same ↦
        let is = (==_iff b a).0 same in rw same (rw now (rw is (h.exact a ∙ rw before refl)))
    | inr other ↦ rw other (h.exact b)
  ];
  paused = λ b p. ground (arith, now, p, h.paused b);
}

pub ended-IsSound : (a : ℕ) (k : Core) → IsSound k → IsSound (ended a k)
ended-IsSound a k h = record {
  below = h.below;
  apart = h.apart;
  owned =
      All-mono (IsOwned k) (IsOwned (ended a k)) _ (λ c o. o)
        (All-settled (IsOwned k) a k.running h.owned);
  exact = λ b. elim (Bool-cases (b == a)) [
    | inl same ↦
        let is = (==_iff b a).0 same in
        let few : cycles_of a k.running ≤ 1 =
          omega (arith, h.exact a, flag-le (k.objects a).is_syncing) in
        rw same (rw is (cycles_of-settled_same a k.running few))
    | inr other ↦
        let apart : b ≢ a = λ e. ground (arith, other, e) in
        rw other (cycles_of-settled_other a b k.running apart ∙ h.exact b)
  ];
  paused = λ b p. ground (arith, p, h.paused b);
}
