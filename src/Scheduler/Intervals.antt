-- ===== src/Scheduler/Intervals.antt =====
-- The intervals of scheduler.service.ts: what starting and deleting one leaves of a sheet's own.
use shipment_tracking_system.Prelude.{
  ℕ, ◌+◌, true, not, ◌&&◌, Option, none, some, ◌≡◌, ◌≢◌, ◌⊎◌, inl, inr, refl, ◌∙◌, ap, ◌==◌, ==_iff,
  ==_ne, get, get-set_same, get-set_other, get-remove_other, is_some, arith, Bool-cases,
  Option-cases, leb, >>-keeps, >>-ok, ok,
}
use shipment_tracking_system.Scheduler.State.{
  SchedulerRegistry, SchedulerRegistryLaws, GoogleSheetConfig, Scheduler, SyncState, cleared,
  interval_ms, put,
}
use shipment_tracking_system.Scheduler.Service.{
  delete_interval, start_interval, drop_interval, restart, skip, tick, tick_on, deleted,
}
use shipment_tracking_system.Scheduler.Cycles.{core}
use shipment_tracking_system.Scheduler.Events.{delete_interval-core}

-- The registry has an interval for the sheet.
abbrev pub HasInterval : ℕ → Scheduler → Type 0
HasInterval n s = is_some (get ◌==◌ n s.registry) ≡ true

-- The sheet has a state object, and an interval or a pause that a sync will end.
abbrev pub IsCovered : ℕ → Scheduler → Type 0
IsCovered n s =
    (a : ℕ) × (get ◌==◌ n s.states ≡ some a) × (HasInterval n s ⊎ ((s.objects a).is_paused ≡ true))

module _ (registry : SchedulerRegistry) (laws : SchedulerRegistryLaws registry) (n : ℕ) where
  -- Intervals of other sheets are deleted and started without a change of this one.
  pub delete-other :
      (y : ℕ) (s : Scheduler)
      → n ≢ y
      → HasInterval n s
      → HasInterval n (delete_interval registry y s).1
  unfolding delete_interval
  delete-other y s ne h = rw (laws.delete_interval_lem y s.registry) (go (get ◌==◌ y s.registry))
    where
      go : (o : Option ℕ) → HasInterval n (deleted s (cleared y s.registry o)).1
      go none = h
      go (some t) = rw (get-remove_other ◌==◌ ==_iff n y s.registry ne) h

  pub drop-other :
      (y : ℕ) (s : Scheduler)
      → n ≢ y
      → HasInterval n s
      → HasInterval n (drop_interval registry y s).1
  unfolding drop_interval
  drop-other y s ne h = elim (Bool-cases (registry.does_exist y s.registry)) [
    | inl e ↦ rw e (delete-other y s ne h)
    | inr e ↦ rw e h
  ]

  -- An interval is started where there is none, and none is lost.
  pub start-registers :
      (d : Option ℕ) (s : Scheduler) → HasInterval n (start_interval registry n d s).1
  unfolding start_interval
  start-registers d s =
      rw (laws.add_interval_lem n s.next_timer s.registry)
        (elim (Bool-cases (is_some (get ◌==◌ n s.registry))) [
          | inl taken ↦ rw taken taken
          | inr free ↦ rw free (rw (get-set_same ◌==◌ ==_iff n s.next_timer s.registry) refl)
        ])

  pub start-keeps :
      (y : ℕ) (d : Option ℕ) (s : Scheduler)
      → HasInterval n s
      → HasInterval n (start_interval registry y d s).1
  unfolding start_interval
  start-keeps y d s h = elim (Bool-cases (n == y)) [
    | inl same ↦ let e = (==_iff n y).0 same in rw (← e) (start-registers d s)
    | inr other ↦
        rw (laws.add_interval_lem y s.next_timer s.registry)
          (elim (Bool-cases (is_some (get ◌==◌ y s.registry))) [
            | inl taken ↦ rw taken h
            | inr free ↦
                rw free
                  (rw (get-set_other ◌==◌ ==_iff n y s.next_timer s.registry (==_ne n y other)) h)
          ])
  ]

  drop_answers : (y : ℕ) (s : Scheduler) → (drop_interval registry y s).0 ≡ ok tt
  unfolding drop_interval delete_interval
  drop_answers y s = elim (Option-cases (get ◌==◌ y s.registry)) [
    | inl e ↦ rw (laws.does_exist_lem y s.registry) (rw e refl)
    | inr (t, e) ↦
        rw (laws.does_exist_lem y s.registry, laws.delete_interval_lem y s.registry) (rw e refl)
  ]

  pub restart-registers :
      (c : GoogleSheetConfig) (s : Scheduler)
      → c.sheet_id ≡ n
      → HasInterval n (restart registry c s).1
  restart-registers c s e =
      >>-ok (HasInterval n) (drop_interval registry c.sheet_id)
        (start_interval registry c.sheet_id (some (interval_ms c))) s tt (drop_answers c.sheet_id s)
        (rw e (start-registers _ _))

  pub restart-keeps :
      (c : GoogleSheetConfig) (s : Scheduler)
      → n ≢ c.sheet_id
      → HasInterval n s
      → HasInterval n (restart registry c s).1
  restart-keeps c s ne h =
      >>-keeps (HasInterval n) (drop_interval registry c.sheet_id)
        (start_interval registry c.sheet_id (some (interval_ms c))) s (drop-other c.sheet_id s ne h)
        (λ t k. start-keeps c.sheet_id (some (interval_ms c)) t k)

  -- Timers change, and the cycles do not.
  pub IsCovered-same :
      (s t : Scheduler)
      → core s ≡ core t
      → (HasInterval n t → HasInterval n s)
      → IsCovered n t
      → IsCovered n s
  IsCovered-same s t q f (a, e, d) = (
    a,
    ap (λ k. get ◌==◌ n k.states) q ∙ e,
    elim d [ inl i ↦ inl (f i) | inr p ↦ inr (ap (λ k. (k.objects a).is_paused) q ∙ p) ],
  )

  -- A state object changes, and a pause stays.
  pub put-IsCovered :
      (b : ℕ) (v : SyncState) (s : Scheduler)
      → ((s.objects b).is_paused ≡ true → v.is_paused ≡ true)
      → IsCovered n s
      → IsCovered n (record s { objects = put b v s.objects })
  put-IsCovered b v s keep (a, e, inl i) = (a, e, inl i)
  put-IsCovered b v s keep (a, e, inr p) = elim (Bool-cases (a == b)) [
    | inl same ↦
        let p' : (s.objects b).is_paused ≡ true = rw (← (==_iff a b).0 same) p in
        (a, e, inr (rw same (keep p')))
    | inr other ↦ (a, e, inr (rw other p))
  ]

  skip-IsCovered :
      (y b : ℕ) (s : Scheduler)
      → get ◌==◌ y s.states ≡ some b
      → IsCovered n s
      → IsCovered n (skip registry y b s)
  unfolding skip
  skip-IsCovered y b s f h =
      let o = s.objects b in
      let counted = record o { consecutive_skips = o.consecutive_skips + 1 } in
      let paused : SyncState = record counted { is_paused = true } in
      let s' = record s { objects = put b paused s.objects } in
      elim (Bool-cases (leb 2 (o.consecutive_skips + 1) && not o.is_paused)) [
        | inl pause ↦ rw pause (elim (Bool-cases (n == y)) [
          | inl same ↦
              let found : get ◌==◌ n s.states ≡ some b = rw ((==_iff n y).0 same) f in
              covered_of_pause (delete_interval registry y s').1 b
                (ap (λ k. get ◌==◌ n k.states) (delete_interval-core registry y s') ∙ found)
                (ap (λ k. (k.objects b).is_paused) (delete_interval-core registry y s')
                  ∙ ground arith)
          | inr other ↦
              IsCovered-same (delete_interval registry y s').1 s'
                (delete_interval-core registry y s') (delete-other y s' (==_ne n y other))
                (put-IsCovered b paused s (λ p. refl) h)
        ])
        | inr count ↦ rw count (put-IsCovered b counted s (λ p. p) h)
      ]
    where
      covered_of_pause :
          (t : Scheduler) (b : ℕ)
          → get ◌==◌ n t.states ≡ some b
          → (t.objects b).is_paused ≡ true
          → IsCovered n t
      covered_of_pause t b e p = (b, e, inr p)

  pub tick-IsCovered : (y : ℕ) (s : Scheduler) → IsCovered n s → IsCovered n (tick registry y s)
  unfolding tick
  tick-IsCovered y s h = go (get ◌==◌ y s.states) refl
    where
      go : (o : Option ℕ) → get ◌==◌ y s.states ≡ o → IsCovered n (tick_on registry y o s)
      go none e = h
      go (some b) e = elim (Bool-cases (s.objects b).is_syncing) [
        | inl t ↦ rw t (skip-IsCovered y b s e h)
        | inr f ↦ rw f (put-IsCovered b (record (s.objects b) { is_syncing = true }) s (λ p. p) h)
      ]
