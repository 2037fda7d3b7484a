-- ===== src/Scheduler/Ticking.antt =====
-- A sheet that is polled by scheduler.service.ts goes on being polled.
use shipment_tracking_system.Prelude.{
  ℕ, false, Option, none, some, ◌≡◌, ◌≢◌, inl, inr, sym, ◌∙◌, ap, ◌==◌, ==_iff, ==_ne, get, remove,
  get-set_same, get-set_other, get-remove_other, In, All-In, arith, Bool-cases,
}
use shipment_tracking_system.Scheduler.State.{
  SchedulerRegistry, SchedulerRegistryLaws, GoogleSheetConfig, Scheduler, Cycle, new_state,
  register, idle, put,
}
use shipment_tracking_system.Scheduler.Service.{
  drop_interval, restart, finish, handle_config_create, handle_config_change, unlink,
}
use shipment_tracking_system.Scheduler.Cycles.{IsSound, IsOwned, core}
use shipment_tracking_system.Scheduler.Events.{
  start_interval-core, drop_interval-core, restart-core,
}
use shipment_tracking_system.Scheduler.State.{settled}
use shipment_tracking_system.Scheduler.Intervals.{
  HasInterval, IsCovered, drop-other, start-registers, start-keeps, restart-registers,
  restart-keeps, IsCovered-same,
}

module _ (registry : SchedulerRegistry) (laws : SchedulerRegistryLaws registry) (n : ℕ) where
  pub finish-IsCovered :
      (c : Cycle) (s : Scheduler)
      → In c s.running
      → IsSound (core s)
      → IsCovered n s
      → IsCovered n (finish registry c s)
  unfolding finish
  finish-IsCovered c s m sound (a, e, d) =
      let rested = record s {
        objects = put c.state idle s.objects;
        running = settled c.state s.running;
      } in
      let delay = get ◌==◌ c.sheet_id s.intervals in
      let states =
        ap (λ k. get ◌==◌ n k.states) (start_interval-core registry c.sheet_id delay rested) ∙ e in
      let objects =
        ap (λ k. (k.objects a).is_paused) (start_interval-core registry c.sheet_id delay rested) in
      elim (Bool-cases (s.objects c.state).is_paused) [
        | inl y ↦ rw y (elim d [
          | inl i ↦ (a, states, inl (start-keeps registry laws n c.sheet_id delay rested i))
          | inr p ↦ elim (Bool-cases (a == c.state)) [
            | inl same ↦
                let is = (==_iff a c.state).0 same in
                let own = All-In (IsOwned (core s)) c s.running sound.owned m in
                let mine : n ≡ c.sheet_id = own.1 n (e ∙ ap some is) in
                (a, states, inl (rw (← mine) (start-registers registry laws n _ _)))
            | inr other ↦ (a, states, inr (objects ∙ rw other p))
          ]
        ])
        | inr f ↦ rw f (elim d [
          | inl i ↦ (a, e, inl i)
          | inr p ↦
              let other : (a == c.state) ≡ false = elim (Bool-cases (a == c.state)) [
                | inl same ↦
                    let q = ap (λ x. (s.objects x).is_paused) ((==_iff a c.state).0 same) in
                    absurd (cc)
                | inr o ↦ o
              ] in
              (a, e, inr (rw other p))
        ])
      ]

  -- A sheet gets a fresh state object, and an interval.
  pub fresh-IsCovered : (s : Scheduler) → HasInterval n s → IsCovered n (new_state n s)
  unfolding new_state
  fresh-IsCovered s i = (s.next_object, get-set_same ◌==◌ ==_iff n s.next_object s.states, inl i)

  -- Another sheet gets one.
  pub fresh_other-IsCovered :
      (y : ℕ) (s : Scheduler)
      → n ≢ y
      → IsSound (core s)
      → IsCovered n s
      → IsCovered n (new_state y s)
  unfolding new_state
  fresh_other-IsCovered y s ne sound (a, e, d) =
      let old : (a == s.next_object) ≡ false = let low = sound.below n a e in ground (arith, low) in
      (
        a,
        get-set_other ◌==◌ ==_iff n y s.next_object s.states ne ∙ e,
        elim d [ inl i ↦ inl i | inr p ↦ inr (rw old p) ],
      )

  get-new_state :
      (y : ℕ) (s : Scheduler) → n ≡ y → get ◌==◌ n (new_state y s).states ≡ some s.next_object
  unfolding new_state
  get-new_state y s e = rw (← e) (get-set_same ◌==◌ ==_iff n s.next_object s.states)

  pub create-IsCovered :
      (c : GoogleSheetConfig) (s : Scheduler)
      → IsSound (core s)
      → IsCovered n s
      → IsCovered n (handle_config_create registry c s)
  unfolding handle_config_create
  create-IsCovered c s sound h = elim (Bool-cases c.enabled) [
    | inr off ↦ rw off h
    | inl on ↦
        let t = (restart registry c (register c s)).1 in
        rw on (elim (Bool-cases (n == c.sheet_id)) [
          | inl same ↦
              let is = (==_iff n c.sheet_id).0 same in
              let i = restart-registers registry laws n c (register c s) (sym is) in
              (
                s.next_object,
                ap (λ k. get ◌==◌ n k.states) (restart-core registry c (register c s))
                    ∙ get-new_state c.sheet_id s is,
                inl i,
              )
          | inr other ↦
              let ne = ==_ne n c.sheet_id other in
              IsCovered-same registry laws n t (register c s)
                (restart-core registry c (register c s))
                (restart-keeps registry laws n c (register c s) ne)
                (fresh_other-IsCovered c.sheet_id s ne sound h)
        ])
  ]

  -- Another sheet is dropped and forgotten.
  forget-IsCovered :
      (y : ℕ) (s : Scheduler)
      → n ≢ y
      → IsCovered n s
      → let t = (drop_interval registry y s).1 in
        IsCovered n (record t { states = remove ◌==◌ y t.states })
  forget-IsCovered y s ne h =
      let t = (drop_interval registry y s).1 in
      let (a, e, d) =
        IsCovered-same registry laws n t s (drop_interval-core registry y s)
          (drop-other registry laws n y s ne) h in
      (a, get-remove_other ◌==◌ ==_iff n y t.states ne ∙ e, d)

  pub change-IsCovered :
      (id y : ℕ) (s : Scheduler)
      → n ≢ y
      → IsCovered n s
      → IsCovered n (handle_config_change registry id y s)
  unfolding handle_config_change
  change-IsCovered id y s ne h = forget-IsCovered y s ne h

  pub unlink-IsCovered :
      (o : Option ℕ) (y : ℕ) (s : Scheduler)
      → (o ≡ some n → y ≡ n)
      → IsCovered n s
      → IsCovered n (unlink registry o y s)
  unfolding unlink
  unlink-IsCovered none y s keep h = h
  unlink-IsCovered (some old) y s keep h = elim (Bool-cases (old == y)) [
    | inl same ↦ rw same h
    | inr other ↦
        let ne : n ≢ old = λ q. ==_ne old y other (sym q ∙ sym (keep (ap some (sym q)))) in
        rw other (forget-IsCovered old s ne h)
  ]
