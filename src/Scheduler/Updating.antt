-- ===== src/Scheduler/Updating.antt =====
-- An update of a config in scheduler.service.ts, and the sheets that go on being polled.
use shipment_tracking_system.Prelude.{
  ℕ, Bool, true, false, Option, none, some, ◌≡◌, ◌≢◌, inl, inr, refl, sym, ◌∙◌, ap, ◌==◌, ==_iff,
  ==_ne, get, set, Bool-cases, >>-takes,
}
use shipment_tracking_system.Scheduler.State.{
  SchedulerRegistry, SchedulerRegistryLaws, GoogleSheetConfig, Scheduler, resumed, interval_ms,
}
use shipment_tracking_system.Scheduler.Service.{
  delete_interval, restart, handle_config_update, resume, reschedule, relink, toggle,
}
use shipment_tracking_system.Scheduler.Cycles.{IsSound, core}
use shipment_tracking_system.Scheduler.Events.{delete_interval-core, restart-core}
use shipment_tracking_system.Scheduler.Handlers.{relink-IsSound}
use shipment_tracking_system.Scheduler.Intervals.{
  HasInterval, IsCovered, delete-other, restart-registers, restart-keeps, IsCovered-same,
}
use shipment_tracking_system.Scheduler.Ticking.{
  fresh-IsCovered, fresh_other-IsCovered, unlink-IsCovered,
}

module _ (registry : SchedulerRegistry) (laws : SchedulerRegistryLaws registry) (n : ℕ) where
  resumed-IsCovered :
      (y : ℕ) (s : Scheduler)
      → n ≢ y
      → IsSound (core s)
      → IsCovered n s
      → IsCovered n (resumed y (get ◌==◌ y s.states) s)
  resumed-IsCovered y s ne sound h = go (get ◌==◌ y s.states) refl
    where
      go : (o : Option ℕ) → get ◌==◌ y s.states ≡ o → IsCovered n (resumed y o s)
      go none e = fresh_other-IsCovered registry laws n y s ne sound h
      go (some b) e = elim (Bool-cases (s.objects b).is_syncing) [
        | inr f ↦ rw f (fresh_other-IsCovered registry laws n y s ne sound h)
        | inl t ↦
            let (a, q, d) = h in
            let other : (a == b) ≡ false = elim (Bool-cases (a == b)) [
              | inr o ↦ o
              | inl same ↦
                  absurd (ne (sound.apart n y a q (e ∙ ap some (sym ((==_iff a b).0 same)))))
            ] in
            rw t (a, q, elim d [ inl i ↦ inl i | inr p ↦ inr (rw other p) ])
      ]

  -- The sheet itself is rescheduled.
  rescheduled-IsCovered :
      (y : ℕ) (s : Scheduler)
      → n ≡ y
      → HasInterval n s
      → IsCovered n (resumed y (get ◌==◌ y s.states) s)
  rescheduled-IsCovered y s is i = go (get ◌==◌ y s.states) refl
    where
      go : (o : Option ℕ) → get ◌==◌ y s.states ≡ o → IsCovered n (resumed y o s)
      go none e = rw (← is) (fresh-IsCovered registry laws n s i)
      go (some b) e = elim (Bool-cases (s.objects b).is_syncing) [
        | inr f ↦ rw f (rw (← is) (fresh-IsCovered registry laws n s i))
        | inl t ↦ rw t (b, rw is e, inl i)
      ]

  reschedule-IsCovered :
      (c : GoogleSheetConfig) (s : Scheduler)
      → IsSound (core s)
      → IsCovered n s
      → IsCovered n (reschedule registry c s)
  unfolding reschedule
  reschedule-IsCovered c s sound h =
      >>-takes (λ t. IsSound (core t) × IsCovered n t × (n ≡ c.sheet_id → HasInterval n t))
        (IsCovered n) (restart registry c) (resume c) s
        (
          rw (restart-core registry c s) sound,
          restarted,
          (λ is. restart-registers registry laws n c s (sym is)),
        )
        (λ t (_, covered, _). covered)
        (λ t (sound', covered, interval). elim (Bool-cases (n == c.sheet_id)) [
          | inl same ↦
              let is = (==_iff n c.sheet_id).0 same in
              rescheduled-IsCovered c.sheet_id t is (interval is)
          | inr other ↦ resumed-IsCovered c.sheet_id t (==_ne n c.sheet_id other) sound' covered
        ])
    where
      restarted : IsCovered n (restart registry c s).1
      restarted =
          IsCovered-same registry laws n (restart registry c s).1 s (restart-core registry c s)
            (λ i. elim (Bool-cases (n == c.sheet_id)) [
              | inl same ↦
                  restart-registers registry laws n c s (sym ((==_iff n c.sheet_id).0 same))
              | inr other ↦ restart-keeps registry laws n c s (==_ne n c.sheet_id other) i
            ])
            h

  -- A config is updated, and neither disables the sheet nor leaves it for another.
  pub update-IsCovered :
      (c : GoogleSheetConfig) (s : Scheduler)
      → (c.enabled ≡ false → n ≢ c.sheet_id)
      → (get ◌==◌ c.id s.config_id_to_sheet_id ≡ some n → c.sheet_id ≡ n)
      → IsSound (core s)
      → IsCovered n s
      → IsCovered n (handle_config_update registry (some c) s)
  unfolding handle_config_update
  update-IsCovered c s on linked sound h = toggled c.enabled on
    where
      sound' : IsSound (core (relink registry c s))
      sound' = relink-IsSound registry c s sound

      h' : IsCovered n (relink registry c s)
      h' =
          unlink-IsCovered registry laws n (get ◌==◌ c.id s.config_id_to_sheet_id) c.sheet_id s
            linked h

      toggled :
          (b : Bool)
          → (b ≡ false → n ≢ c.sheet_id)
          → IsCovered n (toggle registry b c (relink registry c s))
      toggled true f =
          reschedule-IsCovered c
            (record (relink registry c s) {
              intervals = set ◌==◌ c.sheet_id (interval_ms c) (relink registry c s).intervals;
            })
            sound' h'
      toggled false f =
          IsCovered-same registry laws n
            (delete_interval registry c.sheet_id (relink registry c s)).1 (relink registry c s)
            (delete_interval-core registry c.sheet_id (relink registry c s))
            (delete-other registry laws n c.sheet_id (relink registry c s) (f refl)) h'
