-- ===== src/Worker/Drain.antt =====
-- The drain loop ends, and the sleep is the longer of interval and delay.
use pg_stat_ch_otel_backend.Base.{
  ℕ, zero, suc, ◌+◌, ◌<◌, ◌≤◌, ◌≡◌, refl, true, false, none, some, max, ltb, ◌==◌, arith,
  if◌then◌else◌, Bool-cases, Option-cases, inl, inr,
}
use pg_stat_ch_otel_backend.Worker.{
  Settings, Environment, calculate_sleep_ms, round, drain, run_export_cycle,
}

-- CalculateSleepMs is the greater of the flush interval and the retry delay while there are
-- failures, and the flush interval otherwise.
pub calculate_sleep_ms_lem :
    (cfg : Settings) (failures backoff_ms : ℕ)
    → calculate_sleep_ms cfg failures backoff_ms
      ≡ max cfg.flush_interval_ms (if failures == 0 then 0 else backoff_ms)
unfolding calculate_sleep_ms
calculate_sleep_ms_lem cfg failures backoff_ms = ground arith

module _ {S : Type 0} (env : Environment S) (Sound : S → Type 0) (queued : S → ℕ) where
  -- On sound states, the exporter takes what it exports out of the ring, and while the worker drains
  -- it nobody adds more events; a batch is not empty.
  pub record IsDraining : Type 0 where
    pub takes :
        (s : S) (n : ℕ)
        → Sound s
        → (env.export_batch s).0 ≡ some n
        → queued (env.export_batch s).1 + n ≤ queued s
    pub keeps : (s : S) → Sound s → Sound (env.export_batch s).1
    pub quiet : (s : S) → Sound s → queued (env.process_signals s) ≤ queued s
    pub undisturbed : (s : S) → Sound s → Sound (env.process_signals s)
    pub batches : (s : S) → 0 < (env.settings s).batch_max

  module _ (draining : IsDraining) where
    -- A round that goes on has taken an event.
    round-less :
        (s : S)
        → Sound s
        → (round env s).0 ≡ true
        → (queued (round env s).1 < queued s) × Sound (round env s).1
    unfolding round
    round-less s v more =
        let s1 = (env.export_batch s).1 in
        let v1 = draining.keeps s v in
        elim (Option-cases (env.export_batch s).0) [
          | inl e ↦ absurd (ground (arith, e, more, draining.batches s1))
          | inr (n, e) ↦ elim (Bool-cases (ltb n (env.settings s1).batch_max)) [
            | inl last ↦ absurd (ground (arith, e, last, more))
            | inr full ↦
                rw (e, full, round)
                  (
                    ground (
                      arith,
                      full,
                      draining.takes s n v e,
                      draining.quiet s1 v1,
                      draining.batches s1,
                    ),
                    draining.undisturbed s1 v1,
                  )
          ]
        ]

    last-Sound : (s : S) → Sound s → (round env s).0 ≡ false → Sound (round env s).1
    unfolding round
    last-Sound s v last =
        let s1 = (env.export_batch s).1 in
        let v1 = draining.keeps s v in
        let exported : ℕ = elim (env.export_batch s).0 [ none ↦ 0 | some n ↦ n ] in
        elim (Bool-cases (ltb exported (env.settings s1).batch_max)) [
          | inl less ↦ rw (less, round) v1
          | inr full ↦ rw (full, round) (draining.undisturbed s1 v1)
        ]

    -- ExportBatchWithRecovery ends after at most one round more than there are events.
    pub drain_total :
        (fuel : ℕ) (s : S)
        → Sound s
        → queued s < fuel
        → (s' : S) × (drain env fuel s ≡ some s') × Sound s'
    unfolding drain
    drain_total zero s v h = absurd (omega arith)
    drain_total (suc fuel) s v h = elim (Bool-cases (round env s).0) [
      | inl more ↦
          let (less, v') = round-less s v more in
          let (s', e, v'') = drain_total fuel (round env s).1 v' (omega (arith, less)) in
          (s', rw (more, drain) e, v'')
      | inr last ↦ ((round env s).1, rw (last, drain) refl, last-Sound s v last)
    ]

    -- RunExportCycle returns: more rounds than there are queued events are enough.
    pub run_export_cycle_total :
        (fuel : ℕ) (s : S)
        → Sound s
        → queued s < fuel
        → (s' : S) × (run_export_cycle env fuel s ≡ some s') × Sound s'
    unfolding run_export_cycle
    run_export_cycle_total fuel s v h =
        let v1 = draining.undisturbed s v in
        elim (Bool-cases (env.settings (env.process_signals s)).enabled) [
          | inl on ↦
              let (s', e, v') =
                drain_total fuel (env.process_signals s) v1 (omega (arith, draining.quiet s v)) in
              (s', rw (on, run_export_cycle) e, v')
          | inr off ↦ (env.process_signals s, rw (off, run_export_cycle) refl, v1)
        ]
