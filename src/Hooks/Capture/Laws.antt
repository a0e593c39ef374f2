-- ===== src/Hooks/Capture/Laws.antt =====
-- The hooks keep the queue and the backend intact, and the guard of the log hook is put back.
use pg_stat_ch_otel_backend.Base.{
  ℕ, ◌≡◌, refl, sym, Bool, true, false, Option, none, some, not, ◌||◌, ◌==◌, arith, Bool-cases, inl,
  inr,
}
use pg_stat_ch_otel_backend.Base.Int.{ℤ}
use pg_stat_ch_otel_backend.Store.{External}
use pg_stat_ch_otel_backend.Ring.{Shared, Config}
use pg_stat_ch_otel_backend.Producer.{World, suppress_error_capture}
use pg_stat_ch_otel_backend.Producer.Invariant.{IsKept, IsFair}
use pg_stat_ch_otel_backend.Producer.Keeps.{enqueue_event-IsKept}
use pg_stat_ch_otel_backend.Cache.{HashTable}
use pg_stat_ch_otel_backend.Hooks.Session.{Postgres}
use pg_stat_ch_otel_backend.Hooks.Session.Laws.{IsSound}
use pg_stat_ch_otel_backend.Hooks.Build.{
  Sampling, should_sample_event, Usage, QueryDesc, ErrorData, build_event_from_query_desc,
  build_event_for_utility,
}
use pg_stat_ch_otel_backend.Hooks.Build.Ready.{IsText-IsFormed}
use pg_stat_ch_otel_backend.Hooks.Build.Laws.{
  IsStocked, build_event_from_query_desc-IsReady, build_event_for_utility-IsReady,
}
use pg_stat_ch_otel_backend.Hooks.Capture.{
  Local, UtilityStmt, CommandTag, Process, should_track_utility, get_utility_row_count,
  should_capture_log, executor_end, process_utility, emit_log_hook,
}

-- The queue and the local batch, the session's names, and the cache of texts.
pub record IsIntact {T H : Type 0} (ext : External T) (table : HashTable H) (l : Local T H)
    : Type 0 where
  pub kept : IsKept ext l.world
  pub sound : IsSound l.names
  pub stocked : IsStocked table l.cache

module _ {T H : Type 0} (ext : External T) (cfg : Config) (others : Shared T → Shared T)
    (table : HashTable H) (isspace : ℕ → Bool) (pg : Postgres) (got_lock : Bool) where
  capturable :
      (proc : Process) (edata : Option ErrorData) (w : World T)
      → should_capture_log cfg proc pg w edata ≡ true
      → w.backend.suppressed ≡ false
  unfolding should_capture_log
  capturable proc none w h = absurd (ground (arith, h))
  capturable proc (some edata) w h = elim (Bool-cases w.backend.suppressed) [
    | inr e ↦ e
    | inl e ↦ elim (Bool-cases proc.system_init) [
      | inl i ↦ elim (Bool-cases cfg.enabled) [
        | inl c ↦ absurd (ground (arith, h, e, i, c))
        | inr c ↦ absurd (ground (arith, h, e, i, c))
      ]
      | inr i ↦ absurd (ground (arith, h, e, i))
    ]
  ]

  -- PschEmitLogHook leaves the guard against re-entry as it was, also where the capture ends in
  -- an error whatever it did before, and while the guard is held it changes nothing.
  pub emit_log_hook_lem :
      (proc : Process) (edata : Option ErrorData) (now : ℕ) (top_level : Bool)
      (failure : Option (Local T H → Local T H)) (l : Local T H)
      → let l' =
          emit_log_hook ext cfg others table isspace pg got_lock proc edata now top_level failure
            l in
        (l'.world.backend.suppressed ≡ l.world.backend.suppressed)
        × (l.world.backend.suppressed ≡ true → l' ≡ l)
  unfolding emit_log_hook suppress_error_capture
  emit_log_hook_lem proc none now top_level failure l = (refl, λ h. refl)
  emit_log_hook_lem proc (some e) now top_level failure l =
      elim (Bool-cases (should_capture_log cfg proc pg l.world (some e))) [
        | inr off ↦ simp (off, emit_log_hook) (refl, λ h. refl)
        | inl on ↦
            let free = capturable proc (some e) l.world on in
            simp (on, emit_log_hook) (sym free, λ h. absurd (ground (arith, h, free)))
      ]

  module _ (fair : IsFair ext others) where
    -- Where the other processes keep a valid ring valid and do not resize it, PschExecutorEnd
    -- keeps the ring valid and the local batch well-formed; the cached database, user and address
    -- in at most 64, 64 and 46 bytes with a NUL at their length, and each cached text in at most
    -- 2048 bytes with a NUL at its length, stay so; whether the query is skipped, not sampled, or
    -- built into an event and enqueued.
    pub executor_end-IsIntact :
        (parallel_worker : Bool) (sampling : Sampling) (draw : ℕ) (desc : QueryDesc)
        (query_start_ts : ℕ) (top_level : Bool) (cpu_user_us cpu_sys_us : ℤ) (elapsed : ℕ)
        (l : Local T H)
        → IsIntact ext table l
        → IsIntact ext table (
            executor_end ext cfg others table isspace pg got_lock parallel_worker sampling draw desc
              query_start_ts top_level cpu_user_us cpu_sys_us elapsed l)
    unfolding executor_end
    executor_end-IsIntact parallel_worker sampling draw desc query_start_ts top_level cpu_user_us
          cpu_sys_us elapsed l intact =
        let duration_us : ℕ = elim desc.totaltime [
          | none ↦ elapsed
          | some (total, usage) ↦ total
        ] in
        let event =
          (build_event_from_query_desc table isspace pg (l.names, l.cache) desc query_start_ts
            top_level cpu_user_us cpu_sys_us elapsed).0 in
        let (ready, sound, stocked) =
          build_event_from_query_desc-IsReady table isspace pg l.names l.cache desc query_start_ts
            top_level cpu_user_us cpu_sys_us elapsed intact.sound intact.stocked in
        elim (Bool-cases (not cfg.enabled || (parallel_worker || (desc.query_id == 0)))) [
          | inl skip ↦ simp (skip, executor_end) intact
          | inr goes ↦ elim (Bool-cases (should_sample_event sampling draw duration_us)) [
            | inr out ↦ simp (goes, out, executor_end) intact
            | inl sampled ↦
                simp (goes, sampled, executor_end)
                  (record {
                    kept =
                        enqueue_event-IsKept ext cfg others fair got_lock l.world event intact.kept
                          (IsText-IsFormed event ready.formed);
                    sound = sound;
                    stocked = stocked;
                  })
          ]
        ]

    -- PschProcessUtility keeps the same state intact.
    pub process_utility-IsIntact :
        (parallel_worker : Bool) (sampling : Sampling) (draw : ℕ) (stmt : UtilityStmt)
        (query_id start_ts duration_us : ℕ) (is_top_level : Bool) (qc : Option (CommandTag × ℕ))
        (usage : Usage) (cpu_user_us cpu_sys_us : ℤ) (l : Local T H)
        → IsIntact ext table l
        → IsIntact ext table (
            process_utility ext cfg others table isspace pg got_lock parallel_worker sampling draw
              stmt query_id start_ts duration_us is_top_level qc usage cpu_user_us cpu_sys_us l)
    unfolding process_utility
    process_utility-IsIntact parallel_worker sampling draw stmt query_id start_ts duration_us
          is_top_level qc usage cpu_user_us cpu_sys_us l intact =
        let event =
          (build_event_for_utility table isspace pg (l.names, l.cache) query_id start_ts duration_us
            is_top_level (get_utility_row_count qc) usage cpu_user_us cpu_sys_us).0 in
        let (ready, sound, stocked) =
          build_event_for_utility-IsReady table isspace pg l.names l.cache query_id start_ts
            duration_us is_top_level (get_utility_row_count qc) usage cpu_user_us cpu_sys_us
            intact.sound intact.stocked in
        elim (Bool-cases (should_track_utility cfg parallel_worker stmt)) [
          | inr skip ↦ simp (skip, process_utility) intact
          | inl goes ↦ elim (Bool-cases (should_sample_event sampling draw duration_us)) [
            | inr out ↦ simp (goes, out, process_utility) intact
            | inl sampled ↦
                simp (goes, sampled, process_utility)
                  (record {
                    kept =
                        enqueue_event-IsKept ext cfg others fair got_lock l.world event intact.kept
                          (IsText-IsFormed event ready.formed);
                    sound = sound;
                    stocked = stocked;
                  })
          ]
        ]
