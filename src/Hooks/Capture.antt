-- ===== src/Hooks/Capture.antt =====
-- PschExecutorEnd, PschProcessUtility and PschEmitLogHook of src/hooks/hooks.c: which events are
-- captured, and that they go to the ring.
--
-- Chained hooks are left out, and so is what PostgreSQL executes in between: the statement has run
-- when an event is built.
pub mod Laws
use pg_stat_ch_otel_backend.Base.{
  ℕ, Bool, true, false, Option, none, some, not, leb, ltb, ◌==◌, ◌&&◌, ◌||◌, if◌then◌else◌,
}
use pg_stat_ch_otel_backend.Base.Int.{ℤ}
use pg_stat_ch_otel_backend.Store.{External}
use pg_stat_ch_otel_backend.Ring.{Shared, Config}
use pg_stat_ch_otel_backend.Producer.{World, enqueue_event, suppress_error_capture}
use pg_stat_ch_otel_backend.Cache.{HashTable, Cache}
use pg_stat_ch_otel_backend.Hooks.Session.{Postgres, BackendState}
use pg_stat_ch_otel_backend.Hooks.Build.{
  Sampling, should_sample_event, Usage, QueryDesc, ErrorData, build_event_from_query_desc,
  build_event_for_utility, build_log_event,
}

-- One backend: the queue with its own variables, `backend_state` and its cache of texts.
pub record Local (T H : Type 0) : Type 0 where
  pub world : World T
  pub names : BackendState
  pub cache : Cache H

-- The nodes of utility statements that ShouldTrackUtility tells apart.
pub data UtilityStmt : Type 0 where
  execute_stmt prepare_stmt deallocate_stmt transaction_stmt other_stmt : UtilityStmt

-- ShouldTrackUtility, in a parallel worker or not
unfoldable pub should_track_utility : Config → Bool → UtilityStmt → Bool
should_track_utility cfg parallel_worker stmt =
    if not cfg.enabled || parallel_worker then false else elim stmt [
      | execute_stmt ↦ false
      | prepare_stmt ↦ false
      | deallocate_stmt ↦ false
      | transaction_stmt ↦ false
      | other_stmt ↦ true
    ]

pub data CommandTag : Type 0 where
  tag_copy tag_fetch tag_select tag_refresh_materialized_view other_tag : CommandTag

-- GetUtilityRowCount, of a QueryCompletion that may be NULL
unfoldable pub get_utility_row_count : Option (CommandTag × ℕ) → ℕ
get_utility_row_count none = 0
get_utility_row_count (some (tag, nprocessed)) = elim tag [
  | tag_copy ↦ nprocessed
  | tag_fetch ↦ nprocessed
  | tag_select ↦ nprocessed
  | tag_refresh_materialized_view ↦ nprocessed
  | other_tag ↦ 0
]

-- What ShouldCaptureLog reads beside the settings, the guard and the shared state.
pub record Process : Type 0 where
  pub system_init : Bool
  pub log_min_elevel : ℕ
  pub has_proc : Bool
  pub parallel_worker : Bool
  pub under_postmaster : Bool
  pub bgworker : Bool

-- ShouldCaptureLog, of an ErrorData that may be NULL
unfoldable pub should_capture_log :
    {T : Type 0} → Config → Process → Postgres → World T → Option ErrorData → Bool
should_capture_log cfg proc pg w none = false
should_capture_log cfg proc pg w (some edata) =
    if not proc.system_init || (not cfg.enabled || w.backend.suppressed)
    then false
    else (if ltb edata.elevel proc.log_min_elevel
        then false
        else (if not proc.has_proc || proc.parallel_worker
            then false
            else (if (pg.my_database_id == 0) || not proc.under_postmaster
                then false
                else elim w.shared [ none ↦ false | some s ↦ not proc.bgworker ])))

module _ {T H : Type 0} (ext : External T) (cfg : Config) (others : Shared T → Shared T)
    (table : HashTable H) (isspace : ℕ → Bool) (pg : Postgres) (got_lock : Bool) where
  -- PschExecutorEnd, with `query_start_ts`, `current_query_is_top_level`, the differences of the CPU
  -- times, the time since the start and the draw of the sampling
  unfoldable pub executor_end :
      Bool → Sampling → ℕ → QueryDesc → ℕ → Bool → ℤ → ℤ → ℕ → Local T H → Local T H
  unfolding should_sample_event build_event_from_query_desc
  executor_end parallel_worker sampling draw desc query_start_ts top_level cpu_user_us cpu_sys_us
        elapsed l =
      let duration_us : ℕ = elim desc.totaltime [ none ↦ elapsed | some (total, usage) ↦ total ] in
      let (event, names, cache) =
        build_event_from_query_desc table isspace pg (l.names, l.cache) desc query_start_ts
          top_level cpu_user_us cpu_sys_us elapsed in
      if not cfg.enabled || (parallel_worker || (desc.query_id == 0))
      then l
      else (if not (should_sample_event sampling draw duration_us) then l else record {
        world = (enqueue_event ext cfg others got_lock l.world event).1;
        names = names;
        cache = cache;
      })

  -- PschProcessUtility, once the statement has run: its `queryId`, its start and duration, the
  -- completion, and the differences of usage and CPU times
  unfoldable pub process_utility :
      Bool
      → Sampling
      → ℕ
      → UtilityStmt
      → ℕ
      → ℕ
      → ℕ
      → Bool
      → Option (CommandTag × ℕ)
      → Usage
      → ℤ
      → ℤ
      → Local T H
      → Local T H
  unfolding should_track_utility should_sample_event get_utility_row_count build_event_for_utility
  process_utility parallel_worker sampling draw stmt query_id start_ts duration_us is_top_level qc
        usage cpu_user_us cpu_sys_us l =
      let (event, names, cache) =
        build_event_for_utility table isspace pg (l.names, l.cache) query_id start_ts duration_us
          is_top_level (get_utility_row_count qc) usage cpu_user_us cpu_sys_us in
      if not (should_track_utility cfg parallel_worker stmt)
      then l
      else (if not (should_sample_event sampling draw duration_us) then l else record {
        world = (enqueue_event ext cfg others got_lock l.world event).1;
        names = names;
        cache = cache;
      })

  -- CaptureLogEvent
  unfoldable pub capture_log_event : ErrorData → ℕ → Bool → Local T H → Local T H
  unfolding build_log_event
  capture_log_event edata now top_level l =
      let (event, names) = build_log_event isspace pg l.names edata now top_level in
      record l { world = (enqueue_event ext cfg others got_lock l.world event).1; names = names }

  abbrev guard : Bool → Local T H → Local T H
  guard on l = record l {
    world = record l.world { backend = (suppress_error_capture l.world.backend on).1 };
  }

  -- PschEmitLogHook. Where the capture raises an error, PG_CATCH ends it: `failure` is what it had
  -- done by then.
  unfoldable pub emit_log_hook :
      Process → Option ErrorData → ℕ → Bool → Option (Local T H → Local T H) → Local T H → Local T H
  unfolding should_capture_log capture_log_event suppress_error_capture
  emit_log_hook proc edata now top_level failure l =
      if not (should_capture_log cfg proc pg l.world edata) then l else elim edata [
        | none ↦ l
        | some e ↦
            let guarded = guard true l in
            guard false (elim failure [
              | none ↦ capture_log_event e now top_level guarded
              | some f ↦ f guarded
            ])
      ]
