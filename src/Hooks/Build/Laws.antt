-- ===== src/Hooks/Build/Laws.antt =====
-- The strings of the events that the hooks build are within their buffers and terminated, and which
-- queries are sampled.
use pg_stat_ch_otel_backend.Base.{
  ℕ, ◌-◌, ◌<◌, ◌≡◌, ◌++◌, Bool, some, [], ◌∷◌, take, min, ◌==◌, ◌||◌, not, leb, ltb, arith,
  Bool-cases, Option-cases, inl, inr,
}
use pg_stat_ch_otel_backend.Base.Int.{ℤ}
use pg_stat_ch_otel_backend.Event.{Event, CmdType, max_query_len}
use pg_stat_ch_otel_backend.Cache.{HashTable, Cache, CacheEntry, lookup, copy_entry_text}
use pg_stat_ch_otel_backend.Hooks.Session.{Postgres, BackendState, copy_client_context}
use pg_stat_ch_otel_backend.Hooks.Session.Buffers.{
  Within, get_or-bound, copied-Within, short-Within,
}
use pg_stat_ch_otel_backend.Hooks.Session.Laws.{IsSound}
use pg_stat_ch_otel_backend.Hooks.Build.{
  Sampling, should_sample_event, Usage, QueryDesc, convert_cmd_type, copy_usage, with_totals,
  with_duration, copy_instrumentation, init_base_event, copy_jit_instrumentation,
  copy_parallel_worker_info, copy_query_text, finish_event, build_event_from_query_desc,
  build_event_for_utility,
}
use pg_stat_ch_otel_backend.Hooks.Build.Ready.{
  IsReady, copy_client_context-IsReady, init_base_event-IsReady, with_totals-IsReady, used_IsReady,
  copy_instrumentation-IsReady, run_IsReady,
}

-- With a draw below 1, ShouldSampleEvent captures a query exactly where its duration reaches
-- min_duration_us or the draw is below sample_rate.
pub should_sample_event_lem :
    (cfg : Sampling) (draw duration_us : ℕ)
    → draw < cfg.one
    → should_sample_event cfg draw duration_us
      ≡ (leb cfg.min_duration_us duration_us || ltb draw cfg.sample_rate)
unfolding should_sample_event
should_sample_event_lem cfg draw duration_us below = ground (arith, below)

-- Each entry of the cache is a text of less than 2048 bytes, with its NUL at its length.
abbrev pub IsStocked : {H : Type 0} → HashTable H → Cache H → Type 0
IsStocked table cache =
    (k : ℕ) (e : CacheEntry)
    → table.find cache.htab k ≡ some e
    → Within 2048 (e.normalized_query, e.normalized_len)

module _ {H : Type 0} (table : HashTable H) where
  copy_query_text-IsReady :
      (cache : Cache H) (query_id : ℕ) (event : Event)
      → IsStocked table cache
      → IsReady event
      → IsReady (copy_query_text table cache query_id event).0
        × IsStocked table (copy_query_text table cache query_id event).1
  unfolding copy_query_text lookup copy_entry_text
  copy_query_text-IsReady cache query_id event stocked ready =
      elim (Bool-cases (not cache.ready || (max_query_len == 0) || (query_id == 0))) [
        | inl off ↦ simp (off, copy_query_text, lookup) (ready, stocked)
        | inr on ↦ elim (Option-cases (table.find cache.htab query_id)) [
          | inl e ↦ simp (on, e, copy_query_text, lookup) (ready, stocked)
          | inr (d, e) ↦
              let len = min d.normalized_len (max_query_len - 1) in
              simp (on, e, copy_query_text, lookup)
                (
                  record {
                    formed = record {
                      message_fits = ready.formed.message_fits;
                      query_fits =
                          short-Within 2048 (take len d.normalized_query ++ 0 ∷ []) len
                            (omega arith)
                            (copied-Within 2048 len d.normalized_query
                              (omega (
                                arith,
                                get_or-bound d.normalized_query d.normalized_len
                                    (stocked query_id d e).1,
                              ))
                              (omega arith));
                    };
                    named = record {
                      datname_fits = ready.named.datname_fits;
                      username_fits = ready.named.username_fits;
                      app_fits = ready.named.app_fits;
                      client_addr_fits = ready.named.client_addr_fits;
                    };
                  },
                  stocked,
                )
        ]
      ]

  finish_event-IsReady :
      (isspace : ℕ → Bool) (pg : Postgres) (b : BackendState) (cache : Cache H) (query_id : ℕ)
      (event : Event)
      → IsSound b
      → IsStocked table cache
      → IsReady event
      → let (event', b', cache') = finish_event table isspace pg (b, cache) query_id event in
        IsReady event' × IsSound b' × IsStocked table cache'
  unfolding finish_event
  finish_event-IsReady isspace pg b cache query_id event v stocked ready =
      let (ready1, v1) = copy_client_context-IsReady isspace pg b event v ready in
      let event1 = (copy_client_context isspace pg b event).0 in
      let (ready2, stocked2) = copy_query_text-IsReady cache query_id event1 stocked ready1 in
      (ready2, v1, stocked2)

  -- So are the events of utility statements.
  pub build_event_for_utility-IsReady :
      (isspace : ℕ → Bool) (pg : Postgres) (b : BackendState) (cache : Cache H)
      (query_id start_ts duration_us : ℕ) (is_top_level : Bool) (rows : ℕ) (usage : Usage)
      (cpu_user_us cpu_sys_us : ℤ)
      → IsSound b
      → IsStocked table cache
      → let (event, b', cache') =
          build_event_for_utility table isspace pg
            (b, cache)
            query_id
            start_ts
            duration_us
            is_top_level
            rows
            usage
            cpu_user_us
            cpu_sys_us in
        IsReady event × IsSound b' × IsStocked table cache'
  unfolding build_event_for_utility
  build_event_for_utility-IsReady isspace pg b cache query_id start_ts duration_us is_top_level rows
        usage cpu_user_us cpu_sys_us v stocked =
      let (base, b1) = init_base_event pg b start_ts is_top_level CmdType.utility in
      let (ready, v1) = init_base_event-IsReady pg b start_ts is_top_level CmdType.utility v in
      let event = with_totals query_id rows cpu_user_us cpu_sys_us base in
      finish_event-IsReady isspace pg b1 cache query_id
        (copy_usage usage (with_duration duration_us event)) v1 stocked
        (used_IsReady usage duration_us event
          (with_totals-IsReady query_id rows cpu_user_us cpu_sys_us base ready))

  -- Where the cached database, user and address take at most 64, 64 and 46 bytes and each cached
  -- text at most 2048, with a NUL at their length, BuildEventFromQueryDesc keeps both caches so
  -- and builds an event whose database, user, application, address, message and query take at
  -- most 64, 64, 64, 46, 2048 and 2048 bytes, with a NUL at their length; whether the session's
  -- cache is filled, filled now, or cannot be.
  pub build_event_from_query_desc-IsReady :
      (isspace : ℕ → Bool) (pg : Postgres) (b : BackendState) (cache : Cache H) (desc : QueryDesc)
      (query_start_ts : ℕ) (top_level : Bool) (cpu_user_us cpu_sys_us : ℤ) (elapsed : ℕ)
      → IsSound b
      → IsStocked table cache
      → let (event, b', cache') =
          build_event_from_query_desc table isspace pg
            (b, cache)
            desc
            query_start_ts
            top_level
            cpu_user_us
            cpu_sys_us
            elapsed in
        IsReady event × IsSound b' × IsStocked table cache'
  unfolding build_event_from_query_desc
  build_event_from_query_desc-IsReady isspace pg b cache desc query_start_ts top_level cpu_user_us
        cpu_sys_us elapsed v stocked =
      let cmd = convert_cmd_type desc.operation in
      let (base, b1) = init_base_event pg b query_start_ts top_level cmd in
      let (ready, v1) = init_base_event-IsReady pg b query_start_ts top_level cmd v in
      let event = with_totals desc.query_id desc.processed cpu_user_us cpu_sys_us base in
      let timed = copy_instrumentation desc elapsed event in
      finish_event-IsReady isspace pg b1 cache desc.query_id
        (copy_parallel_worker_info desc (copy_jit_instrumentation desc timed)) v1 stocked
        (run_IsReady desc timed (
          copy_instrumentation-IsReady desc elapsed event
            (with_totals-IsReady desc.query_id desc.processed cpu_user_us cpu_sys_us base ready)))
