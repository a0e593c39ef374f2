-- ===== src/Hooks/Build/Ready.antt =====
-- The strings of an event stay within its buffers, and terminated, while the hooks fill it.
use pg_stat_ch_otel_backend.Base.{ℕ, refl, Bool, some, arith, Bool-cases, Option-cases, inl, inr}
use pg_stat_ch_otel_backend.Base.Int.{ℤ}
use pg_stat_ch_otel_backend.Event.{Event, CmdType}
use pg_stat_ch_otel_backend.Strings.{copy_trimmed}
use pg_stat_ch_otel_backend.Ring.Write.{IsFormed}
use pg_stat_ch_otel_backend.Hooks.Session.{
  Postgres, BackendState, ensure_backend_cache, resolve_names, copy_client_context,
}
use pg_stat_ch_otel_backend.Hooks.Session.Buffers.{Within, get_or-bound, short-Within}
use pg_stat_ch_otel_backend.Hooks.Session.Laws.{
  IsSound, IsNamed, copy_trimmed-Within, resolve_names-IsNamed, copy_client_context-IsNamed,
}
use pg_stat_ch_otel_backend.Hooks.Build.{
  Usage, QueryDesc, ErrorData, copy_usage, with_totals, with_duration, copy_instrumentation,
  copy_error, unnamed_event, init_base_event, copy_jit_instrumentation, copy_parallel_worker_info,
  build_log_event,
}

-- The texts of an event are within its buffers of 2048 bytes, and terminated.
pub record IsText (event : Event) : Type 0 where
  pub message_fits : Within 2048 (event.err_message, event.err_message_len)
  pub query_fits : Within 2048 (event.query, event.query_len)

-- All strings of an event are within its buffers, and terminated.
pub record IsReady (event : Event) : Type 0 where
  pub formed : IsText event
  pub named : IsNamed event

-- The lengths are then those of texts.
pub IsText-IsFormed : (event : Event) → IsText event → IsFormed event
IsText-IsFormed event t = record {
  message_fits =
      omega (arith, get_or-bound event.err_message event.err_message_len t.message_fits.1);
  query_fits = omega (arith, get_or-bound event.query event.query_len t.query_fits.1);
}

resolve_names-IsReady :
    (pg : Postgres) (b : BackendState) (event : Event)
    → IsSound b
    → IsReady event
    → IsReady (resolve_names pg b event).0 × IsSound (resolve_names pg b event).1
unfolding resolve_names
resolve_names-IsReady pg b event v ready =
    let (named, v1) = resolve_names-IsNamed pg b event v ready.named in
    let same : IsText (resolve_names pg b event).0 =
      elim (Bool-cases (ensure_backend_cache pg b).initialized) [
        | inl h ↦
            simp (h, resolve_names)
              (record {
                message_fits = ready.formed.message_fits;
                query_fits = ready.formed.query_fits;
              })
        | inr h ↦
            simp (h, resolve_names)
              (record {
                message_fits = ready.formed.message_fits;
                query_fits = ready.formed.query_fits;
              })
      ] in
    (record { formed = same; named = named }, v1)

pub copy_client_context-IsReady :
    (isspace : ℕ → Bool) (pg : Postgres) (b : BackendState) (event : Event)
    → IsSound b
    → IsReady event
    → IsReady (copy_client_context isspace pg b event).0
      × IsSound (copy_client_context isspace pg b event).1
unfolding copy_client_context
copy_client_context-IsReady isspace pg b event v ready =
    let (named, v1) = copy_client_context-IsNamed isspace pg b event v ready.named in
    let same : IsText (copy_client_context isspace pg b event).0 =
      elim (Bool-cases (ensure_backend_cache pg b).initialized) [
        | inl h ↦
            simp (h, copy_client_context)
              (record {
                message_fits = ready.formed.message_fits;
                query_fits = ready.formed.query_fits;
              })
        | inr h ↦
            simp (h, copy_client_context)
              (record {
                message_fits = ready.formed.message_fits;
                query_fits = ready.formed.query_fits;
              })
      ] in
    (record { formed = same; named = named }, v1)

pub init_base_event-IsReady :
    (pg : Postgres) (b : BackendState) (ts_start : ℕ) (top_level : Bool) (cmd_type : CmdType)
    → IsSound b
    → let (event, b') = init_base_event pg b ts_start top_level cmd_type in
      IsReady event × IsSound b'
unfolding init_base_event
init_base_event-IsReady pg b ts_start top_level cmd_type v =
    resolve_names-IsReady pg b (unnamed_event pg ts_start top_level cmd_type) v (record {
      formed = record { message_fits = (omega arith, refl); query_fits = (omega arith, refl) };
      named = record {
        datname_fits = (omega arith, refl);
        username_fits = (omega arith, refl);
        app_fits = (omega arith, refl);
        client_addr_fits = (omega arith, refl);
      };
    })

-- The numeric fields have nothing to do with it.
pub with_totals-IsReady :
    (query_id rows : ℕ) (cpu_user_us cpu_sys_us : ℤ) (event : Event)
    → IsReady event
    → IsReady (with_totals query_id rows cpu_user_us cpu_sys_us event)
with_totals-IsReady query_id rows cpu_user_us cpu_sys_us event r = record {
  formed = record { message_fits = r.formed.message_fits; query_fits = r.formed.query_fits };
  named = record {
    datname_fits = r.named.datname_fits;
    username_fits = r.named.username_fits;
    app_fits = r.named.app_fits;
    client_addr_fits = r.named.client_addr_fits;
  };
}

pub used_IsReady :
    (usage : Usage) (duration_us : ℕ) (event : Event)
    → IsReady event
    → IsReady (copy_usage usage (with_duration duration_us event))
unfolding copy_usage
used_IsReady usage duration_us event r = record {
  formed = record { message_fits = r.formed.message_fits; query_fits = r.formed.query_fits };
  named = record {
    datname_fits = r.named.datname_fits;
    username_fits = r.named.username_fits;
    app_fits = r.named.app_fits;
    client_addr_fits = r.named.client_addr_fits;
  };
}

pub timed_IsReady :
    (duration_us : ℕ) (event : Event) → IsReady event → IsReady (with_duration duration_us event)
timed_IsReady duration_us event r = record {
  formed = record { message_fits = r.formed.message_fits; query_fits = r.formed.query_fits };
  named = record {
    datname_fits = r.named.datname_fits;
    username_fits = r.named.username_fits;
    app_fits = r.named.app_fits;
    client_addr_fits = r.named.client_addr_fits;
  };
}

pub copy_instrumentation-IsReady :
    (desc : QueryDesc) (elapsed : ℕ) (event : Event)
    → IsReady event
    → IsReady (copy_instrumentation desc elapsed event)
unfolding copy_instrumentation
copy_instrumentation-IsReady desc elapsed event r = elim (Option-cases desc.totaltime) [
  | inl e ↦ simp (e, copy_instrumentation) (timed_IsReady elapsed event r)
  | inr ((total, usage), e) ↦ simp (e, copy_instrumentation) (used_IsReady usage total event r)
]

pub run_IsReady :
    (desc : QueryDesc) (event : Event)
    → IsReady event
    → IsReady (copy_parallel_worker_info desc (copy_jit_instrumentation desc event))
unfolding copy_parallel_worker_info copy_jit_instrumentation
run_IsReady desc event r = elim (Option-cases desc.jit) [
  | inl e ↦
      simp (e, copy_jit_instrumentation, copy_parallel_worker_info)
        (record {
          formed = record {
            message_fits = r.formed.message_fits;
            query_fits = r.formed.query_fits;
          };
          named = record {
            datname_fits = r.named.datname_fits;
            username_fits = r.named.username_fits;
            app_fits = r.named.app_fits;
            client_addr_fits = r.named.client_addr_fits;
          };
        })
  | inr (jit, e) ↦
      simp (e, copy_jit_instrumentation, copy_parallel_worker_info)
        (record {
          formed = record {
            message_fits = r.formed.message_fits;
            query_fits = r.formed.query_fits;
          };
          named = record {
            datname_fits = r.named.datname_fits;
            username_fits = r.named.username_fits;
            app_fits = r.named.app_fits;
            client_addr_fits = r.named.client_addr_fits;
          };
        })
]

copy_error-IsReady :
    (isspace : ℕ → Bool) (edata : ErrorData) (event : Event)
    → IsReady event
    → IsReady (copy_error isspace edata event)
unfolding copy_error
copy_error-IsReady isspace edata event r = elim (Option-cases edata.message) [
  | inl e ↦
      simp (e, copy_error)
        (record {
          formed = record {
            message_fits = r.formed.message_fits;
            query_fits = r.formed.query_fits;
          };
          named = record {
            datname_fits = r.named.datname_fits;
            username_fits = r.named.username_fits;
            app_fits = r.named.app_fits;
            client_addr_fits = r.named.client_addr_fits;
          };
        })
  | inr (text, e) ↦
      simp (e, copy_error)
        (record {
          formed = record {
            message_fits =
                short-Within 2048 (copy_trimmed isspace 2048 (some text)).0
                  (copy_trimmed isspace 2048 (some text)).1 (omega arith)
                  (copy_trimmed-Within isspace 2048 (some text) (omega arith));
            query_fits = r.formed.query_fits;
          };
          named = record {
            datname_fits = r.named.datname_fits;
            username_fits = r.named.username_fits;
            app_fits = r.named.app_fits;
            client_addr_fits = r.named.client_addr_fits;
          };
        })
]

-- The events of the log hook are so too.
pub build_log_event-IsReady :
    (isspace : ℕ → Bool) (pg : Postgres) (b : BackendState) (edata : ErrorData) (now : ℕ)
    (top_level : Bool)
    → IsSound b
    → let (event, b') = build_log_event isspace pg b edata now top_level in
      IsReady event × IsSound b'
unfolding build_log_event
build_log_event-IsReady isspace pg b edata now top_level v =
    let (base, b1) = init_base_event pg b now top_level CmdType.unknown in
    let (ready, v1) = init_base_event-IsReady pg b now top_level CmdType.unknown v in
    copy_client_context-IsReady isspace pg b1 (copy_error isspace edata base) v1
      (copy_error-IsReady isspace edata base ready)
