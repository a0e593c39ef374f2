-- ===== src/Hooks/Build.antt =====
-- The events that the hooks of src/hooks/hooks.c build.
--
-- Times are in microseconds; the conversions of INSTR_TIME_GET_MICROSEC are PostgreSQL's.
pub mod Ready
pub mod Laws
use pg_stat_ch_otel_backend.Base.{
  ℕ, zero, suc, ◌+◌, ◌*◌, ◌/◌, ◌%◌, ◌^◌, Bool, true, false, Option, none, some, List, [], ◌∷◌, leb,
  ltb, ◌==◌, ◌&&◌, if◌then◌else◌,
}
use pg_stat_ch_otel_backend.Base.Int.{ℤ, pos, sub_ℕ}
use pg_stat_ch_otel_backend.Event.{
  Event, Prefix, CmdType, BufferUsage, IoTiming, WalUsage, JitUsage, max_query_len, max_err_msg_len,
}
use pg_stat_ch_otel_backend.Ring.{zero_slot}
use pg_stat_ch_otel_backend.Strings.{copy_trimmed}
use pg_stat_ch_otel_backend.Cache.{HashTable, Cache, lookup}
use pg_stat_ch_otel_backend.Hooks.Session.{
  Postgres, BackendState, resolve_names, copy_client_context,
}

-- CmdType of PostgreSQL
pub data PgCmd : Type 0 where
  cmd_unknown cmd_select cmd_update cmd_insert cmd_delete cmd_merge cmd_utility cmd_nothing : PgCmd

-- ConvertCmdType
unfoldable pub convert_cmd_type : PgCmd → CmdType
convert_cmd_type PgCmd.cmd_select = CmdType.select
convert_cmd_type PgCmd.cmd_update = CmdType.update
convert_cmd_type PgCmd.cmd_insert = CmdType.insert
convert_cmd_type PgCmd.cmd_delete = CmdType.delete
convert_cmd_type PgCmd.cmd_merge = CmdType.merge
convert_cmd_type PgCmd.cmd_utility = CmdType.utility
convert_cmd_type PgCmd.cmd_nothing = CmdType.nothing
convert_cmd_type PgCmd.cmd_unknown = CmdType.unknown

-- `struct timeval`
pub record Timeval : Type 0 where
  pub tv_sec : ℕ
  pub tv_usec : ℕ

-- TimeDiffMicrosec
unfoldable pub time_diff_microsec : Timeval → Timeval → ℤ
time_diff_microsec end start =
    sub_ℕ (end.tv_sec * 1000000 + end.tv_usec) (start.tv_sec * 1000000 + start.tv_usec)

-- The loop of UnpackSqlState, for `n` more characters: PGUNSIXBIT of the low six bits
unfoldable pub unpack_sql_state : ℕ → ℕ → List ℕ
unpack_sql_state zero sql_state = 0 ∷ []
unpack_sql_state (suc n) sql_state = (sql_state % 64 + b'0') ∷ unpack_sql_state n (sql_state / 64)

-- `psch_min_duration_us` and `psch_sample_rate`, the rate as a count of some unit `one`
pub record Sampling : Type 0 where
  pub min_duration_us : ℕ
  pub sample_rate : ℕ
  pub one : ℕ

-- ShouldSampleEvent, with the number that pg_prng_double draws
unfoldable pub should_sample_event : Sampling → ℕ → ℕ → Bool
should_sample_event cfg draw duration_us =
    if (cfg.min_duration_us == 0) && leb cfg.one cfg.sample_rate
    then true
    else (if leb cfg.min_duration_us duration_us
        then true
        else (if leb cfg.sample_rate 0
            then false
            else (if leb cfg.one cfg.sample_rate then true else ltb draw cfg.sample_rate)))

-- `BufferUsage` of PostgreSQL, with its timings, and `WalUsage`
pub record Usage : Type 0 where
  pub buffers : BufferUsage
  pub io : IoTiming
  pub wal : WalUsage

-- CopyBufferUsage, CopyIoTiming and CopyWalUsage
unfoldable pub copy_usage : Usage → Event → Event
copy_usage usage event = record event {
  prefix = record event.prefix { buffers = usage.buffers; io = usage.io; wal = usage.wal };
}

-- What the executor hands over: `queryId`, `es_processed`, `totaltime` (its total and its usage),
-- `es_jit` and the parallel workers of the state.
pub record QueryDesc : Type 0 where
  pub operation : PgCmd
  pub query_id : ℕ
  pub processed : ℕ
  pub totaltime : Option (ℕ × Usage)
  pub jit : Option JitUsage
  pub workers_to_launch : ℕ
  pub workers_launched : ℕ

-- InitEventPartial
abbrev pub init_event_partial : Event
init_event_partial = record { prefix = zero_slot.prefix; err_message = 0 ∷ []; query = 0 ∷ [] }

-- The event before ResolveNames in InitBaseEvent
abbrev pub unnamed_event : Postgres → ℕ → Bool → CmdType → Event
unnamed_event pg ts_start top_level cmd_type = record init_event_partial {
  prefix = record zero_slot.prefix {
    ts_start = ts_start;
    dbid = pg.my_database_id;
    userid = pg.user_id;
    pid = pg.my_proc_pid;
    top_level = top_level;
    cmd_type = cmd_type;
  };
}

-- InitBaseEvent
unfoldable pub init_base_event : Postgres → BackendState → ℕ → Bool → CmdType → Event × BackendState
unfolding resolve_names
init_base_event pg b ts_start top_level cmd_type =
    resolve_names pg b (unnamed_event pg ts_start top_level cmd_type)

-- The assignments to the fields of the event.
abbrev pub with_totals : ℕ → ℕ → ℤ → ℤ → Event → Event
with_totals query_id rows cpu_user_us cpu_sys_us event = record event {
  prefix = record event.prefix {
    queryid = query_id;
    rows = rows;
    cpu = record { cpu_user_time_us = cpu_user_us; cpu_sys_time_us = cpu_sys_us };
  };
}

abbrev pub with_duration : ℕ → Event → Event
with_duration duration_us event = record event {
  prefix = record event.prefix { duration_us = duration_us };
}

-- The branch on `totaltime` in BuildEventFromQueryDesc
unfoldable pub copy_instrumentation : QueryDesc → ℕ → Event → Event
unfolding copy_usage
copy_instrumentation desc elapsed event = elim desc.totaltime [
  | none ↦ with_duration elapsed event
  | some (total, usage) ↦ copy_usage usage (with_duration total event)
]

-- CopyJitInstrumentation
unfoldable pub copy_jit_instrumentation : QueryDesc → Event → Event
copy_jit_instrumentation desc event = elim desc.jit [
  | none ↦ event
  | some jit ↦ record event { prefix = record event.prefix { jit = jit } }
]

-- CopyParallelWorkerInfo
unfoldable pub copy_parallel_worker_info : QueryDesc → Event → Event
copy_parallel_worker_info desc event = record event {
  prefix = record event.prefix {
    parallel_workers_planned = desc.workers_to_launch;
    parallel_workers_launched = desc.workers_launched;
  };
}

module _ {H : Type 0} (table : HashTable H) where
  -- CopyQueryText: a miss leaves the text empty.
  unfoldable pub copy_query_text : Cache H → ℕ → Event → Event × Cache H
  copy_query_text cache query_id event =
      let (found, cache') = lookup table cache query_id max_query_len in
      elim found [
        | none ↦ (event, cache')
        | some (text, len) ↦ (
          record event { prefix = record event.prefix { query_len = len }; query = text },
          cache',
        )
      ]

  -- What BuildEventFromQueryDesc and BuildEventForUtility end with: CopyClientContext and
  -- CopyQueryText
  unfoldable pub finish_event :
      (ℕ → Bool) → Postgres → BackendState × Cache H → ℕ → Event → Event × BackendState × Cache H
  unfolding copy_client_context copy_query_text
  finish_event isspace pg (b, cache) query_id event =
      let (event1, b1) = copy_client_context isspace pg b event in
      let (event2, cache1) = copy_query_text cache query_id event1 in (event2, b1, cache1)

  -- BuildEventFromQueryDesc; `elapsed` is the time since `query_start_ts`
  unfoldable pub build_event_from_query_desc :
      (ℕ → Bool)
      → Postgres
      → BackendState × Cache H
      → QueryDesc
      → ℕ
      → Bool
      → ℤ
      → ℤ
      → ℕ
      → Event × BackendState × Cache H
  unfolding init_base_event convert_cmd_type copy_instrumentation copy_jit_instrumentation
      copy_parallel_worker_info finish_event
  build_event_from_query_desc isspace pg (b, cache) desc query_start_ts top_level cpu_user_us
        cpu_sys_us elapsed =
      let (base, b1) =
        init_base_event pg b query_start_ts top_level (convert_cmd_type desc.operation) in
      let event = with_totals desc.query_id desc.processed cpu_user_us cpu_sys_us base in
      let timed = copy_instrumentation desc elapsed event in
      finish_event isspace pg (b1, cache) desc.query_id
        (copy_parallel_worker_info desc (copy_jit_instrumentation desc timed))

  -- BuildEventForUtility
  unfoldable pub build_event_for_utility :
      (ℕ → Bool)
      → Postgres
      → BackendState × Cache H
      → ℕ
      → ℕ
      → ℕ
      → Bool
      → ℕ
      → Usage
      → ℤ
      → ℤ
      → Event × BackendState × Cache H
  unfolding init_base_event copy_usage finish_event
  build_event_for_utility isspace pg (b, cache) query_id start_ts duration_us is_top_level rows
        usage cpu_user_us cpu_sys_us =
      let (base, b1) = init_base_event pg b start_ts is_top_level CmdType.utility in
      let event = with_totals query_id rows cpu_user_us cpu_sys_us base in
      finish_event isspace pg (b1, cache) query_id
        (copy_usage usage (with_duration duration_us event))

-- ErrorData: `elevel`, `sqlerrcode` and `message`
pub record ErrorData : Type 0 where
  pub elevel : ℕ
  pub sqlerrcode : ℕ
  pub message : Option (List ℕ)

-- The fields of the error itself in CaptureLogEvent
unfoldable pub copy_error : (ℕ → Bool) → ErrorData → Event → Event
unfolding unpack_sql_state
copy_error isspace edata base =
    let event : Event = record base {
      prefix = record base.prefix {
        err_sqlstate = unpack_sql_state 5 edata.sqlerrcode;
        err_elevel = edata.elevel % 2 ^ 8;
      };
    } in
    elim edata.message [
      | none ↦ event
      | some text ↦
          let (err_message, len) = copy_trimmed isspace max_err_msg_len (some text) in
          record event {
            prefix = record event.prefix { err_message_len = len % 2 ^ 16 };
            err_message = err_message;
          }
    ]

-- CaptureLogEvent up to the call of PschEnqueueEvent, at the time `now`
unfoldable pub build_log_event :
    (ℕ → Bool) → Postgres → BackendState → ErrorData → ℕ → Bool → Event × BackendState
unfolding init_base_event copy_error copy_client_context
build_log_event isspace pg b edata now top_level =
    let (base, b1) = init_base_event pg b now top_level CmdType.unknown in
    copy_client_context isspace pg b1 (copy_error isspace edata base)
