-- ===== src/Ring.antt =====
-- src/queue/shmem.c and the state of src/queue/psch_dsa.h: the ring of events in shared memory, with
-- its counters. Locks and barriers are not part of the state: a function below is what one process
-- does, and where others may run in between, what they do is an argument.
pub mod Live
pub mod Read
pub mod Write
pub mod Window
pub mod Valid
pub mod Refine
use pg_stat_ch_otel_backend.Base.{
  ℕ, ◌+◌, ◌-◌, ◌^◌, ◌%◌, Bool, true, false, Option, none, some, List, [], ◌∷◌, min, bit_and, set,
  get_or, ltb, leb, ◌==◌, ◌&&◌, ◌||◌, if◌then◌else◌,
}
use pg_stat_ch_otel_backend.Base.Int.{ℤ}
use pg_stat_ch_otel_backend.Event.{Event, RingEntry, CmdType, max_err_msg_len, max_query_len}
use pg_stat_ch_otel_backend.Store.{Store, External}
use pg_stat_ch_otel_backend.Dsa.{add64, alloc_string, resolve_string}
use pg_stat_ch_otel_backend.Intern.{acquire, resolve_and_release}

-- PschSharedState, with the slots that follow it in memory. `overflow_logged` is the atomic flag,
-- `warnings` counts the warnings of HandleOverflow in the log.
pub record Shared (T : Type 0) : Type 0 where
  pub store : Store T
  pub capacity : ℕ
  pub head : ℕ
  pub enqueued : ℕ
  pub dropped : ℕ
  pub overflow_logged : Bool
  pub warnings : ℕ
  pub tail : ℕ
  pub exported : ℕ
  pub send_failures : ℕ
  pub last_success_ts : ℕ
  pub last_error_ts : ℕ
  pub last_error_text : List ℕ
  pub bgworker_pid : ℕ
  pub slots : List RingEntry

-- The settings that the queue reads.
pub record Config : Type 0 where
  pub enabled : Bool
  pub force_locked_overflow : Bool

-- `uint64` subtraction
abbrev pub sub64 : ℕ → ℕ → ℕ
sub64 a b = (a + 2 ^ 64 - b) % 2 ^ 64

abbrev pub size : {T : Type 0} → Shared T → ℕ
size s = sub64 s.head s.tail

-- A slot of zeroed memory.
abbrev pub zero_slot : RingEntry
zero_slot = record {
  prefix = record {
    ts_start = 0;
    duration_us = 0;
    dbid = 0;
    userid = 0;
    datname = 0 ∷ [];
    datname_len = 0;
    username = 0 ∷ [];
    username_len = 0;
    pid = 0;
    queryid = 0;
    top_level = false;
    cmd_type = CmdType.unknown;
    rows = 0;
    buffers = record {
      shared_blks_hit = 0;
      shared_blks_read = 0;
      shared_blks_dirtied = 0;
      shared_blks_written = 0;
      local_blks_hit = 0;
      local_blks_read = 0;
      local_blks_dirtied = 0;
      local_blks_written = 0;
      temp_blks_read = 0;
      temp_blks_written = 0;
    };
    io = record {
      shared_blk_read_time_us = 0;
      shared_blk_write_time_us = 0;
      local_blk_read_time_us = 0;
      local_blk_write_time_us = 0;
      temp_blk_read_time_us = 0;
      temp_blk_write_time_us = 0;
    };
    wal = record { wal_records = 0; wal_fpi = 0; wal_bytes = 0 };
    cpu = record { cpu_user_time_us = ℤ.pos 0; cpu_sys_time_us = ℤ.pos 0 };
    jit = record {
      jit_functions = 0;
      jit_generation_time_us = 0;
      jit_deform_time_us = 0;
      jit_inlining_time_us = 0;
      jit_optimization_time_us = 0;
      jit_emission_time_us = 0;
    };
    parallel_workers_planned = 0;
    parallel_workers_launched = 0;
    err_sqlstate = [];
    err_elevel = 0;
    err_message_len = 0;
    application_name = 0 ∷ [];
    application_name_len = 0;
    client_addr = 0 ∷ [];
    client_addr_len = 0;
    query_len = 0;
  };
  err_message_dsa = 0;
  query_dsa = 0;
}

-- HandleOverflow: the event is counted, and the first one since the last reset is logged.
unfoldable pub handle_overflow : {T : Type 0} → Shared T → Shared T
handle_overflow s = record s {
  dropped = add64 s.dropped 1;
  overflow_logged = true;
  warnings = if s.overflow_logged then s.warnings else s.warnings + 1;
}

module _ {T : Type 0} (ext : External T) where
  -- Steps 1 and 2 of TryEnqueueLocked: what the slot holds, and the store with its strings.
  unfoldable pub fill_slot : Store T → Event → RingEntry × Store T
  fill_slot st event =
      let (err_dsa, st1) =
        alloc_string ext st event.err_message event.err_message_len max_err_msg_len in
      let err_len =
        if ltb 0 event.err_message_len && (err_dsa == 0) then 0 else event.err_message_len in
      if ltb 0 event.query_len
      then (let clamped_len = min event.query_len ((max_query_len - 1) % 2 ^ 16) in
          let (query_dsa, st2) =
            acquire ext (λ o. o) st1 event.dbid event.queryid event.query clamped_len in
          (
            record {
              prefix = record event.prefix {
                err_message_len = err_len;
                query_len = if query_dsa == 0 then 0 else clamped_len;
              };
              err_message_dsa = err_dsa;
              query_dsa = query_dsa;
            },
            st2,
          ))
      else (
        record {
          prefix = record event.prefix { err_message_len = err_len };
          err_message_dsa = err_dsa;
          query_dsa = 0;
        },
        st1,
      )

  -- TryEnqueueLocked
  unfoldable pub try_enqueue_locked : Config → Shared T → Event → ℕ → Bool × Shared T
  unfolding handle_overflow
  try_enqueue_locked cfg s event capacity =
      if leb capacity (sub64 s.head s.tail) || cfg.force_locked_overflow
      then (false, handle_overflow s)
      else (let (slot, st) = fill_slot s.store event in
          (
            true,
            record s {
              store = st;
              slots = set s.slots (bit_and s.head (capacity - 1)) slot;
              head = add64 s.head 1;
              enqueued = add64 s.enqueued 1;
            },
          ))

  -- The event that a slot stands for, and the store when its strings are read and given back.
  unfoldable pub read_slot : Store T → RingEntry → Event × Store T
  read_slot st slot =
      let (err_message, err_len, st1) =
        resolve_string st slot.err_message_dsa slot.err_message_len max_err_msg_len in
      let (query, query_len, st2) = resolve_and_release ext st1 slot.query_dsa max_query_len in
      (
        record {
          prefix = record slot.prefix { err_message_len = err_len; query_len = query_len };
          err_message = err_message;
          query = query;
        },
        st2,
      )

  -- PschDequeueEvent
  unfoldable pub dequeue_event : Shared T → Option Event × Shared T
  dequeue_event s =
      if s.head == s.tail
      then (none, s)
      else (let (event, st) =
            read_slot s.store (get_or s.slots (bit_and s.tail (s.capacity - 1)) zero_slot) in
          (some event, record s { store = st; tail = add64 s.tail 1 }))

  -- The loop of PschEnqueueBatch under the lock: the count of the events that were taken.
  unfoldable pub enqueue_all : Config → Shared T → List Event → ℕ → ℕ → ℕ × Shared T
  enqueue_all cfg s [] capacity n = (n, s)
  enqueue_all cfg s (e ∷ es) capacity n =
      let (taken, s') = try_enqueue_locked cfg s e capacity in
      enqueue_all cfg s' es capacity (if taken then n + 1 else n)

-- The loop of PschEnqueueBatch on its fast path: one HandleOverflow for each event.
unfoldable pub drop_all : {T : Type 0} → Shared T → List Event → Shared T
drop_all s [] = s
drop_all s (e ∷ es) = drop_all (handle_overflow s) es
