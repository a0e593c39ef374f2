-- ===== src/Stats.antt =====
-- src/queue/shmem.c: the setup of the shared state, its statistics, and the worker's process id;
-- and the check of the setting that sizes the ring, of src/config/guc.c.
pub mod Laws
pub mod Capacity
use pg_stat_ch_otel_backend.Base.{
  ℕ, zero, suc, ◌+◌, ◌-◌, ◌^◌, ◌%◌, Bool, true, false, Option, none, some, List, [], ◌∷◌, ◌++◌, min,
  take, replicate, bit_and, ◌==◌, if◌then◌else◌,
}
use pg_stat_ch_otel_backend.Base.Int.{ℤ, pos, negsuc}
use pg_stat_ch_otel_backend.Store.{Store}
use pg_stat_ch_otel_backend.Dsa.{add64}
use pg_stat_ch_otel_backend.Ring.{Shared, size, zero_slot}

-- check_psch_queue_capacity
unfoldable pub check_queue_capacity : ℤ → Bool
check_queue_capacity (negsuc n) = false
check_queue_capacity (pos zero) = false
check_queue_capacity (pos (suc n)) = bit_and (suc n) n == 0

-- `strlen`, on the bytes of a buffer
abbrev pub strlen : List ℕ → ℕ
strlen [] = 0
strlen (c ∷ cs) = if c == 0 then 0 else strlen cs + 1

-- `strlcpy`: what the destination holds through its NUL
abbrev pub strlcpy : List ℕ → List ℕ → ℕ → List ℕ
strlcpy dst src n = if n == 0 then dst else take (min (strlen src) (n - 1)) src ++ 0 ∷ []

-- sizeof(psch_shared_state->last_error_text)
abbrev pub error_text_size : ℕ
error_text_size = 256

-- InitializeSharedState, on the area and the table that are created with it. `psch_queue_capacity`
-- is the setting, and the log line is left out.
unfoldable pub initialize_shared_state : {T : Type 0} → Store T → ℕ → Shared T
initialize_shared_state st queue_capacity = record {
  store = record st { oom = 0 };
  capacity = queue_capacity;
  head = 0;
  enqueued = 0;
  dropped = 0;
  overflow_logged = false;
  warnings = 0;
  tail = 0;
  exported = 0;
  send_failures = 0;
  last_success_ts = 0;
  last_error_ts = 0;
  last_error_text = 0 ∷ [];
  bgworker_pid = 0;
  slots = replicate queue_capacity zero_slot;
}

-- The output arguments of PschGetStats.
pub record Stats : Type 0 where
  pub enqueued : ℕ
  pub dropped : ℕ
  pub exported : ℕ
  pub queue_size : ℕ
  pub queue_capacity : ℕ
  pub send_failures : ℕ
  pub last_success_ts : ℕ
  pub last_error : List ℕ
  pub last_error_ts : ℕ
  pub dsa_oom_count : ℕ

-- PschGetStats, into a buffer of `buf_size` bytes that holds `buf`
unfoldable pub get_stats : {T : Type 0} → Option (Shared T) → List ℕ → ℕ → Stats
get_stats none buf buf_size = record {
  enqueued = 0;
  dropped = 0;
  exported = 0;
  queue_size = 0;
  queue_capacity = 0;
  send_failures = 0;
  last_success_ts = 0;
  last_error = if buf_size == 0 then buf else 0 ∷ [];
  last_error_ts = 0;
  dsa_oom_count = 0;
}
get_stats (some s) buf buf_size = record {
  enqueued = s.enqueued;
  dropped = s.dropped;
  exported = s.exported;
  queue_size = size s % 2 ^ 32;
  queue_capacity = s.capacity;
  send_failures = s.send_failures;
  last_success_ts = s.last_success_ts;
  last_error = strlcpy buf s.last_error_text buf_size;
  last_error_ts = s.last_error_ts;
  dsa_oom_count = s.store.oom;
}

-- PschResetStats
unfoldable pub reset_stats : {T : Type 0} → Option (Shared T) → Option (Shared T)
reset_stats none = none
reset_stats (some s) = some (record s {
  enqueued = 0;
  dropped = 0;
  exported = 0;
  send_failures = 0;
  overflow_logged = false;
  store = record s.store { oom = 0 };
  last_success_ts = 0;
  last_error_ts = 0;
  last_error_text = 0 ∷ [];
})

-- PschRecordExportSuccess at the time `now`
unfoldable pub record_export_success : {T : Type 0} → ℕ → Option (Shared T) → Option (Shared T)
record_export_success now none = none
record_export_success now (some s) = some (record s { last_success_ts = now })

-- PschRecordExportFailure at the time `now`; the message may be NULL
unfoldable pub record_export_failure :
    {T : Type 0} → ℕ → Option (List ℕ) → Option (Shared T) → Option (Shared T)
record_export_failure now msg none = none
record_export_failure now none (some s) =
    some (record s { send_failures = add64 s.send_failures 1; last_error_ts = now })
record_export_failure now (some msg) (some s) = some (record s {
  send_failures = add64 s.send_failures 1;
  last_error_ts = now;
  last_error_text = strlcpy s.last_error_text msg error_text_size;
})

-- PschGetBgworkerPid
unfoldable pub get_bgworker_pid : {T : Type 0} → Option (Shared T) → ℕ
get_bgworker_pid none = 0
get_bgworker_pid (some s) = s.bgworker_pid

-- PschSetBgworkerPid
unfoldable pub set_bgworker_pid : {T : Type 0} → ℕ → Option (Shared T) → Option (Shared T)
set_bgworker_pid pid none = none
set_bgworker_pid pid (some s) = some (record s { bgworker_pid = pid % 2 ^ 32 })
