-- ===== src/Worker.antt =====
-- src/worker/bgworker.c: the sleep between two cycles, the loop that drains the ring, a cycle, and
-- the request for an immediate flush.
--
-- The exporter (C++ around the ClickHouse and OpenTelemetry libraries) is a parameter, an action on
-- the state of the rest of the system; so is the handling of signals between two batches. Activity
-- reports, waiting on the latch and log lines are left out.
pub mod Drain
pub mod Flush
pub mod Process
use pg_stat_ch_otel_backend.Base.{
  ℕ, zero, suc, ◌+◌, ◌^◌, ◌%◌, Bool, true, false, Option, none, some, ltb, leb, max, not, ◌==◌,
  if◌then◌else◌,
}
use pg_stat_ch_otel_backend.Ring.{Shared}
use pg_stat_ch_otel_backend.Stats.{get_bgworker_pid, set_bgworker_pid}

-- The settings that the worker reads.
pub record Settings : Type 0 where
  pub enabled : Bool
  pub batch_max : ℕ
  pub flush_interval_ms : ℕ

-- CalculateSleepMs, from PschGetConsecutiveFailures() and PschGetRetryDelayMs()
unfoldable pub calculate_sleep_ms : Settings → ℕ → ℕ → ℕ
calculate_sleep_ms cfg failures backoff_ms =
    let sleep_ms = cfg.flush_interval_ms in
    if ltb 0 failures then (if ltb sleep_ms backoff_ms then backoff_ms else sleep_ms) else sleep_ms

-- What the worker calls, on a state `S` that holds the settings.
pub record Environment (S : Type 0) : Type 0 where
  pub settings : S → Settings
  -- PschExportBatch: `none` where it raises an error, and else the count of events
  pub export_batch : S → Option ℕ × S
  -- ProcessPendingSignals, which may reload the settings
  pub process_signals : S → S

module _ {S : Type 0} (env : Environment S) where
  -- One round of the loop in ExportBatchWithRecovery; true if the loop goes on.
  unfoldable pub round : S → Bool × S
  round s =
      let (result, s1) = env.export_batch s in
      let exported : ℕ = elim result [ none ↦ 0 | some n ↦ n ] in
      if ltb exported (env.settings s1).batch_max
      then (false, s1)
      else (let s2 = env.process_signals s1 in ((env.settings s2).enabled, s2))

  -- ExportBatchWithRecovery, for at most `fuel` rounds; `none` if it would go on.
  unfoldable pub drain : ℕ → S → Option S
  unfolding round
  drain zero s = none
  drain (suc fuel) s =
      let (more, s') = round s in let rest = drain fuel s' in if more then rest else some s'

  -- RunExportCycle after the wait
  unfoldable pub run_export_cycle : ℕ → S → Option S
  run_export_cycle fuel s =
      let s' = env.process_signals s in if (env.settings s').enabled then drain fuel s' else some s'

-- What `kill(pid, SIGUSR2)` answers.
pub data Kill : Type 0 where
  delivered : Kill
  no_such_process : Kill
  refused : Kill

-- The compare and exchange of PschSignalFlush: the stored process id becomes 0 if it is still the
-- one that was read.
unfoldable pub clear_stale : {T : Type 0} → ℕ → Shared T → Shared T
clear_stale bgworker_pid s =
    if s.bgworker_pid == bgworker_pid % 2 ^ 32 then record s { bgworker_pid = 0 } else s

-- PschSignalFlush, with the answer of `kill` and the shared state as it is by then (`others`); true
-- if it warns.
unfoldable pub signal_flush :
    {T : Type 0} → Kill → (Shared T → Shared T) → Option (Shared T) → Bool × Option (Shared T)
unfolding clear_stale
signal_flush answer others none = (true, none)
signal_flush answer others (some s) =
    let bgworker_pid = get_bgworker_pid (some s) in
    if bgworker_pid == 0 then (true, some s) else elim answer [
      | delivered ↦ (false, some (others s))
      | refused ↦ (true, some (others s))
      | no_such_process ↦ (true, some (clear_stale bgworker_pid (others s)))
    ]
