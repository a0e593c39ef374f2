-- ===== src/Worker/Flush.antt =====
-- A request for a flush clears the stored process id of a worker that is gone, and no other.
use pg_stat_ch_otel_backend.Base.{
  ◌^◌, ◌%◌, ◌<◌, ◌≡◌, Option, refl, sym, ap₂, Bool, true, false, some, not, ◌&&◌, ◌==◌, inl, inr,
  arith, Bool-cases, if◌then◌else◌,
}
use pg_stat_ch_otel_backend.Ring.{Shared}
use pg_stat_ch_otel_backend.Stats.{get_bgworker_pid}
use pg_stat_ch_otel_backend.Worker.{
  Kill, delivered, no_such_process, refused, clear_stale, signal_flush,
}

abbrev pub is_delivered : Kill → Bool
is_delivered delivered = true
is_delivered no_such_process = false
is_delivered refused = false

abbrev pub is_gone : Kill → Bool
is_gone delivered = false
is_gone no_such_process = true
is_gone refused = false

-- What is left once `kill` was called.
abbrev after_kill :
    {T : Type 0} → Kill → (Shared T → Shared T) → Shared T → Bool × Option (Shared T)
after_kill delivered others s = (false, some (others s))
after_kill no_such_process others s = (true, some (clear_stale s.bgworker_pid (others s)))
after_kill refused others s = (true, some (others s))

known_lem :
    {T : Type 0} (answer : Kill) (others : Shared T → Shared T) (s : Shared T)
    → s.bgworker_pid < 2 ^ 32
    → let stale = is_gone answer && ((others s).bgworker_pid == s.bgworker_pid) in
      after_kill answer others s ≡ (
        not (is_delivered answer),
        some (record (others s) { bgworker_pid = if stale then 0 else (others s).bgworker_pid }),
      )
unfolding clear_stale
known_lem delivered others s small = refl
known_lem refused others s small = refl
known_lem no_such_process others s small =
    elim (Bool-cases ((others s).bgworker_pid == s.bgworker_pid)) [
      | inl same ↦
          let clears : ((others s).bgworker_pid == s.bgworker_pid % 2 ^ 32) ≡ true =
            ground (arith, same) in
          rw (same, clears, clear_stale) refl
      | inr other ↦
          let keeps : ((others s).bgworker_pid == s.bgworker_pid % 2 ^ 32) ≡ false =
            ground (arith, other) in
          rw (other, keeps, clear_stale) refl
    ]

-- PschSignalFlush on a shared state with a stored process id below 2^32, whatever `kill` answers
-- and the other processes do in between: it warns exactly where no id is stored or the signal is
-- not delivered; the id is set to 0 where there is no such process and the id is by then the one
-- that was read, and kept otherwise; all else is left as the others left it, and where no id is
-- stored, all is as it was.
pub signal_flush_lem :
    {T : Type 0} (answer : Kill) (others : Shared T → Shared T) (s : Shared T)
    → s.bgworker_pid < 2 ^ 32
    → let seen = if s.bgworker_pid == 0 then s else others s in
      let stale = is_gone answer && (seen.bgworker_pid == s.bgworker_pid) in
      signal_flush answer others (some s) ≡ (
        not (is_delivered answer && not (s.bgworker_pid == 0)),
        some (record seen { bgworker_pid = if stale then 0 else seen.bgworker_pid }),
      )
unfolding signal_flush get_bgworker_pid clear_stale
signal_flush_lem answer others s small = elim (Bool-cases (s.bgworker_pid == 0)) [
  | inl unset ↦
      let same : (if is_gone answer && (s.bgworker_pid == s.bgworker_pid)
            then 0
            else s.bgworker_pid)
          ≡ s.bgworker_pid =
        ground (arith, unset) in
      let warns : true ≡ not (is_delivered answer && not true) = ground arith in
      rw (unset, signal_flush)
        (ap₂ (λ w k. (w, some (record s { bgworker_pid = k }))) warns (sym same))
  | inr known ↦
      elim answer
        as (λ k. signal_flush k others (some s) ≡ (
          not (is_delivered k && not (s.bgworker_pid == 0)),
          some (record (if s.bgworker_pid == 0 then s else others s) {
            bgworker_pid =
                if is_gone k
                  && ((if s.bgworker_pid == 0 then s else others s).bgworker_pid == s.bgworker_pid)
                then 0
                else (if s.bgworker_pid == 0 then s else others s).bgworker_pid;
          }),
        )) [
          | delivered ↦ rw (known, signal_flush) (known_lem delivered others s small)
          | no_such_process ↦ rw (known, signal_flush) (known_lem no_such_process others s small)
          | refused ↦ rw (known, signal_flush) (known_lem refused others s small)
        ]
]
