-- ===== src/Producer.antt =====
-- What one backend does to the ring: PschEnqueueEvent and PschEnqueueBatch of src/queue/shmem.c, all
-- of src/queue/local_batch.c, and PschSuppressErrorCapture of src/hooks/hooks.c.
--
-- `got_lock` is the answer of LWLockConditionalAcquire. `others` is what the other processes do to
-- the shared state between the check without the lock and the section under it.
pub mod Invariant
pub mod Keeps
pub mod Accounts
pub mod Flush
use pg_stat_ch_otel_backend.Base.{
  ℕ, ◌+◌, Bool, true, false, Option, none, some, List, [], ◌∷◌, ◌++◌, not, length, leb, ◌==◌, ◌||◌,
  if◌then◌else◌,
}
use pg_stat_ch_otel_backend.Event.{Event}
use pg_stat_ch_otel_backend.Store.{External}
use pg_stat_ch_otel_backend.Ring.{
  Shared, Config, size, handle_overflow, try_enqueue_locked, enqueue_all, drop_all,
}

-- The process-local variables: `disable_error_capture`, the first `local_batch_count` events of
-- `local_batch`, and `local_batch_initialized`.
pub record Backend : Type 0 where
  pub suppressed : Bool
  pub local_batch : List Event
  pub local_initialized : Bool

-- `shared` is `none` while psch_shared_state is NULL.
pub record World (T : Type 0) : Type 0 where
  pub shared : Option (Shared T)
  pub backend : Backend

-- PSCH_LOCAL_BATCH_CAPACITY
abbrev pub local_batch_capacity : ℕ
local_batch_capacity = 8

-- PschSuppressErrorCapture: the previous value, and the backend with the new one.
unfoldable pub suppress_error_capture : Backend → Bool → Bool × Backend
suppress_error_capture b suppress = (b.suppressed, record b { suppressed = suppress })

-- The events from XactCallback that end a transaction, and those that do not.
pub data XactEvent : Type 0 where
  commit parallel_commit abort parallel_abort prepare : XactEvent
  pre_commit parallel_pre_commit pre_prepare : XactEvent

module _ {T : Type 0} (ext : External T) (cfg : Config) (others : Shared T → Shared T) where
  -- PschEnqueueBatch below its first guard.
  unfoldable pub enqueue_batch_shared : Backend → Shared T → List Event → ℕ × World T
  unfolding suppress_error_capture
  enqueue_batch_shared b s events =
      let (saved, b1) = suppress_error_capture b true in
      let restored = (suppress_error_capture b1 saved).1 in
      if leb s.capacity (size s)
      then (0, record { shared = some (drop_all s events); backend = restored })
      else (let (enqueued, s') = enqueue_all ext cfg (others s) events s.capacity 0 in
          (enqueued, record { shared = some s'; backend = restored }))

  unfoldable pub enqueue_batch : World T → List Event → ℕ × World T
  enqueue_batch w events = elim w.shared [
    | none ↦ (0, w)
    | some s ↦
        if not cfg.enabled || (length events == 0)
        then (0, w)
        else enqueue_batch_shared w.backend s events
  ]

  -- PschLocalBatchFlush
  unfoldable pub local_batch_flush : World T → ℕ × World T
  local_batch_flush w =
      if length w.backend.local_batch == 0
      then (0, w)
      else enqueue_batch (record w { backend = record w.backend { local_batch = [] } })
          w.backend.local_batch

  -- PschLocalBatchAdd
  unfoldable pub local_batch_add : World T → Event → World T
  local_batch_add w event =
      let w1 = record w { backend = record w.backend { local_initialized = true } } in
      let w2 =
        if leb local_batch_capacity (length w.backend.local_batch)
        then (local_batch_flush w1).1
        else w1 in
      record w2 {
        backend = record w2.backend { local_batch = w2.backend.local_batch ++ event ∷ [] };
      }

  -- PschEnqueueEvent below its first guard.
  unfoldable pub enqueue_event_shared : Bool → Backend → Shared T → Event → Bool × World T
  unfolding suppress_error_capture
  enqueue_event_shared got_lock b s event =
      let (saved, b1) = suppress_error_capture b true in
      let restored = (suppress_error_capture b1 saved).1 in
      if leb s.capacity (size s)
      then (false, record { shared = some (handle_overflow s); backend = restored })
      else if got_lock
      then (let (result, s') = try_enqueue_locked ext cfg (others s) event s.capacity in
          (result, record { shared = some s'; backend = restored }))
      else (true, local_batch_add (record { shared = some (others s); backend = restored }) event)

  -- PschEnqueueEvent
  unfoldable pub enqueue_event : Bool → World T → Event → Bool × World T
  enqueue_event got_lock w event = elim w.shared [
    | none ↦ (false, w)
    | some s ↦
        if not cfg.enabled then (false, w) else enqueue_event_shared got_lock w.backend s event
  ]

  -- PschXactCallback
  unfoldable pub xact_callback : World T → XactEvent → World T
  xact_callback w event = if length w.backend.local_batch == 0 then w else elim event [
    | commit ↦ (local_batch_flush w).1
    | parallel_commit ↦ (local_batch_flush w).1
    | abort ↦ (local_batch_flush w).1
    | parallel_abort ↦ (local_batch_flush w).1
    | prepare ↦ (local_batch_flush w).1
    | _ ↦ w
  ]
