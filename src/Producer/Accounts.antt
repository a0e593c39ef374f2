-- ===== src/Producer/Accounts.antt =====
-- Every event that a backend hands in is counted as enqueued, counted as dropped, or waits in its
-- local batch. The counters are of 64 bits.
use pg_stat_ch_otel_backend.Base.{
  ℕ, ◌+◌, ◌%◌, ◌^◌, ◌≡◌, refl, Bool, true, none, some, List, [], ◌∷◌, length, length-append,
  if◌then◌else◌, arith, List-cases, inl, inr,
}
use pg_stat_ch_otel_backend.Event.{Event}
use pg_stat_ch_otel_backend.Store.{External}
use pg_stat_ch_otel_backend.Ring.{
  Shared, Config, handle_overflow, try_enqueue_locked, enqueue_all, drop_all,
}
use pg_stat_ch_otel_backend.Producer.{
  Backend, World, enqueue_batch_shared, enqueue_batch, local_batch_flush, local_batch_add,
  enqueue_event_shared, enqueue_event, suppress_error_capture,
}
use pg_stat_ch_otel_backend.Producer.Invariant.{registered}

abbrev total : {T : Type 0} → Shared T → ℕ
total s = s.enqueued + s.dropped

-- The two counters together.
abbrev pub totals : {T : Type 0} → World T → ℕ
totals w = elim w.shared [ none ↦ 0 | some s ↦ total s ]

-- Enqueued, dropped and waiting events together.
abbrev pub counted : {T : Type 0} → World T → ℕ
counted w = totals w + length w.backend.local_batch

-- Equal modulo 2^64, with `k` more on the right.
abbrev pub Advances : ℕ → ℕ → ℕ → Type 0
Advances k n m = m % 2 ^ 64 ≡ (n + k) % 2 ^ 64

drop_all-Advances :
    {T : Type 0} (s : Shared T) (es : List Event)
    → Advances (length es) (total s) (total (drop_all s es))
unfolding drop_all handle_overflow
drop_all-Advances s [] = omega arith
drop_all-Advances s (e ∷ es) = omega (arith, drop_all-Advances (handle_overflow s) es)

module _ {T : Type 0} (ext : External T) (cfg : Config) where
  try-Advances :
      (s : Shared T) (e : Event) (c : ℕ)
      → Advances 1 (total s) (total (try_enqueue_locked ext cfg s e c).1)
  unfolding try_enqueue_locked handle_overflow
  try-Advances s e c = ground arith

  enqueue_all-Advances :
      (s : Shared T) (es : List Event) (c n : ℕ)
      → Advances (length es) (total s) (total (enqueue_all ext cfg s es c n).1)
  unfolding enqueue_all
  enqueue_all-Advances s [] c n = omega arith
  enqueue_all-Advances s (e ∷ es) c n = omega (
    arith,
    try-Advances s e c,
    enqueue_all-Advances (try_enqueue_locked ext cfg s e c).1 es c
        (if (try_enqueue_locked ext cfg s e c).0 then n + 1 else n),
  )

  -- Meanwhile other processes count no event of this backend's: the consumer, for one.
  module _ (others : Shared T → Shared T) (quiet : (s : Shared T) → total (others s) ≡ total s)
      (on : cfg.enabled ≡ true) where
    batch-Advances :
        (w : World T) (s : Shared T) (es : List Event)
        → w.shared ≡ some s
        → Advances (length es) (counted w) (counted (enqueue_batch ext cfg others w es).1)
    unfolding enqueue_batch enqueue_batch_shared suppress_error_capture
    batch-Advances w s es e =
        ground
          (arith, drop_all-Advances s es, enqueue_all-Advances (others s) es s.capacity 0, quiet s)

    -- While capture is enabled and the shared state is there, and the other processes do not move
    -- the counters in between, PschLocalBatchFlush empties the batch and raises the sum of the
    -- enqueued and dropped counters by the number of events that waited in it, modulo 2^64: each
    -- waiting event ends in one of the two counters.
    pub flush-Advances :
        (w : World T) (s : Shared T)
        → w.shared ≡ some s
        → let w' = (local_batch_flush ext cfg others w).1 in
          (w'.backend.local_batch ≡ [])
          × Advances (length w.backend.local_batch) (totals w) (totals w')
    unfolding local_batch_flush enqueue_batch enqueue_batch_shared suppress_error_capture
    flush-Advances w s e = elim (List-cases w.backend.local_batch) [
      | inl none_left ↦ (ground (arith, none_left), ground (arith, none_left))
      | inr (x, xs, waiting) ↦ (
        ground (arith, waiting, e, on),
        ground (
          arith,
          waiting,
          e,
          on,
          drop_all-Advances s w.backend.local_batch,
          enqueue_all-Advances (others s) w.backend.local_batch s.capacity 0,
          quiet s,
        ),
      )
    ]

    flush_Advances :
        (w : World T) (s : Shared T)
        → w.shared ≡ some s
        → Advances 0 (counted w) (counted (local_batch_flush ext cfg others w).1)
    unfolding local_batch_flush
    flush_Advances w s e = ground (
      arith,
      batch-Advances (record w { backend = record w.backend { local_batch = [] } }) s
          w.backend.local_batch e,
    )

    add-Advances :
        (w : World T) (s : Shared T) (event : Event)
        → w.shared ≡ some s
        → Advances 1 (counted w) (counted (local_batch_add ext cfg others w event))
    unfolding local_batch_add
    add-Advances w s event e = ground (
      arith,
      flush_Advances (registered w) s e,
      length-append (local_batch_flush ext cfg others (registered w)).1.backend.local_batch
          (event ∷ []),
      length-append w.backend.local_batch (event ∷ []),
    )

    event_shared-Advances :
        (got_lock : Bool) (b : Backend) (s : Shared T) (event : Event)
        → Advances 1
            (counted (record { shared = some s; backend = b }))
            (counted (enqueue_event_shared ext cfg others got_lock b s event).1)
    unfolding enqueue_event_shared suppress_error_capture handle_overflow
    event_shared-Advances got_lock b s event = ground (
      arith,
      try-Advances (others s) event s.capacity,
      quiet s,
      add-Advances (record { shared = some (others s); backend = b }) (others s) event refl,
    )

    -- While capture is enabled and the shared state is there, and the other processes do not move
    -- the two counters in between, PschEnqueueEvent raises the sum of the enqueued counter, the
    -- dropped counter and the length of the local batch by exactly 1, modulo 2^64, on every path.
    pub enqueue_event-Advances :
        (got_lock : Bool) (w : World T) (s : Shared T) (event : Event)
        → w.shared ≡ some s
        → Advances 1 (counted w) (counted (enqueue_event ext cfg others got_lock w event).1)
    unfolding enqueue_event
    enqueue_event-Advances got_lock w s event e =
        ground (arith, on, event_shared-Advances got_lock w.backend s event)

-- PschEnqueueEvent leaves the guard against re-entry of the error capture as it found it, on
-- every path.
pub enqueue_event-suppressed :
    {T : Type 0} (ext : External T) (cfg : Config) (others : Shared T → Shared T) (got_lock : Bool)
    (w : World T) (event : Event)
    → (enqueue_event ext cfg others got_lock w event).1.backend.suppressed ≡ w.backend.suppressed
unfolding enqueue_event enqueue_event_shared local_batch_add local_batch_flush enqueue_batch
    enqueue_batch_shared suppress_error_capture
enqueue_event-suppressed ext cfg others got_lock w event = ground arith
