-- ===== src/Producer/Keeps.antt =====
-- Every producer's call keeps the ring valid, the local batch within its array, and the guard
-- against re-entry as it was.
use pg_stat_ch_otel_backend.Base.{
  ◌≤◌, ◌<◌, ◌≡◌, refl, sym, subst, ap, Bool, true, false, some, List, [], ◌∷◌, ◌++◌, not, length,
  length-append, leb, ◌==◌, ◌||◌, if◌then◌else◌, arith, Bool-cases, Option-cases, inl, inr,
}
use pg_stat_ch_otel_backend.Event.{Event}
use pg_stat_ch_otel_backend.Store.{External}
use pg_stat_ch_otel_backend.Ring.{Shared, Config, size}
use pg_stat_ch_otel_backend.Ring.Write.{IsFormed}
use pg_stat_ch_otel_backend.Ring.Valid.{IsValid}
use pg_stat_ch_otel_backend.Ring.Refine.{handle_overflow-IsValid}
use pg_stat_ch_otel_backend.Producer.Invariant.{
  AllFormed, AllFormed-append, RingValid, IsKept, IsFair, registered, registered-IsKept,
  drop_all-IsValid, try-IsValid, enqueue_all-IsValid,
}
use pg_stat_ch_otel_backend.Producer.{
  Backend, World, local_batch_capacity, enqueue_batch_shared, enqueue_batch, local_batch_flush,
  local_batch_add, enqueue_event_shared, enqueue_event, xact_callback, XactEvent, commit,
  parallel_commit, abort, parallel_abort, prepare, pre_commit, parallel_pre_commit, pre_prepare,
}

-- The events that end a transaction in this backend.
abbrev pub ends : XactEvent → Bool
ends commit = true
ends parallel_commit = true
ends abort = true
ends parallel_abort = true
ends prepare = true
ends pre_commit = false
ends parallel_pre_commit = false
ends pre_prepare = false

module _ {T : Type 0} (ext : External T) (cfg : Config) where
  module _ (others : Shared T → Shared T) (fair : IsFair ext others) where
    batch_shared-IsKept :
        (b : Backend) (s : Shared T) (es : List Event)
        → IsValid ext s
        → AllFormed es
        → AllFormed b.local_batch
        → length b.local_batch ≤ local_batch_capacity
        → IsKept ext (enqueue_batch_shared ext cfg others b s es).1
    unfolding enqueue_batch_shared
    batch_shared-IsKept b s es v all formed fits = elim (Bool-cases (leb s.capacity (size s))) [
      | inl full ↦
          rw (full, enqueue_batch_shared)
            (record { ring = drop_all-IsValid s es v; batch_formed = formed; batch_fits = fits })
      | inr free ↦
          rw (free, enqueue_batch_shared)
            (record {
              ring =
                  enqueue_all-IsValid ext cfg (others s) es s.capacity 0 (sym (fair.resizes_not s))
                    (fair.keeps s v) all;
              batch_formed = formed;
              batch_fits = fits;
            })
    ]

    batch-IsKept :
        (w : World T) (es : List Event)
        → IsKept ext w
        → AllFormed es
        → IsKept ext (enqueue_batch ext cfg others w es).1
    unfolding enqueue_batch
    batch-IsKept w es kept all = elim (Option-cases w.shared) [
      | inl e ↦ rw (e, enqueue_batch) kept
      | inr (s, e) ↦ elim (Bool-cases (not cfg.enabled || (length es == 0))) [
        | inl skip ↦ rw (e, skip, enqueue_batch) kept
        | inr on ↦
            rw (e, on, enqueue_batch)
              (batch_shared-IsKept w.backend s es (subst (RingValid ext) e kept.ring) all
                kept.batch_formed kept.batch_fits)
      ]
    ]

    pub flush-IsKept :
        (w : World T) → IsKept ext w → IsKept ext (local_batch_flush ext cfg others w).1
    unfolding local_batch_flush
    flush-IsKept w kept = elim (Bool-cases (length w.backend.local_batch == 0)) [
      | inl e ↦ rw (e, local_batch_flush) kept
      | inr e ↦
          rw (e, local_batch_flush)
            (batch-IsKept (record w { backend = record w.backend { local_batch = [] } })
              w.backend.local_batch
              (record { ring = kept.ring; batch_formed = tt; batch_fits = omega arith })
              kept.batch_formed)
    ]

    -- A batch is handed over without a change to the backend's variables.
    pub batch-backend :
        (w : World T) (es : List Event) → (enqueue_batch ext cfg others w es).1.backend ≡ w.backend
    unfolding enqueue_batch enqueue_batch_shared
    batch-backend w es = ground arith

    -- A flush leaves the batch empty, whatever became of the events.
    pub flush_empties :
        (w : World T) → (local_batch_flush ext cfg others w).1.backend.local_batch ≡ []
    unfolding local_batch_flush
    flush_empties w = elim (Bool-cases (length w.backend.local_batch == 0)) [
      | inl e ↦ ground (arith, e)
      | inr e ↦
          rw (e, local_batch_flush)
            (ap (λ (b : Backend). b.local_batch)
              (batch-backend (record w { backend = record w.backend { local_batch = [] } })
                w.backend.local_batch))
    ]

    extend-IsKept :
        (w : World T) (event : Event)
        → IsKept ext w
        → IsFormed event
        → length w.backend.local_batch < local_batch_capacity
        → IsKept ext (record w {
          backend = record w.backend { local_batch = w.backend.local_batch ++ event ∷ [] };
        })
    extend-IsKept w event kept formed room = record {
      ring = kept.ring;
      batch_formed = AllFormed-append w.backend.local_batch event kept.batch_formed formed;
      batch_fits = omega (arith, length-append w.backend.local_batch (event ∷ []));
    }

    add-IsKept :
        (w : World T) (event : Event)
        → IsKept ext w
        → IsFormed event
        → IsKept ext (local_batch_add ext cfg others w event)
    unfolding local_batch_add
    add-IsKept w event kept formed =
        elim (Bool-cases (leb local_batch_capacity (length w.backend.local_batch))) [
          | inl full ↦
              rw (full, local_batch_add)
                (extend-IsKept (local_batch_flush ext cfg others (registered w)).1 event
                  (flush-IsKept (registered w) (registered-IsKept w kept)) formed
                  (omega
                    (arith, ap (λ (es : List Event). length es) (flush_empties (registered w)))))
          | inr room ↦
              rw (room, local_batch_add)
                (extend-IsKept (registered w) event (registered-IsKept w kept) formed
                  (ground (arith, room)))
        ]

    event_shared-IsKept :
        (got_lock : Bool) (b : Backend) (s : Shared T) (event : Event)
        → IsKept ext (record { shared = some s; backend = b })
        → IsFormed event
        → IsKept ext (enqueue_event_shared ext cfg others got_lock b s event).1
    unfolding enqueue_event_shared
    event_shared-IsKept got_lock b s event kept formed =
        elim (Bool-cases (leb s.capacity (size s))) [
          | inl full ↦
              rw (full, enqueue_event_shared)
                (record {
                  ring = handle_overflow-IsValid kept.ring;
                  batch_formed = kept.batch_formed;
                  batch_fits = kept.batch_fits;
                })
          | inr room ↦ elim (Bool-cases got_lock) [
            | inl locked ↦
                rw (room, locked, enqueue_event_shared)
                  (record {
                    ring =
                        try-IsValid ext cfg (others s) event s.capacity (sym (fair.resizes_not s))
                          (fair.keeps s kept.ring) formed;
                    batch_formed = kept.batch_formed;
                    batch_fits = kept.batch_fits;
                  })
            | inr contended ↦
                rw (room, contended, enqueue_event_shared)
                  (add-IsKept (record { shared = some (others s); backend = b }) event
                    (record {
                      ring = fair.keeps s kept.ring;
                      batch_formed = kept.batch_formed;
                      batch_fits = kept.batch_fits;
                    })
                    formed)
          ]
        ]

    -- Where the other processes keep a valid ring valid and do not resize it, PschEnqueueEvent on
    -- a well-formed event keeps the shared ring valid and the local batch well-formed with at
    -- most 8 events, whether it has no shared state, is disabled, finds the ring full, takes the
    -- lock, or buffers the event and flushes.
    pub enqueue_event-IsKept :
        (got_lock : Bool) (w : World T) (event : Event)
        → IsKept ext w
        → IsFormed event
        → IsKept ext (enqueue_event ext cfg others got_lock w event).1
    unfolding enqueue_event
    enqueue_event-IsKept got_lock w event kept formed = elim (Option-cases w.shared) [
      | inl e ↦ rw (e, enqueue_event) kept
      | inr (s, e) ↦ elim (Bool-cases (not cfg.enabled)) [
        | inl off ↦ rw (e, off, enqueue_event) kept
        | inr on ↦
            rw (e, on, enqueue_event)
              (event_shared-IsKept got_lock w.backend s event
                (record {
                  ring = subst (RingValid ext) e kept.ring;
                  batch_formed = kept.batch_formed;
                  batch_fits = kept.batch_fits;
                })
                formed)
      ]
    ]

    xact_callback-flush :
        (w : World T) (event : XactEvent)
        → xact_callback ext cfg others w event
          ≡ (if ends event then (local_batch_flush ext cfg others w).1 else w)
    unfolding xact_callback local_batch_flush
    xact_callback-flush w event = ground arith

    -- PschXactCallback on a kept state keeps it, with others that are fair; at a commit, abort or
    -- prepare it leaves no event waiting, and at any other transaction event it changes nothing.
    pub xact_callback_lem :
        (w : World T) (event : XactEvent)
        → IsKept ext w
        → IsKept ext (xact_callback ext cfg others w event)
          × ((ends event ≡ true) → (xact_callback ext cfg others w event).backend.local_batch ≡ [])
          × ((ends event ≡ false) → xact_callback ext cfg others w event ≡ w)
    xact_callback_lem w event kept = elim (Bool-cases (ends event)) [
      | inl e ↦
          rw (xact_callback-flush w event, e)
            (flush-IsKept w kept, λ _. flush_empties w, λ z. absurd (ground (arith, z)))
      | inr e ↦
          rw (xact_callback-flush w event, e) (kept, λ z. absurd (ground (arith, z)), λ _. refl)
    ]
