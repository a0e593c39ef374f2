-- ===== src/Producer/Flush.antt =====
-- How many events of a batch PschEnqueueBatch takes: as many as there is room for.
use pg_stat_ch_otel_backend.Base.{
  ℕ, ◌+◌, ◌-◌, ◌≤◌, ◌<◌, ◌≡◌, refl, subst, true, false, some, List, [], ◌∷◌, length, leb,
  if◌then◌else◌, arith, inl, inr, min, ◌⊎◌,
}
use pg_stat_ch_otel_backend.Event.{Event}
use pg_stat_ch_otel_backend.Store.{External}
use pg_stat_ch_otel_backend.Ring.{
  Shared, Config, size, handle_overflow, try_enqueue_locked, enqueue_all,
}
use pg_stat_ch_otel_backend.Ring.Valid.{IsValid, small-capacity}
use pg_stat_ch_otel_backend.Producer.Invariant.{
  AllFormed, IsFair, IsKept, RingValid, capacity-try, try-IsValid,
}
use pg_stat_ch_otel_backend.Producer.{World, local_batch_flush, enqueue_batch, enqueue_batch_shared}

module _ {T : Type 0} (ext : External T) (cfg : Config)
    (normal : cfg.force_locked_overflow ≡ false) where
  try-size :
      {s : Shared T} (e : Event)
      → IsValid ext s
      → let (taken, s') = try_enqueue_locked ext cfg s e s.capacity in
        ((taken ≡ true) × (size s' ≡ size s + 1) × (size s < s.capacity))
        ⊎ ((taken ≡ false) × (size s' ≡ size s) × (s.capacity ≤ size s))
  unfolding try_enqueue_locked handle_overflow
  try-size {s} e v = ground (arith, v.head_in, v.tail_in, small-capacity v, normal)

  -- The loop of PschEnqueueBatch on the ring itself takes events while there is room.
  enqueue_all-count :
      (s : Shared T) (es : List Event) (n : ℕ)
      → IsValid ext s
      → AllFormed es
      → (enqueue_all ext cfg s es s.capacity n).0 ≡ n + min (length es) (s.capacity - size s)
  unfolding enqueue_all
  enqueue_all-count s [] n v all = omega arith
  enqueue_all-count s (e ∷ es) n v all =
      let s' : Shared T = (try_enqueue_locked ext cfg s e s.capacity).1 in
      let rest : (k : ℕ)
          → (enqueue_all ext cfg s' es s.capacity k).0
            ≡ k + min (length es) (s.capacity - size s') =
        λ (k : ℕ).
          subst (λ (c : ℕ). (enqueue_all ext cfg s' es c k).0 ≡ k + min (length es) (c - size s'))
            (capacity-try ext cfg s e s.capacity)
            (enqueue_all-count s' es k (try-IsValid ext cfg s e s.capacity refl v all.0) all.1) in
      elim (try-size e v) [
        | inl (taken, grown, room) ↦
            rw (taken, enqueue_all) (omega (arith, rest (n + 1), grown, room))
        | inr (lost, kept, full) ↦ rw (lost, enqueue_all) (omega (arith, rest n, kept, full))
      ]

  module _ (others : Shared T → Shared T) (fair : IsFair ext others) (on : cfg.enabled ≡ true) where
    batch-count :
        (w : World T) (s : Shared T) (es : List Event)
        → w.shared ≡ some s
        → IsValid ext s
        → AllFormed es
        → (enqueue_batch ext cfg others w es).0
          ≡ (if leb s.capacity (size s) then 0 else min (length es) (s.capacity - size (others s)))
    unfolding enqueue_batch enqueue_batch_shared
    batch-count w s es e v all = ground (arith, on, taken)
      where
        taken :
            (enqueue_all ext cfg (others s) es s.capacity 0).0
            ≡ 0 + min (length es) (s.capacity - size (others s))
        taken =
            subst
              (λ (c : ℕ).
                (enqueue_all ext cfg (others s) es c 0).0
                ≡ 0 + min (length es) (c - size (others s)))
              (fair.resizes_not s) (enqueue_all-count (others s) es 0 (fair.keeps s v) all)

    -- While capture is enabled, the debugging switch is off and the state is kept,
    -- PschLocalBatchFlush returns 0 where the ring was full at the check without the lock, and
    -- otherwise the number of waiting events or the room left once it has the lock, whichever is
    -- less.
    pub flush-count :
        (w : World T) (s : Shared T)
        → w.shared ≡ some s
        → IsKept ext w
        → (local_batch_flush ext cfg others w).0 ≡ (
            if leb s.capacity (size s)
            then 0
            else min (length w.backend.local_batch) (s.capacity - size (others s)))
    unfolding local_batch_flush
    flush-count w s e kept = ground (
      arith,
      batch-count (record w { backend = record w.backend { local_batch = [] } }) s
          w.backend.local_batch e (subst (RingValid ext) e kept.ring) kept.batch_formed,
    )
