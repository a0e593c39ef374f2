-- ===== src/Ring/Refine.antt =====
-- A valid ring is the bounded queue of its view: TryEnqueueLocked and PschDequeueEvent are its two
-- operations, and keep the invariant.
use pg_stat_ch_otel_backend.Base.{
  ℕ, suc, ◌+◌, ◌-◌, ◌%◌, ◌<◌, ◌≡◌, refl, sym, subst, ap, ap₂, ◌∙◌, true, false, none, some, inl,
  inr, List, [], ◌∷◌, ◌++◌, map, length-set, set, get_or, bit_and, leb, ◌==◌, arith, Bool-cases,
  ℕ-cases,
}
use pg_stat_ch_otel_backend.Event.{Event, RingEntry}
use pg_stat_ch_otel_backend.Store.{Store, External}
use pg_stat_ch_otel_backend.Dsa.{add64}
use pg_stat_ch_otel_backend.Queue
use pg_stat_ch_otel_backend.Queue.{Enqueues, accepted, rejected}
use pg_stat_ch_otel_backend.Ring.{
  Shared, Config, size, zero_slot, handle_overflow, fill_slot, read_slot, try_enqueue_locked,
  dequeue_event,
}
use pg_stat_ch_otel_backend.Ring.Live.{refs, IsLive, deliver}
use pg_stat_ch_otel_backend.Ring.Read.{Read, read_slot-Read}
use pg_stat_ch_otel_backend.Ring.Write.{IsFormed, Filled, fill_slot-Filled}
use pg_stat_ch_otel_backend.Ring.Window.{window, window-cong, window-set}
use pg_stat_ch_otel_backend.Ring.Valid.{
  IsValid, live_slots, view, length-view, small-capacity, refs-small, mask_index, head_index,
  next_index,
}
use mathlib.Core.List.{map-append}

pub handle_overflow-IsValid :
    {T : Type 0} {ext : External T} {s : Shared T} → IsValid ext s → IsValid ext (handle_overflow s)
unfolding handle_overflow
handle_overflow-IsValid v = record {
  width = v.width;
  narrow = v.narrow;
  power = v.power;
  room = v.room;
  head_in = v.head_in;
  tail_in = v.tail_in;
  fits = v.fits;
  live = v.live;
}

pub view-handle_overflow : {T : Type 0} (s : Shared T) → view (handle_overflow s) ≡ view s
unfolding handle_overflow
view-handle_overflow s = refl

module _ {T : Type 0} {ext : External T} {s : Shared T} (valid : IsValid ext s) where
  module _ (event : Event) (formed : IsFormed event) (below : size s < s.capacity) where
    abbrev filled : RingEntry × Store T
    filled = fill_slot ext s.store event

    abbrev after_enqueue : Shared T
    after_enqueue = record s {
      store = filled.1;
      slots = set s.slots (bit_and s.head (s.capacity - 1)) filled.0;
      head = add64 s.head 1;
      enqueued = add64 s.enqueued 1;
    }

    filled-Filled : Filled (live_slots s) valid.live event filled
    filled-Filled =
        fill_slot-Filled (live_slots s) valid.live event formed
          (λ q. omega (arith, refs-small valid q, small-capacity valid))

    grown : size after_enqueue ≡ suc (size s)
    grown = omega (arith, valid.head_in, valid.tail_in, small-capacity valid)

    slots_grown : live_slots after_enqueue ≡ live_slots s ++ filled.0 ∷ []
    slots_grown =
        ap (window zero_slot s.capacity after_enqueue.slots s.tail) grown
        ∙ window-set zero_slot s.capacity s.slots filled.0 s.tail (size s)
            (bit_and s.head (s.capacity - 1)) valid.room below
            (mask_index valid s.head ∙ head_index valid)

    after_enqueue-IsValid : IsValid ext after_enqueue
    after_enqueue-IsValid = record {
      width = valid.width;
      narrow = valid.narrow;
      power = valid.power;
      room = length-set s.slots (bit_and s.head (s.capacity - 1)) filled.0 ∙ valid.room;
      head_in = omega arith;
      tail_in = valid.tail_in;
      fits = omega (arith, grown);
      live = subst (IsLive ext filled.1) (sym slots_grown) filled-Filled.live';
    }

    view_grown : view after_enqueue ≡ view s ++ deliver filled.1 filled.0 ∷ []
    view_grown =
        ap (map (deliver filled.1)) slots_grown
        ∙ (map-append (deliver filled.1) (live_slots s) (filled.0 ∷ [])
            ∙ ap (λ q. q ++ deliver filled.1 filled.0 ∷ []) filled-Filled.rest)

  -- On a valid ring, TryEnqueueLocked with an event whose lengths lie within its buffers keeps
  -- the ring valid and is an attempt on the bounded queue that the ring stands for: where there
  -- is room and the debugging switch is off it returns true and appends one event that carries
  -- all the numbers, and each string cut to its buffer or lost; otherwise it returns false and
  -- the queue is unchanged. The events already queued keep their strings.
  pub try_enqueue_locked-Enqueues :
      (cfg : Config) (event : Event)
      → IsFormed event
      → let (taken, s') = try_enqueue_locked ext cfg s event s.capacity in
        IsValid ext s'
        × Enqueues s.capacity cfg.force_locked_overflow event (view s) taken (view s')
  unfolding try_enqueue_locked
  try_enqueue_locked-Enqueues cfg event formed = elim (Bool-cases (leb s.capacity (size s))) [
    | inl full ↦
        rw (full, try_enqueue_locked)
          (
            handle_overflow-IsValid valid,
            rw (view-handle_overflow s) (rejected (inl (ground (arith, full, length-view s)))),
          )
    | inr free ↦ elim (Bool-cases cfg.force_locked_overflow) [
      | inl forced ↦
          rw (free, forced, try_enqueue_locked)
            (handle_overflow-IsValid valid, rw (view-handle_overflow s) (rejected (inr refl)))
      | inr normal ↦
          let below : size s < s.capacity = ground (arith, free) in
          rw (free, normal, try_enqueue_locked)
            (
              after_enqueue-IsValid event formed below,
              subst (Enqueues s.capacity false event (view s) true)
                  (sym (view_grown event formed below))
                  (accepted (deliver (filled event formed below).1 (filled event formed below).0)
                    (omega (arith, length-view s)) refl (filled-Filled event formed below).carries),
            )
    ]
  ]

  module _ (n : ℕ) (some_left : size s ≡ suc n) where
    abbrev front : RingEntry
    front = get_or s.slots (s.tail % s.capacity) zero_slot

    abbrev behind : List RingEntry
    behind = window zero_slot s.capacity s.slots (s.tail + 1) n

    split_slots : live_slots s ≡ front ∷ behind
    split_slots = ap (window zero_slot s.capacity s.slots s.tail) some_left

    front-Read : Read ext s.store front behind (read_slot ext s.store front)
    front-Read =
        read_slot-Read front behind (subst (IsLive ext s.store) split_slots valid.live) (λ p.
          omega (
            arith,
            ap (λ xs. refs xs p) split_slots,
            refs-small valid p,
            small-capacity valid,
            valid.fits,
          ))

    abbrev after_dequeue : Shared T
    after_dequeue = record s { store = (read_slot ext s.store front).1; tail = add64 s.tail 1 }

    shrunk : size after_dequeue ≡ n
    shrunk = omega (arith, valid.head_in, valid.tail_in)

    slots_left : live_slots after_dequeue ≡ behind
    slots_left =
        ap (window zero_slot s.capacity s.slots (add64 s.tail 1)) shrunk
        ∙ window-cong zero_slot s.capacity s.slots (add64 s.tail 1) (s.tail + 1) n
            (next_index valid)

    after_dequeue-IsValid : IsValid ext after_dequeue
    after_dequeue-IsValid = record {
      width = valid.width;
      narrow = valid.narrow;
      power = valid.power;
      room = valid.room;
      head_in = valid.head_in;
      tail_in = omega arith;
      fits = omega (arith, shrunk, valid.fits);
      live = subst (IsLive ext after_dequeue.store) (sym slots_left) front-Read.live;
    }

    view_split : view s ≡ deliver s.store front ∷ map (deliver s.store) behind
    view_split = ap (map (deliver s.store)) split_slots

    view_left : view after_dequeue ≡ map (deliver s.store) behind
    view_left = ap (map (deliver after_dequeue.store)) slots_left ∙ front-Read.rest

  dequeue_empty :
      size s ≡ 0
      → let (out, s') = dequeue_event ext s in
        IsValid ext s' × ((out, view s') ≡ Queue.pop (view s))
  unfolding dequeue_event Queue.pop
  dequeue_empty e =
      let same : (s.head == s.tail) ≡ true = ground (arith, valid.head_in, valid.tail_in) in
      let none_left : view s ≡ [] =
        ap (λ n. map (deliver s.store) (window zero_slot s.capacity s.slots s.tail n)) e in
      rw (same, dequeue_event) (valid, ap (λ q. (none, q)) none_left ∙ sym (ap Queue.pop none_left))

  dequeue_front :
      (n : ℕ)
      → size s ≡ suc n
      → let (out, s') = dequeue_event ext s in
        IsValid ext s' × ((out, view s') ≡ Queue.pop (view s))
  unfolding dequeue_event Queue.pop
  dequeue_front n e =
      let differ : (s.head == s.tail) ≡ false = ground (arith, e) in
      rw (differ, mask_index valid s.tail, dequeue_event)
        (
          after_dequeue-IsValid n e,
          ap₂ (λ o q. (some o, q)) (front-Read n e).event (view_left n e)
              ∙ sym (ap Queue.pop (view_split n e)),
        )

  -- On a valid ring, PschDequeueEvent keeps the ring valid, returns the oldest event with its
  -- strings (none where the queue is empty), and leaves the remaining queue as it was, with the
  -- strings of the other events intact.
  pub dequeue_event-pop :
      let (out, s') = dequeue_event ext s in IsValid ext s' × ((out, view s') ≡ Queue.pop (view s))
  dequeue_event-pop = elim (ℕ-cases (size s)) [
    | inl e ↦ dequeue_empty e
    | inr (n, e) ↦ dequeue_front n e
  ]
