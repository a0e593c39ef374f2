-- ===== src/Ring/Valid.antt =====
-- The invariant of the ring, the queue of events that it stands for, and that enqueueing and
-- dequeueing are the operations of a bounded queue.
use pg_stat_ch_otel_backend.Base.{
  ℕ, ◌+◌, ◌-◌, ◌%◌, ◌^◌, ◌<◌, ◌≤◌, ◌≡◌, ap, ◌∙◌, List, [], ◌∷◌, map, length, length-map, bit_and,
  arith,
}
use pg_stat_ch_otel_backend.Base.Bits.{bit_and-mask}
use pg_stat_ch_otel_backend.Event.{Event, RingEntry}
use pg_stat_ch_otel_backend.Store.{External}
use pg_stat_ch_otel_backend.Dsa.{add64}
use pg_stat_ch_otel_backend.Ring.{Shared, size, zero_slot}
use pg_stat_ch_otel_backend.Ring.Live.{refs, IsLive, deliver}
use pg_stat_ch_otel_backend.Ring.Window.{window, length-window, index-wrap}
use native.Mathlib.Nat.{pow-le-pow_right}

-- The slots in the queue, oldest first.
abbrev pub live_slots : {T : Type 0} → Shared T → List RingEntry
live_slots s = window zero_slot s.capacity s.slots s.tail (size s)

-- The events in the queue, oldest first.
abbrev pub view : {T : Type 0} → Shared T → List Event
view s = map (deliver s.store) (live_slots s)

pub record IsValid {T : Type 0} (ext : External T) (s : Shared T) : Type 0 where
  pub width : ℕ
  pub narrow : width ≤ 31
  pub power : s.capacity ≡ 2 ^ width
  pub room : length s.slots ≡ s.capacity
  pub head_in : s.head < 2 ^ 64
  pub tail_in : s.tail < 2 ^ 64
  pub fits : size s ≤ s.capacity
  pub live : IsLive ext s.store (live_slots s)

pow-le : (k : ℕ) → k ≤ 31 → 2 ^ k ≤ 2 ^ 31
pow-le k h = pow-le-pow_right (omega arith) h

refs-le-length : (xs : List RingEntry) (q : ℕ) → refs xs q ≤ length xs
refs-le-length [] q = omega arith
refs-le-length (x ∷ xs) q = ground (arith, refs-le-length xs q)

pub length-view : {T : Type 0} (s : Shared T) → length (view s) ≡ size s
length-view s =
    length-map (live_slots s) (deliver s.store)
    ∙ length-window zero_slot s.capacity s.slots s.tail (size s)

module _ {T : Type 0} {ext : External T} {s : Shared T} (valid : IsValid ext s) where
  pub small-capacity : s.capacity ≤ 2 ^ 31
  small-capacity = rw valid.power (pow-le valid.width valid.narrow)

  pub refs-small : (q : ℕ) → refs (live_slots s) q ≤ size s
  refs-small q = omega (
    arith,
    refs-le-length (live_slots s) q,
    length-window zero_slot s.capacity s.slots s.tail (size s),
  )

  -- `position & (capacity - 1)` is the index of the position.
  pub mask_index : (p : ℕ) → bit_and p (s.capacity - 1) ≡ p % s.capacity
  mask_index p = rw valid.power (bit_and-mask valid.width p)

  -- The index that is written lies `size` slots behind the tail.
  pub head_index : s.head % s.capacity ≡ (s.tail + size s) % s.capacity
  head_index =
      ap (λ p. p % s.capacity) wraps
      ∙ rw valid.power (index-wrap valid.width (s.tail + size s) (omega (arith, valid.narrow)))
    where
      wraps : s.head ≡ (s.tail + size s) % 2 ^ 64
      wraps = omega (arith, valid.head_in, valid.tail_in)

  -- Advancing the tail drops the first slot of the window.
  pub next_index : add64 s.tail 1 % s.capacity ≡ (s.tail + 1) % s.capacity
  next_index = rw valid.power (index-wrap valid.width (s.tail + 1) (omega (arith, valid.narrow)))
