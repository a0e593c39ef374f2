-- ===== src/Queue.antt =====
-- What the ring promises: a bounded queue of events whose texts may be cut or lost.
use pg_stat_ch_otel_backend.Base.{
  ℕ, ◌<◌, ◌≤◌, ◌≡◌, ◌⊎◌, Bool, true, false, Option, none, some, List, [], ◌∷◌, ◌++◌, length,
}
use pg_stat_ch_otel_backend.Event.{Event}
use pg_stat_ch_otel_backend.Ring.Write.{Carries}

-- One producer's attempt on the queue `q`: the event is taken exactly where there is room and the
-- debugging switch is off.
pub data Enqueues (capacity : ℕ) (forced : Bool) (event : Event) (q : List Event)
    : Bool → List Event → Type 0 where
  accepted :
      (e : Event)
      → length q < capacity
      → forced ≡ false
      → Carries event e
      → Enqueues capacity forced event q true (q ++ e ∷ [])
  rejected : (capacity ≤ length q) ⊎ (forced ≡ true) → Enqueues capacity forced event q false q

-- The consumer takes the oldest event.
unfoldable pub pop : List Event → Option Event × List Event
pop [] = (none, [])
pop (e ∷ q) = (some e, q)
