-- ===== src/Producer/Invariant.antt =====
-- What a producer's calls keep, and that the attempts and drops below them keep the ring valid.
use pg_stat_ch_otel_backend.Base.{
  ℕ, ◌≤◌, ◌≡◌, sym, ◌∙◌, true, Option, none, some, List, [], ◌∷◌, ◌++◌, length, arith,
}
use pg_stat_ch_otel_backend.Event.{Event}
use pg_stat_ch_otel_backend.Store.{External}
use pg_stat_ch_otel_backend.Ring.{
  Shared, Config, handle_overflow, try_enqueue_locked, enqueue_all, drop_all,
}
use pg_stat_ch_otel_backend.Ring.Write.{IsFormed}
use pg_stat_ch_otel_backend.Ring.Valid.{IsValid}
use pg_stat_ch_otel_backend.Ring.Refine.{handle_overflow-IsValid, try_enqueue_locked-Enqueues}
use pg_stat_ch_otel_backend.Producer.{World, local_batch_capacity}

abbrev pub AllFormed : List Event → Type 0
AllFormed [] = Unit {0}
AllFormed (e ∷ es) = IsFormed e × AllFormed es

pub AllFormed-append :
    (es : List Event) (e : Event) → AllFormed es → IsFormed e → AllFormed (es ++ e ∷ [])
AllFormed-append [] e all formed = (formed, tt)
AllFormed-append (d ∷ es) e all formed = (all.0, AllFormed-append es e all.1 formed)

abbrev pub RingValid : {T : Type 0} → External T → Option (Shared T) → Type 0
RingValid ext none = Unit {0}
RingValid ext (some s) = IsValid ext s

-- The shared state, if there is one, is valid, and the batch holds at most 8 events.
pub record IsKept {T : Type 0} (ext : External T) (w : World T) : Type 0 where
  pub ring : RingValid ext w.shared
  pub batch_formed : AllFormed w.backend.local_batch
  pub batch_fits : length w.backend.local_batch ≤ local_batch_capacity

-- Other processes keep the ring valid and do not resize it.
pub record IsFair {T : Type 0} (ext : External T) (others : Shared T → Shared T) : Type 0 where
  pub keeps : (s : Shared T) → IsValid ext s → IsValid ext (others s)
  pub resizes_not : (s : Shared T) → (others s).capacity ≡ s.capacity

-- The backend once its callbacks are registered.
abbrev pub registered : {T : Type 0} → World T → World T
registered w = record w { backend = record w.backend { local_initialized = true } }

pub registered-IsKept :
    {T : Type 0} {ext : External T} (w : World T) → IsKept ext w → IsKept ext (registered w)
registered-IsKept w kept = record {
  ring = kept.ring;
  batch_formed = kept.batch_formed;
  batch_fits = kept.batch_fits;
}

pub drop_all-IsValid :
    {T : Type 0} {ext : External T} (s : Shared T) (es : List Event)
    → IsValid ext s
    → IsValid ext (drop_all s es)
unfolding drop_all
drop_all-IsValid s [] v = v
drop_all-IsValid s (e ∷ es) v = drop_all-IsValid (handle_overflow s) es (handle_overflow-IsValid v)

module _ {T : Type 0} (ext : External T) (cfg : Config) where
  pub try-IsValid :
      (s : Shared T) (e : Event) (c : ℕ)
      → c ≡ s.capacity
      → IsValid ext s
      → IsFormed e
      → IsValid ext (try_enqueue_locked ext cfg s e c).1
  try-IsValid s e c same v formed = rw same (try_enqueue_locked-Enqueues v cfg e formed).0

  pub capacity-try :
      (s : Shared T) (e : Event) (c : ℕ)
      → (try_enqueue_locked ext cfg s e c).1.capacity ≡ s.capacity
  unfolding try_enqueue_locked
  capacity-try s e c = ground arith

  pub enqueue_all-IsValid :
      (s : Shared T) (es : List Event) (c n : ℕ)
      → c ≡ s.capacity
      → IsValid ext s
      → AllFormed es
      → IsValid ext (enqueue_all ext cfg s es c n).1
  unfolding enqueue_all
  enqueue_all-IsValid s [] c n same v all = v
  enqueue_all-IsValid s (e ∷ es) c n same v all =
      enqueue_all-IsValid (try_enqueue_locked ext cfg s e c).1 es c _
        (same ∙ sym (capacity-try s e c)) (try-IsValid s e c same v all.0) all.1
