-- ===== src/Tests.antt =====
-- A small instance of what the queue takes from PostgreSQL, a ring of four slots and an event, and
-- the theorems at these.
mod Witnesses
mod Working
mod Parsing
mod Querying
mod Caching
mod Exporting
mod Telemetry
mod Batching
mod Hooking
use pg_stat_ch_otel_backend.Base.{
  ℕ, zero, suc, ◌+◌, ◌*◌, ◌%◌, ◌^◌, ◌≡◌, ◌≢◌, refl, sym, ap, ◌∙◌, Bool, true, false, Option, none,
  some, List, [], ◌∷◌, ite, arith, Option-cases, inl, inr,
}
use pg_stat_ch_otel_backend.Event.{Event, CmdType}
use pg_stat_ch_otel_backend.Store.{Key, Key-discrete, Entry, Heap, Body, Store, External}
use pg_stat_ch_otel_backend.Ring.{Shared, Config, zero_slot, try_enqueue_locked}
use pg_stat_ch_otel_backend.Ring.Write.{IsFormed}
use pg_stat_ch_otel_backend.Ring.Valid.{IsValid}
use pg_stat_ch_otel_backend.Ring.Refine.{try_enqueue_locked-Enqueues}
use pg_stat_ch_otel_backend.Producer.{Backend, World}
use pg_stat_ch_otel_backend.Producer.Invariant.{IsKept, IsFair}
use pg_stat_ch_otel_backend.Stats.{initialize_shared_state}
use pg_stat_ch_otel_backend.Stats.Laws.{initialize_shared_state-IsValid}

-- A table is the function that it computes, and is never full.
abbrev pub Table : Type 0
Table = Key → Option Entry

-- The first of `n` chunks from `p` on that is free.
pub first_free : Heap → ℕ → ℕ → Option ℕ
first_free h p zero = none
first_free h p (suc n) = elim (h p) [ none ↦ some p | some b ↦ first_free h (p + 1) n ]

pub first_free_fresh :
    (h : Heap) (p n q : ℕ) → p ≢ 0 → first_free h p n ≡ some q → (q ≢ 0) × (h q ≡ none)
unfolding first_free
first_free_fresh h p zero q pos e = absurd (ground (arith, e))
first_free_fresh h p (suc n) q pos e = elim (Option-cases (h p)) [
  | inl free ↦ (ground (arith, free, e), ground (arith, free, e))
  | inr (b, used) ↦ first_free_fresh h (p + 1) n q (omega arith) (ground (arith, used, e))
]

abbrev pub hash : List ℕ → ℕ
hash [] = 0
hash (b ∷ bs) = (b + 31 * hash bs) % 2 ^ 32

abbrev pub postgres : External Table
postgres = record {
  allocate = λ h n. first_free h 1 16;
  allocate_fresh = λ h n p e. first_free_fresh h 1 16 p (omega arith) e;
  hash_any = hash;
  find = λ t k. t k;
  enter = λ t k e. some (λ j. ite (Key-discrete k j) (some e) (t j));
  assign = λ t k e j. ite (Key-discrete k j) (some e) (t j);
  remove = λ t k j. ite (Key-discrete k j) none (t j);
  find-enter = λ t t' k j e made.
      ap (λ (o : Option Table). elim o [ none ↦ none | some u ↦ u j ]) (sym made);
  find-assign = λ t k j e d found. refl;
  find-remove = λ t k j. refl;
}

abbrev pub empty_store : Store Table
empty_store = record {
  heap = λ p. none;
  table = λ k. none;
  oom = 0;
  dsa_ready = true;
  htab_ready = true;
}

abbrev pub settings : Config
settings = record { enabled = true; force_locked_overflow = false }

-- An error with the message "E" in the query "S;".
abbrev pub event : Event
event = record {
  prefix = record zero_slot.prefix {
    queryid = 7;
    cmd_type = CmdType.select;
    err_message_len = 1;
    query_len = 2;
  };
  err_message = 69 ∷ 0 ∷ [];
  query = 83 ∷ 59 ∷ 0 ∷ [];
}

pub event-IsFormed : IsFormed event
event-IsFormed = record { message_fits = omega arith; query_fits = omega arith }

abbrev pub empty_ring : Shared Table
unfolding initialize_shared_state
empty_ring = initialize_shared_state empty_store 4

pub empty_ring-IsValid : IsValid postgres empty_ring
unfolding initialize_shared_state
empty_ring-IsValid =
    (initialize_shared_state-IsValid {ext = postgres} empty_store 2 (omega arith) refl refl
      (λ j. refl)).0

-- The ring once the event is in.
abbrev pub ring : Shared Table
ring = (try_enqueue_locked postgres settings empty_ring event empty_ring.capacity).1

pub ring-IsValid : IsValid postgres ring
ring-IsValid = (try_enqueue_locked-Enqueues empty_ring-IsValid settings event event-IsFormed).0

-- Nobody else is at work.
abbrev pub nobody : Shared Table → Shared Table
nobody s = s

pub nobody-IsFair : IsFair postgres nobody
nobody-IsFair = record { keeps = λ s v. v; resizes_not = λ s. refl }

-- A backend with one event waiting.
abbrev pub world : World Table
world = record {
  shared = some ring;
  backend = record { suppressed = false; local_batch = event ∷ []; local_initialized = true };
}

pub world-IsKept : IsKept postgres world
world-IsKept = record {
  ring = ring-IsValid;
  batch_formed = (event-IsFormed, tt);
  batch_fits = omega arith;
}
