-- ===== src/Tests/Witnesses.antt =====
-- The theorems at the test data.
use pg_stat_ch_otel_backend.Base.{
  ℕ, ◌<◌, ◌≡◌, ◌≢◌, refl, true, false, none, some, [], ◌∷◌, ◌++◌, take, ◌==◌, if◌then◌else◌, arith,
}
use pg_stat_ch_otel_backend.Store.{Store, object, update}
use pg_stat_ch_otel_backend.Dsa.Attach
use pg_stat_ch_otel_backend.Dsa.Attach.{Process, IsBalanced, run, run-IsBalanced}
use pg_stat_ch_otel_backend.Intern.{
  intern_magic, acquire, release, make_key, miss, alloc_object, insert, resolve_and_release,
}
use pg_stat_ch_otel_backend.Intern.Sound.{IsSound}
use pg_stat_ch_otel_backend.Intern.Insert.{Acquired}
use pg_stat_ch_otel_backend.Intern.Acquire.{acquire-Acquired}
use pg_stat_ch_otel_backend.Intern.Release.{Released, release-Released}
use pg_stat_ch_otel_backend.Intern.RoundTrip.{resolve_and_release-acquire}
use pg_stat_ch_otel_backend.Ring.{dequeue_event, try_enqueue_locked}
use pg_stat_ch_otel_backend.Ring.Live.{refs}
use pg_stat_ch_otel_backend.Ring.Valid.{IsValid, view, live_slots, refs-small, small-capacity}
use pg_stat_ch_otel_backend.Ring.Refine.{try_enqueue_locked-Enqueues, dequeue_event-pop}
use pg_stat_ch_otel_backend.Queue
use pg_stat_ch_otel_backend.Queue.{Enqueues}
use pg_stat_ch_otel_backend.Producer.{enqueue_event, local_batch_flush, xact_callback, XactEvent}
use pg_stat_ch_otel_backend.Producer.Invariant.{IsKept}
use pg_stat_ch_otel_backend.Producer.Keeps.{enqueue_event-IsKept, xact_callback_lem}
use pg_stat_ch_otel_backend.Producer.Accounts.{
  counted, totals, Advances, enqueue_event-Advances, flush-Advances,
}
use pg_stat_ch_otel_backend.Tests.{
  Table, postgres, empty_store, settings, event, event-IsFormed, ring, ring-IsValid, nobody,
  nobody-IsFair, world, world-IsKept, first_free,
}

try_enqueue_locked-Enqueues_example :
    let (taken, s') = try_enqueue_locked postgres settings ring event ring.capacity in
    IsValid postgres s' × Enqueues ring.capacity false event (view ring) taken (view s')
try_enqueue_locked-Enqueues_example =
    try_enqueue_locked-Enqueues ring-IsValid settings event event-IsFormed

dequeue_event-pop_example :
    let (out, s') = dequeue_event postgres ring in
    IsValid postgres s' × ((out, view s') ≡ Queue.pop (view ring))
dequeue_event-pop_example = dequeue_event-pop ring-IsValid

enqueue_event-IsKept_example :
    IsKept postgres (enqueue_event postgres settings nobody false world event).1
enqueue_event-IsKept_example =
    enqueue_event-IsKept postgres settings nobody nobody-IsFair false world event world-IsKept
      event-IsFormed

xact_callback_lem_example :
    IsKept postgres (xact_callback postgres settings nobody world XactEvent.abort)
    × ((true ≡ true)
        → (xact_callback postgres settings nobody world XactEvent.abort).backend.local_batch ≡ [])
    × ((true ≡ false) → xact_callback postgres settings nobody world XactEvent.abort ≡ world)
xact_callback_lem_example =
    xact_callback_lem postgres settings nobody nobody-IsFair world XactEvent.abort world-IsKept

enqueue_event-Advances_example :
    Advances 1
      (counted world)
      (counted (enqueue_event postgres settings nobody false world event).1)
enqueue_event-Advances_example =
    enqueue_event-Advances postgres settings nobody (λ s. refl) refl false world ring event refl

flush-Advances_example :
    let w' = (local_batch_flush postgres settings nobody world).1 in
    (w'.backend.local_batch ≡ []) × Advances 1 (totals world) (totals w')
flush-Advances_example = flush-Advances postgres settings nobody (λ s. refl) refl world ring refl

acquire-Acquired_example :
    let (p, s') = acquire postgres (λ o. o) ring.store 0 7 event.query 2 in
    Acquired postgres ring.store.heap
      (refs (live_slots ring))
      event.query
      (make_key postgres 0 7 event.query 2)
      p
      s'
acquire-Acquired_example =
    acquire-Acquired ring-IsValid.live.sound 0 7 event.query 2 (omega arith) (λ q.
      omega (arith, refs-small ring-IsValid q, small-capacity ring-IsValid, ring-IsValid.fits))

-- The first acquisition of a text, which gives out the chunk 1.
abbrev first : ℕ × Store Table
first = acquire postgres (λ o. o) empty_store 0 7 event.query 2

empty-IsSound : IsSound postgres empty_store (λ q. 0)
empty-IsSound = record {
  held = λ k e found. absurd (ground (arith, found));
  owned = λ p used. absurd (omega arith);
}

first-Acquired :
    Acquired postgres empty_store.heap
      (λ q. 0)
      event.query
      (make_key postgres 0 7 event.query 2)
      first.0
      first.1
first-Acquired = acquire-Acquired empty-IsSound 0 7 event.query 2 (omega arith) (λ q. omega arith)

abbrev one_ref : ℕ → ℕ
one_ref q = if 1 == q then 1 else 0

first-IsSound : IsSound postgres first.1 one_ref
unfolding acquire miss alloc_object insert first_free
first-IsSound = first-Acquired.sound one_ref (λ q. ground arith)

first_lem : (first.0 ≢ 0) × (first.1.dsa_ready ≡ true) × (first.1.htab_ready ≡ true)
unfolding acquire miss alloc_object insert first_free
first_lem = (omega arith, refl, refl)

release-Released_example : Released postgres first.1.heap (λ q. 0) 1 (release postgres first.1 1)
release-Released_example =
    release-Released first-IsSound (λ q. 0) 1 (λ q. omega arith) (omega arith) first_lem.2
      first_lem.1

-- Into a buffer of two bytes, which holds one byte of the text.
resolve_and_release-acquire_example :
    let (p, s1) = acquire postgres (λ o. o) ring.store 0 7 event.query 2 in
    let (dst, out_len, s2) = resolve_and_release postgres s1 p 2 in
    (out_len ≡ (if p == 0 then 0 else 1))
    × (dst ≡ take out_len event.query ++ 0 ∷ [])
    × IsSound postgres s2 (refs (live_slots ring))
    × ((q : ℕ)
        → 0 < refs (live_slots ring) q
        → ring.store.heap q ≢ none
        → s2.heap q ≡ ring.store.heap q)
unfolding try_enqueue_locked pg_stat_ch_otel_backend.Tests.empty_ring
    pg_stat_ch_otel_backend.Ring.fill_slot acquire pg_stat_ch_otel_backend.Dsa.alloc_string
    first_free
resolve_and_release-acquire_example =
    resolve_and_release-acquire ring-IsValid.live.sound 0 7 event.query 2 2 (omega arith)
      (λ q.
        omega (arith, refs-small ring-IsValid q, small-capacity ring-IsValid, ring-IsValid.fits))
      refl refl (omega arith)

abbrev detached : Process
detached = record {
  shared = true;
  raw = true;
  handle = false;
  hook = false;
  hooks = 0;
  area_refs = 3;
}

run-IsBalanced_example :
    IsBalanced 3 (run detached (Attach.get ∷ Attach.get ∷ Attach.exit ∷ Attach.get ∷ []))
run-IsBalanced_example =
    run-IsBalanced 3 detached (Attach.get ∷ Attach.get ∷ Attach.exit ∷ Attach.get ∷ [])
      (record { ready = (refl, refl); hooked = refl; one_hook = refl; one_ref = refl })

-- A store with a chunk that is filled and not yet entered.
abbrev pending : Store Table
pending = record empty_store {
  heap = update empty_store.heap 1 (
      some (
        object (record {
          key = make_key postgres 0 7 event.query 2;
          magic = intern_magic;
          query = 83 ∷ 59 ∷ 0 ∷ [];
        })));
}
