-- ===== src/Export/Fifo.antt =====
-- What DequeueEvents takes from the ring while the producers go on.
use pg_stat_ch_otel_backend.Base.{
  ℕ, zero, suc, ◌≤◌, ◌<◌, ◌≡◌, refl, sym, ap, ◌∙◌, Option, none, some, List, [], ◌∷◌, ◌++◌,
  append-nil, append_assoc, length, length-append, ◌*◌, ◌==◌, arith, Bool-cases, Option-cases, inl,
  inr,
}
use pg_stat_ch_otel_backend.Event.{Event}
use pg_stat_ch_otel_backend.Store.{External}
use pg_stat_ch_otel_backend.Queue
use pg_stat_ch_otel_backend.Ring.{Shared, dequeue_event}
use pg_stat_ch_otel_backend.Ring.Valid.{IsValid, view}
use pg_stat_ch_otel_backend.Ring.Refine.{dequeue_event-pop}
use pg_stat_ch_otel_backend.Export.Recorded.{queued, exported, IsSound}
use pg_stat_ch_otel_backend.Export.Batch.{dequeue_next, dequeue_loop}

module _ {T : Type 0} (ext : External T) where
  -- The producers keep a valid ring valid, and between two calls they only add events at its end,
  -- at most `burst` of them.
  pub record IsFeeding (burst : ℕ) (others : Shared T → Shared T) : Type 0 where
    pub keeps : (s : Shared T) → IsValid ext s → IsValid ext (others s)
    pub feeds :
        (s : Shared T)
        → IsValid ext s
        → (ys : List Event) × (view (others s) ≡ view s ++ ys) × (length ys ≤ burst)
    pub counts : (s : Shared T) → (others s).exported ≡ s.exported

  -- At most `n` events, oldest first, of the queue and what arrived meanwhile; fewer only where
  -- nothing was left.
  pub record Dequeued (burst n : ℕ) (s : Option (Shared T)) (events : List Event)
      (s' : Option (Shared T)) : Type 0 where
    pub sound : IsSound ext s'
    pub arrivals : List Event
    pub fifo : queued s ++ arrivals ≡ events ++ queued s'
    pub few : length events ≤ n
    pub bounded : length arrivals ≤ n * burst
    pub emptied : length events < n → queued s' ≡ []
    pub count : exported s' ≡ exported s

pop-none : (q q' : List Event) → (none, q') ≡ Queue.pop q → (q ≡ []) × (q' ≡ [])
unfolding Queue.pop
pop-none [] q' e = (refl, ap (λ (x : Option Event × List Event). x.1) e)
pop-none (x ∷ q) q' e = absurd (ground (arith, ap (λ (x : Option Event × List Event). x.0) e))

pop-some : (q q' : List Event) (x : Event) → (some x, q') ≡ Queue.pop q → q ≡ x ∷ q'
unfolding Queue.pop
pop-some [] q' x e = absurd (ground (arith, ap (λ (x : Option Event × List Event). x.0) e))
pop-some (y ∷ q) q' x e = cc (e)

dequeue_event-exported :
    {T : Type 0} (ext : External T) (s : Shared T) → (dequeue_event ext s).1.exported ≡ s.exported
unfolding dequeue_event
dequeue_event-exported ext s = elim (Bool-cases (s.head == s.tail)) [
  | inl e ↦ rw (e, dequeue_event) refl
  | inr e ↦ rw (e, dequeue_event) refl
]

module _ {T : Type 0} {ext : External T} (others : Shared T → Shared T) (burst : ℕ)
    (feeding : IsFeeding ext burst others) (n : ℕ) (s : Shared T) (v : IsValid ext s) where
  count_same : (dequeue_event ext (others s)).1.exported ≡ s.exported
  count_same = dequeue_event-exported ext (others s) ∙ feeding.counts s

  -- The queue is empty.
  stop :
      (dequeue_event ext (others s)).0 ≡ none
      → Dequeued ext burst (suc n) (some s) [] (some (dequeue_event ext (others s)).1)
  stop e =
      let (v1, popped) = dequeue_event-pop (feeding.keeps s v) in
      let (ys, fed, short) = feeding.feeds s v in
      let (empty, rest) =
        pop-none (view (others s)) (view (dequeue_event ext (others s)).1) (
          ap (λ (o : Option Event). (o, view (dequeue_event ext (others s)).1)) (sym e) ∙ popped) in
      record {
        sound = v1;
        arrivals = ys;
        fifo = sym fed ∙ empty ∙ sym rest;
        few = omega arith;
        bounded = omega (arith, short);
        emptied = λ h. rest;
        count = count_same;
      }

  -- An event is taken, and then `events`.
  next :
      (x : Event) (events : List Event) (s2 : Option (Shared T))
      → (dequeue_event ext (others s)).0 ≡ some x
      → Dequeued ext burst n (some (dequeue_event ext (others s)).1) events s2
      → Dequeued ext burst (suc n) (some s) (x ∷ events) s2
  next x events s2 e more =
      let (v1, popped) = dequeue_event-pop (feeding.keeps s v) in
      let (ys, fed, short) = feeding.feeds s v in
      let front =
        pop-some (view (others s)) (view (dequeue_event ext (others s)).1) x (
          ap (λ (o : Option Event). (o, view (dequeue_event ext (others s)).1)) (sym e) ∙ popped) in
      record {
        sound = more.sound;
        arrivals = ys ++ more.arrivals;
        fifo =
            sym (append_assoc (view s) ys more.arrivals)
            ∙ ap (λ q. q ++ more.arrivals) (sym fed ∙ front)
            ∙ ap (◌∷◌ x) more.fifo;
        few = omega (arith, more.few);
        bounded = omega (arith, short, more.bounded, length-append ys more.arrivals);
        emptied = λ h. more.emptied (omega arith);
        count = more.count ∙ count_same;
      }

-- On a valid shared state, with producers that only add events, at most `burst` between two
-- calls, DequeueEvents keeps it valid and takes at most max_events events, in order, from the
-- front of the queue followed by what arrived meanwhile; it takes fewer only where the queue was
-- empty at the end; and it leaves the count of the exported events.
pub dequeue_loop-Dequeued :
    {T : Type 0} {ext : External T} (others : Shared T → Shared T)
    → (burst : ℕ) → IsFeeding ext burst others
    → (n : ℕ) (s : Option (Shared T)) → IsSound ext s
    → Dequeued ext burst n s (dequeue_loop ext others n s).0 (dequeue_loop ext others n s).1
unfolding dequeue_loop dequeue_next
dequeue_loop-Dequeued others burst feeding zero s v = record {
  sound = v;
  arrivals = [];
  fifo = append-nil (queued s);
  few = omega arith;
  bounded = omega arith;
  emptied = λ h. absurd (omega arith);
  count = refl;
}
dequeue_loop-Dequeued others burst feeding (suc n) none v = record {
  sound = tt;
  arrivals = [];
  fifo = refl;
  few = omega arith;
  bounded = omega arith;
  emptied = λ h. refl;
  count = refl;
}
dequeue_loop-Dequeued {ext = ext} others burst feeding (suc n) (some s) v =
    elim (Option-cases (dequeue_event ext (others s)).0) [
      | inl e ↦ rw (e, dequeue_loop) (stop others burst feeding n s v e)
      | inr (x, e) ↦
          let (v1, popped) = dequeue_event-pop (feeding.keeps s v) in
          rw (e, dequeue_loop)
            (next others burst feeding n s v x
              (dequeue_loop ext others n (some (dequeue_event ext (others s)).1)).0
              (dequeue_loop ext others n (some (dequeue_event ext (others s)).1)).1 e
              (dequeue_loop-Dequeued others burst feeding n (some (dequeue_event ext (others s)).1)
                v1))
    ]
