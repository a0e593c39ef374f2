-- ===== src/Export/Batch/Cycle.antt =====
-- PschExportBatch as a whole, and the cycle of the worker of src/worker/bgworker.c around it.
use pg_stat_ch_otel_backend.Base.{
  ℕ, ◌+◌, ◌*◌, ◌<◌, ◌≤◌, ◌≡◌, refl, sym, ap, ◌∙◌, subst, ◌⊎◌, inl, inr, true, false, Option, some,
  List, [], ◌∷◌, ◌++◌, append-nil, length, length-append, ◌&&◌, max, arith, Bool-cases,
}
use pg_stat_ch_otel_backend.Event.{Event}
use pg_stat_ch_otel_backend.Store.{External}
use pg_stat_ch_otel_backend.Dsa.{add64}
use pg_stat_ch_otel_backend.Ring.{Shared}
use pg_stat_ch_otel_backend.Worker
use pg_stat_ch_otel_backend.Worker.{Environment, run_export_cycle}
use pg_stat_ch_otel_backend.Worker.Drain.{IsDraining, run_export_cycle_total}
use pg_stat_ch_otel_backend.Export.{
  Exception, Outcome, returned, thrown, Action, ◌>>=◌, World, Exporter, record_failure, bytes,
}
use pg_stat_ch_otel_backend.Export.Recorded.{
  Recorded, unchanged, failed, Same, Recorded-Same, IsSound, queued, exported,
}
use pg_stat_ch_otel_backend.Export.Contract.{IsExporter, Outcome-cases}
use pg_stat_ch_otel_backend.Export.Fifo.{IsFeeding, Dequeued, dequeue_loop-Dequeued}
use pg_stat_ch_otel_backend.Export.Batch.{
  Settings, Builder, dequeue_loop, dequeue_events, export_event_stats, export_events, connect,
  export_body, export_batch, failure_text,
}
use pg_stat_ch_otel_backend.Export.Batch.Accounted.{
  Accounted, value, Recorded-Accounted, record_failure-Same, barrier_post,
}
use pg_stat_ch_otel_backend.Export.Batch.Laws.{export_event_stats-built, commit-Accounted}
use pg_stat_ch_otel_backend.Export.Batch.Arrow.{IsBuilder, export_events_as_arrow-Accounted}

-- `events`, at most `n`, left the front of the queue, while others arrived at its end; what is
-- answered is at most their number, and what was added to the count of the exported events, if
-- anything was.
pub record Exports {T : Type 0} (ext : External T) (burst n : ℕ) (s : Option (Shared T)) (r : ℕ)
    (s' : Option (Shared T)) : Type 0 where
  pub sound : IsSound ext s'
  pub events : List Event
  pub arrivals : List Event
  pub fifo : queued s ++ arrivals ≡ events ++ queued s'
  pub few : length events ≤ n
  pub bounded : length arrivals ≤ n * burst
  pub answer : r ≤ length events
  pub count : (exported s' ≡ exported s) ⊎ (exported s' ≡ add64 (exported s) r)

module _ {T : Type 0} {ext : External T} {burst n : ℕ} where
  nothing-Exports : {s s' : Option (Shared T)} → Same ext s s' → Exports ext burst n s 0 s'
  nothing-Exports {s = s} same = record {
    sound = same.kept;
    events = [];
    arrivals = [];
    fifo = append-nil (queued s) ∙ sym same.queue;
    few = omega arith;
    bounded = omega arith;
    answer = omega arith;
    count = inl same.count;
  }

  Dequeued-Exports :
      {s s1 s2 s3 : Option (Shared T)} {r : ℕ} (events : List Event)
      → Same ext s s1
      → Dequeued ext burst n s1 events s2
      → Accounted ext (length events) s2 r s3
      → Exports ext burst n s r s3
  Dequeued-Exports {r = r} events same taken acc = record {
    sound = acc.sound;
    events = events;
    arrivals = taken.arrivals;
    fifo =
        ap (λ q. q ++ taken.arrivals) (sym same.queue)
        ∙ taken.fifo
        ∙ ap (λ q. events ++ q) (sym acc.queue);
    few = taken.few;
    bounded = taken.bounded;
    answer = acc.answer;
    count = elim acc.count [
      | inl e ↦ inl (e ∙ taken.count ∙ same.count)
      | inr e ↦ inr (e ∙ ap (λ k. add64 k r) (taken.count ∙ same.count))
    ];
  }

  Exports-Same :
      {s s' s'' : Option (Shared T)} {r : ℕ}
      → Exports ext burst n s r s'
      → Same ext s' s''
      → Exports ext burst n s r s''
  Exports-Same all same = record {
    sound = same.kept;
    events = all.events;
    arrivals = all.arrivals;
    fifo = all.fifo ∙ ap (λ q. all.events ++ q) (sym same.queue);
    few = all.few;
    bounded = all.bounded;
    answer = all.answer;
    count = elim all.count [ inl e ↦ inl (same.count ∙ e) | inr e ↦ inr (same.count ∙ e) ];
  }

Same-Accounted :
    {T : Type 0} {ext : External T} {n r : ℕ} {s s1 s2 : Option (Shared T)}
    → Same ext s s1
    → Accounted ext n s1 r s2
    → Accounted ext n s r s2
Same-Accounted {r = r} same acc = record {
  sound = acc.sound;
  queue = acc.queue ∙ same.queue;
  answer = acc.answer;
  count = elim acc.count [
    | inl e ↦ inl (e ∙ same.count)
    | inr e ↦ inr (e ∙ ap (λ k. add64 k r) same.count)
  ];
}

module _ {T X B : Type 0} (ext : External T) (exporter : Exporter T X) (law : IsExporter exporter)
    (builder : Builder B) (counting : IsBuilder builder) (cfg : Settings)
    (others : Shared T → Shared T) where
  export_events-Accounted :
      (events : List Event) (w : World T X)
      → IsSound ext w.shared
      → let m = export_events exporter ext others builder cfg events in
        Accounted ext (length events) w.shared (value (m w).0) (m w).1.shared
  unfolding export_events
  export_events-Accounted [] w v = Recorded-Accounted v (omega arith) unchanged
  export_events-Accounted (event ∷ events) w v =
      elim (Bool-cases (cfg.use_otel && cfg.arrow_passthrough)) [
        | inl arrow ↦
            rw (arrow, export_events)
              (export_events_as_arrow-Accounted exporter law builder counting
                (max 65536 cfg.max_block_bytes) (event ∷ events) w v)
        | inr rows ↦
            let (rec, few) = export_event_stats-built exporter law (event ∷ events) w in
            let w1 = (export_event_stats exporter (event ∷ events) w).1 in
            let same = Recorded-Same v rec in
            elim (Bool-cases (export_event_stats exporter (event ∷ events) w).0) [
              | inr failing ↦
                  rw (rows, failing, export_events) (Recorded-Accounted v (omega arith) rec)
              | inl built ↦
                  rw (rows, built, export_events)
                    (Same-Accounted same (
                      commit-Accounted exporter law {ext = ext} (length (event ∷ events)) w1
                        same.kept (few built)))
            ]
      ]

  connect-Recorded :
      (w : World T X) → Recorded w.shared (connect exporter ext others builder cfg w).1.shared
  unfolding connect
  connect-Recorded w = elim (Bool-cases (exporter.is_connected w.exporter)) [
    | inl client ↦ rw (client, connect) unchanged
    | inr no_client ↦ rw (no_client, connect) (law.connects w)
  ]

  -- What PschExportBatch does after DequeueEvents.
  abbrev and_export : Outcome (List Event) × World T X → Outcome ℕ × World T X
  and_export (r, w) = elim r [
    | returned events ↦ export_events exporter ext others builder cfg events w
    | thrown x ↦ (thrown x, w)
  ]

  dequeue_events-room :
      (w : World T X)
      → cfg.reserve cfg.batch_max w.time ≡ returned tt
      → let (events, s') = dequeue_loop ext others cfg.batch_max w.shared in
        dequeue_events exporter ext others builder cfg cfg.batch_max w
        ≡ (returned events, record w { shared = s' })
  unfolding dequeue_events
  dequeue_events-room w room = rw (room, dequeue_events) refl

  dequeue_events-full :
      (w : World T X) (x : Exception)
      → cfg.reserve cfg.batch_max w.time ≡ thrown x
      → dequeue_events exporter ext others builder cfg cfg.batch_max w ≡ (thrown x, w)
  unfolding dequeue_events
  dequeue_events-full w x full = rw (full, dequeue_events) refl

  module _ (burst : ℕ) (feeding : IsFeeding ext burst others) where
    export_body-Exports :
        (w : World T X)
        → IsSound ext w.shared
        → let m = export_body exporter ext others builder cfg in
          Exports ext burst cfg.batch_max w.shared (value (m w).0) (m w).1.shared
    unfolding export_body record_failure
    export_body-Exports w v =
        let rec = connect-Recorded w in
        let same = Recorded-Same v rec in
        let w1 = (connect exporter ext others builder cfg w).1 in
        let left : Outcome (List Event) × World T X → Type 0 = λ p.
          let m = and_export p in Exports ext burst cfg.batch_max w.shared (value m.0) m.1.shared in
        elim (Outcome-cases (connect exporter ext others builder cfg w).0) [
          | inr (x, e) ↦ rw (e, export_body, ◌>>=◌) (nothing-Exports same)
          | inl (false, e) ↦
              rw (e, export_body, ◌>>=◌)
                (nothing-Exports (Recorded-Same v (failed w1.shared w1.time (some _) rec)))
          | inl (true, e) ↦ elim (Outcome-cases (cfg.reserve cfg.batch_max w1.time)) [
            | inr (x, full) ↦
                rw (e, export_body, ◌>>=◌)
                  (subst left (sym (dequeue_events-full w1 x full)) (nothing-Exports same))
            | inl (_, room) ↦
                let taken =
                  dequeue_loop-Dequeued others burst feeding cfg.batch_max w1.shared same.kept in
                let (events, s2) = dequeue_loop ext others cfg.batch_max w1.shared in
                rw (e, export_body, ◌>>=◌)
                  (subst left (sym (dequeue_events-room w1 room)) (
                    Dequeued-Exports events same taken
                      (export_events-Accounted events (record w1 { shared = s2 }) taken.sound)))
          ]
        ]

    -- On a valid shared state, with any exporter and Arrow builder that keep their contracts and
    -- producers that only add events, at most a given number between two dequeues,
    -- PschExportBatch keeps the shared state valid, also where the vector of DequeueEvents finds
    -- no memory or a call of the exporter or the builder throws; the events that it took are the
    -- front of the queue in order, at most batch_max of them, and what is left is the rest
    -- followed by what arrived meanwhile; its answer is at most their number, and the count of
    -- the exported events is unchanged or raised by the answer, modulo 2^64.
    pub export_batch-Exports :
        (w : World T X)
        → IsSound ext w.shared
        → let (r, w') = export_batch exporter ext others builder cfg w in
          Exports ext burst cfg.batch_max w.shared r w'.shared
    unfolding export_batch
    export_batch-Exports w v =
        let body : Action (World T X) ℕ = export_body exporter ext others builder cfg in
        let all = export_body-Exports w v in
        barrier_post (λ r w'. Exports ext burst cfg.batch_max w.shared r w'.shared)
          (bytes "export batch OOM") 0 body w
          (λ r e.
            subst
              (λ (o : Outcome ℕ).
                Exports ext burst cfg.batch_max w.shared (value o) (body w).1.shared)
              e all)
          (λ x e.
            Exports-Same
              (subst
                (λ (o : Outcome ℕ).
                  Exports ext burst cfg.batch_max w.shared (value o) (body w).1.shared)
                e all)
              (record_failure-Same (body w).1 (failure_text (bytes "export batch OOM") x)
                all.sound))

  -- The worker around PschExportBatch, with what a signal handler does to the shared state.
  abbrev pub environment : Worker.Settings → (World T X → World T X) → Environment (World T X)
  environment knobs signals = record {
    settings = λ w. knobs;
    export_batch =
        λ w. let (n, w') = export_batch exporter ext others builder cfg w in (some n, w');
    process_signals = signals;
  }

  module _ (knobs : Worker.Settings) (signals : World T X → World T X)
      (same_max : knobs.batch_max ≡ cfg.batch_max) (some_max : 0 < cfg.batch_max)
      (calm : (w : World T X) → Recorded w.shared (signals w).shared)
      (quiet : IsFeeding ext 0 others) where
    abbrev backlog : World T X → ℕ
    backlog w = length (queued w.shared)

    export_batch-backlog :
        (w : World T X)
        → IsSound ext w.shared
        → let (n, w') = export_batch exporter ext others builder cfg w in backlog w' + n ≤ backlog w
    export_batch-backlog w v =
        let all = export_batch-Exports 0 quiet w v in
        let w' = (export_batch exporter ext others builder cfg w).1 in
        omega (
          arith,
          all.bounded,
          all.answer,
          ap length all.fifo,
          length-append (queued w.shared) all.arrivals,
          length-append all.events (queued w'.shared),
        )

    environment-IsDraining :
        IsDraining (environment knobs signals) (λ w. IsSound ext w.shared) backlog
    environment-IsDraining = record {
      takes = λ w n v e. ground (arith, e, export_batch-backlog w v);
      keeps = λ w v. (export_batch-Exports 0 quiet w v).sound;
      quiet = λ w v. omega (arith, ap length (Recorded-Same v (calm w)).queue);
      undisturbed = λ w v. (Recorded-Same v (calm w)).kept;
      batches = λ w. omega (arith, same_max, some_max);
    }

    -- While no producer adds events, with any exporter and builder that keep their contracts, a
    -- batch_max of at least 1 that the worker and the exporter share, and a signal handling that
    -- at most records failures, RunExportCycle around PschExportBatch returns from every valid
    -- state, with a valid state: one round more than there are queued events is enough, also
    -- where connections, builds and sends fail.
    pub export_cycle_total :
        (w : World T X)
        → IsSound ext w.shared
        → (w' : World T X) × (run_export_cycle
              (environment knobs signals)
              (length (queued w.shared) + 1)
              w
            ≡ some w')
          × IsSound ext w'.shared
    export_cycle_total w v =
        run_export_cycle_total (environment knobs signals) (λ u. IsSound ext u.shared) backlog
          environment-IsDraining (backlog w + 1) w v (omega arith)
