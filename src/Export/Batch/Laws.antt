-- ===== src/Export/Batch/Laws.antt =====
-- A batch that is built row by row and committed, on any exporter that keeps the contract.
use pg_stat_ch_otel_backend.Base.{
  ℕ, ◌*◌, ◌≤◌, ◌≡◌, refl, ⊤, Bool, true, false, Option, List, length, if◌then◌else◌, arith,
}
use pg_stat_ch_otel_backend.Event.{Event}
use pg_stat_ch_otel_backend.Store.{External}
use pg_stat_ch_otel_backend.Ring.{Shared}
use pg_stat_ch_otel_backend.Export.{
  Outcome, returned, Action, pure, modify, ◌>>◌, each, World, Exporter, record_failure, bytes,
}
use pg_stat_ch_otel_backend.Export.Rows.{columns, row}
use pg_stat_ch_otel_backend.Export.Recorded.{Recorded, Recorded-trans, failed, IsSound}
use pg_stat_ch_otel_backend.Export.Contract.{
  IsExporter, Keeps, Keeps-mono, bind-Keeps, each-Keeps, bind_post,
}
use pg_stat_ch_otel_backend.Export.Batch.{
  record_success, export_event_stats_internal, export_event_stats, commit,
}
use pg_stat_ch_otel_backend.Export.Batch.Accounted.{
  Accounted, value, Recorded-Accounted, record_success-Accounted, barrier_post,
}

module _ {T X : Type 0} (exporter : Exporter T X) (law : IsExporter exporter) where
  abbrev one_row : Event → Action (World T X) ⊤
  one_row ev = exporter.begin_row >> each exporter.append (row ev)

  one_row-Keeps : (ev : Event) (w : World T X) → Keeps law.rows 1 w (one_row ev w).1
  one_row-Keeps ev w = Keeps-mono law.rows (omega arith) (
      bind-Keeps law.rows 1 (length (row ev) * 0) exporter.begin_row
        (λ u. each exporter.append (row ev)) w (law.starts w)
        (λ u. each-Keeps law.rows 0 exporter.append law.appends (row ev) (exporter.begin_row w).1))

  abbrev fill : List Event → Action (World T X) ⊤
  fill events = each exporter.add_column columns >> each one_row events

  fill-Keeps :
      (events : List Event) (w : World T X) → Keeps law.rows (length events) w (fill events w).1
  fill-Keeps events w = Keeps-mono law.rows (omega arith) (
      bind-Keeps law.rows (length columns * 0) (length events * 1)
        (each exporter.add_column columns) (λ u. each one_row events) w
        (each-Keeps law.rows 0 exporter.add_column law.adds columns w)
        (λ u.
          each-Keeps law.rows 1 one_row one_row-Keeps events
            (each exporter.add_column columns w).1))

  -- The rows of a batch that was built are those of its events.
  export_event_stats_internal-rows :
      (events : List Event) (w : World T X)
      → let (o, w') = export_event_stats_internal exporter events w in
        Recorded w.shared w'.shared × (o ≡ returned tt → law.rows w'.exporter ≤ length events)
  unfolding export_event_stats_internal
  export_event_stats_internal-rows events w =
      let (rec, none_yet) = law.begins w in
      bind_post
        (λ o w'.
          Recorded w.shared w'.shared × (o ≡ returned tt → law.rows w'.exporter ≤ length events))
        exporter.begin_batch (λ u. fill events) w
        (λ u e.
          let kept = fill-Keeps events (exporter.begin_batch w).1 in
          (Recorded-trans rec kept.records, λ e'. omega (arith, kept.grown, none_yet (e))))
        (λ x e. (rec, λ e'. absurd (ground (arith, e'))))

  pub export_event_stats-built :
      (events : List Event) (w : World T X)
      → let (ok, w') = export_event_stats exporter events w in
        Recorded w.shared w'.shared × (ok ≡ true → law.rows w'.exporter ≤ length events)
  unfolding export_event_stats record_failure
  export_event_stats-built events w =
      let body : Action (World T X) ⊤ = export_event_stats_internal exporter events in
      let (rec, rows) = export_event_stats_internal-rows events w in
      let P : Outcome Bool → World T X → Type 0 = λ o w'.
        Recorded w.shared w'.shared
        × ((x : Bool) → o ≡ returned x → law.rows w'.exporter ≤ length events) in
      let (rec', rows') =
        bind_post P body (λ u. pure true) w (λ u e. (rec, λ x e'. rows e))
          (λ x e. (rec, λ y e'. absurd (ground (arith, e')))) in
      barrier_post
        (λ ok w'. Recorded w.shared w'.shared × (ok ≡ true → law.rows w'.exporter ≤ length events))
        (bytes "event stats OOM") false (body >> pure true) w (λ b e. (rec', λ yes. rows' b e))
        (λ x e. (failed _ _ _ rec', λ yes. absurd (ground (arith, yes))))

  same_exporter :
      (committed : Bool) (n : ℕ) (w : World T X)
      → (if committed then record_success n w else w).exporter ≡ w.exporter
  unfolding record_success
  same_exporter true n w = refl
  same_exporter false n w = refl

  module _ {ext : External T} where
    count_commit :
        (n : ℕ) (s : Option (Shared T)) (committed : Bool) (w : World T X)
        → IsSound ext s
        → exporter.num_exported w.exporter ≤ n
        → Recorded s w.shared
        → Accounted ext n s
            (exporter.num_exported w.exporter)
            (if committed then record_success (exporter.num_exported w.exporter) w else w).shared
    count_commit n s true w v few rec = record_success-Accounted w v few rec
    count_commit n s false w v few rec = Recorded-Accounted v few rec

    -- A batch that was built and is committed.
    pub commit-Accounted :
        (n : ℕ) (w : World T X)
        → IsSound ext w.shared
        → law.rows w.exporter ≤ n
        → Accounted ext n w.shared (value (commit exporter w).0) (commit exporter w).1.shared
    unfolding commit
    commit-Accounted n w v le =
        let (rec, few) = law.commits w in
        let w1 = (exporter.commit_batch w).1 in
        bind_post (λ o w'. Accounted ext n w.shared (value o) w'.shared) exporter.commit_batch
          (λ committed.
            modify (λ w2.
              if committed then record_success (exporter.num_exported w2.exporter) w2 else w2)
            >> λ w2. (returned (exporter.num_exported w2.exporter), w2))
          w
          (λ committed e.
            rw (same_exporter committed (exporter.num_exported w1.exporter) w1)
              (count_commit n w.shared committed w1 v (omega arith) rec))
          (λ x e. Recorded-Accounted v (omega arith) rec)
