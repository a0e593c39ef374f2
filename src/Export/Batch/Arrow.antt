-- ===== src/Export/Batch/Arrow.antt =====
-- The batches that go out as Arrow blocks, on any exporter and any builder that keep their contracts.
use pg_stat_ch_otel_backend.Base.{
  ℕ, ◌+◌, ◌≤◌, ◌≡◌, Bool, true, false, Option, none, some, List, [], ◌∷◌, length, ◌&&◌, not, leb,
  ltb, ◌==◌, if◌then◌else◌, arith, Bool-cases, inl, inr,
}
use pg_stat_ch_otel_backend.Event.{Event}
use pg_stat_ch_otel_backend.Store.{External}
use pg_stat_ch_otel_backend.Ring.{Shared}
use pg_stat_ch_otel_backend.Export.{
  Exception, Outcome, returned, thrown, Action, ◌>>=◌, World, Exporter, record_failure, bytes,
}
use pg_stat_ch_otel_backend.Export.Recorded.{Recorded, Recorded-trans, unchanged, failed, IsSound}
use pg_stat_ch_otel_backend.Export.Contract.{IsExporter, Outcome-cases}
use pg_stat_ch_otel_backend.Export.Batch.{
  Builder, record_success, flush_builder, append_events, flush_rest, send_blocks,
  export_events_as_arrow_internal, export_events_as_arrow,
}
use pg_stat_ch_otel_backend.Export.Batch.Accounted.{
  Accounted, value, Recorded-Accounted, record_success-Accounted, barrier-Accounted,
}

-- A builder counts the events appended since it was reset, and its blocks have no more rows.
pub record IsBuilder {B : Type 0} (builder : Builder B) : Type 0 where
  pub starts : (b : B) → builder.init ≡ returned (some b) → builder.num_rows b ≡ 0
  pub appends :
      (event : Event) (b b' : B) (ok : Bool)
      → builder.append_event event b ≡ returned (ok, b')
      → builder.num_rows b' ≤ builder.num_rows b + 1
  pub finishes :
      (b b' : B) (buffer : Option (List ℕ)) (rows : ℕ)
      → builder.finish b ≡ returned (buffer, rows, b')
      → rows ≤ builder.num_rows b
  pub resets : (b : B) → builder.num_rows (builder.reset b) ≡ 0

module _ {T X B : Type 0} (exporter : Exporter T X) (law : IsExporter exporter)
    (builder : Builder B) (counting : IsBuilder builder) (max_block_bytes : ℕ) where
  -- What is sent of a block is at most its rows.
  abbrev Flushed : B → World T X → Outcome (Option (ℕ × B)) → World T X → Type 0
  Flushed b w o w' =
      Recorded w.shared w'.shared
      × ((n : ℕ) (b' : B) → o ≡ returned (some (n, b')) → n ≤ builder.num_rows b)

  Flushed-none :
      (b : B) (w w' : World T X) → Recorded w.shared w'.shared → Flushed b w (returned none) w'
  Flushed-none b w w' rec = (rec, λ n b' e. absurd (ground (arith, e)))

  Flushed-thrown :
      (b : B) (w w' : World T X) (x : Exception)
      → Recorded w.shared w'.shared
      → Flushed b w (thrown x) w'
  Flushed-thrown b w w' x rec = (rec, λ n b' e. absurd (ground (arith, e)))

  sent_block :
      (b b' : B) (rows : ℕ) (sent : Bool) (w w' : World T X)
      → rows ≤ builder.num_rows b
      → Recorded w.shared w'.shared
      → Flushed b w (returned (if sent then some (rows, b') else none)) w'
  sent_block b b' rows true w w' few rec = (rec, λ n b'' e. ground (arith, e, few))
  sent_block b b' rows false w w' few rec = Flushed-none b w w' rec

  flush_builder-Flushed :
      (b : B) (w : World T X)
      → Flushed b w
          (flush_builder exporter builder max_block_bytes b w).0
          (flush_builder exporter builder max_block_bytes b w).1
  unfolding flush_builder
  flush_builder-Flushed b w = elim (Outcome-cases (builder.finish b)) [
    | inr (x, e) ↦ rw (e, flush_builder) (Flushed-thrown b w w x unchanged)
    | inl ((none, rows, b'), e) ↦ rw (e, flush_builder) (Flushed-none b w w unchanged)
    | inl ((some ipc, rows, b'), e) ↦ elim (Bool-cases (rows == 0)) [
      | inl zero_rows ↦ rw (e, zero_rows, flush_builder) (Flushed-none b w w unchanged)
      | inr some_rows ↦
          let w' = (exporter.send_arrow_batch ipc (length ipc) rows w).1 in
          let rec = law.sends ipc (length ipc) rows w in
          elim (Outcome-cases (exporter.send_arrow_batch ipc (length ipc) rows w).0) [
            | inl (sent, e') ↦
                rw (e, some_rows, e', flush_builder, ◌>>=◌)
                  (sent_block b b' rows sent w w' (counting.finishes b b' (some ipc) rows e) rec)
            | inr (x, e') ↦
                rw (e, some_rows, e', flush_builder, ◌>>=◌) (Flushed-thrown b w w' x rec)
          ]
    ]
  ]

  -- The rows sent and those in the builder are at most `n`.
  abbrev Within : ℕ → World T X → Outcome (Bool × ℕ × B) → World T X → Type 0
  Within n w o w' =
      Recorded w.shared w'.shared
      × ((x : Bool) (total : ℕ) (b : B)
          → o ≡ returned (x, total, b)
          → total + builder.num_rows b ≤ n)

  Within-append_events :
      (n : ℕ) (w w' : World T X) (x : Bool) (total : ℕ) (b : B)
      → Recorded w.shared w'.shared
      → total + builder.num_rows b ≤ n
      → Within n w (returned (x, total, b)) w'
  Within-append_events n w w' x total b rec le = (rec, λ x' total' b' e. ground (arith, e, le))

  Within-thrown :
      (n : ℕ) (w w' : World T X) (x : Exception)
      → Recorded w.shared w'.shared
      → Within n w (thrown x) w'
  Within-thrown n w w' x rec = (rec, λ x' total b e. absurd (ground (arith, e)))

  Within-trans :
      (n : ℕ) (u v : World T X) (m : Action (World T X) (Bool × ℕ × B))
      → Recorded u.shared v.shared
      → Within n v (m v).0 (m v).1
      → Within n u (m v).0 (m v).1
  Within-trans n u v m rec (rec', le) = (Recorded-trans rec rec', le)

  append_events-Within :
      (events : List Event) (total n : ℕ) (b : B) (w : World T X)
      → total + builder.num_rows b + length events ≤ n
      → let m = append_events exporter builder max_block_bytes events total b in
        Within n w (m w).0 (m w).1
  unfolding append_events
  append_events-Within [] total n b w le =
      Within-append_events n w w false total b unchanged (omega arith)
  append_events-Within (event ∷ events) total n b w le =
      elim (Outcome-cases (builder.append_event event b)) [
        | inr (x, e) ↦ rw (e, append_events) (Within-thrown n w w x unchanged)
        | inl ((false, b1), e) ↦
            rw (e, append_events)
              (Within-append_events n w w true total b1 unchanged
                (omega (arith, counting.appends event b b1 false e)))
        | inl ((true, b1), e) ↦
            let more = counting.appends event b b1 true e in
            elim (Bool-cases (leb max_block_bytes (builder.estimated_bytes b1))) [
              | inr room ↦
                  rw (e, room, append_events)
                    (append_events-Within events total n b1 w (omega (arith, more, le)))
              | inl full ↦
                  let w' = (flush_builder exporter builder max_block_bytes b1 w).1 in
                  let (rec, few) = flush_builder-Flushed b1 w in
                  elim (Outcome-cases (flush_builder exporter builder max_block_bytes b1 w).0) [
                    | inr (x, e') ↦ rw (e, full, e', append_events) (Within-thrown n w w' x rec)
                    | inl (none, e') ↦
                        rw (e, full, e', append_events)
                          (Within-append_events n w w' true total b1 rec (omega (arith, more, le)))
                    | inl (some (rows, b2), e') ↦
                        let bound = few rows b2 e' in
                        let empty = counting.resets b2 in
                        rw (e, full, e', append_events)
                          (Within-trans n w w'
                            (append_events exporter builder max_block_bytes events (total + rows)
                              (builder.reset b2))
                            rec
                            (append_events-Within events (total + rows) n (builder.reset b2) w'
                              (omega (arith, more, le, bound, empty))))
                  ]
            ]
      ]

  -- What was sent in all is at most `n`.
  abbrev Sent : ℕ → World T X → Outcome (Bool × ℕ) → World T X → Type 0
  Sent n w o w' =
      Recorded w.shared w'.shared × ((x : Bool) (total : ℕ) → o ≡ returned (x, total) → total ≤ n)

  Sent-flush_rest :
      (n : ℕ) (w w' : World T X) (x : Bool) (total : ℕ)
      → Recorded w.shared w'.shared
      → total ≤ n
      → Sent n w (returned (x, total)) w'
  Sent-flush_rest n w w' x total rec le = (rec, λ x' total' e. ground (arith, e, le))

  flush_rest-Sent :
      (n : ℕ) (x : Bool) (total : ℕ) (b : B) (w : World T X)
      → total + builder.num_rows b ≤ n
      → let m = flush_rest exporter builder max_block_bytes (x, total, b) in
        Sent n w (m w).0 (m w).1
  unfolding flush_rest
  flush_rest-Sent n x total b w le = elim (Bool-cases (not x && ltb 0 (builder.num_rows b))) [
    | inr h ↦ rw (h, flush_rest) (Sent-flush_rest n w w x total unchanged (omega (arith, le)))
    | inl h ↦
        let w' = (flush_builder exporter builder max_block_bytes b w).1 in
        let (rec, few) = flush_builder-Flushed b w in
        elim (Outcome-cases (flush_builder exporter builder max_block_bytes b w).0) [
          | inr (y, e) ↦
              rw (h, flush_rest, e, ◌>>=◌) (rec, λ x' total' e'. absurd (ground (arith, e')))
          | inl (none, e) ↦
              rw (h, flush_rest, e, ◌>>=◌)
                (Sent-flush_rest n w w' true total rec (omega (arith, le)))
          | inl (some (rows, b'), e) ↦
              let bound = few rows b' e in
              rw (h, flush_rest, e, ◌>>=◌)
                (Sent-flush_rest n w w' false (total + rows) rec (omega (arith, le, bound)))
        ]
  ]

  send_blocks-Sent :
      (events : List Event) (b : B) (w : World T X)
      → builder.num_rows b ≡ 0
      → let m = send_blocks exporter builder max_block_bytes events b in
        Sent (length events) w (m w).0 (m w).1
  unfolding send_blocks
  send_blocks-Sent events b w empty =
      let n = length events in
      let w1 = (append_events exporter builder max_block_bytes events 0 b w).1 in
      let (rec, within) = append_events-Within events 0 n b w (omega (arith, empty)) in
      elim (Outcome-cases (append_events exporter builder max_block_bytes events 0 b w).0) [
        | inr (x, e) ↦ rw (e, send_blocks, ◌>>=◌) (rec, λ x' total' e'. absurd (ground (arith, e')))
        | inl ((x, total, b1), e) ↦
            let (rec', sent) = flush_rest-Sent n x total b1 w1 (within x total b1 e) in
            rw (e, send_blocks, ◌>>=◌) (Recorded-trans rec rec', sent)
      ]

  module _ {ext : External T} where
    count_total :
        (n : ℕ) (s : Option (Shared T)) (export_failed : Bool) (total : ℕ) (w : World T X)
        → IsSound ext s
        → total ≤ n
        → Recorded s w.shared
        → Accounted ext n s total
            (if export_failed
              then record_failure (bytes "Arrow batch build/send failed") w
              else (if ltb 0 total then record_success total w else w)).shared
    unfolding record_failure
    count_total n s true total w v le rec =
        Recorded-Accounted v le (failed w.shared w.time (some _) rec)
    count_total n s false total w v le rec = elim (Bool-cases (ltb 0 total)) [
      | inl h ↦ rw h (record_success-Accounted w v le rec)
      | inr h ↦ rw h (Recorded-Accounted v le rec)
    ]

    export_internal-Accounted :
        (events : List Event) (w : World T X)
        → IsSound ext w.shared
        → let m = export_events_as_arrow_internal exporter builder max_block_bytes events in
          Accounted ext (length events) w.shared (value (m w).0) (m w).1.shared
    unfolding export_events_as_arrow_internal record_failure
    export_internal-Accounted events w v = elim (Outcome-cases builder.init) [
      | inr (x, e) ↦
          rw (e, export_events_as_arrow_internal) (Recorded-Accounted v (omega arith) unchanged)
      | inl (none, e) ↦
          rw (e, export_events_as_arrow_internal)
            (Recorded-Accounted v (omega arith) (failed w.shared w.time (some _) unchanged))
      | inl (some b, e) ↦
          let n = length events in
          let w' = (send_blocks exporter builder max_block_bytes events b w).1 in
          let (rec, sent) = send_blocks-Sent events b w (counting.starts b e) in
          elim (Outcome-cases (send_blocks exporter builder max_block_bytes events b w).0) [
            | inr (x, e1) ↦
                rw (e, export_events_as_arrow_internal, e1, ◌>>=◌)
                  (Recorded-Accounted v (omega arith) rec)
            | inl ((x, total), e1) ↦
                rw (e, export_events_as_arrow_internal, e1, ◌>>=◌)
                  (count_total n w.shared x total w' v (sent x total e1) rec)
          ]
    ]

    -- The blocks of a batch hold at most its events.
    pub export_events_as_arrow-Accounted :
        (events : List Event) (w : World T X)
        → IsSound ext w.shared
        → let (r, w') = export_events_as_arrow exporter builder max_block_bytes events w in
          Accounted ext (length events) w.shared r w'.shared
    unfolding export_events_as_arrow
    export_events_as_arrow-Accounted events w v =
        barrier-Accounted (length events) w.shared (bytes "Arrow export OOM")
          (export_events_as_arrow_internal exporter builder max_block_bytes events) w
          (export_internal-Accounted events w v)
