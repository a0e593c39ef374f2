-- ===== src/Export/OpenTelemetry/Settle.antt =====
-- What FlushChunk and CommitBatch answer, and what they count.
use pg_stat_ch_otel_backend.Base.{
  ℕ, ◌+◌, ◌≡◌, refl, Bool, true, false, not, some, List, ◌⊎◌, inl, inr, ◌||◌, leb, arith,
  Bool-cases,
}
use pg_stat_ch_otel_backend.Stats.{record_export_failure}
use pg_stat_ch_otel_backend.Export.{Exception, Outcome, returned, World, record_failure}
use pg_stat_ch_otel_backend.Export.Contract.{Outcome-cases}
use pg_stat_ch_otel_backend.Export.OpenTelemetry.{
  Status, ok, refused, raised, Client, OTel, all_records, flush_chunk, try_flush, commit_batch,
  what,
}

-- The rows begun since BeginBatch: exported ones and those of the chunk.
unfoldable pub begun : {N : Type 0} → OTel N → ℕ
begun x = x.exported_count + x.chunk_count

-- What CommitBatch answers and what it leaves: on success no failure is pending and none was
-- recorded, and with a stub every row begun is exported; else it leaves the batch as BeginRow
-- failed it, or counts one failure, in the exporter and in the shared statistics.
pub record Settled {T N : Type 0} (w : World T (OTel N)) (sent : Bool) (w' : World T (OTel N))
    : Type 0 where
  pub rows : begun w'.exporter ≡ begun w.exporter
  pub succeeded :
      sent ≡ true
      → (w'.exporter.consecutive_failures ≡ 0)
        × ((w'.shared ≡ w.shared)
            × (w.exporter.has_stub ≡ true → w'.exporter.exported_count ≡ begun w.exporter))
  pub failing :
      sent ≡ false
      → (w' ≡ w) × (w.exporter.batch_failed ≡ true)
        ⊎ (w'.exporter.consecutive_failures ≡ w.exporter.consecutive_failures + 1)
          × ((msg : List ℕ) × (w'.shared ≡ record_export_failure w.time (some msg) w.shared))

-- What FlushChunk answers and what it leaves.
pub record Flushed {T N : Type 0} (w : World T (OTel N)) (r : Outcome Bool) (w' : World T (OTel N))
    : Type 0 where
  pub rows : begun w'.exporter ≡ begun w.exporter
  pub time : w'.time ≡ w.time
  pub failures_kept :
      (r ≡ returned false → ⊥)
      → (w'.exporter.consecutive_failures ≡ w.exporter.consecutive_failures)
        × (w'.shared ≡ w.shared)
  pub emptied :
      r ≡ returned true → w.exporter.has_stub ≡ true → w'.exporter.exported_count ≡ begun w.exporter
  pub failing :
      r ≡ returned false
      → (w'.exporter.consecutive_failures ≡ w.exporter.consecutive_failures + 1)
        × ((msg : List ℕ) × (w'.shared ≡ record_export_failure w.time (some msg) w.shared))

pub Status-cases :
    (s : Status)
    → (s ≡ ok) ⊎ (((msg : List ℕ) × (s ≡ refused msg)) ⊎ ((e : Exception) × (s ≡ raised e)))
Status-cases ok = inl refl
Status-cases (refused msg) = inr (inl (msg, refl))
Status-cases (raised e) = inr (inr (e, refl))

module _ {T N : Type 0} (client : Client N) where
  pub flush_chunk-Flushed :
      (w : World T (OTel N)) → Flushed w (flush_chunk client w).0 (flush_chunk client w).1
  unfolding flush_chunk begun record_failure
  flush_chunk-Flushed w =
      let x = w.exporter in
      elim (Bool-cases (not x.has_stub || leb x.chunk_count 0)) [
        | inl h ↦
            rw (h, flush_chunk)
              (record {
                rows = refl;
                time = refl;
                failures_kept = λ _. (refl, refl);
                emptied = λ _ stub. ground (arith, h, stub);
                failing = λ e. absurd (ground (arith, e));
              })
        | inr h ↦
            elim (Status-cases
              (client.export_records (all_records x.chunk x.current) x.network).0) [
                | inl e ↦
                    rw (h, e, flush_chunk)
                      (record {
                        rows = omega arith;
                        time = refl;
                        failures_kept = λ _. (refl, refl);
                        emptied = λ _ stub. refl;
                        failing = λ e. absurd (ground (arith, e));
                      })
                | inr (inl (msg, e)) ↦
                    rw (h, e, flush_chunk)
                      (record {
                        rows = refl;
                        time = refl;
                        failures_kept = λ no. absurd (no refl);
                        emptied = λ e. absurd (ground (arith, e));
                        failing = λ _. (refl, (msg, refl));
                      })
                | inr (inr (ex, e)) ↦
                    rw (h, e, flush_chunk)
                      (record {
                        rows = refl;
                        time = refl;
                        failures_kept = λ _. (refl, refl);
                        emptied = λ e. absurd (ground (arith, e));
                        failing = λ e. absurd (ground (arith, e));
                      })
              ]
      ]

  try_flush-Settled :
      (w : World T (OTel N))
      → w.exporter.has_stub ≡ true
      → Settled w (try_flush client w).0 (try_flush client w).1
  unfolding try_flush begun record_failure
  try_flush-Settled w stub =
      let f = flush_chunk-Flushed w in
      elim (Outcome-cases (flush_chunk client w).0) [
        | inl (true, e) ↦
            rw (e, try_flush)
              (record {
                rows = f.rows;
                succeeded = λ _. (
                  refl,
                  ((f.failures_kept (λ e'. ground (arith, e, e'))).1, λ _. f.emptied e stub),
                );
                failing = λ e'. absurd (ground (arith, e'));
              })
        | inl (false, e) ↦
            rw (e, try_flush)
              (record {
                rows = f.rows;
                succeeded = λ e'. absurd (ground (arith, e'));
                failing = λ _. inr (f.failing e);
              })
        | inr (ex, e) ↦
            let (kept, same) = f.failures_kept (λ e'. ground (arith, e, e')) in
            rw (e, try_flush)
              (record {
                rows = f.rows;
                succeeded = λ e'. absurd (ground (arith, e'));
                failing = λ _. inr (omega (arith, kept), (what ex, cc (same, f.time)));
              })
      ]

  -- CommitBatch of the OpenTelemetry exporter never loses count of a row: those exported and
  -- those of the chunk are as many as before. Where it returns true, no consecutive failures are
  -- left, the shared statistics are as they were, and with a stub every row begun is exported.
  -- Where it returns false, either BeginRow had failed the batch and nothing changes, or the
  -- consecutive failures are raised by one and exactly one failure is recorded in the shared
  -- statistics.
  pub commit_batch-Settled :
      (w : World T (OTel N)) → Settled w (commit_batch client w).0 (commit_batch client w).1
  unfolding commit_batch begun record_failure
  commit_batch-Settled w = elim (Bool-cases w.exporter.batch_failed) [
    | inl h ↦
        simp (h, commit_batch)
          (record {
            rows = refl;
            succeeded = λ e. absurd (ground (arith, e));
            failing = λ _. inl (refl, h);
          })
    | inr h ↦ elim (Bool-cases w.exporter.has_stub) [
      | inr stub ↦
          simp (h, stub, commit_batch)
            (record {
              rows = refl;
              succeeded = λ e. (refl, (refl, λ e'. absurd (ground (arith, stub, e'))));
              failing = λ e. absurd (ground (arith, e));
            })
      | inl stub ↦ simp (h, stub, commit_batch) (try_flush-Settled w stub)
    ]
  ]
