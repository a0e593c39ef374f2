-- ===== src/Export/OpenTelemetry/Laws.antt =====
-- The exporter keeps the contract of src/export/exporter_interface.h.
use Prim.Native.String.{String}
use pg_stat_ch_otel_backend.Base.{
  ℕ, ◌≡◌, refl, sym, subst, Bool, true, false, not, some, List, inl, inr, ◌||◌, leb, arith,
  Bool-cases, Option-cases,
}
use pg_stat_ch_otel_backend.Export.{Outcome, returned, thrown, ◌>>=◌, World, record_failure}
use pg_stat_ch_otel_backend.Export.Rows.{Value}
use pg_stat_ch_otel_backend.Export.Recorded.{Recorded, unchanged, failed}
use pg_stat_ch_otel_backend.Export.Contract.{IsExporter, Keeps, Outcome-cases}
use pg_stat_ch_otel_backend.Export.OpenTelemetry.Record.{find_kind}
use pg_stat_ch_otel_backend.Export.OpenTelemetry.{
  Client, Limits, OTel, chunk_full, reset_chunk, begin_batch, add_log_record, append_value,
  flush_chunk, begin_chunk, begin_row, send_arrow_batch, opentelemetry, what,
}
use pg_stat_ch_otel_backend.Export.OpenTelemetry.Settle.{
  begun, Settled, Flushed, Status-cases, flush_chunk-Flushed, commit_batch-Settled,
}

append_value-begun :
    {N : Type 0}
    → (name : String) (v : Value) (x : OTel N) → begun (append_value name v x) ≡ begun x
unfolding append_value begun
append_value-begun name v x = elim (Option-cases x.current) [
  | inl e ↦ rw (e, append_value) refl
  | inr (rec, e) ↦ elim (Option-cases (find_kind name x.columns)) [
    | inl e' ↦ simp (e, e', append_value) refl
    | inr (kind, e') ↦ simp (e, e', append_value) refl
  ]
]

module _ {T N : Type 0} (client : Client N) where
  Flushed-Recorded :
      (w w' : World T (OTel N)) (r : Outcome Bool) → Flushed w r w' → Recorded w.shared w'.shared
  Flushed-Recorded w w' (returned true) f =
      subst (Recorded w.shared) (sym (f.failures_kept (λ e. ground (arith, e))).1) unchanged
  Flushed-Recorded w w' (returned false) f =
      let (msg, e) = (f.failing refl).1 in
      subst (Recorded w.shared) (sym e) (failed w.shared w.time (some msg) unchanged)
  Flushed-Recorded w w' (thrown x) f =
      subst (Recorded w.shared) (sym (f.failures_kept (λ e. ground (arith, e))).1) unchanged

  Settled-Recorded :
      (w w' : World T (OTel N)) (sent : Bool) → Settled w sent w' → Recorded w.shared w'.shared
  Settled-Recorded w w' true c = subst (Recorded w.shared) (sym (c.succeeded refl).1.0) unchanged
  Settled-Recorded w w' false c = elim (c.failing refl) [
    | inl (e, _) ↦ rw (e) unchanged
    | inr (_, (msg, e)) ↦
        subst (Recorded w.shared) (sym e) (failed w.shared w.time (some msg) unchanged)
  ]

  begin_chunk-Keeps : (w : World T (OTel N)) → Keeps begun 1 w (begin_chunk client w).1
  unfolding begin_chunk begun add_log_record reset_chunk
  begin_chunk-Keeps w =
      let f = flush_chunk-Flushed client w in
      let rec = Flushed-Recorded w _ _ f in
      elim (Outcome-cases (flush_chunk client w).0) [
        | inl (true, e) ↦
            rw (e, begin_chunk, ◌>>=◌) (record { records = rec; grown = omega (arith, f.rows) })
        | inl (false, e) ↦
            rw (e, begin_chunk, ◌>>=◌) (record { records = rec; grown = omega (arith, f.rows) })
        | inr (x, e) ↦
            rw (e, begin_chunk, ◌>>=◌) (record { records = rec; grown = omega (arith, f.rows) })
      ]

  -- The chunk is sent before it is reset, so BeginRow adds one row to those begun, or none.
  begin_row-Keeps : (w : World T (OTel N)) → Keeps begun 1 w (begin_row client w).1
  unfolding begin_row begun add_log_record
  begin_row-Keeps w = elim (Bool-cases w.exporter.batch_failed) [
    | inl h ↦ simp (h, begin_row) (record { records = unchanged; grown = omega arith })
    | inr h ↦ elim (Bool-cases (chunk_full w.exporter)) [
      | inr full ↦ simp (h, full, begin_row) (record { records = unchanged; grown = omega arith })
      | inl full ↦ simp (h, full, begin_row) (begin_chunk-Keeps w)
    ]
  ]

  send_arrow_batch-Recorded :
      (ipc : List ℕ) (len rows : ℕ) (w : World T (OTel N))
      → Recorded w.shared (send_arrow_batch client ipc len rows w).1.shared
  unfolding send_arrow_batch record_failure
  send_arrow_batch-Recorded ipc len rows w =
      let x = w.exporter in
      elim (Bool-cases (not x.has_stub || (leb len 0 || leb rows 0))) [
        | inl h ↦ simp (h, send_arrow_batch) unchanged
        | inr h ↦ elim (Status-cases (client.export_block ipc rows x.network).0) [
          | inl e ↦ simp (h, e, send_arrow_batch) unchanged
          | inr (inl (msg, e)) ↦
              simp (h, e, send_arrow_batch) (failed w.shared w.time (some msg) unchanged)
          | inr (inr (ex, e)) ↦
              simp (h, e, send_arrow_batch) (failed w.shared w.time (some (what ex)) unchanged)
        ]
      ]

  -- The OpenTelemetry exporter keeps the contract of an exporter: a begun batch has no rows, only
  -- BeginRow adds one, CommitBatch reports at most the rows begun, and no call does anything to
  -- the shared state but record failures.
  pub opentelemetry-IsExporter :
      (limits : Limits) → IsExporter (opentelemetry {T = T} client limits)
  unfolding opentelemetry begin_batch reset_chunk begun
  opentelemetry-IsExporter limits = record {
    rows = begun;
    connects = λ w. unchanged;
    begins = λ w. (unchanged, λ e. omega arith);
    adds = λ c w. record { records = unchanged; grown = omega arith };
    starts = begin_row-Keeps;
    appends = λ (name, v) w. record {
      records = unchanged;
      grown = omega (arith, append_value-begun name v w.exporter);
    };
    commits = λ w.
        let c = commit_batch-Settled client w in (Settled-Recorded w _ _ c, omega (arith, c.rows));
    sends = λ ipc len n w. send_arrow_batch-Recorded ipc len n w;
  }
