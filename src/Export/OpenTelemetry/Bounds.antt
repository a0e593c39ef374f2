-- ===== src/Export/OpenTelemetry/Bounds.antt =====
-- The size of a request: the chunk of the OpenTelemetry exporter stays within its limits.
use Prim.Native.String.{String}
use pg_stat_ch_otel_backend.Base.{
  ◌+◌, ◌*◌, ◌≤◌, ◌≡◌, subst, true, false, not, [], ◌∷◌, inl, inr, ◌||◌, leb, length, length-append,
  arith, Bool-cases, Option-cases,
}
use pg_stat_ch_otel_backend.Export.{◌>>=◌, World, record_failure}
use pg_stat_ch_otel_backend.Export.Rows.{Kind, Value}
use pg_stat_ch_otel_backend.Export.Contract.{Outcome-cases}
use pg_stat_ch_otel_backend.Export.OpenTelemetry.Record.{append_attribute, find_kind}
use pg_stat_ch_otel_backend.Export.OpenTelemetry.{
  Client, Limits, OTel, min_bytes_per_record, all_records, chunk_full, reset_chunk, begin_batch,
  add_log_record, append_value, configure_log_export, flush_chunk, begin_chunk, begin_row,
}
use pg_stat_ch_otel_backend.Export.OpenTelemetry.Settle.{Status-cases}

-- The request of the chunk has at most `chunk_count` records, and those are within the limit.
pub record IsBounded {N : Type 0} (x : OTel N) : Type 0 where
  pub held : length (all_records x.chunk x.current) ≤ x.chunk_count
  pub within : x.chunk_count ≤ x.max_chunk_records
  pub positive : 1 ≤ x.max_chunk_records

module _ {N : Type 0} where
  -- The limits that ConfigureLogExport sets allow one record, and as many as they allow take at most
  -- the bytes of a request, at 1200 bytes each.
  pub configure_log_export_lem :
      (limits : Limits) (x : OTel N)
      → (1 ≤ (configure_log_export limits x).max_chunk_records)
        × ((configure_log_export limits x).max_chunk_records * min_bytes_per_record
            ≤ (configure_log_export limits x).max_chunk_bytes)
  unfolding configure_log_export
  configure_log_export_lem limits x = (omega arith, omega arith)

  add_log_record-IsBounded :
      (x : OTel N)
      → length (all_records x.chunk x.current) ≤ x.chunk_count
      → x.chunk_count + 1 ≤ x.max_chunk_records
      → IsBounded (add_log_record x)
  unfolding add_log_record
  add_log_record-IsBounded x held room = record {
    held = omega (
      arith,
      held,
      length-append (all_records x.chunk x.current)
          (record { time_unix_nano = 0; attributes = [] } ∷ []),
    );
    within = room;
    positive = omega (arith, room);
  }

  reset_chunk-IsBounded :
      (x : OTel N) → 1 ≤ x.max_chunk_records → IsBounded (add_log_record (reset_chunk x))
  unfolding reset_chunk
  reset_chunk-IsBounded x positive = add_log_record-IsBounded (reset_chunk x) (omega arith) positive

  append_value-IsBounded :
      (name : String) (v : Value) (x : OTel N) → IsBounded x → IsBounded (append_value name v x)
  unfolding append_value
  append_value-IsBounded name v x b = elim (Option-cases x.current) [
    | inl e ↦ rw (e, append_value) b
    | inr (rec, e) ↦ elim (Option-cases (find_kind name x.columns)) [
      | inl e' ↦ simp (e, e', append_value) b
      | inr (kind, e') ↦
          simp (e, e', append_value)
            (record {
              held = omega (
                arith,
                subst (λ c. length (all_records x.chunk c) ≤ x.chunk_count) e b.held,
                length-append x.chunk (rec ∷ []),
                length-append x.chunk ((append_attribute name kind v (rec, x.chunk_bytes)).0 ∷ []),
              );
              within = b.within;
              positive = b.positive;
            })
    ]
  ]

  room : (x : OTel N) → chunk_full x ≡ false → x.chunk_count + 1 ≤ x.max_chunk_records
  unfolding chunk_full
  room x h = ground (arith, h)

module _ {T N : Type 0} (client : Client N) where
  flush_chunk-IsBounded :
      (w : World T (OTel N)) → IsBounded w.exporter → IsBounded (flush_chunk client w).1.exporter
  unfolding flush_chunk record_failure
  flush_chunk-IsBounded w b =
      let x = w.exporter in
      elim (Bool-cases (not x.has_stub || leb x.chunk_count 0)) [
        | inl h ↦ rw (h, flush_chunk) b
        | inr h ↦
            elim (Status-cases
              (client.export_records (all_records x.chunk x.current) x.network).0) [
                | inl e ↦
                    rw (h, e, flush_chunk)
                      (record { held = omega arith; within = omega arith; positive = b.positive })
                | inr (inl (msg, e)) ↦
                    rw (h, e, flush_chunk)
                      (record { held = omega arith; within = b.within; positive = b.positive })
                | inr (inr (ex, e)) ↦
                    rw (h, e, flush_chunk)
                      (record { held = omega arith; within = b.within; positive = b.positive })
              ]
      ]

  begin_chunk-IsBounded :
      (w : World T (OTel N)) → IsBounded w.exporter → IsBounded (begin_chunk client w).1.exporter
  unfolding begin_chunk
  begin_chunk-IsBounded w b =
      let c = flush_chunk-IsBounded w b in
      elim (Outcome-cases (flush_chunk client w).0) [
        | inl (true, e) ↦
            rw (e, begin_chunk, ◌>>=◌)
              (reset_chunk-IsBounded (flush_chunk client w).1.exporter c.positive)
        | inl (false, e) ↦
            rw (e, begin_chunk, ◌>>=◌)
              (record { held = c.held; within = c.within; positive = c.positive })
        | inr (x, e) ↦ rw (e, begin_chunk, ◌>>=◌) c
      ]

  begin_row-IsBounded :
      (w : World T (OTel N)) → IsBounded w.exporter → IsBounded (begin_row client w).1.exporter
  unfolding begin_row
  begin_row-IsBounded w b = elim (Bool-cases w.exporter.batch_failed) [
    | inl h ↦ simp (h, begin_row) b
    | inr h ↦ elim (Bool-cases (chunk_full w.exporter)) [
      | inl full ↦ simp (h, full, begin_row) (begin_chunk-IsBounded w b)
      | inr full ↦
          let added = add_log_record-IsBounded w.exporter b.held (room w.exporter full) in
          simp (h, full, begin_row)
            (record { held = added.held; within = added.within; positive = added.positive })
    ]
  ]

  -- The calls of a batch, from BeginBatch on, in any order.
  pub data Filling (w : World T (OTel N)) : World T (OTel N) → Type 0 where
    batch : Filling w (record w { exporter = begin_batch w.exporter })
    column :
        (u : World T (OTel N)) (c : String × Kind)
        → Filling w u
        → Filling w (record u { exporter = record u.exporter { columns = c ∷ u.exporter.columns } })
    row : (u : World T (OTel N)) → Filling w u → Filling w (begin_row client u).1
    value :
        (u : World T (OTel N)) (name : String) (v : Value)
        → Filling w u
        → Filling w (record u { exporter = append_value name v u.exporter })

  -- Whatever columns, rows and values a batch is given after BeginBatch, and whatever the
  -- collector answers or throws, the request that FlushChunk would send holds at most
  -- `chunk_count` records, and those are at most `max_chunk_records`, where that limit allows one
  -- record at all.
  pub filling-IsBounded :
      (w u : World T (OTel N))
      → 1 ≤ w.exporter.max_chunk_records
      → Filling w u
      → IsBounded u.exporter
  unfolding begin_batch reset_chunk
  filling-IsBounded w _ positive batch = record {
    held = omega arith;
    within = omega arith;
    positive = positive;
  }
  filling-IsBounded w _ positive (column u c before) =
      let b = filling-IsBounded w u positive before in
      record { held = b.held; within = b.within; positive = b.positive }
  filling-IsBounded w _ positive (row u before) =
      begin_row-IsBounded u (filling-IsBounded w u positive before)
  filling-IsBounded w _ positive (value u name v before) =
      append_value-IsBounded name v u.exporter (filling-IsBounded w u positive before)
