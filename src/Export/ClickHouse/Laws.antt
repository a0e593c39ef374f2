-- ===== src/Export/ClickHouse/Laws.antt =====
-- The exporter keeps the contract of src/export/exporter_interface.h, and what CommitBatch counts.
use Prim.Native.String.{String}
use pg_stat_ch_otel_backend.Base.{
  ℕ, ◌+◌, ◌≡◌, refl, sym, subst, ◌∙◌, Bool, true, false, some, List, ◌&&◌, arith, Bool-cases,
  Option-cases, inl, inr, if◌then◌else◌,
}
use pg_stat_ch_otel_backend.Stats.{record_export_failure}
use pg_stat_ch_otel_backend.Export.{World, record_failure}
use pg_stat_ch_otel_backend.Export.Rows.{Kind}
use pg_stat_ch_otel_backend.Export.Recorded.{Recorded, unchanged, failed}
use pg_stat_ch_otel_backend.Export.Contract.{IsExporter, Keeps}
use pg_stat_ch_otel_backend.Export.ClickHouse.{
  Stage, connecting, building, inserting, caught_text, attempt, insert_block, build_block,
  with_client, send_insert, crunch_all, Library, ClickHouse, dial, establish_new_connection,
  ensure_memory_contexts, close_connection, fail, insert_columns, commit_batch, begin_batch,
  clickhouse,
}
use pg_stat_ch_otel_backend.Export.ClickHouse.Block.{make_col}

-- What CommitBatch answers and what it leaves: on success no failure is pending and none was
-- recorded; a failure is counted once, in the exporter and in the shared statistics.
pub record Committed {T N : Type 0} (w : World T (ClickHouse N)) (ok : Bool)
    (w' : World T (ClickHouse N)) : Type 0 where
  pub rows : w'.exporter.exported_count ≡ w.exporter.exported_count
  pub columns : w'.exporter.columns ≡ w.exporter.columns
  pub succeeded : ok ≡ true → (w'.exporter.consecutive_failures ≡ 0) × (w'.shared ≡ w.shared)
  pub failing :
      ok ≡ false
      → (w'.exporter.consecutive_failures ≡ w.exporter.consecutive_failures + 1)
        × ((msg : List ℕ) × (w'.shared ≡ record_export_failure w.time (some msg) w.shared))

-- The same but for the client, the network and the contexts.
record Reconnected {N : Type 0} (x x' : ClickHouse N) : Type 0 where
  rows : x'.exported_count ≡ x.exported_count
  columns : x'.columns ≡ x.columns
  failures : x'.consecutive_failures ≡ x.consecutive_failures

-- After other calls on the network.
later-Reconnected :
    {N : Type 0} (x x' : ClickHouse N) (net : N)
    → Reconnected x x'
    → Reconnected x (record x' { network = net })
later-Reconnected x x' net like = record {
  rows = like.rows;
  columns = like.columns;
  failures = like.failures;
}

module _ {N : Type 0} (lib : Library N) where
  ensure-Reconnected : (x : ClickHouse N) → Reconnected x (ensure_memory_contexts lib x).1
  unfolding ensure_memory_contexts
  ensure-Reconnected x = elim (Bool-cases x.contexts_ready) [
    | inl h ↦ rw h (record { rows = refl; columns = refl; failures = refl })
    | inr h ↦ rw h (record { rows = refl; columns = refl; failures = refl })
  ]

  dial-Reconnected :
      (use_tls : Bool) (y x : ClickHouse N) → Reconnected y x → Reconnected y (dial lib use_tls x).1
  unfolding dial close_connection
  dial-Reconnected use_tls y x like =
      let net1 = (lib.tcp_connect x.network).1 in
      let secured : Bool × N = if use_tls then lib.tls_connect net1 else (true, net1) in
      let same : Reconnected y x = like in
      elim (Bool-cases (lib.tcp_connect x.network).0) [
        | inr h ↦
            rw (h, dial)
              (record { rows = like.rows; columns = like.columns; failures = like.failures })
        | inl h ↦ elim (Bool-cases secured.0) [
          | inr h' ↦
              rw (h, h', dial)
                (record { rows = like.rows; columns = like.columns; failures = like.failures })
          | inl h' ↦ elim (Bool-cases (lib.client_init secured.1).0) [
            | inr h2 ↦
                rw (h, h', h2, dial)
                  (record { rows = like.rows; columns = like.columns; failures = like.failures })
            | inl h2 ↦
                rw (h, h', h2, dial)
                  (record { rows = like.rows; columns = like.columns; failures = like.failures })
          ]
        ]
      ]

  establish-Reconnected :
      (use_tls : Bool) (x : ClickHouse N) → Reconnected x (establish_new_connection lib use_tls x).1
  unfolding establish_new_connection close_connection
  establish-Reconnected use_tls x =
      let x1 = (ensure_memory_contexts lib x).1 in
      let like = ensure-Reconnected x in
      elim (Bool-cases (ensure_memory_contexts lib x).0) [
        | inl h ↦
            rw (h, establish_new_connection)
              (dial-Reconnected use_tls x (close_connection lib x1)
                (record { rows = like.rows; columns = like.columns; failures = like.failures }))
        | inr h ↦ rw (h, establish_new_connection) like
      ]

module _ {T N : Type 0} (lib : Library N) where
  fail-Committed :
      (w w1 : World T (ClickHouse N)) (msg : List ℕ) (close_conn : Bool)
      → Reconnected w.exporter w1.exporter
      → w1.shared ≡ w.shared
      → w1.time ≡ w.time
      → Committed w (fail lib msg close_conn w1).0 (fail lib msg close_conn w1).1
  unfolding fail record_failure close_connection
  fail-Committed w w1 msg true like shared time = record {
    rows = like.rows;
    columns = like.columns;
    succeeded = λ e. absurd (ground (arith, e));
    failing = λ e. (omega (arith, like.failures), (msg, cc (shared, time)));
  }
  fail-Committed w w1 msg false like shared time = record {
    rows = like.rows;
    columns = like.columns;
    succeeded = λ e. absurd (ground (arith, e));
    failing = λ e. (omega (arith, like.failures), (msg, cc (shared, time)));
  }

  attempt-Committed :
      (stage : Stage) (run : World T (ClickHouse N) → Bool × World T (ClickHouse N))
      (w w1 : World T (ClickHouse N))
      → Reconnected w.exporter w1.exporter
      → w1.shared ≡ w.shared
      → w1.time ≡ w.time
      → Committed w (run w1).0 (run w1).1
      → Committed w (attempt lib stage run w1).0 (attempt lib stage run w1).1
  unfolding attempt
  attempt-Committed stage run w w1 like shared time done =
      let net = (lib.raises stage w1.exporter.network).1 in
      elim (Option-cases (lib.raises stage w1.exporter.network).0) [
        | inl quiet ↦ rw (quiet, attempt) done
        | inr (x, raised) ↦
            rw (raised, attempt)
              (fail-Committed w (record w1 { exporter = record w1.exporter { network = net } })
                (caught_text x) true (later-Reconnected w.exporter w1.exporter net like) shared
                time)
      ]

  insert_block-Committed :
      (w w1 : World T (ClickHouse N))
      → Reconnected w.exporter w1.exporter
      → w1.shared ≡ w.shared
      → w1.time ≡ w.time
      → Committed w (insert_block lib w1).0 (insert_block lib w1).1
  unfolding insert_block
  insert_block-Committed w w1 like shared time =
      let x = w1.exporter in
      let net = (send_insert lib x.columns x.network).1 in
      elim (Option-cases (send_insert lib x.columns x.network).0) [
        | inr (msg, e) ↦
            rw (e, insert_block)
              (fail-Committed w (record w1 { exporter = record x { network = net } }) msg true
                (later-Reconnected w.exporter x net like) shared time)
        | inl e ↦
            rw (e, insert_block)
              (record {
                rows = like.rows;
                columns = like.columns;
                succeeded = λ h. (refl, shared);
                failing = λ h. absurd (ground (arith, h));
              })
      ]

  build_block-Committed :
      (w w1 : World T (ClickHouse N))
      → Reconnected w.exporter w1.exporter
      → w1.shared ≡ w.shared
      → w1.time ≡ w.time
      → Committed w (build_block lib w1).0 (build_block lib w1).1
  unfolding build_block
  build_block-Committed w w1 like shared time =
      let x = w1.exporter in
      let net = (crunch_all lib x.columns x.network).1 in
      let w2 : World T (ClickHouse N) = record w1 { exporter = record x { network = net } } in
      let like2 = later-Reconnected w.exporter x net like in
      elim (Option-cases (crunch_all lib x.columns x.network).0) [
        | inr (msg, e) ↦ rw (e, build_block) (fail-Committed w w2 _ false like2 shared time)
        | inl e ↦
            rw (e, build_block)
              (attempt-Committed inserting (insert_block lib) w w2 like2 shared time
                (insert_block-Committed w w2 like2 shared time))
      ]

  insert_columns-Committed :
      (w w1 : World T (ClickHouse N))
      → Reconnected w.exporter w1.exporter
      → w1.shared ≡ w.shared
      → w1.time ≡ w.time
      → Committed w (insert_columns lib w1).0 (insert_columns lib w1).1
  unfolding insert_columns
  insert_columns-Committed w w1 like shared time =
      attempt-Committed building (build_block lib) w w1 like shared time
        (build_block-Committed w w1 like shared time)

  with_client-Committed :
      (use_tls : Bool) (w w1 : World T (ClickHouse N))
      → Reconnected w.exporter w1.exporter
      → w1.shared ≡ w.shared
      → w1.time ≡ w.time
      → Committed w (with_client lib use_tls w1).0 (with_client lib use_tls w1).1
  unfolding with_client
  with_client-Committed use_tls w w1 like shared time =
      let (opened, x) = establish_new_connection lib use_tls w1.exporter in
      let again = establish-Reconnected lib use_tls w1.exporter in
      let like2 : Reconnected w.exporter x = record {
        rows = again.rows ∙ like.rows;
        columns = again.columns ∙ like.columns;
        failures = again.failures ∙ like.failures;
      } in
      let w2 : World T (ClickHouse N) = record w1 { exporter = x } in
      elim (Bool-cases (opened && x.has_client)) [
        | inl h ↦ rw (h, with_client) (insert_columns-Committed w w2 like2 shared time)
        | inr h ↦ rw (h, with_client) (fail-Committed w w2 _ false like2 shared time)
      ]

  -- CommitBatch of the ClickHouse exporter never changes the count of rows or the columns. Where
  -- it returns true, no consecutive failures are left and the shared statistics are as they were;
  -- where it returns false, for an error of a call or for an exception out of
  -- EstablishNewConnection, Crunch or SendInsert, the consecutive failures are raised by one and
  -- exactly one failure is recorded in the shared statistics.
  pub commit_batch-Committed :
      (use_tls : Bool) (w : World T (ClickHouse N))
      → Committed w (commit_batch lib use_tls w).0 (commit_batch lib use_tls w).1
  unfolding commit_batch
  commit_batch-Committed use_tls w =
      let x = w.exporter in
      let net = (lib.builder_init x.network).1 in
      elim (Bool-cases x.contexts_ready) [
        | inr h ↦
            simp (h, commit_batch)
              (fail-Committed w (record w { exporter = record x { contexts_ready = false } }) _
                false (record { rows = refl; columns = refl; failures = refl }) refl refl)
        | inl h ↦ elim (Option-cases (lib.builder_init x.network).0) [
          | inr (msg, e) ↦
              simp (h, e, commit_batch)
                (fail-Committed w
                  (record w { exporter = record x { network = net; contexts_ready = true } }) _
                  false (record { rows = refl; columns = refl; failures = refl }) refl refl)
          | inl e ↦ elim (Bool-cases x.has_client) [
            | inl h1 ↦
                let x1 : ClickHouse N = record x {
                  network = net;
                  contexts_ready = true;
                  has_client = true;
                } in
                simp (h, e, h1, commit_batch)
                  (insert_columns-Committed w (record w { exporter = x1 })
                    (record { rows = refl; columns = refl; failures = refl }) refl refl)
            | inr h1 ↦
                let x1 : ClickHouse N = record x {
                  network = net;
                  contexts_ready = true;
                  has_client = false;
                } in
                let like : Reconnected x x1 = record {
                  rows = refl;
                  columns = refl;
                  failures = refl;
                } in
                let w1 : World T (ClickHouse N) = record w { exporter = x1 } in
                simp (h, e, h1, commit_batch)
                  (attempt-Committed connecting (with_client lib use_tls) w w1 like refl refl
                    (with_client-Committed use_tls w w1 like refl refl))
          ]
        ]
      ]

  Committed-Recorded :
      (w w' : World T (ClickHouse N)) (ok : Bool) → Committed w ok w' → Recorded w.shared w'.shared
  Committed-Recorded w w' true c = subst (Recorded w.shared) (sym (c.succeeded refl).1) unchanged
  Committed-Recorded w w' false c =
      let (msg, e) = (c.failing refl).1 in
      subst (Recorded w.shared) (sym e) (failed w.shared w.time (some msg) unchanged)

  add_column-Keeps :
      (use_tls : Bool) (c : String × Kind) (w : World T (ClickHouse N))
      → Keeps
          (λ (x : ClickHouse N). x.exported_count)
          0
          w
          ((clickhouse lib use_tls).add_column c w).1
  unfolding clickhouse
  add_column-Keeps use_tls (name, kind) w =
      elim (Option-cases (make_col name kind w.exporter.columns)) [
        | inl e ↦ rw (e, clickhouse) (record { records = unchanged; grown = omega arith })
        | inr (cs, e) ↦ rw (e, clickhouse) (record { records = unchanged; grown = omega arith })
      ]

  -- The ClickHouse exporter keeps the contract of an exporter: a begun batch has no rows, only
  -- BeginRow adds one, CommitBatch reports at most the rows begun, and no call does anything to
  -- the shared state but record failures.
  pub clickhouse-IsExporter : (use_tls : Bool) → IsExporter (clickhouse lib {T = T} use_tls)
  unfolding clickhouse begin_batch
  clickhouse-IsExporter use_tls = record {
    rows = λ x. x.exported_count;
    connects = λ w. unchanged;
    begins = λ w. (unchanged, λ e. refl);
    adds = λ c w. add_column-Keeps use_tls c w;
    starts = λ w. record { records = unchanged; grown = omega arith };
    appends = λ v w. record { records = unchanged; grown = omega arith };
    commits = λ w.
        let c = commit_batch-Committed use_tls w in
        (Committed-Recorded w _ _ c, omega (arith, c.rows));
    sends = λ ipc len n w. unchanged;
  }
