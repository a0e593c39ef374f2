-- ===== src/Tests/Exporting.antt =====
-- A server that answers by a script, a builder that counts, and the theorems at these.
use Prim.Native.String.{String}
use pg_stat_ch_otel_backend.Base.{
  if◌then◌else◌, leb, ℕ, ◌+◌, ◌*◌, ◌≡◌, refl, sym, true, false, none, some, List, [], ◌∷◌, map,
  append-nil, length, arith,
}
use pg_stat_ch_otel_backend.Base.Int.{pos}
use pg_stat_ch_otel_backend.Ring.Valid.{IsValid, view}
use pg_stat_ch_otel_backend.Stats.{initialize_shared_state, check_queue_capacity}
use pg_stat_ch_otel_backend.Worker
use pg_stat_ch_otel_backend.Worker.{run_export_cycle}
use pg_stat_ch_otel_backend.Settings.{
  accepts_int, takes_int, init_guc, connection_settings, queue_settings, otel_settings,
  capture_settings, arrow_settings,
}
use pg_stat_ch_otel_backend.Settings.Laws.{accepted_capacity-IsValid}
use pg_stat_ch_otel_backend.Export.{returned, thrown, bad_alloc, World}
use pg_stat_ch_otel_backend.Export.Recorded.{unchanged, queued, IsSound}
use pg_stat_ch_otel_backend.Export.Contract.{IsExporter}
use pg_stat_ch_otel_backend.Export.Fifo.{IsFeeding}
use pg_stat_ch_otel_backend.Export.Batch.{
  Settings, Builder, export_batch, export_event_stats_internal,
}
use pg_stat_ch_otel_backend.Export.Batch.Arrow.{IsBuilder}
use pg_stat_ch_otel_backend.Export.Batch.Cycle.{
  Exports, export_batch-Exports, environment, export_cycle_total,
}
use pg_stat_ch_otel_backend.Export.ClickHouse.{
  Library, ClickHouse, Received, packet, error, data_packet, end_of_stream, clickhouse,
  commit_batch,
}
use pg_stat_ch_otel_backend.Export.Rows.{Kind, columns, row}
use pg_stat_ch_otel_backend.Export.ClickHouse.Block.{Column}
use pg_stat_ch_otel_backend.Export.ClickHouse.Table.{IsPrepared, unused}
use pg_stat_ch_otel_backend.Export.ClickHouse.Held.{held, by_column}
use pg_stat_ch_otel_backend.Export.ClickHouse.Filled.{export_event_stats_internal-held}
use pg_stat_ch_otel_backend.Export.ClickHouse.Laws.{
  Committed, commit_batch-Committed, clickhouse-IsExporter,
}
use pg_stat_ch_otel_backend.Tests.{Table, postgres, empty_store, ring, ring-IsValid, nobody, event}

-- The network is what the server has still to say.
abbrev server : Library (List Received)
server = record {
  create_contexts = λ n. (true, n);
  raises = λ stage n. (none, n);
  tcp_connect = λ n. (true, n);
  tls_connect = λ n. (true, n);
  client_init = λ n. (true, n);
  close = λ n. n;
  builder_init = λ n. (none, n);
  append_fixed = λ name type_name vs n. (none, n);
  append_string = λ name offsets bytes n. (none, n);
  send_query = λ query n. (none, n);
  send_block = λ n. (none, n);
  send_terminator = λ n. (none, n);
  recv_packet = λ n. elim n [ [] ↦ (error [], []) | r ∷ rs ↦ (r, rs) ];
}

abbrev exporting : World Table (ClickHouse (List Received))
exporting = record {
  shared = some ring;
  exporter = record {
    network = packet data_packet ∷ packet end_of_stream ∷ [];
    contexts_ready = true;
    has_client = true;
    columns = [];
    consecutive_failures = 2;
    exported_count = 0;
  };
  time = 9;
}

-- A builder is the number of its rows.
abbrev counter : Builder ℕ
counter = record {
  init = returned (some 0);
  append_event = λ ev b. returned (true, b + 1);
  estimated_bytes = λ b. 100 * b;
  num_rows = λ b. b;
  finish = λ b. returned (some (1 ∷ []), b, b);
  reset = λ b. 0;
}

counter-IsBuilder : IsBuilder counter
counter-IsBuilder = record {
  starts = λ b e. ground (arith, e);
  appends = λ ev b b' ok e. ground (arith, e);
  finishes = λ b b' buffer rows e. ground (arith, e);
  resets = λ b. refl;
}

abbrev settings : Settings
settings = record {
  reserve = λ n now. if leb n 1000 then returned tt else thrown bad_alloc;
  batch_max = 3;
  use_otel = false;
  arrow_passthrough = false;
  max_block_bytes = 65536;
}

nobody-IsFeeding : IsFeeding postgres 0 nobody
nobody-IsFeeding = record {
  keeps = λ s v. v;
  feeds = λ s v. ([], sym (append-nil (view s)), omega arith);
  counts = λ s. refl;
}

export_batch-Exports_example :
    let (r, w') =
      export_batch (clickhouse server false) postgres nobody counter settings exporting in
    Exports postgres 0 3 (some ring) r w'.shared
export_batch-Exports_example =
    export_batch-Exports postgres (clickhouse server false) (clickhouse-IsExporter server false)
      counter counter-IsBuilder settings nobody 0 nobody-IsFeeding exporting ring-IsValid

abbrev knobs : Worker.Settings
knobs = record { enabled = true; batch_max = 3; flush_interval_ms = 500 }

export_cycle_total_example :
    (w' : World Table (ClickHouse (List Received))) × (run_export_cycle
        (environment postgres
          (clickhouse server false)
          (clickhouse-IsExporter server false)
          counter
          counter-IsBuilder
          settings
          nobody
          knobs
          (λ w. w))
        (length (queued (some ring)) + 1)
        exporting
      ≡ some w')
    × IsSound postgres w'.shared
export_cycle_total_example =
    export_cycle_total postgres (clickhouse server false) (clickhouse-IsExporter server false)
      counter counter-IsBuilder settings nobody knobs (λ w. w) refl (omega arith) (λ w. unchanged)
      nobody-IsFeeding exporting ring-IsValid

commit_batch-Committed_example :
    Committed exporting
      (commit_batch server false exporting).0
      (commit_batch server false exporting).1
commit_batch-Committed_example = commit_batch-Committed server false exporting

clickhouse-IsExporter_example : IsExporter (clickhouse server {T = Table} false)
clickhouse-IsExporter_example = clickhouse-IsExporter server false

accepted : accepts_int "pg_stat_ch.queue_capacity" (pos 4096) ≡ true
unfolding accepts_int takes_int init_guc connection_settings queue_settings otel_settings
    capture_settings arrow_settings check_queue_capacity
accepted = refl

accepted_capacity-IsValid_example :
    IsValid postgres (initialize_shared_state empty_store 4096)
    × (view (initialize_shared_state empty_store 4096) ≡ [])
accepted_capacity-IsValid_example =
    accepted_capacity-IsValid {ext = postgres} empty_store 4096 accepted refl refl (λ j. refl)

export_event_stats_internal-held_example :
    (w' : World Table (ClickHouse (List Received))) × (export_event_stats_internal
        (clickhouse server false)
        (event ∷ event ∷ [])
        exporting
      ≡ (returned tt, w'))
    × (w'.exporter.exported_count ≡ 2)
    × (map (λ (c : Column). c.name) w'.exporter.columns ≡ map (λ (c : String × Kind). c.0) columns)
    × (map (λ (c : Column). held c.cells) w'.exporter.columns
        ≡ by_column columns (row event ∷ row event ∷ []))
    × IsPrepared w'.exporter.columns
export_event_stats_internal-held_example =
    export_event_stats_internal-held server false (event ∷ event ∷ []) exporting unused
