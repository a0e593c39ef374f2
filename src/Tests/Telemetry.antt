-- ===== src/Tests/Telemetry.antt =====
-- A collector that answers by a script, and the theorems at it.
use pg_stat_ch_otel_backend.Base.{true, false, some, List, [], ◌∷◌, arith}
use pg_stat_ch_otel_backend.Export.{World}
use pg_stat_ch_otel_backend.Export.Rows.{Kind, int}
use pg_stat_ch_otel_backend.Export.Contract.{IsExporter}
use pg_stat_ch_otel_backend.Export.OpenTelemetry.{
  Status, ok, refused, Client, OTel, begin_batch, begin_row, commit_batch, append_value,
  opentelemetry,
}
use pg_stat_ch_otel_backend.Export.OpenTelemetry.Settle.{Settled, commit_batch-Settled}
use pg_stat_ch_otel_backend.Export.OpenTelemetry.Laws.{opentelemetry-IsExporter}
use pg_stat_ch_otel_backend.Export.OpenTelemetry.Bounds.{
  IsBounded, batch, column, row, value, filling-IsBounded,
}
use pg_stat_ch_otel_backend.Base.Int.{pos}
use pg_stat_ch_otel_backend.Tests.{Table, ring}

abbrev next_status : List Status → Status × List Status
next_status [] = (refused [], [])
next_status (s ∷ ss) = (s, ss)

abbrev collector : Client (List Status)
collector = record {
  make_stub = λ n. (true, n);
  export_records = λ records n. next_status n;
  export_block = λ block rows n. next_status n;
}

-- Two records wait, and the collector takes one request.
abbrev sending : World Table (OTel (List Status))
sending = record {
  shared = some ring;
  exporter = record {
    network = ok ∷ [];
    has_stub = true;
    max_chunk_records = 2;
    max_chunk_bytes = 4000;
    consecutive_failures = 1;
    exported_count = 0;
    batch_failed = false;
    columns = [];
    chunk = record { time_unix_nano = 5; attributes = [] } ∷ [];
    current = some (record { time_unix_nano = 6; attributes = [] });
    chunk_count = 2;
    chunk_bytes = 768;
  };
  time = 9;
}

commit_batch-Settled_example :
    Settled sending (commit_batch collector sending).0 (commit_batch collector sending).1
commit_batch-Settled_example = commit_batch-Settled collector sending

opentelemetry-IsExporter_example : IsExporter (
    opentelemetry {T = Table} collector (record { log_max_bytes = 3145728; log_batch_size = 8192 }))
opentelemetry-IsExporter_example =
    opentelemetry-IsExporter collector (record { log_max_bytes = 3145728; log_batch_size = 8192 })

-- One column, and a row with its value.
abbrev emptied : World Table (OTel (List Status))
unfolding begin_batch
emptied = record sending { exporter = begin_batch sending.exporter }

abbrev described : World Table (OTel (List Status))
described = record emptied {
  exporter = record emptied.exporter { columns = ("calls", Kind.lc_int32) ∷ [] };
}

abbrev one_row : World Table (OTel (List Status))
unfolding begin_row
one_row = (begin_row collector described).1

abbrev filled : World Table (OTel (List Status))
unfolding append_value
filled = record one_row { exporter = append_value "calls" (int (pos 3)) one_row.exporter }

filling-IsBounded_example : IsBounded filled.exporter
unfolding emptied begin_row one_row filled
filling-IsBounded_example = filling-IsBounded collector sending filled (omega arith) (
    value one_row "calls" (int (pos 3))
      (row described (column emptied ("calls", Kind.lc_int32) batch)))
