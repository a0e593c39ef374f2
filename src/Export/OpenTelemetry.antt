-- ===== src/Export/OpenTelemetry.antt =====
-- src/export/otel_exporter.cc: log records in chunks, each sent as one request.
--
-- gRPC and the OTLP client are parameters, over a state `N` of theirs; a request is the list of its
-- log records. The resource, the version and the options of the channel are left out, so are log
-- lines and the exporter's own allocations.
pub mod Record
pub mod Settle
pub mod Laws
pub mod Bounds
use Prim.Native.String.{String}
use pg_stat_ch_otel_backend.Base.{
  ℕ, ◌+◌, ◌/◌, ⊤, Bool, true, false, not, Option, none, some, List, [], ◌∷◌, ◌++◌, min, max, leb,
  ◌||◌, if◌then◌else◌,
}
use pg_stat_ch_otel_backend.Export.{
  Exception, exception, Outcome, returned, thrown, Action, modify, ◌>>=◌, World, Exporter, bytes,
  record_failure,
}
use pg_stat_ch_otel_backend.Export.Rows.{Kind, Value}
use pg_stat_ch_otel_backend.Export.OpenTelemetry.Record.{LogRecord, append_attribute, find_kind}

-- kMinBytesPerRecord, kRequestOverheadBytes and kLogRecordOverheadBytes
abbrev pub min_bytes_per_record : ℕ
min_bytes_per_record = 1200

abbrev pub request_overhead_bytes : ℕ
request_overhead_bytes = 512

abbrev pub log_record_overhead_bytes : ℕ
log_record_overhead_bytes = 128

-- What DelegateExport answers, or throws.
pub data Status : Type 0 where
  ok : Status
  refused : List ℕ → Status
  raised : Exception → Status

pub record Client (N : Type 0) : Type 0 where
  -- whether a channel and a stub could be made
  pub make_stub : N → Bool × N
  pub export_records : List LogRecord → N → Status × N
  -- one record with the block as its body, and the count of its rows
  pub export_block : List ℕ → ℕ → N → Status × N

-- `psch_otel_log_max_bytes` and `psch_otel_log_batch_size`
pub record Limits : Type 0 where
  pub log_max_bytes : ℕ
  pub log_batch_size : ℕ

-- OTelExporter. `chunk` holds the records of `scope_logs_` and `current` the current one, none for
-- NULL; `columns` stands for the columns that the caller holds. After an exception the pointers of
-- the chunk dangle, unread until BeginBatch sets them: they are empty here.
pub record OTel (N : Type 0) : Type 0 where
  pub network : N
  pub has_stub : Bool
  pub max_chunk_records : ℕ
  pub max_chunk_bytes : ℕ
  pub consecutive_failures : ℕ
  pub exported_count : ℕ
  pub batch_failed : Bool
  pub columns : List (String × Kind)
  pub chunk : List LogRecord
  pub current : Option LogRecord
  pub chunk_count : ℕ
  pub chunk_bytes : ℕ

-- The records of the chunk: the current one is its last.
abbrev pub all_records : List LogRecord → Option LogRecord → List LogRecord
all_records chunk none = chunk
all_records chunk (some rec) = chunk ++ rec ∷ []

-- ChunkFull
unfoldable pub chunk_full : {N : Type 0} → OTel N → Bool
chunk_full x = leb x.max_chunk_records x.chunk_count || leb x.max_chunk_bytes x.chunk_bytes

-- ResetChunk
unfoldable pub reset_chunk : {N : Type 0} → OTel N → OTel N
reset_chunk x = record x {
  chunk = [];
  current = none;
  chunk_count = 0;
  chunk_bytes = request_overhead_bytes;
}

-- BeginBatch
unfoldable pub begin_batch : {N : Type 0} → OTel N → OTel N
unfolding reset_chunk
begin_batch x = reset_chunk (record x { exported_count = 0; batch_failed = false; columns = [] })

-- The new record of BeginRow
unfoldable pub add_log_record : {N : Type 0} → OTel N → OTel N
add_log_record x = record x {
  chunk = all_records x.chunk x.current;
  current = some (record { time_unix_nano = 0; attributes = [] });
  chunk_count = x.chunk_count + 1;
  chunk_bytes = x.chunk_bytes + log_record_overhead_bytes;
}

-- Append on the column of that name
unfoldable pub append_value : {N : Type 0} → String → Value → OTel N → OTel N
unfolding append_attribute
append_value name v x = elim x.current [
  | none ↦ x
  | some rec ↦ elim (find_kind name x.columns) [
    | none ↦ x
    | some kind ↦
        let (rec', size) = append_attribute name kind v (rec, x.chunk_bytes) in
        record x { current = some rec'; chunk_bytes = size }
  ]
]

-- ConfigureLogExport
unfoldable pub configure_log_export : {N : Type 0} → Limits → OTel N → OTel N
configure_log_export limits x =
    let max_bytes = max min_bytes_per_record limits.log_max_bytes in
    record x {
      max_chunk_bytes = max_bytes;
      max_chunk_records = max 1 (min limits.log_batch_size (max_bytes / min_bytes_per_record));
    }

-- `what()` of an exception
abbrev pub what : Exception → List ℕ
what Exception.bad_alloc = bytes "std::bad_alloc"
what (exception text) = text

-- EstablishNewConnection
unfoldable pub establish_new_connection : {N : Type 0} → Client N → Limits → OTel N → Bool × OTel N
unfolding configure_log_export
establish_new_connection client limits x =
    let x1 = configure_log_export limits x in
    let (made, net) = client.make_stub x.network in
    (made, record x1 { network = net; has_stub = made })

module _ {N T : Type 0} (client : Client N) where
  -- The failure of a request
  abbrev pub fail : List ℕ → World T (OTel N) → World T (OTel N)
  fail msg w = record_failure msg (record w {
    exporter = record w.exporter { consecutive_failures = w.exporter.consecutive_failures + 1 };
  })

  -- FlushChunk
  unfoldable pub flush_chunk : Action (World T (OTel N)) Bool
  unfolding record_failure
  flush_chunk w =
      let x = w.exporter in
      if not x.has_stub || leb x.chunk_count 0
      then (returned true, w)
      else (let (status, net) = client.export_records (all_records x.chunk x.current) x.network in
          let sent : OTel N = record x { network = net; chunk = []; current = none } in
          elim status [
            | ok ↦ (
              returned true,
              record w {
                exporter = record sent {
                  exported_count = x.exported_count + x.chunk_count;
                  chunk_count = 0;
                  chunk_bytes = 0;
                };
              },
            )
            | refused msg ↦ (returned false, fail msg (record w { exporter = sent }))
            | raised e ↦ (thrown e, record w { exporter = record x { network = net } })
          ])

  -- BeginRow on a full chunk
  unfoldable pub begin_chunk : Action (World T (OTel N)) ⊤
  unfolding flush_chunk reset_chunk add_log_record
  begin_chunk = flush_chunk >>= λ flushed. modify (λ u. record u {
    exporter =
        if flushed
        then add_log_record (reset_chunk u.exporter)
        else record u.exporter { batch_failed = true };
  })

  -- BeginRow
  unfoldable pub begin_row : Action (World T (OTel N)) ⊤
  unfolding chunk_full begin_chunk add_log_record
  begin_row w =
      if w.exporter.batch_failed
      then (returned tt, w)
      else (if chunk_full w.exporter
          then begin_chunk w
          else (returned tt, record w { exporter = add_log_record w.exporter }))

  abbrev pub reset_failures : World T (OTel N) → World T (OTel N)
  reset_failures w = record w { exporter = record w.exporter { consecutive_failures = 0 } }

  -- The end of CommitBatch, with a stub
  unfoldable pub try_flush : World T (OTel N) → Bool × World T (OTel N)
  unfolding flush_chunk record_failure
  try_flush w =
      let (result, w1) = flush_chunk w in
      elim result [
        | returned flushed ↦ (flushed, (if flushed then reset_failures w1 else w1))
        | thrown e ↦ (false, fail (what e) w1)
      ]

  -- CommitBatch
  unfoldable pub commit_batch : World T (OTel N) → Bool × World T (OTel N)
  unfolding try_flush
  commit_batch w =
      if w.exporter.batch_failed
      then (false, w)
      else (if w.exporter.has_stub then try_flush w else (true, reset_failures w))

  -- SendArrowBatch
  unfoldable pub send_arrow_batch : List ℕ → ℕ → ℕ → World T (OTel N) → Bool × World T (OTel N)
  unfolding record_failure
  send_arrow_batch ipc ipc_len num_rows w =
      let x = w.exporter in
      if not x.has_stub || (leb ipc_len 0 || leb num_rows 0)
      then (false, w)
      else (let (status, net) = client.export_block ipc num_rows x.network in
          let w1 : World T (OTel N) = record w { exporter = record x { network = net } } in
          elim status [
            | ok ↦ (
              true,
              record w {
                exporter = record x {
                  network = net;
                  exported_count = x.exported_count + num_rows;
                  consecutive_failures = 0;
                };
              },
            )
            | refused msg ↦ (false, fail msg w1)
            | raised e ↦ (false, fail (what e) w1)
          ])

  -- OTelExporter as a StatsExporter
  unfoldable pub opentelemetry : Limits → Exporter T (OTel N)
  unfolding begin_batch begin_row append_value commit_batch send_arrow_batch
      establish_new_connection
  opentelemetry limits = record {
    is_connected = λ x. x.has_stub;
    establish_new_connection = λ w.
        let (made, x) = establish_new_connection client limits w.exporter in
        (returned made, record w { exporter = x });
    begin_batch = λ w. (returned tt, record w { exporter = begin_batch w.exporter });
    add_column = λ column w. (
      returned tt,
      record w { exporter = record w.exporter { columns = column ∷ w.exporter.columns } },
    );
    begin_row = begin_row;
    append = λ (name, v) w. (returned tt, record w { exporter = append_value name v w.exporter });
    commit_batch = λ w. let (done, w') = commit_batch w in (returned done, w');
    send_arrow_batch =
        λ ipc len rows w. let (sent, w') = send_arrow_batch ipc len rows w in (returned sent, w');
    num_exported = λ x. x.exported_count;
    num_consecutive_failures = λ x. x.consecutive_failures;
    reset_failures = λ x. record x { consecutive_failures = 0 };
  }
