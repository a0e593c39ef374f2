-- ===== src/Export/ArrowBatch/Schema.antt =====
-- The schema of src/export/arrow_batch.cc, and the values that a row appends, in the order of the source.
--
-- The block counts and times of an event are not negative in this model, as the hooks fill them, but
-- for the CPU times.
pub mod Laws
use Prim.Native.String.{String}
use pg_stat_ch_otel_backend.Base.{
  ℕ, zero, suc, ◌+◌, ◌*◌, ◌/◌, ◌%◌, ◌^◌, List, [], ◌∷◌, ◌++◌, length, take, min, ltb, if◌then◌else◌,
}
use pg_stat_ch_otel_backend.Base.Int.{ℤ, pos, negsuc}
use pg_stat_ch_otel_backend.Event.{Event, max_err_msg_len, max_query_len}
use pg_stat_ch_otel_backend.Stats.{strlen}
use pg_stat_ch_otel_backend.Export.{bytes}
use pg_stat_ch_otel_backend.Export.Rows.{
  Value, chars, int, uint, clamp_field_len, to_int64, cmd_type_to_string, max_app_name_len,
  max_client_addr_len, postgres_epoch_offset_us,
}
use pg_stat_ch_otel_backend.Export.ArrowBatch.Attributes.{ExtraAttrs, extra_attr}

-- The types of the fields; `dictionary` is DictionaryUtf8Type, `timestamp` is TimestampType.
pub data FieldType : Type 0 where
  timestamp dictionary utf8 int32 uint64 uint32 : FieldType

-- `schema`
unfoldable pub schema : List (String × FieldType)
schema =
    ("ts", timestamp)
    ∷ ("severity", dictionary)
    ∷ ("body", utf8)
    ∷ ("trace_id", utf8)
    ∷ ("span_id", utf8)
    ∷ ("query_id", dictionary)
    ∷ ("db_name", dictionary)
    ∷ ("db_user", dictionary)
    ∷ ("db_operation", dictionary)
    ∷ ("app", dictionary)
    ∷ ("client_addr", dictionary)
    ∷ ("query_text", utf8)
    ∷ ("pid", utf8)
    ∷ ("err_message", utf8)
    ∷ ("err_sqlstate", dictionary)
    ∷ ("err_elevel", int32)
    ∷ ("duration_us", uint64)
    ∷ ("rows", uint64)
    ∷ ("shared_blks_hit", uint64)
    ∷ ("shared_blks_read", uint64)
    ∷ ("shared_blks_written", uint64)
    ∷ ("shared_blks_dirtied", uint64)
    ∷ ("shared_blk_read_time_us", uint64)
    ∷ ("shared_blk_write_time_us", uint64)
    ∷ ("local_blks_hit", uint64)
    ∷ ("local_blks_read", uint64)
    ∷ ("local_blks_written", uint64)
    ∷ ("local_blks_dirtied", uint64)
    ∷ ("local_blk_read_time_us", uint64)
    ∷ ("local_blk_write_time_us", uint64)
    ∷ ("temp_blks_read", uint64)
    ∷ ("temp_blks_written", uint64)
    ∷ ("temp_blk_read_time_us", uint64)
    ∷ ("temp_blk_write_time_us", uint64)
    ∷ ("wal_records", uint64)
    ∷ ("wal_bytes", uint64)
    ∷ ("wal_fpi", uint64)
    ∷ ("cpu_user_time_us", uint64)
    ∷ ("cpu_sys_time_us", uint64)
    ∷ ("jit_functions", uint64)
    ∷ ("jit_generation_time_us", uint64)
    ∷ ("jit_inlining_time_us", uint64)
    ∷ ("jit_optimization_time_us", uint64)
    ∷ ("jit_emission_time_us", uint64)
    ∷ ("jit_deform_time_us", uint64)
    ∷ ("parallel_workers_planned", uint32)
    ∷ ("parallel_workers_launched", uint32)
    ∷ ("instance_ubid", utf8)
    ∷ ("server_ubid", utf8)
    ∷ ("server_role", dictionary)
    ∷ ("read_replica_type", dictionary)
    ∷ ("region", dictionary)
    ∷ ("cell", dictionary)
    ∷ ("service_version", dictionary)
    ∷ ("host_id", utf8)
    ∷ ("pod_name", utf8)
    ∷ []

-- The builders in the order in which Finish takes their arrays
unfoldable pub finish_order : List String
finish_order =
    "ts" ∷ "severity" ∷ "body" ∷ "trace_id" ∷ "span_id" ∷ "query_id" ∷ "db_name" ∷ "db_user"
    ∷ "db_operation" ∷ "app" ∷ "client_addr" ∷ "query_text" ∷ "pid" ∷ "err_message" ∷ "err_sqlstate"
    ∷ "err_elevel" ∷ "duration_us" ∷ "rows" ∷ "shared_blks_hit" ∷ "shared_blks_read"
    ∷ "shared_blks_written" ∷ "shared_blks_dirtied" ∷ "shared_blk_read_time_us"
    ∷ "shared_blk_write_time_us" ∷ "local_blks_hit" ∷ "local_blks_read" ∷ "local_blks_written"
    ∷ "local_blks_dirtied" ∷ "local_blk_read_time_us" ∷ "local_blk_write_time_us" ∷ "temp_blks_read"
    ∷ "temp_blks_written" ∷ "temp_blk_read_time_us" ∷ "temp_blk_write_time_us" ∷ "wal_records"
    ∷ "wal_bytes" ∷ "wal_fpi" ∷ "cpu_user_time_us" ∷ "cpu_sys_time_us" ∷ "jit_functions"
    ∷ "jit_generation_time_us" ∷ "jit_inlining_time_us" ∷ "jit_optimization_time_us"
    ∷ "jit_emission_time_us" ∷ "jit_deform_time_us" ∷ "parallel_workers_planned"
    ∷ "parallel_workers_launched" ∷ "instance_ubid" ∷ "server_ubid" ∷ "server_role"
    ∷ "read_replica_type" ∷ "region" ∷ "cell" ∷ "service_version" ∷ "host_id" ∷ "pod_name" ∷ []

-- The order in which Reset empties the builders.
unfoldable pub reset_order : List String
reset_order =
    "ts" ∷ "severity" ∷ "body" ∷ "trace_id" ∷ "span_id" ∷ "query_id" ∷ "db_name" ∷ "db_user"
    ∷ "db_operation" ∷ "app" ∷ "client_addr" ∷ "query_text" ∷ "pid" ∷ "err_message" ∷ "err_sqlstate"
    ∷ "err_elevel" ∷ "duration_us" ∷ "rows" ∷ "shared_blks_hit" ∷ "shared_blks_read"
    ∷ "shared_blks_written" ∷ "shared_blks_dirtied" ∷ "shared_blk_read_time_us"
    ∷ "shared_blk_write_time_us" ∷ "local_blks_hit" ∷ "local_blks_read" ∷ "local_blks_written"
    ∷ "local_blks_dirtied" ∷ "local_blk_read_time_us" ∷ "local_blk_write_time_us" ∷ "temp_blks_read"
    ∷ "temp_blks_written" ∷ "temp_blk_read_time_us" ∷ "temp_blk_write_time_us" ∷ "wal_records"
    ∷ "wal_bytes" ∷ "wal_fpi" ∷ "cpu_user_time_us" ∷ "cpu_sys_time_us" ∷ "jit_functions"
    ∷ "jit_generation_time_us" ∷ "jit_inlining_time_us" ∷ "jit_optimization_time_us"
    ∷ "jit_emission_time_us" ∷ "jit_deform_time_us" ∷ "parallel_workers_planned"
    ∷ "parallel_workers_launched" ∷ "instance_ubid" ∷ "server_ubid" ∷ "server_role"
    ∷ "read_replica_type" ∷ "region" ∷ "cell" ∷ "service_version" ∷ "host_id" ∷ "pod_name" ∷ []

-- ClampSignedToUint64 and ClampSignedToUint32, without the log line
unfoldable pub clamp_signed_to_uint : ℤ → ℕ
clamp_signed_to_uint (pos n) = n
clamp_signed_to_uint (negsuc n) = 0

-- The decimal print of `snprintf`, of at most `fuel` digits.
unfoldable pub decimal : ℕ → ℕ → List ℕ
decimal zero n = []
decimal (suc fuel) n =
    let digit : ℕ = b'0' + n % 10 in
    let front = decimal fuel (n / 10) in if ltb n 10 then digit ∷ [] else front ++ digit ∷ []

-- The digits of the largest `uint64`
abbrev pub max_digits : ℕ
max_digits = 20

-- The lengths that Append takes of the texts of an event.
pub record Lengths : Type 0 where
  pub datname_len : ℕ
  pub username_len : ℕ
  pub app_len : ℕ
  pub client_addr_len : ℕ
  pub query_len : ℕ
  pub err_message_len : ℕ
  pub err_sqlstate_len : ℕ

unfoldable pub lengths : Event → Lengths
unfolding clamp_field_len
lengths ev = record {
  datname_len = clamp_field_len ev.datname_len 63;
  username_len = clamp_field_len ev.username_len 63;
  app_len = clamp_field_len ev.application_name_len max_app_name_len;
  client_addr_len = clamp_field_len ev.client_addr_len max_client_addr_len;
  query_len = clamp_field_len ev.query_len max_query_len;
  err_message_len = clamp_field_len ev.err_message_len max_err_msg_len;
  err_sqlstate_len = min (strlen ev.err_sqlstate) 5;
}

-- What Append appends, each value with the column of its builder.
unfoldable pub values : ExtraAttrs → List ℕ → Event → List (String × Value)
unfolding lengths decimal clamp_signed_to_uint cmd_type_to_string to_int64 extra_attr
values attrs service_version ev =
    let l = lengths ev in
    ("ts", int (to_int64 ((ev.ts_start + postgres_epoch_offset_us) * 1000 % 2 ^ 64)))
    ∷ ("severity", chars [])
    ∷ ("body", chars [])
    ∷ ("trace_id", chars [])
    ∷ ("span_id", chars [])
    ∷ ("query_id", chars (decimal max_digits ev.queryid))
    ∷ ("db_name", chars (take l.datname_len ev.datname))
    ∷ ("db_user", chars (take l.username_len ev.username))
    ∷ ("db_operation", chars (cmd_type_to_string ev.cmd_type))
    ∷ ("app", chars (take l.app_len ev.application_name))
    ∷ ("client_addr", chars (take l.client_addr_len ev.client_addr))
    ∷ ("query_text", chars (take l.query_len ev.query))
    ∷ ("pid", chars (decimal max_digits ev.pid))
    ∷ ("err_message", chars (take l.err_message_len ev.err_message))
    ∷ ("err_sqlstate", chars (take l.err_sqlstate_len ev.err_sqlstate))
    ∷ ("err_elevel", int (pos ev.err_elevel))
    ∷ ("duration_us", uint ev.duration_us)
    ∷ ("rows", uint ev.rows)
    ∷ ("shared_blks_hit", uint (clamp_signed_to_uint (pos ev.buffers.shared_blks_hit)))
    ∷ ("shared_blks_read", uint (clamp_signed_to_uint (pos ev.buffers.shared_blks_read)))
    ∷ ("shared_blks_written", uint (clamp_signed_to_uint (pos ev.buffers.shared_blks_written)))
    ∷ ("shared_blks_dirtied", uint (clamp_signed_to_uint (pos ev.buffers.shared_blks_dirtied)))
    ∷ ("shared_blk_read_time_us", uint (clamp_signed_to_uint (pos ev.io.shared_blk_read_time_us)))
    ∷ ("shared_blk_write_time_us", uint (clamp_signed_to_uint (pos ev.io.shared_blk_write_time_us)))
    ∷ ("local_blks_hit", uint (clamp_signed_to_uint (pos ev.buffers.local_blks_hit)))
    ∷ ("local_blks_read", uint (clamp_signed_to_uint (pos ev.buffers.local_blks_read)))
    ∷ ("local_blks_written", uint (clamp_signed_to_uint (pos ev.buffers.local_blks_written)))
    ∷ ("local_blks_dirtied", uint (clamp_signed_to_uint (pos ev.buffers.local_blks_dirtied)))
    ∷ ("local_blk_read_time_us", uint (clamp_signed_to_uint (pos ev.io.local_blk_read_time_us)))
    ∷ ("local_blk_write_time_us", uint (clamp_signed_to_uint (pos ev.io.local_blk_write_time_us)))
    ∷ ("temp_blks_read", uint (clamp_signed_to_uint (pos ev.buffers.temp_blks_read)))
    ∷ ("temp_blks_written", uint (clamp_signed_to_uint (pos ev.buffers.temp_blks_written)))
    ∷ ("temp_blk_read_time_us", uint (clamp_signed_to_uint (pos ev.io.temp_blk_read_time_us)))
    ∷ ("temp_blk_write_time_us", uint (clamp_signed_to_uint (pos ev.io.temp_blk_write_time_us)))
    ∷ ("wal_records", uint (clamp_signed_to_uint (pos ev.wal.wal_records)))
    ∷ ("wal_bytes", uint ev.wal.wal_bytes)
    ∷ ("wal_fpi", uint (clamp_signed_to_uint (pos ev.wal.wal_fpi)))
    ∷ ("cpu_user_time_us", uint (clamp_signed_to_uint ev.cpu.cpu_user_time_us))
    ∷ ("cpu_sys_time_us", uint (clamp_signed_to_uint ev.cpu.cpu_sys_time_us))
    ∷ ("jit_functions", uint (clamp_signed_to_uint (pos ev.jit.jit_functions)))
    ∷ ("jit_generation_time_us", uint (clamp_signed_to_uint (pos ev.jit.jit_generation_time_us)))
    ∷ ("jit_inlining_time_us", uint (clamp_signed_to_uint (pos ev.jit.jit_inlining_time_us)))
    ∷ (
      "jit_optimization_time_us",
      uint (clamp_signed_to_uint (pos ev.jit.jit_optimization_time_us)),
    )
    ∷ ("jit_emission_time_us", uint (clamp_signed_to_uint (pos ev.jit.jit_emission_time_us)))
    ∷ ("jit_deform_time_us", uint (clamp_signed_to_uint (pos ev.jit.jit_deform_time_us)))
    ∷ ("parallel_workers_planned", uint (clamp_signed_to_uint (pos ev.parallel_workers_planned)))
    ∷ ("parallel_workers_launched", uint (clamp_signed_to_uint (pos ev.parallel_workers_launched)))
    ∷ ("instance_ubid", chars (extra_attr (bytes "instance_ubid") attrs))
    ∷ ("server_ubid", chars (extra_attr (bytes "server_ubid") attrs))
    ∷ ("server_role", chars (extra_attr (bytes "server_role") attrs))
    ∷ ("read_replica_type", chars (extra_attr (bytes "read_replica_type") attrs))
    ∷ ("region", chars (extra_attr (bytes "region") attrs))
    ∷ ("cell", chars (extra_attr (bytes "cell") attrs))
    ∷ ("service_version", chars service_version)
    ∷ ("host_id", chars (extra_attr (bytes "host_id") attrs))
    ∷ ("pod_name", chars (extra_attr (bytes "pod_name") attrs))
    ∷ []

-- kFixedBytesPerRow
abbrev pub fixed_bytes_per_row : ℕ
fixed_bytes_per_row = 512

-- The sum of the sizes of the deployment's attributes
abbrev pub attribute_bytes : ExtraAttrs → ℕ
attribute_bytes attrs =
    length (extra_attr (bytes "instance_ubid") attrs)
    + length (extra_attr (bytes "server_ubid") attrs)
    + length (extra_attr (bytes "server_role") attrs)
    + length (extra_attr (bytes "read_replica_type") attrs)
    + length (extra_attr (bytes "region") attrs)
    + length (extra_attr (bytes "cell") attrs)
    + length (extra_attr (bytes "host_id") attrs)
    + length (extra_attr (bytes "pod_name") attrs)

-- What Append adds to `estimated_bytes`.
unfoldable pub row_bytes : ExtraAttrs → List ℕ → Event → ℕ
unfolding lengths extra_attr
row_bytes attrs service_version ev =
    let l = lengths ev in
    fixed_bytes_per_row
    + l.datname_len
    + l.username_len
    + l.app_len
    + l.client_addr_len
    + l.query_len
    + l.err_message_len
    + l.err_sqlstate_len
    + length service_version
    + attribute_bytes attrs
