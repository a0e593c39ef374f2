-- ===== src/Export/Rows.antt =====
-- The columns that ExportEventStatsInternal of src/export/stats_exporter.cc declares, and the values
-- that it appends for an event, in the order of the source.
pub mod Laws
use Prim.Native.String.{String}
use pg_stat_ch_otel_backend.Base.{
  ℕ, ◌+◌, ◌-◌, ◌^◌, ◌%◌, Bool, List, [], ◌∷◌, min, take, leb, if◌then◌else◌,
}
use pg_stat_ch_otel_backend.Base.Int.{ℤ, pos, negsuc}
use pg_stat_ch_otel_backend.Event.{Event, CmdType, max_err_msg_len, max_query_len}
use pg_stat_ch_otel_backend.Stats.{strlen}

-- The factories of StatsExporter: the cardinality and the type of a column, and the semantic ones.
pub data Kind : Type 0 where
  lc_string lc_uint8 lc_int16 lc_int32 : Kind
  hc_string hc_int64 hc_uint64 : Kind
  timestamp : Kind
  db_name db_user db_duration db_operation db_query_text : Kind

-- What Append takes.
pub data Value : Type 0 where
  chars : List ℕ → Value
  int : ℤ → Value
  uint : ℕ → Value

-- kPostgresEpochOffsetUs
abbrev pub postgres_epoch_offset_us : ℕ
postgres_epoch_offset_us = 946684800000000

-- PSCH_MAX_APP_NAME_LEN, with a NAMEDATALEN of 64
abbrev pub max_app_name_len : ℕ
max_app_name_len = 63

-- PSCH_MAX_CLIENT_ADDR_LEN, with an INET6_ADDRSTRLEN of 46
abbrev pub max_client_addr_len : ℕ
max_client_addr_len = 45

-- ClampFieldLen, without its warning
unfoldable pub clamp_field_len : ℕ → ℕ → ℕ
clamp_field_len len max = if leb len max then len else max

-- `static_cast<int64_t>` of a `uint64`
unfoldable pub to_int64 : ℕ → ℤ
to_int64 n = if leb (2 ^ 63) n then negsuc (2 ^ 64 - 1 - n) else pos n

-- PschCmdTypeToString
unfoldable pub cmd_type_to_string : CmdType → List ℕ
cmd_type_to_string CmdType.select = b'S' ∷ b'E' ∷ b'L' ∷ b'E' ∷ b'C' ∷ b'T' ∷ []
cmd_type_to_string CmdType.update = b'U' ∷ b'P' ∷ b'D' ∷ b'A' ∷ b'T' ∷ b'E' ∷ []
cmd_type_to_string CmdType.insert = b'I' ∷ b'N' ∷ b'S' ∷ b'E' ∷ b'R' ∷ b'T' ∷ []
cmd_type_to_string CmdType.delete = b'D' ∷ b'E' ∷ b'L' ∷ b'E' ∷ b'T' ∷ b'E' ∷ []
cmd_type_to_string CmdType.merge = b'M' ∷ b'E' ∷ b'R' ∷ b'G' ∷ b'E' ∷ []
cmd_type_to_string CmdType.utility = b'U' ∷ b'T' ∷ b'I' ∷ b'L' ∷ b'I' ∷ b'T' ∷ b'Y' ∷ []
cmd_type_to_string CmdType.nothing = b'N' ∷ b'O' ∷ b'T' ∷ b'H' ∷ b'I' ∷ b'N' ∷ b'G' ∷ []
cmd_type_to_string CmdType.unknown = b'U' ∷ b'N' ∷ b'K' ∷ b'N' ∷ b'O' ∷ b'W' ∷ b'N' ∷ []

-- The columns, by the variable that holds each of them (`col_ts` and so on), which is the name that
-- the call gives where it gives one.
unfoldable pub columns : List (String × Kind)
columns =
    ("ts", timestamp)
    ∷ ("duration_us", db_duration)
    ∷ ("db_name", db_name)
    ∷ ("db_user", db_user)
    ∷ ("pid", lc_int32)
    ∷ ("query_id", hc_int64)
    ∷ ("db_operation", db_operation)
    ∷ ("rows", hc_uint64)
    ∷ ("query_text", db_query_text)
    ∷ ("shared_blks_hit", hc_int64)
    ∷ ("shared_blks_read", hc_int64)
    ∷ ("shared_blks_dirtied", hc_int64)
    ∷ ("shared_blks_written", hc_int64)
    ∷ ("local_blks_hit", hc_int64)
    ∷ ("local_blks_read", hc_int64)
    ∷ ("local_blks_dirtied", hc_int64)
    ∷ ("local_blks_written", hc_int64)
    ∷ ("temp_blks_read", hc_int64)
    ∷ ("temp_blks_written", hc_int64)
    ∷ ("shared_blk_read_time_us", hc_int64)
    ∷ ("shared_blk_write_time_us", hc_int64)
    ∷ ("local_blk_read_time_us", hc_int64)
    ∷ ("local_blk_write_time_us", hc_int64)
    ∷ ("temp_blk_read_time_us", hc_int64)
    ∷ ("temp_blk_write_time_us", hc_int64)
    ∷ ("wal_records", hc_int64)
    ∷ ("wal_fpi", hc_int64)
    ∷ ("wal_bytes", hc_uint64)
    ∷ ("cpu_user_time_us", hc_int64)
    ∷ ("cpu_sys_time_us", hc_int64)
    ∷ ("jit_functions", lc_int32)
    ∷ ("jit_generation_time_us", lc_int32)
    ∷ ("jit_deform_time_us", lc_int32)
    ∷ ("jit_inlining_time_us", lc_int32)
    ∷ ("jit_optimization_time_us", lc_int32)
    ∷ ("jit_emission_time_us", lc_int32)
    ∷ ("parallel_workers_planned", lc_int16)
    ∷ ("parallel_workers_launched", lc_int16)
    ∷ ("err_sqlstate", lc_string)
    ∷ ("err_elevel", lc_uint8)
    ∷ ("err_message", hc_string)
    ∷ ("app", lc_string)
    ∷ ("client_addr", hc_string)
    ∷ []

-- One pass of the loop: the values that are appended, each with its column.
unfoldable pub row : Event → List (String × Value)
unfolding clamp_field_len to_int64 cmd_type_to_string
row ev =
    ("ts", int (pos (ev.ts_start + postgres_epoch_offset_us)))
    ∷ ("duration_us", uint ev.duration_us)
    ∷ ("db_name", chars (take ev.datname_len ev.datname))
    ∷ ("db_user", chars (take ev.username_len ev.username))
    ∷ ("pid", int (pos ev.pid))
    ∷ ("query_id", int (to_int64 ev.queryid))
    ∷ ("db_operation", chars (cmd_type_to_string ev.cmd_type))
    ∷ ("rows", uint ev.rows)
    ∷ ("query_text", chars (take (clamp_field_len ev.query_len max_query_len) ev.query))
    ∷ ("shared_blks_hit", int (pos ev.buffers.shared_blks_hit))
    ∷ ("shared_blks_read", int (pos ev.buffers.shared_blks_read))
    ∷ ("shared_blks_dirtied", int (pos ev.buffers.shared_blks_dirtied))
    ∷ ("shared_blks_written", int (pos ev.buffers.shared_blks_written))
    ∷ ("local_blks_hit", int (pos ev.buffers.local_blks_hit))
    ∷ ("local_blks_read", int (pos ev.buffers.local_blks_read))
    ∷ ("local_blks_dirtied", int (pos ev.buffers.local_blks_dirtied))
    ∷ ("local_blks_written", int (pos ev.buffers.local_blks_written))
    ∷ ("temp_blks_read", int (pos ev.buffers.temp_blks_read))
    ∷ ("temp_blks_written", int (pos ev.buffers.temp_blks_written))
    ∷ ("shared_blk_read_time_us", int (pos ev.io.shared_blk_read_time_us))
    ∷ ("shared_blk_write_time_us", int (pos ev.io.shared_blk_write_time_us))
    ∷ ("local_blk_read_time_us", int (pos ev.io.local_blk_read_time_us))
    ∷ ("local_blk_write_time_us", int (pos ev.io.local_blk_write_time_us))
    ∷ ("temp_blk_read_time_us", int (pos ev.io.temp_blk_read_time_us))
    ∷ ("temp_blk_write_time_us", int (pos ev.io.temp_blk_write_time_us))
    ∷ ("wal_records", int (pos ev.wal.wal_records))
    ∷ ("wal_fpi", int (pos ev.wal.wal_fpi))
    ∷ ("wal_bytes", uint ev.wal.wal_bytes)
    ∷ ("cpu_user_time_us", int ev.cpu.cpu_user_time_us)
    ∷ ("cpu_sys_time_us", int ev.cpu.cpu_sys_time_us)
    ∷ ("jit_functions", int (pos ev.jit.jit_functions))
    ∷ ("jit_generation_time_us", int (pos ev.jit.jit_generation_time_us))
    ∷ ("jit_deform_time_us", int (pos ev.jit.jit_deform_time_us))
    ∷ ("jit_inlining_time_us", int (pos ev.jit.jit_inlining_time_us))
    ∷ ("jit_optimization_time_us", int (pos ev.jit.jit_optimization_time_us))
    ∷ ("jit_emission_time_us", int (pos ev.jit.jit_emission_time_us))
    ∷ ("parallel_workers_planned", int (pos ev.parallel_workers_planned))
    ∷ ("parallel_workers_launched", int (pos ev.parallel_workers_launched))
    ∷ ("err_sqlstate", chars (take (min (strlen ev.err_sqlstate) 5) ev.err_sqlstate))
    ∷ ("err_elevel", uint ev.err_elevel)
    ∷ (
      "err_message",
      chars (take (clamp_field_len ev.err_message_len max_err_msg_len) ev.err_message),
    )
    ∷ (
      "app",
      chars (take (clamp_field_len ev.application_name_len max_app_name_len) ev.application_name),
    )
    ∷ (
      "client_addr",
      chars (take (clamp_field_len ev.client_addr_len max_client_addr_len) ev.client_addr),
    )
    ∷ []
