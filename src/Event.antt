-- ===== src/Event.antt =====
-- src/queue/event.h and src/queue/ring_entry.h: the event that the hooks fill, and the slot of the
-- ring that stands for it. The numeric fields are grouped by the headings of the source; the part
-- that the queue copies with one `memcpy` is the record `Prefix`.
--
-- A `char` array is the list of its bytes from the start through the terminating NUL; what lies
-- past the NUL is not modelled. The padding byte `_padding3` is left out.
use pg_stat_ch_otel_backend.Base.{ℕ, Bool, List}
use pg_stat_ch_otel_backend.Base.Int.{ℤ}

pub data CmdType : Type 0 where
  unknown select update insert delete merge utility nothing : CmdType

pub record BufferUsage : Type 0 where
  pub shared_blks_hit : ℕ
  pub shared_blks_read : ℕ
  pub shared_blks_dirtied : ℕ
  pub shared_blks_written : ℕ
  pub local_blks_hit : ℕ
  pub local_blks_read : ℕ
  pub local_blks_dirtied : ℕ
  pub local_blks_written : ℕ
  pub temp_blks_read : ℕ
  pub temp_blks_written : ℕ

pub record IoTiming : Type 0 where
  pub shared_blk_read_time_us : ℕ
  pub shared_blk_write_time_us : ℕ
  pub local_blk_read_time_us : ℕ
  pub local_blk_write_time_us : ℕ
  pub temp_blk_read_time_us : ℕ
  pub temp_blk_write_time_us : ℕ

pub record WalUsage : Type 0 where
  pub wal_records : ℕ
  pub wal_fpi : ℕ
  pub wal_bytes : ℕ

pub record CpuTime : Type 0 where
  pub cpu_user_time_us : ℤ
  pub cpu_sys_time_us : ℤ

pub record JitUsage : Type 0 where
  pub jit_functions : ℕ
  pub jit_generation_time_us : ℕ
  pub jit_deform_time_us : ℕ
  pub jit_inlining_time_us : ℕ
  pub jit_optimization_time_us : ℕ
  pub jit_emission_time_us : ℕ

-- Everything from offset 0 through `query_len`, which `PschEvent` and `PschRingEntry` share.
pub record Prefix : Type 0 where
  pub ts_start : ℕ
  pub duration_us : ℕ
  pub dbid : ℕ
  pub userid : ℕ
  pub datname : List ℕ
  pub datname_len : ℕ
  pub username : List ℕ
  pub username_len : ℕ
  pub pid : ℕ
  pub queryid : ℕ
  pub top_level : Bool
  pub cmd_type : CmdType
  pub rows : ℕ
  pub buffers : BufferUsage
  pub io : IoTiming
  pub wal : WalUsage
  pub cpu : CpuTime
  pub jit : JitUsage
  pub parallel_workers_planned : ℕ
  pub parallel_workers_launched : ℕ
  pub err_sqlstate : List ℕ
  pub err_elevel : ℕ
  pub err_message_len : ℕ
  pub application_name : List ℕ
  pub application_name_len : ℕ
  pub client_addr : List ℕ
  pub client_addr_len : ℕ
  pub query_len : ℕ

pub record Event : Type 0 where
  pub prefix : Prefix
  pub open prefix use *
  pub err_message : List ℕ
  pub query : List ℕ

pub record RingEntry : Type 0 where
  pub prefix : Prefix
  pub open prefix use *
  pub err_message_dsa : ℕ
  pub query_dsa : ℕ

-- PSCH_MAX_ERR_MSG_LEN and PSCH_MAX_QUERY_LEN
abbrev pub max_err_msg_len : ℕ
max_err_msg_len = 2048

abbrev pub max_query_len : ℕ
max_query_len = 2048
