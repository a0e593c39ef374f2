-- ===== src/Settings.antt =====
-- src/config/guc.c: the settings, as PschInitGuc declares them, in the order of the source.
-- Descriptions and the flags for units are left out; a rate is in thousandths.
pub mod Laws
use Prim.Native.String.{String}
use text.Mathlib.Text.{◌==◌}
use pg_stat_ch_otel_backend.Base.{
  ℕ, ◌*◌, Bool, true, false, Option, none, some, List, [], ◌∷◌, ◌++◌, leb, ◌&&◌, if◌then◌else◌,
}
use pg_stat_ch_otel_backend.Base.Int.{ℤ, pos, negsuc}
use pg_stat_ch_otel_backend.Stats.{check_queue_capacity}

-- When a setting can change: PGC_POSTMASTER, PGC_SIGHUP and PGC_SUSET.
pub data Context : Type 0 where
  postmaster sighup suset : Context

pub data Check : Type 0 where
  unchecked queue_capacity : Check

-- The calls of DefineCustomBoolVariable, -Int-, -String-, -Enum- and -RealVariable: the boot value,
-- the bounds, and the check hook of an integer.
pub data Variable : Type 0 where
  bool : Bool → Context → Variable
  int : ℕ → ℕ → ℕ → Check → Context → Variable
  string : String → Context → Variable
  enum : String → List String → Context → Variable
  real : ℕ → ℕ → ℕ → Context → Variable

-- INT_MAX
abbrev pub int_max : ℕ
int_max = 2147483647

-- log_elevel_options
abbrev pub log_elevel_options : List String
log_elevel_options =
    "debug5" ∷ "debug4" ∷ "debug3" ∷ "debug2" ∷ "debug1" ∷ "log" ∷ "info" ∷ "notice" ∷ "warning"
    ∷ "error" ∷ "fatal" ∷ "panic" ∷ []

unfoldable pub connection_settings : List (String × Variable)
connection_settings =
    ("pg_stat_ch.enabled", bool true sighup)
    ∷ ("pg_stat_ch.use_otel", bool false postmaster)
    ∷ ("pg_stat_ch.clickhouse_host", string "localhost" postmaster)
    ∷ ("pg_stat_ch.clickhouse_port", int 9000 1 65535 unchecked postmaster)
    ∷ ("pg_stat_ch.clickhouse_user", string "default" postmaster)
    ∷ ("pg_stat_ch.clickhouse_password", string "" postmaster)
    ∷ ("pg_stat_ch.clickhouse_database", string "pg_stat_ch" postmaster)
    ∷ ("pg_stat_ch.clickhouse_use_tls", bool false postmaster)
    ∷ ("pg_stat_ch.clickhouse_skip_tls_verify", bool false postmaster)
    ∷ ("pg_stat_ch.otel_endpoint", string "localhost:4317" postmaster)
    ∷ ("pg_stat_ch.hostname", string "" postmaster)
    ∷ []

unfoldable pub queue_settings : List (String × Variable)
queue_settings =
    ("pg_stat_ch.queue_capacity", int 131072 1024 4194304 queue_capacity postmaster)
    ∷ ("pg_stat_ch.string_area_size", int 64 8 1024 unchecked postmaster)
    ∷ ("pg_stat_ch.flush_interval_ms", int 500 100 60000 unchecked sighup)
    ∷ ("pg_stat_ch.batch_max", int 200000 1 1000000 unchecked sighup)
    ∷ []

unfoldable pub otel_settings : List (String × Variable)
otel_settings =
    ("pg_stat_ch.otel_log_queue_size", int 65536 512 1048576 unchecked postmaster)
    ∷ ("pg_stat_ch.otel_log_batch_size", int 8192 1 131072 unchecked postmaster)
    ∷ (
      "pg_stat_ch.otel_log_max_bytes",
      int (3 * 1024 * 1024) 65536 (64 * 1024 * 1024) unchecked postmaster,
    )
    ∷ ("pg_stat_ch.otel_log_delay_ms", int 100 10 60000 unchecked postmaster)
    ∷ ("pg_stat_ch.otel_metric_interval_ms", int 5000 100 300000 unchecked postmaster)
    ∷ []

unfoldable pub capture_settings : List (String × Variable)
capture_settings =
    ("pg_stat_ch.log_min_elevel", enum "warning" log_elevel_options suset)
    ∷ ("pg_stat_ch.min_duration_us", int 0 0 int_max unchecked suset)
    ∷ ("pg_stat_ch.normalize_cache_max", int 32768 64 65536 unchecked suset)
    ∷ ("pg_stat_ch.sample_rate", real 1000 0 1000 suset)
    ∷ []

unfoldable pub arrow_settings : List (String × Variable)
arrow_settings =
    ("pg_stat_ch.otel_arrow_passthrough", bool false sighup)
    ∷ (
      "pg_stat_ch.otel_max_block_bytes",
      int (3 * 1024 * 1024) 65536 (16 * 1024 * 1024) unchecked sighup,
    )
    ∷ ("pg_stat_ch.extra_attributes", string "" sighup)
    ∷ ("pg_stat_ch.debug_arrow_dump_dir", string "" sighup)
    ∷ ("pg_stat_ch.debug_force_locked_overflow", bool false suset)
    ∷ []

-- PschInitGuc
unfoldable pub init_guc : List (String × Variable)
unfolding connection_settings queue_settings otel_settings capture_settings arrow_settings
init_guc =
    connection_settings ++ queue_settings ++ otel_settings ++ capture_settings ++ arrow_settings

-- The check hook, where a setting has one.
abbrev pub run_check : Check → ℤ → Bool
run_check unchecked v = true
run_check queue_capacity v = check_queue_capacity v

-- Whether PostgreSQL takes the integer for a setting: it is within the bounds and passes the hook.
unfoldable pub takes_int : Variable → ℤ → Bool
takes_int (int boot low high check context) (pos v) =
    leb low v && leb v high && run_check check (pos v)
takes_int _ _ = false

abbrev pub find_setting : String → List (String × Variable) → Option Variable
find_setting name [] = none
find_setting name ((name', v) ∷ vs) =
    let rest = find_setting name vs in if name' == name then some v else rest

-- Whether `SET name = v` is accepted.
unfoldable pub accepts_int : String → ℤ → Bool
unfolding takes_int init_guc
accepts_int name v = elim (find_setting name init_guc) [ none ↦ false | some d ↦ takes_int d v ]
