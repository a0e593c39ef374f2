-- ===== src/Functions.antt =====
-- src/pg_stat_ch.c: the SQL functions, with the columns that sql/pg_stat_ch--0.3.sql declares.
--
-- _PG_init and pg_stat_ch_version are left out, and so is the tuple that PostgreSQL forms of a row.
pub mod Laws
use pg_stat_ch_otel_backend.Base.{
  ℕ, ◌+◌, ◌-◌, ◌*◌, ◌^◌, Bool, true, false, Option, none, some, List, [], ◌∷◌, take, replicate, leb,
  ltb, ◌==◌, if◌then◌else◌,
}
use pg_stat_ch_otel_backend.Base.Int.{ℤ, pos, negsuc}
use pg_stat_ch_otel_backend.Ring.{Shared}
use pg_stat_ch_otel_backend.Stats.{Stats, get_stats, reset_stats, strlen}
use pg_stat_ch_otel_backend.Worker.{Kill, signal_flush}

-- The declared types of the columns.
pub data SqlType : Type 0 where
  bigint : SqlType
  timestamptz : SqlType
  string : SqlType
  integer : SqlType
  double_precision : SqlType

-- CREATE FUNCTION pg_stat_ch_stats
abbrev pub stats_columns : List SqlType
stats_columns =
    SqlType.bigint ∷ SqlType.bigint ∷ SqlType.bigint ∷ SqlType.bigint ∷ SqlType.timestamptz
    ∷ SqlType.string ∷ SqlType.timestamptz ∷ SqlType.integer ∷ SqlType.integer
    ∷ SqlType.double_precision ∷ SqlType.bigint ∷ []

-- A Datum. A double is the quotient of two whole numbers, which is rounded once.
pub data Datum : Type 0 where
  int64_datum : ℤ → Datum
  int32_datum : ℤ → Datum
  float8_datum : (num den : ℕ) → Datum
  timestamptz_datum : ℕ → Datum
  text_datum : List ℕ → Datum

-- Int64GetDatum of a `uint64`
unfoldable pub int64_get_datum : ℕ → Datum
int64_get_datum n = int64_datum (if leb (2 ^ 63) n then negsuc (2 ^ 64 - 1 - n) else pos n)

-- Int32GetDatum of a `uint32`
unfoldable pub int32_get_datum : ℕ → Datum
int32_get_datum n = int32_datum (if leb (2 ^ 31) n then negsuc (2 ^ 32 - 1 - n) else pos n)

-- A time, null if there is none
unfoldable pub timestamp_or_null : ℕ → Option Datum
timestamp_or_null ts = if ts == 0 then none else some (timestamptz_datum ts)

-- `last_error_text`, null if it is empty
unfoldable pub text_or_null : List ℕ → Option Datum
text_or_null str = if strlen str == 0 then none else some (text_datum (take (strlen str) str))

-- `usage_pct`
unfoldable pub usage_pct : ℕ → ℕ → Datum
usage_pct queue_size queue_capacity =
    if ltb 0 queue_capacity
    then float8_datum (100 * queue_size) queue_capacity
    else float8_datum 0 1

-- `values`, with none for a null
unfoldable pub stats_values : Stats → List (Option Datum)
unfolding int64_get_datum int32_get_datum timestamp_or_null text_or_null usage_pct
stats_values stats =
    some (int64_get_datum stats.enqueued)
    ∷ some (int64_get_datum stats.dropped)
    ∷ some (int64_get_datum stats.exported)
    ∷ some (int64_get_datum stats.send_failures)
    ∷ timestamp_or_null stats.last_success_ts
    ∷ text_or_null stats.last_error
    ∷ timestamp_or_null stats.last_error_ts
    ∷ some (int32_get_datum stats.queue_size)
    ∷ some (int32_get_datum stats.queue_capacity)
    ∷ some (usage_pct stats.queue_size stats.queue_capacity)
    ∷ some (int64_get_datum stats.dsa_oom_count)
    ∷ []

-- pg_stat_ch_stats: none for its error, where the caller takes no record
unfoldable pub pg_stat_ch_stats :
    {T : Type 0} → Bool → Option (Shared T) → Option (List (Option Datum))
unfolding stats_values
pg_stat_ch_stats composite state =
    if composite then some (stats_values (get_stats state (replicate 256 0) 256)) else none

-- pg_stat_ch_reset
unfoldable pub pg_stat_ch_reset : {T : Type 0} → Option (Shared T) → Option (Shared T)
pg_stat_ch_reset state = reset_stats state

-- pg_stat_ch_flush, with the arguments of `signal_flush`
unfoldable pub pg_stat_ch_flush :
    {T : Type 0} → Kill → (Shared T → Shared T) → Option (Shared T) → Bool × Option (Shared T)
pg_stat_ch_flush answer others state = signal_flush answer others state
