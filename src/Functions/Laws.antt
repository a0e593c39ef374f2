-- ===== src/Functions/Laws.antt =====
-- The row that the SQL functions show of the queue and of the export.
use pg_stat_ch_otel_backend.Base.{
  ℕ, ◌+◌, ◌*◌, ◌%◌, ◌^◌, ◌<◌, ◌≤◌, ◌≡◌, refl, ap, ◌∙◌, Bool, true, false, Option, none, some, List,
  [], ◌∷◌, ◌++◌, ◌&&◌, min, take, replicate, length, get_or, arith,
}
use pg_stat_ch_otel_backend.Base.Bits.{pow_pos}
use pg_stat_ch_otel_backend.Base.Int.{pos}
use pg_stat_ch_otel_backend.Store.{External}
use pg_stat_ch_otel_backend.Ring.{Shared}
use pg_stat_ch_otel_backend.Ring.Valid.{IsValid, view, length-view}
use pg_stat_ch_otel_backend.Stats.{Stats, get_stats, record_export_failure, strlen}
use pg_stat_ch_otel_backend.Stats.Laws.{
  get_stats-size, reset_stats_lem, record_export_failure-get_stats, strlen-copy, take-copy,
}
use pg_stat_ch_otel_backend.Functions.{
  SqlType, stats_columns, Datum, int64_datum, int32_datum, float8_datum, timestamptz_datum,
  text_datum, int64_get_datum, int32_get_datum, timestamp_or_null, text_or_null, usage_pct,
  stats_values, pg_stat_ch_stats, pg_stat_ch_reset,
}

-- A value of the type.
unfoldable pub has_type : SqlType → Datum → Bool
has_type SqlType.bigint (int64_datum n) = true
has_type SqlType.timestamptz (timestamptz_datum ts) = true
has_type SqlType.string (text_datum str) = true
has_type SqlType.integer (int32_datum n) = true
has_type SqlType.double_precision (float8_datum num den) = true
has_type _ _ = false

-- One value for each column, null or of its type.
unfoldable pub fits_columns : List SqlType → List (Option Datum) → Bool
unfolding has_type
fits_columns [] [] = true
fits_columns (t ∷ ts) (none ∷ vs) = fits_columns ts vs
fits_columns (t ∷ ts) (some d ∷ vs) = has_type t d && fits_columns ts vs
fits_columns _ _ = false

abbrev pub column : List (Option Datum) → ℕ → Option Datum
column row i = get_or row i none

-- The row has a value for each column that the function declares.
stats_values-fits : (stats : Stats) → fits_columns stats_columns (stats_values stats) ≡ true
unfolding fits_columns stats_values has_type int64_get_datum int32_get_datum timestamp_or_null
    text_or_null usage_pct
stats_values-fits stats = ground arith

-- A whole number that 31 bits hold is shown as it is.
int32_get_datum-small : (n : ℕ) → n < 2 ^ 31 → int32_get_datum n ≡ int32_datum (pos n)
unfolding int32_get_datum
int32_get_datum-small n h = ground arith

usage_pct-some : (n m : ℕ) → 0 < m → usage_pct n m ≡ float8_datum (100 * n) m
unfolding usage_pct
usage_pct-some n m h = ground arith

timestamp_or_null-some : (ts : ℕ) → 0 < ts → timestamp_or_null ts ≡ some (timestamptz_datum ts)
unfolding timestamp_or_null
timestamp_or_null-some ts h = ground arith

-- A terminated copy of some bytes of a text is shown as these bytes.
text_or_null-copy :
    (k : ℕ) (str : List ℕ)
    → 0 < k
    → k ≤ strlen str
    → text_or_null (take k str ++ 0 ∷ []) ≡ some (text_datum (take k str))
unfolding text_or_null
text_or_null-copy k str some_byte fits =
    ground (arith, strlen-copy k str fits, take-copy k k str (omega arith) fits)

module _ {T : Type 0} {ext : External T} (s : Shared T) (v : IsValid ext s) where
  some_room : 0 < s.capacity
  some_room = rw v.power (pow_pos v.width)

  -- On a valid ring with a capacity below 2^31, the row of pg_stat_ch_stats has a value for each
  -- column that the SQL declares, null or of its type; its queue size is the number of queued
  -- events and its capacity is the ring's, neither turned negative, and its percentage is 100
  -- times the one by the other, at most 100 percent and never a division by zero.
  pub pg_stat_ch_stats-view :
      s.capacity < 2 ^ 31
      → (row : List (Option Datum)) × (pg_stat_ch_stats true (some s) ≡ some row)
        × (fits_columns stats_columns row ≡ true)
        × (column row 7 ≡ some (int32_datum (pos (length (view s)))))
        × (column row 8 ≡ some (int32_datum (pos s.capacity)))
        × (column row 9 ≡ some (float8_datum (100 * length (view s)) s.capacity))
        × (100 * length (view s) ≤ 100 * s.capacity)
        × (0 < s.capacity)
  unfolding pg_stat_ch_stats stats_values get_stats usage_pct
  pg_stat_ch_stats-view below =
      let stats = get_stats (some s) (replicate 256 0) 256 in
      let (shown, bound) = get_stats-size s v (replicate 256 0) 256 in
      (
        stats_values stats,
        refl,
        stats_values-fits stats,
        ap (λ d. some d)
            (ap int32_get_datum shown
              ∙ int32_get_datum-small (length (view s)) (omega (arith, shown, bound, below))),
        ap (λ d. some d) (int32_get_datum-small s.capacity below),
        ground (arith, shown, some_room),
        omega (arith, length-view s, v.fits),
        some_room,
      )

  -- On a valid ring with a capacity below 2^31, pg_stat_ch_reset keeps the ring valid with the
  -- same queued events, and the row of pg_stat_ch_stats then has zero for every counter, null for
  -- both times and for the error text, and the queue's size, capacity and percentage as before.
  pub pg_stat_ch_stats-pg_stat_ch_reset :
      s.capacity < 2 ^ 31
      → (s' : Shared T) × (pg_stat_ch_reset (some s) ≡ some s')
        × IsValid ext s'
        × (view s' ≡ view s)
        × (pg_stat_ch_stats true (some s')
            ≡ some (
                some (int64_datum (pos 0))
                ∷ some (int64_datum (pos 0))
                ∷ some (int64_datum (pos 0))
                ∷ some (int64_datum (pos 0))
                ∷ none
                ∷ none
                ∷ none
                ∷ some (int32_datum (pos (length (view s))))
                ∷ some (int32_datum (pos s.capacity))
                ∷ some (float8_datum (100 * length (view s)) s.capacity)
                ∷ some (int64_datum (pos 0))
                ∷ []))
  unfolding pg_stat_ch_reset pg_stat_ch_stats stats_values int64_get_datum timestamp_or_null
      text_or_null
  pg_stat_ch_stats-pg_stat_ch_reset below =
      let (s', done, valid, same, rearmed, shown) = reset_stats_lem s v (replicate 256 0) 256 in
      let size_shown =
        int32_get_datum-small (length (view s)) (omega (arith, length-view s, v.fits, below)) in
      (
        s',
        done,
        valid,
        same,
        ap (λ st. some (stats_values st)) shown
            ∙ cc (
              size_shown,
              int32_get_datum-small s.capacity below,
              usage_pct-some (length (view s)) s.capacity some_room,
            ),
      )

-- After PschRecordExportFailure with a message that is not empty, at a time other than 0, the row
-- of pg_stat_ch_stats shows that message up to its NUL, cut to 255 bytes, the time of the
-- failure, and the count of failures raised by one modulo 2^64.
pub pg_stat_ch_stats-record_export_failure :
    {T : Type 0} (s : Shared T) (now : ℕ) (msg : List ℕ)
    → 0 < now
    → 0 < strlen msg
    → (row : List (Option Datum)) × (pg_stat_ch_stats true
          (record_export_failure now (some msg) (some s))
        ≡ some row)
      × (column row 3 ≡ some (int64_get_datum ((s.send_failures + 1) % 2 ^ 64)))
      × (column row 5 ≡ some (text_datum (take (min (strlen msg) 255) msg)))
      × (column row 6 ≡ some (timestamptz_datum now))
unfolding pg_stat_ch_stats stats_values
pg_stat_ch_stats-record_export_failure s now msg later said =
    let state = record_export_failure now (some msg) (some s) in
    let stats = get_stats state (replicate 256 0) 256 in
    let (text, time, count) =
      record_export_failure-get_stats s now msg (replicate 256 0) 256 (omega arith) (omega arith) in
    (
      stats_values stats,
      refl,
      ap (λ n. some (int64_get_datum n)) count,
      ap text_or_null text
          ∙ text_or_null-copy (min (strlen msg) 255) msg (omega arith) (omega arith),
      ap timestamp_or_null time ∙ timestamp_or_null-some now later,
    )
