-- ===== src/Tests/Querying.antt =====
-- The SQL functions on a small ring.
use pg_stat_ch_otel_backend.Base.{
  ◌+◌, ◌*◌, ◌%◌, ◌^◌, ◌<◌, ◌≤◌, ◌≡◌, true, Option, none, some, List, [], ◌∷◌, length, arith,
}
use pg_stat_ch_otel_backend.Base.Int.{pos}
use pg_stat_ch_otel_backend.Ring.{Shared}
use pg_stat_ch_otel_backend.Ring.Valid.{IsValid, view}
use pg_stat_ch_otel_backend.Stats.{record_export_failure}
use pg_stat_ch_otel_backend.Functions.{
  Datum, int64_datum, int32_datum, float8_datum, timestamptz_datum, text_datum, int64_get_datum,
  stats_columns, pg_stat_ch_stats, pg_stat_ch_reset,
}
use pg_stat_ch_otel_backend.Functions.Laws.{
  fits_columns, column, pg_stat_ch_stats-view, pg_stat_ch_stats-pg_stat_ch_reset,
  pg_stat_ch_stats-record_export_failure,
}
use pg_stat_ch_otel_backend.Tests.{Table, postgres, ring, ring-IsValid}

pg_stat_ch_stats-view_example :
    (row : List (Option Datum)) × (pg_stat_ch_stats true (some ring) ≡ some row)
    × (fits_columns stats_columns row ≡ true)
    × (column row 7 ≡ some (int32_datum (pos (length (view ring)))))
    × (column row 8 ≡ some (int32_datum (pos ring.capacity)))
    × (column row 9 ≡ some (float8_datum (100 * length (view ring)) ring.capacity))
    × (100 * length (view ring) ≤ 100 * ring.capacity)
    × (0 < ring.capacity)
unfolding pg_stat_ch_otel_backend.Ring.try_enqueue_locked pg_stat_ch_otel_backend.Tests.empty_ring
pg_stat_ch_stats-view_example = pg_stat_ch_stats-view ring ring-IsValid (omega arith)

pg_stat_ch_stats-pg_stat_ch_reset_example :
    (s' : Shared Table) × (pg_stat_ch_reset (some ring) ≡ some s')
    × IsValid postgres s'
    × (view s' ≡ view ring)
    × (pg_stat_ch_stats true (some s')
        ≡ some (
            some (int64_datum (pos 0))
            ∷ some (int64_datum (pos 0))
            ∷ some (int64_datum (pos 0))
            ∷ some (int64_datum (pos 0))
            ∷ none
            ∷ none
            ∷ none
            ∷ some (int32_datum (pos (length (view ring))))
            ∷ some (int32_datum (pos ring.capacity))
            ∷ some (float8_datum (100 * length (view ring)) ring.capacity)
            ∷ some (int64_datum (pos 0))
            ∷ []))
unfolding pg_stat_ch_otel_backend.Ring.try_enqueue_locked pg_stat_ch_otel_backend.Tests.empty_ring
pg_stat_ch_stats-pg_stat_ch_reset_example =
    pg_stat_ch_stats-pg_stat_ch_reset ring ring-IsValid (omega arith)

-- The message is `no`.
pg_stat_ch_stats-record_export_failure_example :
    (row : List (Option Datum)) × (pg_stat_ch_stats true
        (record_export_failure 77 (some (110 ∷ 111 ∷ 0 ∷ [])) (some ring))
      ≡ some row)
    × (column row 3 ≡ some (int64_get_datum ((ring.send_failures + 1) % 2 ^ 64)))
    × (column row 5 ≡ some (text_datum (110 ∷ 111 ∷ [])))
    × (column row 6 ≡ some (timestamptz_datum 77))
pg_stat_ch_stats-record_export_failure_example =
    pg_stat_ch_stats-record_export_failure ring 77 (110 ∷ 111 ∷ 0 ∷ []) (omega arith) (omega arith)
