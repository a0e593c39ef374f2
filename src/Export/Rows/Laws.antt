-- ===== src/Export/Rows/Laws.antt =====
-- Each row has a value for each declared column, of the type that the column takes.
use Prim.Native.String.{String}
use text.Mathlib.Text.{◌==◌}
use pg_stat_ch_otel_backend.Base.{◌≡◌, refl, Bool, true, false, ◌&&◌, List, [], ◌∷◌}
use pg_stat_ch_otel_backend.Event.{Event}
use pg_stat_ch_otel_backend.Export.Rows.{Kind, Value, columns, row, chars, int, uint}

-- The type of `Append` of a column: text, signed or unsigned.
unfoldable pub accepts : Kind → Value → Bool
accepts Kind.lc_string (chars bs) = true
accepts Kind.hc_string (chars bs) = true
accepts Kind.db_name (chars bs) = true
accepts Kind.db_user (chars bs) = true
accepts Kind.db_operation (chars bs) = true
accepts Kind.db_query_text (chars bs) = true
accepts Kind.lc_int16 (int n) = true
accepts Kind.lc_int32 (int n) = true
accepts Kind.hc_int64 (int n) = true
accepts Kind.timestamp (int n) = true
accepts Kind.lc_uint8 (uint n) = true
accepts Kind.hc_uint64 (uint n) = true
accepts Kind.db_duration (uint n) = true
accepts _ _ = false

-- One value for each column, under its name and of its type.
unfoldable pub fits : List (String × Kind) → List (String × Value) → Bool
unfolding accepts
fits [] [] = true
fits ((name, k) ∷ cs) ((name', v) ∷ vs) = (name == name') && accepts k v && fits cs vs
fits _ _ = false

-- Each row of the export has exactly one value for each declared column, in the order of the
-- declarations, under the column's name and of the type that the column appends.
pub row-fits : (ev : Event) → fits columns (row ev) ≡ true
unfolding fits accepts columns row
row-fits ev = refl
