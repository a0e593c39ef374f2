-- ===== src/Export/OpenTelemetry/Record.antt =====
-- src/export/otel_exporter.cc: the columns, which write attributes into the current log record.
use Prim.Native.String.{String}
use text.Mathlib.Text.{◌==◌}
use pg_stat_ch_otel_backend.Base.{
  ℕ, ◌+◌, ◌-◌, ◌*◌, ◌%◌, ◌^◌, Bool, false, Option, none, some, List, [], ◌∷◌, ◌++◌, length, leb,
  if◌then◌else◌,
}
use pg_stat_ch_otel_backend.Base.Int.{ℤ, pos, negsuc}
use pg_stat_ch_otel_backend.Export.{bytes}
use pg_stat_ch_otel_backend.Export.Rows.{Kind, Value, chars, int, uint}

-- kAttrOverheadBytes
abbrev pub attr_overhead_bytes : ℕ
attr_overhead_bytes = 24

-- The value of an attribute; a double is a count of microseconds, in seconds.
pub data Attribute : Type 0 where
  text_value : List ℕ → Attribute
  int_value : ℤ → Attribute
  seconds_value : ℕ → Attribute

-- LogRecord: `time_unix_nano` and the attributes
pub record LogRecord : Type 0 where
  pub time_unix_nano : ℕ
  pub attributes : List (String × Attribute)

-- EstimateStringAttrBytes
unfoldable pub estimate_string_attr_bytes : String → List ℕ → ℕ
estimate_string_attr_bytes key value = attr_overhead_bytes + length (bytes key) + length value

-- EstimateScalarAttrBytes
unfoldable pub estimate_scalar_attr_bytes : String → ℕ
estimate_scalar_attr_bytes key = attr_overhead_bytes + length (bytes key) + 8

-- The names of the semantic columns
abbrev pub key_of : String → Kind → String
key_of name Kind.db_name = "db.name"
key_of name Kind.db_user = "db.user"
key_of name Kind.db_operation = "db.operation.name"
key_of name Kind.db_query_text = "db.query.text"
key_of name _ = name

-- An integer as the `int64` that SetInt takes
abbrev pub as_int64 : Value → ℤ
as_int64 (int n) = n
as_int64 (uint n) = if leb (2 ^ 63) n then negsuc (2 ^ 64 - 1 - n) else pos n
as_int64 (chars s) = pos 0

abbrev pub is_zero : ℤ → Bool
is_zero (pos n) = leb n 0
is_zero (negsuc n) = false

-- `static_cast<uint64_t>(v) * 1000ULL`
abbrev pub nanoseconds : ℤ → ℕ
nanoseconds (pos n) = n * 1000 % 2 ^ 64
nanoseconds (negsuc n) = (2 ^ 64 - 1 - n) * 1000 % 2 ^ 64

-- Append of the columns, on the current record and the estimate of the chunk
unfoldable pub append_attribute : String → Kind → Value → LogRecord × ℕ → LogRecord × ℕ
unfolding estimate_string_attr_bytes estimate_scalar_attr_bytes
append_attribute name kind (chars s) (rec, size) =
    let key = key_of name kind in
    (
      record rec { attributes = rec.attributes ++ (key, text_value s) ∷ [] },
      size + estimate_string_attr_bytes key s,
    )
append_attribute name Kind.timestamp v (rec, size) = (
  record {
    time_unix_nano = nanoseconds (as_int64 v);
    attributes = rec.attributes ++ (name, int_value (as_int64 v)) ∷ [];
  },
  size + (estimate_scalar_attr_bytes name + 8),
)
append_attribute name Kind.db_duration (uint n) (rec, size) = (
  record rec {
    attributes =
        rec.attributes
        ++ ("db.client.operation.duration", seconds_value n)
          ∷ ("duration_us", int_value (as_int64 (uint n)))
          ∷ [];
  },
  size
      + (estimate_scalar_attr_bytes "db.client.operation.duration"
          + estimate_scalar_attr_bytes "duration_us"),
)
append_attribute name kind v (rec, size) = if is_zero (as_int64 v) then (rec, size) else (
  record rec { attributes = rec.attributes ++ (name, int_value (as_int64 v)) ∷ [] },
  size + estimate_scalar_attr_bytes name,
)

-- The column of that name
abbrev pub find_kind : String → List (String × Kind) → Option Kind
find_kind name [] = none
find_kind name ((name', kind) ∷ cs) =
    let rest = find_kind name cs in if name' == name then some kind else rest
