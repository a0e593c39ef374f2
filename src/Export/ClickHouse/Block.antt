-- ===== src/Export/ClickHouse/Block.antt =====
-- The columns of a batch in src/export/clickhouse_exporter.cc, and the text of the INSERT.
use Prim.Native.String.{String}
use text.Mathlib.Text.{◌==◌}
use pg_stat_ch_otel_backend.Base.{
  ℕ, Bool, true, false, Option, none, some, List, [], ◌∷◌, ◌++◌, map, length, if◌then◌else◌,
}
use pg_stat_ch_otel_backend.Export.{bytes}
use pg_stat_ch_otel_backend.Export.Rows.{Kind, Value, chars}

-- The instances of StringCol and FixedCol.
pub data CppType : Type 0 where
  string string_view uint8 int16 int32 int64 uint64 : CppType

abbrev pub same_type : CppType → CppType → Bool
same_type CppType.string CppType.string = true
same_type CppType.string_view CppType.string_view = true
same_type CppType.uint8 CppType.uint8 = true
same_type CppType.int16 CppType.int16 = true
same_type CppType.int32 CppType.int32 = true
same_type CppType.int64 CppType.int64 = true
same_type CppType.uint64 CppType.uint64 = true
same_type _ _ = false

-- FixedCol with `data_`, and StringCol with `bytes_` and `offsets_`
pub data Cells : Type 0 where
  fixed : String → List Value → Cells
  strings : List ℕ → List ℕ → Cells

pub record Column : Type 0 where
  pub name : String
  pub cpp_type : CppType
  pub cells : Cells

-- Append
unfoldable pub push : Value → Cells → Cells
push v (fixed type_name vs) = fixed type_name (vs ++ v ∷ [])
push (chars s) (strings bytes offsets) = strings (bytes ++ s) (offsets ++ length (bytes ++ s) ∷ [])
push _ (strings bytes offsets) = strings bytes offsets

-- Clear
unfoldable pub clear : Cells → Cells
clear (fixed type_name vs) = fixed type_name []
clear (strings bytes offsets) = strings [] []

-- The factories: the type of the column, empty.
unfoldable pub factory : Kind → CppType × Cells
factory Kind.lc_string = (CppType.string, strings [] [])
factory Kind.db_name = (CppType.string, strings [] [])
factory Kind.db_user = (CppType.string, strings [] [])
factory Kind.db_operation = (CppType.string, strings [] [])
factory Kind.hc_string = (CppType.string_view, strings [] [])
factory Kind.db_query_text = (CppType.string_view, strings [] [])
factory Kind.lc_uint8 = (CppType.uint8, fixed "UInt8" [])
factory Kind.lc_int16 = (CppType.int16, fixed "Int16" [])
factory Kind.lc_int32 = (CppType.int32, fixed "Int32" [])
factory Kind.hc_int64 = (CppType.int64, fixed "Int64" [])
factory Kind.timestamp = (CppType.int64, fixed "DateTime64(6)" [])
factory Kind.hc_uint64 = (CppType.uint64, fixed "UInt64" [])
factory Kind.db_duration = (CppType.uint64, fixed "UInt64" [])

-- `col_index_.find(name)`: the type of the column of that name
abbrev pub find_type : String → List Column → Option CppType
find_type name [] = none
find_type name (c ∷ cs) =
    let rest = find_type name cs in if c.name == name then some c.cpp_type else rest

-- MakeCol; none where it throws
unfoldable pub make_col : String → Kind → List Column → Option (List Column)
unfolding factory
make_col name kind cs =
    let (cpp_type, cells) = factory kind in
    elim (find_type name cs) [
      | some t ↦ if same_type t cpp_type then some cs else none
      | none ↦ some (cs ++ record { name = name; cpp_type = cpp_type; cells = cells } ∷ [])
    ]

-- Append on the column that MakeCol gave for the name
unfoldable pub append_value : String → Value → List Column → List Column
unfolding push
append_value name v [] = []
append_value name v (c ∷ cs) =
    (if c.name == name then record c { cells = push v c.cells } else c) ∷ append_value name v cs

-- The names, with ", " between them.
abbrev pub join : List (List ℕ) → List ℕ
join [] = []
join (s ∷ []) = s
join (s ∷ t ∷ ss) = s ++ bytes ", " ++ join (t ∷ ss)

-- BuildInsertQuery
unfoldable pub build_insert_query : List Column → List ℕ
build_insert_query cs =
    bytes "INSERT INTO events_raw ("
    ++ join (map (λ (c : Column). bytes c.name) cs)
    ++ bytes ") VALUES"
