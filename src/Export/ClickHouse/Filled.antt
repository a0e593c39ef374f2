-- ===== src/Export/ClickHouse/Filled.antt =====
-- What ExportEventStatsInternal leaves in the columns of the ClickHouse exporter.
use Prim.Native.String.{String}
use pg_stat_ch_otel_backend.Base.{
  ℕ, ◌+◌, ◌≡◌, refl, sym, ap, ap₂, ◌∙◌, ⊤, Bool, List, [], ◌∷◌, ◌++◌, append-nil, append_assoc,
  length, map, arith,
}
use pg_stat_ch_otel_backend.Event.{Event}
use pg_stat_ch_otel_backend.Export.{Outcome, returned, thrown, Action, ◌>>◌, each, World}
use pg_stat_ch_otel_backend.Export.Rows.{Kind, Value, columns, row}
use pg_stat_ch_otel_backend.Export.Rows.Laws.{row-fits}
use pg_stat_ch_otel_backend.Export.Batch.{export_event_stats_internal}
use pg_stat_ch_otel_backend.Export.ClickHouse.{ClickHouse, Library, begin_batch, clickhouse}
use pg_stat_ch_otel_backend.Export.ClickHouse.Block.{Column, clear, append_value}
use pg_stat_ch_otel_backend.Export.ClickHouse.Table.{
  table, append_row, IsPrepared, unused, filled, push_row-table, append_row-push_row, row-aligned,
}
use pg_stat_ch_otel_backend.Export.ClickHouse.Held.{held, by_column, rows-fit, held-table}

module _ {T N : Type 0} (lib : Library N) (use_tls : Bool) where
  abbrev with_columns : World T (ClickHouse N) → List Column → World T (ClickHouse N)
  with_columns w cs = record w { exporter = record w.exporter { columns = cs } }

  each_append :
      (r : List (String × Value)) (w : World T (ClickHouse N))
      → each (clickhouse lib use_tls).append r w
        ≡ (returned tt, with_columns w (append_row r w.exporter.columns))
  unfolding clickhouse
  each_append [] w = refl
  each_append ((name, v) ∷ r) w =
      each_append r (with_columns w (append_value name v w.exporter.columns))

  each_add_column :
      (w : World T (ClickHouse N)) (cs : List Column)
      → IsPrepared cs
      → each
          (clickhouse lib use_tls).add_column
          columns
          (with_columns w (map (λ (c : Column). record c { cells = clear c.cells }) cs))
        ≡ (returned tt, with_columns w (table columns []))
  unfolding clickhouse columns
  each_add_column w cs unused = refl
  each_add_column w cs (filled rows) = refl

  -- The exporter with these rows in its columns.
  abbrev pub with_rows :
      World T (ClickHouse N) → List (List (String × Value)) → ℕ → World T (ClickHouse N)
  with_rows w rows n = record w {
    exporter = record w.exporter { columns = table columns rows; exported_count = n };
  }

  abbrev row_action : Event → Action (World T (ClickHouse N)) ⊤
  row_action ev =
      (clickhouse lib use_tls).begin_row >> each (clickhouse lib use_tls).append (row ev)

  -- The rows of these events, after what was done before.
  abbrev and_rows :
      List Event → Outcome ⊤ × World T (ClickHouse N) → Outcome ⊤ × World T (ClickHouse N)
  and_rows events (r, w) = elim r [
    | returned a ↦ each row_action events w
    | thrown x ↦ (thrown x, w)
  ]

  rows_done :
      (events : List Event) (w : World T (ClickHouse N)) (rows : List (List (String × Value)))
      (n : ℕ)
      → each row_action events (with_rows w rows n)
        ≡ (returned tt, with_rows w (rows ++ map row events) (n + length events))
  unfolding clickhouse
  rows_done [] w rows n =
      ap₂ (λ (r : List (List (String × Value))) (m : ℕ). (returned tt, with_rows w r m))
        (sym (append-nil rows)) (omega arith)
  rows_done (ev ∷ events) w rows n =
      let added =
        append_row-push_row (row ev) (table columns rows) (row-aligned ev rows)
        ∙ push_row-table columns (row ev) rows (row-fits ev) in
      let one =
        each_append (row ev) (with_rows w rows (n + 1))
        ∙ ap (λ cs. (returned tt, with_columns (with_rows w rows (n + 1)) cs)) added in
      ap (and_rows events) one
      ∙ (rows_done events w (rows ++ row ev ∷ []) (n + 1)
          ∙ ap₂ (λ (r : List (List (String × Value))) (m : ℕ). (returned tt, with_rows w r m))
              (append_assoc rows (row ev ∷ []) (map row events)) (omega arith))

  -- All
  pub export_event_stats_internal-with_rows :
      (events : List Event) (w : World T (ClickHouse N))
      → IsPrepared w.exporter.columns
      → export_event_stats_internal (clickhouse lib use_tls) events w
        ≡ (returned tt, with_rows w (map row events) (length events))
  unfolding export_event_stats_internal clickhouse begin_batch
  export_event_stats_internal-with_rows events w ready =
      let w0 : World T (ClickHouse N) = record w {
        exporter = record w.exporter { exported_count = 0 };
      } in
      ap (and_rows events) (each_add_column w0 w.exporter.columns ready)
      ∙ rows_done events w [] 0
      ∙ ap (λ m. (returned tt, with_rows w (map row events) m)) (omega arith)

  -- With the ClickHouse exporter, whose columns are none yet or those of an earlier batch with
  -- its rows, ExportEventStatsInternal returns and leaves exactly the declared columns, in the
  -- order of the declarations and each once; what can be read back from each, strings by their
  -- offsets, is the values of the given events for it, one for each event and in their order,
  -- with nothing of the earlier batch; and the count of rows is the number of the events.
  pub export_event_stats_internal-held :
      (events : List Event) (w : World T (ClickHouse N))
      → IsPrepared w.exporter.columns
      → (w' : World T (ClickHouse N)) × (export_event_stats_internal
            (clickhouse lib use_tls)
            events
            w
          ≡ (returned tt, w'))
        × (w'.exporter.exported_count ≡ length events)
        × (map (λ (c : Column). c.name) w'.exporter.columns
            ≡ map (λ (c : String × Kind). c.0) columns)
        × (map (λ (c : Column). held c.cells) w'.exporter.columns
            ≡ by_column columns (map row events))
        × IsPrepared w'.exporter.columns
  unfolding columns
  export_event_stats_internal-held events w ready = (
    with_rows w (map row events) (length events),
    export_event_stats_internal-with_rows events w ready,
    refl,
    refl,
    held-table columns (map row events) (rows-fit events),
    filled (map row events),
  )
