-- ===== src/Export/ArrowBatch/Laws.antt =====
-- The builder keeps the contract that the batch of src/export/stats_exporter.cc relies on.
use pg_stat_ch_otel_backend.Base.{
  ℕ, ◌+◌, ◌≤◌, refl, Bool, not, List, leb, ◌||◌, arith, Bool-cases, Option-cases, inl, inr,
}
use pg_stat_ch_otel_backend.Event.{Event}
use pg_stat_ch_otel_backend.Export.Batch.Arrow.{IsBuilder}
use pg_stat_ch_otel_backend.Export.ArrowBatch.Schema.{finish_order, values}
use pg_stat_ch_otel_backend.Export.ArrowBatch.{
  Arrow, Impl, append_all, finish_all, write_block, append_event, finish_block, finish, reset, init,
  arrow_builder,
}

module _ {N A : Type 0} (lib : Arrow N A) where
  append_event_rows :
      (ev : Event) (b : Impl N) → (append_event lib ev b).1.num_rows ≤ b.num_rows + 1
  unfolding append_event
  append_event_rows ev b =
      elim (Bool-cases (append_all lib (values b.extra_attrs b.service_version ev) b.builders).0) [
        | inl h ↦ rw (h, append_event) (omega arith)
        | inr h ↦ rw (h, append_event) (omega arith)
      ]

  finish_block_rows :
      (columns : List A) (n : N) (b : Impl N) → (finish_block lib columns n b).1 ≤ b.num_rows
  unfolding finish_block
  finish_block_rows columns n b = elim (Option-cases (write_block lib b.num_rows columns n).0) [
    | inl e ↦ rw (e, finish_block) (omega arith)
    | inr (ipc, e) ↦ rw (e, finish_block) (omega arith)
  ]

  finish_rows : (b : Impl N) → (finish lib b).1 ≤ b.num_rows
  unfolding finish
  finish_rows b = elim (Bool-cases (leb b.num_rows 0 || not b.has_schema)) [
    | inl h ↦ rw (h, finish) (omega arith)
    | inr h ↦ elim (Option-cases (finish_all lib finish_order b.builders).0) [
      | inl e ↦ rw (h, e, finish) (omega arith)
      | inr (columns, e) ↦ rw (h, e, finish) (finish_block_rows columns _ b)
    ]
  ]

  -- Whatever the Arrow library answers, ArrowBatchBuilder keeps the contract of a builder on
  -- which PschExportBatch relies: it starts with no rows, Append adds at most one, Finish reports
  -- at most the rows there are, and Reset leaves none.
  pub arrow_builder-IsBuilder :
      (isspace : ℕ → Bool) (extra_attrs service_version : List ℕ) (n : N)
      → IsBuilder (arrow_builder lib isspace extra_attrs service_version n)
  unfolding arrow_builder init reset
  arrow_builder-IsBuilder isspace extra_attrs service_version n = record {
    starts = λ b e. ground (arith, e);
    appends = λ ev b b' ok e. ground (arith, e, append_event_rows ev b);
    finishes = λ b b' buffer rows e. ground (arith, e, finish_rows b);
    resets = λ b. refl;
  }
