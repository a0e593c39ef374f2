-- ===== src/Export/ArrowBatch/Holds.antt =====
-- What the builder holds: for each column the values of the events that were appended.
use Prim.Native.String.{String}
use text.Mathlib.Text.{◌==◌}
use pg_stat_ch_otel_backend.Base.{
  ℕ, ◌+◌, ◌≡◌, refl, sym, subst, ap, ◌∙◌, true, Option, some, List, [], ◌∷◌, ◌++◌, map, length,
  length-append, arith, Bool-cases, inl, inr,
}
use mathlib.Core.List.{map-append}
use pg_stat_ch_otel_backend.Event.{Event}
use pg_stat_ch_otel_backend.Export.Rows.{Value}
use pg_stat_ch_otel_backend.Export.ArrowBatch.Attributes.{ExtraAttrs}
use pg_stat_ch_otel_backend.Export.ArrowBatch.Schema.{finish_order, reset_order, values, row_bytes}
use pg_stat_ch_otel_backend.Export.ArrowBatch.{
  Arrow, Impl, append_all, append_event, reset, ipc_envelope_bytes,
}
use pg_stat_ch_otel_backend.Export.ArrowBatch.Cells.{
  IsArrow, value_of, has, distinct, names, Extended, append_all-cells, reset_all-has,
}

-- A column of so many events
unfoldable pub column_of : ExtraAttrs → List ℕ → String → List Event → List (Option Value)
column_of attrs version name [] = []
column_of attrs version name (ev ∷ evs) =
    value_of name (values attrs version ev) ∷ column_of attrs version name evs

-- The sizes that the rows are estimated at
unfoldable pub total_bytes : ExtraAttrs → List ℕ → List Event → ℕ
total_bytes attrs version [] = ipc_envelope_bytes
total_bytes attrs version (ev ∷ evs) = row_bytes attrs version ev + total_bytes attrs version evs

-- Reset empties the builders that Finish reads.
reset_order-finish_order : reset_order ≡ finish_order
unfolding reset_order finish_order
reset_order-finish_order = refl

module _ {N A : Type 0} (lib : Arrow N A) (law : IsArrow lib) where
  open law use {cells, contents}

  -- The builder holds the events: in each column of the schema their values, in their order.
  pub record Holds (b : Impl N) (events : List Event) : Type 0 where
    pub columns :
        (name : String)
        → has name finish_order ≡ true
        → map some (cells b.builders name) ≡ column_of b.extra_attrs b.service_version name events
    pub count : b.num_rows ≡ length events
    pub ready : b.has_schema ≡ true
    pub size : b.estimated_bytes ≡ total_bytes b.extra_attrs b.service_version events

  pub reset-Holds : (b : Impl N) → b.has_schema ≡ true → Holds (reset lib b) []
  unfolding reset column_of total_bytes
  reset-Holds b ready = record {
    columns = λ name h.
        rw
          (reset_all-has lib law reset_order b.builders name
            (subst (λ order. has name order ≡ true) (sym reset_order-finish_order) h))
          refl;
    count = refl;
    ready = ready;
    size = refl;
  }

  column_of-append :
      (attrs : ExtraAttrs) (version : List ℕ) (name : String) (evs : List Event) (ev : Event)
      → column_of attrs version name (evs ++ ev ∷ [])
        ≡ column_of attrs version name evs ++ value_of name (values attrs version ev) ∷ []
  unfolding column_of
  column_of-append attrs version name [] ev = refl
  column_of-append attrs version name (e ∷ evs) ev =
      ap (◌∷◌ (value_of name (values attrs version e))) (column_of-append attrs version name evs ev)

  total_bytes-append :
      (attrs : ExtraAttrs) (version : List ℕ) (evs : List Event) (ev : Event)
      → total_bytes attrs version (evs ++ ev ∷ [])
        ≡ total_bytes attrs version evs + row_bytes attrs version ev
  unfolding total_bytes
  total_bytes-append attrs version [] ev = omega arith
  total_bytes-append attrs version (e ∷ evs) ev =
      omega (arith, total_bytes-append attrs version evs ev)

  value_of-has :
      (name : String) (vs : List (String × Value))
      → has name (names vs) ≡ true
      → (v : Value) × (value_of name vs ≡ some v)
  value_of-has name [] h = absurd (ground (arith, h))
  value_of-has name ((n, v) ∷ vs) h = elim (Bool-cases (n == name)) [
    | inl same ↦ (v, rw same refl)
    | inr other ↦ rw other (value_of-has name vs (ground (arith, other, h)))
  ]

  names-values :
      (attrs : ExtraAttrs) (version : List ℕ) (ev : Event)
      → (names (values attrs version ev) ≡ finish_order)
        × (distinct (names (values attrs version ev)) ≡ true)
  unfolding values finish_order
  names-values attrs version ev = (refl, refl)

  row-cells :
      (attrs : ExtraAttrs) (version : List ℕ) (events : List Event) (ev : Event) (name : String)
      (n : N)
      → (append_all lib (values attrs version ev) n).0 ≡ true
      → has name finish_order ≡ true
      → map some (cells n name) ≡ column_of attrs version name events
      → map some (cells (append_all lib (values attrs version ev) n).1 name)
        ≡ column_of attrs version name (events ++ ev ∷ [])
  row-cells attrs version events ev name n ok h before =
      let (order, single) = names-values attrs version ev in
      let vs = values attrs version ev in
      let (v, e) = value_of-has name vs (rw order h) in
      let after =
        subst (λ o. Extended lib law o (cells n name) (cells (append_all lib vs n).1 name)) e
          (append_all-cells lib law vs n name single ok) in
      ap (map some) after
      ∙ simp (map-append, before, column_of-append attrs version name events ev, e) refl

  pub append_event-Holds :
      (b : Impl N) (events : List Event) (ev : Event)
      → Holds b events
      → (append_event lib ev b).0 ≡ true
      → Holds (append_event lib ev b).1 (events ++ ev ∷ [])
  unfolding append_event
  append_event-Holds b events ev held ok =
      let vs = values b.extra_attrs b.service_version ev in
      elim (Bool-cases (append_all lib vs b.builders).0) [
        | inr failed ↦ absurd (ground (arith, failed, ok))
        | inl appended ↦
            rw (appended, append_event)
              (record {
                columns = λ name h.
                    row-cells b.extra_attrs b.service_version events ev name b.builders appended h
                      (held.columns name h);
                count = omega (arith, held.count, length-append events (ev ∷ []));
                ready = held.ready;
                size = omega (
                  arith,
                  held.size,
                  total_bytes-append b.extra_attrs b.service_version events ev,
                );
              })
      ]
