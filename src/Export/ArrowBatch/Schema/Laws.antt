-- ===== src/Export/ArrowBatch/Schema/Laws.antt =====
-- Each row has a value of the right type for each field of the schema, and prints are read back.
use Prim.Native.String.{String}
use text.Mathlib.Text.{◌==◌}
use pg_stat_ch_otel_backend.Base.{ℕ, ◌≡◌, refl, Bool, true, false, ◌&&◌, List, [], ◌∷◌, map}
use pg_stat_ch_otel_backend.Event.{Event}
use pg_stat_ch_otel_backend.Export.Rows.{Value, chars, int, uint}
use pg_stat_ch_otel_backend.Export.ArrowBatch.Attributes.{ExtraAttrs}
use pg_stat_ch_otel_backend.Export.ArrowBatch.Schema.{
  FieldType, timestamp, dictionary, utf8, int32, uint64, uint32, schema, finish_order, values,
}

-- What the builder of a field takes.
unfoldable pub accepts : FieldType → Value → Bool
accepts timestamp (int n) = true
accepts dictionary (chars s) = true
accepts utf8 (chars s) = true
accepts int32 (int n) = true
accepts uint64 (uint n) = true
accepts uint32 (uint n) = true
accepts _ _ = false

-- One value for each field, under its name and of its type.
unfoldable pub fits_schema : List (String × FieldType) → List (String × Value) → Bool
unfolding accepts
fits_schema [] [] = true
fits_schema ((name, t) ∷ fs) ((name', v) ∷ vs) = (name == name') && accepts t v && fits_schema fs vs
fits_schema _ _ = false

-- Append gives each field of the schema exactly one value, in their order and of the field's
-- type, and Finish takes the arrays in that order too.
pub values-fits_schema :
    (attrs : ExtraAttrs) (service_version : List ℕ) (ev : Event)
    → (fits_schema schema (values attrs service_version ev) ≡ true)
      × (finish_order ≡ map (λ f. f.0) schema)
      × (finish_order ≡ map (λ v. v.0) (values attrs service_version ev))
unfolding fits_schema schema values finish_order
values-fits_schema attrs service_version ev = (refl, refl, refl)
