-- ===== src/Export.antt =====
-- src/export/exporter_interface.h and the barriers against exceptions of src/export/stats_exporter.cc:
-- what the code calls on an exporter, as actions that may throw, and what its callers rely on.
pub mod Rows
pub mod Recorded
pub mod Contract
pub mod Retry
pub mod Batch
pub mod Fifo
pub mod ClickHouse
pub mod OpenTelemetry
pub mod ArrowBatch
use Prim.Native.Char.{code}
use Prim.Native.String.{String}
use pg_stat_ch_otel_backend.Base.{ℕ, ⊤, Bool, Option, none, some, List, [], ◌∷◌}
use pg_stat_ch_otel_backend.Ring.{Shared}
use pg_stat_ch_otel_backend.Stats.{record_export_failure}
use pg_stat_ch_otel_backend.Export.Rows.{Kind, Value}

-- The bytes of a text in ASCII.
abbrev pub bytes : String → List ℕ
bytes String.[] = []
bytes (String.◌∷◌ c s) = code c ∷ bytes s

-- `std::bad_alloc`, or another exception with its `what()`
pub data Exception : Type 0 where
  bad_alloc : Exception
  exception : List ℕ → Exception

pub data Outcome (A : Type 0) : Type 0 where
  returned : A → Outcome A
  thrown : Exception → Outcome A

-- What a call does to the state `W`; an exception undoes nothing.
abbrev pub Action : Type 0 → Type 0 → Type 0
Action W A = W → Outcome A × W

module _ {W : Type 0} where
  abbrev pub pure : {A : Type 0} → A → Action W A
  pure a w = (returned a, w)

  abbrev pub done : {A : Type 0} → Outcome A → Action W A
  done r w = (r, w)

  abbrev pub modify : (W → W) → Action W ⊤
  modify f w = (returned tt, f w)

  infixl 5 ◌>>=◌ ◌>>◌
  abbrev pub ◌>>=◌ : {A B : Type 0} → Action W A → (A → Action W B) → Action W B
  ◌>>=◌ m f w = let (r, w') = m w in elim r [ returned a ↦ f a w' | thrown x ↦ (thrown x, w') ]

  abbrev pub ◌>>◌ : {A B : Type 0} → Action W A → Action W B → Action W B
  m >> k = m >>= λ _. k

  abbrev pub each : {B : Type 0} → (B → Action W ⊤) → List B → Action W ⊤
  each f [] = pure tt
  each f (b ∷ bs) = do f b; each f bs

-- `psch_shared_state` (none for NULL), `g_exporter.exporter`, and the clock.
pub record World (T X : Type 0) : Type 0 where
  pub shared : Option (Shared T)
  pub exporter : X
  pub time : ℕ

-- StatsExporter, with the state `X` of an exporter. The calls of factories are `add_column`, and the
-- calls of `Append` name the column.
pub record Exporter (T X : Type 0) : Type 0 where
  pub is_connected : X → Bool
  pub establish_new_connection : Action (World T X) Bool
  pub begin_batch : Action (World T X) ⊤
  pub add_column : String × Kind → Action (World T X) ⊤
  pub begin_row : Action (World T X) ⊤
  pub append : String × Value → Action (World T X) ⊤
  pub commit_batch : Action (World T X) Bool
  pub send_arrow_batch : List ℕ → ℕ → ℕ → Action (World T X) Bool
  pub num_exported : X → ℕ
  pub num_consecutive_failures : X → ℕ
  pub reset_failures : X → X

-- RecordExporterFailure
unfoldable pub record_failure : {T X : Type 0} → List ℕ → World T X → World T X
record_failure msg w = record w { shared = record_export_failure w.time (some msg) w.shared }
