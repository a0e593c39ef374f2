-- ===== src/Export/ArrowBatch.antt =====
-- src/export/arrow_batch.cc: a batch of events as one block of the Arrow IPC format.
--
-- The Arrow library is a parameter, over a state `N` of its builders, its sink and its writer, with a
-- type `A` of arrays. Exceptions of the builder's own allocations and log lines are left out;
-- `estimated_bytes` stays below 2^64 and `num_rows` below 2^31.
pub mod Attributes
pub mod Schema
pub mod Laws
pub mod Cells
pub mod Holds
pub mod Blocks
pub mod Built
use Prim.Native.String.{String}
use pg_stat_ch_otel_backend.Base.{
  ℕ, ◌+◌, Bool, true, false, not, Option, none, some, List, [], ◌∷◌, leb, ◌||◌, if◌then◌else◌,
}
use pg_stat_ch_otel_backend.Event.{Event}
use pg_stat_ch_otel_backend.Export.{returned}
use pg_stat_ch_otel_backend.Export.Rows.{Value}
use pg_stat_ch_otel_backend.Export.Batch.{Builder}
use pg_stat_ch_otel_backend.Export.ArrowBatch.Attributes.{ExtraAttrs, parse_extra_attributes}
use pg_stat_ch_otel_backend.Export.ArrowBatch.Schema.{finish_order, reset_order, values, row_bytes}

-- A call that can fail answers whether its status is ok, or none where it is not. The builders are
-- named by their columns.
pub record Arrow (N A : Type 0) : Type 0 where
  pub append : String → Value → N → Bool × N
  pub reset : String → N → N
  pub finish : String → N → Option A × N
  pub create_sink : N → Bool × N
  pub create_codec : N → Bool × N
  pub make_stream_writer : N → Bool × N
  -- a record batch of so many rows with these arrays
  pub write_record_batch : ℕ → List A → N → Bool × N
  pub close_writer : N → Bool × N
  pub finish_sink : N → Option (List ℕ) × N

-- ArrowBatchBuilder::Impl; `has_schema` is that `schema` is not null.
pub record Impl (N : Type 0) : Type 0 where
  pub builders : N
  pub has_schema : Bool
  pub extra_attrs : ExtraAttrs
  pub service_version : List ℕ
  pub num_rows : ℕ
  pub estimated_bytes : ℕ

-- kIpcEnvelopeBytes
abbrev pub ipc_envelope_bytes : ℕ
ipc_envelope_bytes = 1024

module _ {N A : Type 0} (lib : Arrow N A) where
  -- AppendScalar and AppendString of one value after another, until one fails.
  unfoldable pub append_all : List (String × Value) → N → Bool × N
  append_all [] n = (true, n)
  append_all ((name, v) ∷ vs) n =
      let (ok, n') = lib.append name v n in
      let rest = append_all vs n' in if ok then rest else (false, n')

  -- FinishArray and FinishDictionaryArray of one builder after another, until one fails.
  unfoldable pub finish_all : List String → N → Option (List A) × N
  finish_all [] n = (some [], n)
  finish_all (name ∷ names) n =
      let (array, n1) = lib.finish name n in
      let (arrays, n2) = finish_all names n1 in
      elim array [
        | none ↦ (none, n1)
        | some a ↦ elim arrays [ none ↦ (none, n2) | some cs ↦ (some (a ∷ cs), n2) ]
      ]

  unfoldable pub reset_all : List String → N → N
  reset_all [] n = n
  reset_all (name ∷ names) n = reset_all names (lib.reset name n)

  -- A call of the library, and what follows unless it fails.
  abbrev pub and_then : Bool × N → (N → Option (List ℕ) × N) → Option (List ℕ) × N
  and_then (true, n) f = f n
  and_then (false, n) f = (none, n)

  -- What Finish does with the arrays: the buffer, or none where a call fails.
  unfoldable pub write_block : ℕ → List A → N → Option (List ℕ) × N
  write_block rows arrays n = and_then (lib.create_sink n) (λ n1.
      and_then (lib.create_codec n1) (λ n2. and_then (lib.make_stream_writer n2) (λ n3.
        and_then (lib.write_record_batch rows arrays n3)
          (λ n4. and_then (lib.close_writer n4) lib.finish_sink))))

  -- Append
  unfoldable pub append_event : Event → Impl N → Bool × Impl N
  append_event ev b =
      let (ok, n) = append_all (values b.extra_attrs b.service_version ev) b.builders in
      if ok
      then (
        true,
        record b {
          builders = n;
          estimated_bytes = b.estimated_bytes + row_bytes b.extra_attrs b.service_version ev;
          num_rows = b.num_rows + 1;
        },
      )
      else (false, record b { builders = n })

  -- The end of Finish, from the arrays on
  unfoldable pub finish_block : List A → N → Impl N → Option (List ℕ) × ℕ × Impl N
  finish_block columns n b =
      let (buffer, n') = write_block b.num_rows columns n in
      elim buffer [
        | none ↦ (none, 0, record b { builders = n' })
        | some ipc ↦ (some ipc, b.num_rows, record b { builders = n' })
      ]

  -- Finish
  unfoldable pub finish : Impl N → Option (List ℕ) × ℕ × Impl N
  unfolding finish_block
  finish b =
      let (arrays, n) = finish_all finish_order b.builders in
      if leb b.num_rows 0 || not b.has_schema then (none, b.num_rows, b) else elim arrays [
        | none ↦ (none, 0, record b { builders = n })
        | some columns ↦ finish_block columns n b
      ]

  -- Reset
  unfoldable pub reset : Impl N → Impl N
  unfolding reset_all
  reset b = record b {
    builders = reset_all reset_order b.builders;
    num_rows = 0;
    estimated_bytes = ipc_envelope_bytes;
  }

  -- Init of a new builder, which always returns true
  unfoldable pub init : (ℕ → Bool) → List ℕ → List ℕ → N → Impl N
  unfolding reset
  init isspace extra_attrs_input service_version_input n = reset (record {
    builders = n;
    has_schema = true;
    extra_attrs = parse_extra_attributes isspace extra_attrs_input;
    service_version = service_version_input;
    num_rows = 0;
    estimated_bytes = 0;
  })

  -- ArrowBatchBuilder, as PschExportBatch uses it
  unfoldable pub arrow_builder : (ℕ → Bool) → List ℕ → List ℕ → N → Builder (Impl N)
  arrow_builder isspace extra_attrs_input service_version_input n = record {
    init = returned (some (init isspace extra_attrs_input service_version_input n));
    append_event = λ ev b. returned (append_event ev b);
    estimated_bytes = λ b. b.estimated_bytes;
    num_rows = λ b. b.num_rows;
    finish = λ b. returned (finish b);
    reset = reset;
  }
