-- ===== src/Export/Batch.antt =====
-- src/export/stats_exporter.cc: the batch that the worker exports, from the ring through an exporter.
-- Log lines, and the dump of batches for debugging, are left out.
pub mod Accounted
pub mod Laws
pub mod Arrow
pub mod Cycle
use Prim.Native.String.{String}
use pg_stat_ch_otel_backend.Base.{
  ℕ, zero, suc, ⊤, Bool, true, false, Option, none, some, List, [], ◌∷◌, length, max, leb, ltb, not,
  ◌==◌, ◌&&◌, ◌+◌, if◌then◌else◌,
}
use pg_stat_ch_otel_backend.Event.{Event}
use pg_stat_ch_otel_backend.Store.{External}
use pg_stat_ch_otel_backend.Dsa.{add64}
use pg_stat_ch_otel_backend.Ring.{Shared, dequeue_event}
use pg_stat_ch_otel_backend.Stats.{record_export_success}
use pg_stat_ch_otel_backend.Export.{
  Exception, bad_alloc, exception, Outcome, returned, thrown, Action, pure, done, modify, ◌>>=◌,
  ◌>>◌, each, World, Exporter, bytes, record_failure,
}
use pg_stat_ch_otel_backend.Export.Rows.{columns, row}

-- The settings that the export reads, and whether the heap has room for the vector of a batch:
-- what `events.reserve` does for that many events at a time of the clock.
pub record Settings : Type 0 where
  pub reserve : ℕ → ℕ → Outcome ⊤
  pub batch_max : ℕ
  pub use_otel : Bool
  pub arrow_passthrough : Bool
  pub max_block_bytes : ℕ

-- ArrowBatchBuilder of src/export/arrow_batch.h, with its state `B`. `init` gives the builder after
-- Init, or none where that fails; `finish` gives the buffer (none for null) and the count of rows.
pub record Builder (B : Type 0) : Type 0 where
  pub init : Outcome (Option B)
  pub append_event : Event → B → Outcome (Bool × B)
  pub estimated_bytes : B → ℕ
  pub num_rows : B → ℕ
  pub finish : B → Outcome (Option (List ℕ) × ℕ × B)
  pub reset : B → B

-- The message that is recorded for an exception.
abbrev pub failure_text : List ℕ → Exception → List ℕ
failure_text oom bad_alloc = oom
failure_text oom (exception what) = what

-- `pg_atomic_fetch_add_u64(&psch_shared_state->exported, n)` and PschRecordExportSuccess
unfoldable pub record_success : {T X : Type 0} → ℕ → World T X → World T X
record_success n w = record w {
  shared =
      record_export_success w.time (elim w.shared [
        | none ↦ none
        | some s ↦ some (record s { exported = add64 s.exported n })
      ]);
}

-- A function's body within a barrier that records the exception and answers with `a`.
abbrev pub barrier :
    {T X A : Type 0} → List ℕ → A → Action (World T X) A → World T X → A × World T X
barrier oom a body w =
    let (r, w') = body w in
    elim r [ returned b ↦ (b, w') | thrown x ↦ (a, record_failure (failure_text oom x) w') ]

module _ {T : Type 0} (ext : External T) (others : Shared T → Shared T) where
  -- PschDequeueEvent, after what the producers did since the last call (`others`)
  unfoldable pub dequeue_next : Option (Shared T) → Option Event × Option (Shared T)
  dequeue_next none = (none, none)
  dequeue_next (some s) = let (event, s') = dequeue_event ext (others s) in (event, some s')

  -- The loop of DequeueEvents
  unfoldable pub dequeue_loop : ℕ → Option (Shared T) → List Event × Option (Shared T)
  unfolding dequeue_next
  dequeue_loop zero s = ([], s)
  dequeue_loop (suc max_events) s =
      let (event, s1) = dequeue_next s in
      let (events, s2) = dequeue_loop max_events s1 in
      elim event [ none ↦ ([], s1) | some e ↦ (e ∷ events, s2) ]

module _ {T X : Type 0} (exporter : Exporter T X) where
  -- ExportEventStatsInternal
  unfoldable pub export_event_stats_internal : List Event → Action (World T X) ⊤
  unfolding row columns
  export_event_stats_internal events = do
    exporter.begin_batch
    each exporter.add_column columns
    each (λ ev. exporter.begin_row >> each exporter.append (row ev)) events

  -- ExportEventStats
  unfoldable pub export_event_stats : List Event → World T X → Bool × World T X
  unfolding export_event_stats_internal
  export_event_stats events =
      barrier (bytes "event stats OOM") false (export_event_stats_internal events >> pure true)

  -- CommitBatch and what follows it in PschExportBatch
  unfoldable pub commit : Action (World T X) ℕ
  commit = exporter.commit_batch >>= λ committed.
      modify (λ w. if committed then record_success (exporter.num_exported w.exporter) w else w)
      >> λ w. (returned (exporter.num_exported w.exporter), w)

  module _ {B : Type 0} (builder : Builder B) (max_block_bytes : ℕ) where
    -- `flush_builder`: none where it returns false, and else the rows sent and the builder.
    unfoldable pub flush_builder : B → Action (World T X) (Option (ℕ × B))
    flush_builder b = done (builder.finish b) >>= λ (buffer, rows, b'). elim buffer [
      | none ↦ pure none
      | some ipc ↦
          if rows == 0
          then pure none
          else (exporter.send_arrow_batch ipc (length ipc) rows >>= λ sent.
              pure (if sent then some (rows, b') else none))
    ]

    -- The loop of ExportEventsAsArrowInternal: `export_failed`, `total_exported` and the builder.
    unfoldable pub append_events : List Event → ℕ → B → Action (World T X) (Bool × ℕ × B)
    unfolding flush_builder
    append_events [] total b = pure (false, total, b)
    append_events (event ∷ events) total b =
        done (builder.append_event event b) >>= λ (appended, b1).
        if not appended
        then pure (true, total, b1)
        else (if leb max_block_bytes (builder.estimated_bytes b1)
            then (flush_builder b1 >>= λ flushed. elim flushed [
              | none ↦ pure (true, total, b1)
              | some (rows, b2) ↦ append_events events (total + rows) (builder.reset b2)
            ])
            else append_events events total b1)

    -- What follows the loop: the rest is flushed.
    unfoldable pub flush_rest : Bool × ℕ × B → Action (World T X) (Bool × ℕ)
    unfolding flush_builder
    flush_rest (export_failed, total, b) =
        if not export_failed && ltb 0 (builder.num_rows b)
        then (flush_builder b >>= λ flushed. elim flushed [
          | none ↦ pure (true, total)
          | some (rows, b') ↦ pure (false, total + rows)
        ])
        else pure (export_failed, total)

    -- The loop and the last flush: `export_failed` and `total_exported`
    unfoldable pub send_blocks : List Event → B → Action (World T X) (Bool × ℕ)
    unfolding append_events flush_rest
    send_blocks events b = append_events events 0 b >>= flush_rest

    -- ExportEventsAsArrowInternal
    unfoldable pub export_events_as_arrow_internal : List Event → Action (World T X) ℕ
    unfolding send_blocks
    export_events_as_arrow_internal events = done builder.init >>= λ made. elim made [
      | none ↦ modify (record_failure (bytes "Arrow batch builder init failed")) >> pure 0
      | some b ↦ send_blocks events b >>= λ (export_failed, total).
          modify (λ w.
            if export_failed
            then record_failure (bytes "Arrow batch build/send failed") w
            else (if ltb 0 total then record_success total w else w))
          >> pure total
    ]

    -- ExportEventsAsArrow
    unfoldable pub export_events_as_arrow : List Event → World T X → ℕ × World T X
    unfolding export_events_as_arrow_internal
    export_events_as_arrow events =
        barrier (bytes "Arrow export OOM") 0 (export_events_as_arrow_internal events)

  module _ {B : Type 0} (ext : External T) (others : Shared T → Shared T) (builder : Builder B)
      (cfg : Settings) where
    -- What PschExportBatch does with the events it took out of the ring.
    unfoldable pub export_events : List Event → Action (World T X) ℕ
    unfolding export_events_as_arrow export_event_stats commit
    export_events [] w = (returned 0, w)
    export_events (event ∷ events) w =
        if cfg.use_otel && cfg.arrow_passthrough
        then (let (n, w') =
              export_events_as_arrow builder (max 65536 cfg.max_block_bytes) (event ∷ events) w in
            (returned n, w'))
        else (let (built, w1) = export_event_stats (event ∷ events) w in
            let committed = commit w1 in if built then committed else (returned 0, w1))

    -- The connection is there, or could be made.
    unfoldable pub connect : Action (World T X) Bool
    connect w =
        if exporter.is_connected w.exporter
        then (returned true, w)
        else exporter.establish_new_connection w

    -- DequeueEvents
    unfoldable pub dequeue_events : ℕ → Action (World T X) (List Event)
    dequeue_events max_events w = elim (cfg.reserve max_events w.time) [
      | thrown x ↦ (thrown x, w)
      | returned _ ↦
          let (events, s') = dequeue_loop ext others max_events w.shared in
          (returned events, record w { shared = s' })
    ]

    -- The body of PschExportBatch
    unfoldable pub export_body : Action (World T X) ℕ
    unfolding export_events connect dequeue_events
    export_body = connect >>= λ connected.
        if connected
        then dequeue_events cfg.batch_max >>= export_events
        else modify (record_failure (bytes "Failed to connect to exporter backend")) >> pure 0

    -- PschExportBatch
    unfoldable pub export_batch : World T X → ℕ × World T X
    unfolding export_body
    export_batch = barrier (bytes "export batch OOM") 0 export_body
