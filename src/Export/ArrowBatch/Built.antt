-- ===== src/Export/ArrowBatch/Built.antt =====
-- A builder through its life: Init, rows, and Finish with Reset after each block.
use pg_stat_ch_otel_backend.Base.{
  ℕ, ◌≡◌, refl, subst, ◌∙◌, Bool, true, some, List, [], ◌∷◌, ◌++◌, arith,
}
use pg_stat_ch_otel_backend.Event.{Event}
use pg_stat_ch_otel_backend.Export.ArrowBatch.Attributes.{parse_extra_attributes}
use pg_stat_ch_otel_backend.Export.ArrowBatch.{
  Arrow, Impl, append_event, finish_block, finish, reset, init,
}
use pg_stat_ch_otel_backend.Export.ArrowBatch.Cells.{IsArrow}
use pg_stat_ch_otel_backend.Export.ArrowBatch.Holds.{Holds, reset-Holds, append_event-Holds}
use pg_stat_ch_otel_backend.Export.ArrowBatch.Blocks.{IsBlock, finish-IsBlock}

-- The settings of a builder, which only Init sets.
record Same {N : Type 0} (b b' : Impl N) : Type 0 where
  schema : b'.has_schema ≡ b.has_schema
  attrs : b'.extra_attrs ≡ b.extra_attrs
  version : b'.service_version ≡ b.service_version

module _ {N A : Type 0} (lib : Arrow N A) where
  -- The calls on a builder from `start` on, and the events appended since the last block. A failed
  -- append ends the batch, as in ExportEventsAsArrowInternal.
  pub data Built (start : Impl N) : List Event → Impl N → Type 0 where
    started : Built start [] start
    appended :
        (events : List Event) (b : Impl N) (ev : Event)
        → Built start events b
        → (append_event lib ev b).0 ≡ true
        → Built start (events ++ ev ∷ []) (append_event lib ev b).1
    flushed :
        (events : List Event) (b : Impl N)
        → Built start events b
        → Built start [] (reset lib (finish lib b).2)

  append_event-Same : (ev : Event) (b : Impl N) → Same b (append_event lib ev b).1
  unfolding append_event
  append_event-Same ev b = ground arith

  finish-Same : (b : Impl N) → Same b (reset lib (finish lib b).2)
  unfolding finish finish_block reset
  finish-Same b = ground arith

  Same-trans : (a b c : Impl N) → Same a b → Same b c → Same a c
  Same-trans a b c ab bc = record {
    schema = bc.schema ∙ ab.schema;
    attrs = bc.attrs ∙ ab.attrs;
    version = bc.version ∙ ab.version;
  }

  module _ (law : IsArrow lib) where
    Built-Holds :
        (start : Impl N) (events : List Event) (b : Impl N)
        → Holds lib law start []
        → Built start events b
        → Holds lib law b events × Same start b
    unfolding reset
    Built-Holds start _ _ h started = (h, record { schema = refl; attrs = refl; version = refl })
    Built-Holds start _ _ h (appended events b ev before ok) =
        let (held, same) = Built-Holds start events b h before in
        (
          append_event-Holds lib law b events ev held ok,
          Same-trans start b _ same (append_event-Same ev b),
        )
    Built-Holds start _ _ h (flushed events b before) =
        let (held, same) = Built-Holds start events b h before in
        let fin = finish-Same b in
        (
          reset-Holds lib law (finish lib b).2 (fin.schema ∙ held.ready),
          Same-trans start b _ same fin,
        )

    init-Holds :
        (isspace : ℕ → Bool) (extra_attrs service_version : List ℕ) (n : N)
        → Holds lib law (init lib isspace extra_attrs service_version n) []
    unfolding init
    init-Holds isspace extra_attrs service_version n =
        reset-Holds lib law
          (record {
            builders = n;
            has_schema = true;
            extra_attrs = parse_extra_attributes isspace extra_attrs;
            service_version = service_version;
            num_rows = 0;
            estimated_bytes = 0;
          })
          refl

    -- From Init on, through rows that Append took and blocks that were finished and reset, where
    -- Finish returns a buffer it has written one array for each column of the schema, in the
    -- schema's order, and each array holds the values of exactly the events appended since the
    -- last block, in their order, with the deployment's attributes that Init parsed; and the
    -- count of rows that Finish returns is the number of these events.
    pub Built-IsBlock :
        (isspace : ℕ → Bool) (extra_attrs service_version : List ℕ) (n : N) (events : List Event)
        (b : Impl N) (ipc : List ℕ)
        → Built (init lib isspace extra_attrs service_version n) events b
        → (finish lib b).0 ≡ some ipc
        → IsBlock lib law
            (parse_extra_attributes isspace extra_attrs)
            service_version
            events
            ipc
            (finish lib b).1
    unfolding init reset
    Built-IsBlock isspace extra_attrs service_version n events b ipc built e =
        let start = init lib isspace extra_attrs service_version n in
        let fresh = init-Holds isspace extra_attrs service_version n in
        let (held, same) = Built-Holds start events b fresh built in
        let rows = (finish lib b).1 in
        subst (λ a. IsBlock lib law a service_version events ipc rows) same.attrs
          (subst (λ v. IsBlock lib law b.extra_attrs v events ipc rows) same.version
            (finish-IsBlock lib law b events ipc held e))
