-- ===== src/Export/ClickHouse.antt =====
-- src/export/clickhouse_exporter.cc: the columns of a batch, the INSERT, and the connection.
--
-- The operating system, OpenSSL and the library clickhouse-c are parameters, over a state `N` of
-- theirs, and so is what C++ code throws in CommitBatch (`Library.raises`). Exceptions out of BeginBatch
-- and the appends to the columns are left out, so are log lines and memory contexts, but for whether
-- they could be made.
pub mod Block
pub mod Strings
pub mod Table
pub mod Held
pub mod Filled
pub mod Laws
use Prim.Native.String.{String}
use pg_stat_ch_otel_backend.Base.{
  ℕ, zero, suc, ◌+◌, ⊤, Bool, true, false, not, Option, none, some, List, [], ◌∷◌, ◌++◌, map,
  length, if◌then◌else◌, ◌&&◌,
}
use pg_stat_ch_otel_backend.Export.{
  Exception, exception, Outcome, returned, thrown, Action, pure, World, Exporter, bytes,
  record_failure,
}
use pg_stat_ch_otel_backend.Export.Rows.{Value}
use pg_stat_ch_otel_backend.Export.ClickHouse.Block.{
  Column, Cells, fixed, strings, clear, make_col, append_value, build_insert_query,
}

-- `CHC_PKT_DATA`, `CHC_PKT_END_OF_STREAM`, and the other kinds but for exceptions
pub data PacketKind : Type 0 where
  data_packet end_of_stream other : PacketKind

abbrev pub same_kind : PacketKind → PacketKind → Bool
same_kind PacketKind.data_packet PacketKind.data_packet = true
same_kind PacketKind.end_of_stream PacketKind.end_of_stream = true
same_kind PacketKind.other PacketKind.other = true
same_kind _ _ = false

-- chc_client_recv_packet: an error with its message, an exception with its text if it has one, or
-- another packet
pub data Received : Type 0 where
  error : List ℕ → Received
  server_exception : Option (List ℕ) → Received
  packet : PacketKind → Received

-- The parts of CommitBatch whose C++ code may throw: EstablishNewConnection, the loop of Crunch, and
-- SendInsert with the strings that it builds.
pub data Stage : Type 0 where
  connecting building inserting : Stage

-- A call that can fail answers none for CHC_OK, and else its message. `raises` is the exception that
-- ends a stage, if one does, with what was done on the network until then.
pub record Library (N : Type 0) : Type 0 where
  pub raises : Stage → N → Option Exception × N
  pub create_contexts : N → Bool × N
  pub tcp_connect : N → Bool × N
  pub tls_connect : N → Bool × N
  pub client_init : N → Bool × N
  pub close : N → N
  pub builder_init : N → Option (List ℕ) × N
  pub append_fixed : String → String → List Value → N → Option (List ℕ) × N
  pub append_string : String → List ℕ → List ℕ → N → Option (List ℕ) × N
  pub send_query : List ℕ → N → Option (List ℕ) × N
  -- the block of the builder, or the empty one at the end
  pub send_block : N → Option (List ℕ) × N
  pub send_terminator : N → Option (List ℕ) × N
  pub recv_packet : N → Received × N

-- ClickHouseExporter
pub record ClickHouse (N : Type 0) : Type 0 where
  pub network : N
  pub contexts_ready : Bool
  pub has_client : Bool
  pub columns : List Column
  pub consecutive_failures : ℕ
  pub exported_count : ℕ

-- BeginBatch
unfoldable pub begin_batch : {N : Type 0} → ClickHouse N → ClickHouse N
unfolding clear
begin_batch x = record x {
  columns = map (λ (c : Column). record c { cells = clear c.cells }) x.columns;
  exported_count = 0;
}

-- kMaxRecvPackets
abbrev pub max_recv_packets : ℕ
max_recv_packets = 4096

-- `err.msg[0] ? err.msg : text`
abbrev pub message_or : List ℕ → List ℕ → List ℕ
message_or text [] = text
message_or text (c ∷ cs) = c ∷ cs

abbrev pub or_message : List ℕ → Option (List ℕ) → Option (List ℕ)
or_message text none = none
or_message text (some msg) = some (message_or text msg)

-- The text of the catch clauses of CommitBatch
abbrev pub caught_text : Exception → List ℕ
caught_text Exception.bad_alloc = bytes "out of memory"
caught_text (exception what) = what

module _ {N : Type 0} (lib : Library N) where
  -- The loop of RecvUntil, for `n` more packets; none where it returns true, and else `err_out`.
  unfoldable pub recv_until : PacketKind → ℕ → N → Option (List ℕ) × N
  recv_until target zero net = (some (bytes "too many packets awaiting response"), net)
  recv_until target (suc n) net =
      let (answer, net') = lib.recv_packet net in
      let rest = recv_until target n net' in
      elim answer [
        | error msg ↦ (some (message_or (bytes "recv_packet failed") msg), net')
        | server_exception none ↦ (some (bytes "server exception"), net')
        | server_exception (some text) ↦ (some text, net')
        | packet kind ↦ if same_kind kind target then (none, net') else rest
      ]

  -- One call of the library after another, until one fails.
  abbrev pub and_then : Option (List ℕ) × N → (N → Option (List ℕ) × N) → Option (List ℕ) × N
  and_then (none, net) f = f net
  and_then (some msg, net) f = (some msg, net)

  abbrev pub with_message : List ℕ → Option (List ℕ) × N → Option (List ℕ) × N
  with_message text (r, net) = (or_message text r, net)

  -- SendInsert
  unfoldable pub send_insert : List Column → N → Option (List ℕ) × N
  unfolding recv_until build_insert_query
  send_insert cs net =
      and_then
        (and_then
          (and_then
            (and_then
              (with_message (bytes "send_query failed")
                (lib.send_query (build_insert_query cs) net))
              (recv_until PacketKind.data_packet max_recv_packets))
            (λ net1. with_message (bytes "send_data failed") (lib.send_block net1)))
          (λ net2. with_message (bytes "send_data terminator failed") (lib.send_terminator net2)))
        (recv_until PacketKind.end_of_stream max_recv_packets)

  -- Crunch of a column: AppendFixed (the type is parsed by the library) or AppendString
  unfoldable pub crunch : Column → N → Option (List ℕ) × N
  crunch c net = elim c.cells [
    | fixed type_name vs ↦ lib.append_fixed c.name type_name vs net
    | strings bytes offsets ↦ lib.append_string c.name offsets bytes net
  ]

  -- The loop over the columns: `build_err_` stays at the first error.
  unfoldable pub crunch_all : List Column → N → Option (List ℕ) × N
  unfolding crunch
  crunch_all [] net = (none, net)
  crunch_all (c ∷ cs) net = and_then (crunch c net) (crunch_all cs)

  -- EnsureMemoryContexts
  unfoldable pub ensure_memory_contexts : ClickHouse N → Bool × ClickHouse N
  ensure_memory_contexts x =
      if x.contexts_ready
      then (true, x)
      else (let (made, net) = lib.create_contexts x.network in
          (made, record x { contexts_ready = made; network = net }))

  -- CloseConnection
  unfoldable pub close_connection : ClickHouse N → ClickHouse N
  close_connection x = record x { has_client = false; network = lib.close x.network }

  -- EstablishNewConnection after CloseConnection, with the setting `psch_clickhouse_use_tls`
  unfoldable pub dial : Bool → ClickHouse N → Bool × ClickHouse N
  unfolding close_connection
  dial use_tls x =
      let (reached, net1) = lib.tcp_connect x.network in
      let (secured, net2) = if use_tls then lib.tls_connect net1 else (true, net1) in
      let (opened, net3) = lib.client_init net2 in
      if not reached
      then (false, record x { network = net1 })
      else (if not secured
          then (false, close_connection (record x { network = net2 }))
          else (if opened
              then (true, record x { network = net3; has_client = true })
              else (false, close_connection (record x { network = net3 }))))

  -- EstablishNewConnection
  unfoldable pub establish_new_connection : Bool → ClickHouse N → Bool × ClickHouse N
  unfolding ensure_memory_contexts close_connection dial
  establish_new_connection use_tls x =
      let (ready, x1) = ensure_memory_contexts x in
      if ready then dial use_tls (close_connection x1) else (false, x1)

  module _ {T : Type 0} where
    -- RecordFailure
    unfoldable pub fail : List ℕ → Bool → World T (ClickHouse N) → Bool × World T (ClickHouse N)
    unfolding record_failure close_connection
    fail msg close_conn w =
        let x = w.exporter in
        let x1 = record x { consecutive_failures = x.consecutive_failures + 1 } in
        (
          false,
          record_failure msg
              (record w { exporter = if close_conn then close_connection x1 else x1 }),
        )

    -- A stage of CommitBatch, with the catch clauses around it.
    unfoldable pub attempt :
        Stage
        → (World T (ClickHouse N) → Bool × World T (ClickHouse N))
        → World T (ClickHouse N)
        → Bool × World T (ClickHouse N)
    unfolding fail
    attempt stage run w =
        let (raised, net) = lib.raises stage w.exporter.network in
        elim raised [
          | none ↦ run w
          | some x ↦
              fail (caught_text x) true
                (record w { exporter = record w.exporter { network = net } })
        ]

    -- SendInsert and what follows it in CommitBatch
    unfoldable pub insert_block : World T (ClickHouse N) → Bool × World T (ClickHouse N)
    unfolding fail send_insert
    insert_block w =
        let x = w.exporter in
        let (sent, net) = send_insert x.columns x.network in
        elim sent [
          | some emsg ↦ fail emsg true (record w { exporter = record x { network = net } })
          | none ↦
              (true, record w { exporter = record x { network = net; consecutive_failures = 0 } })
        ]

    -- The loop of Crunch and what follows it in CommitBatch
    unfoldable pub build_block : World T (ClickHouse N) → Bool × World T (ClickHouse N)
    unfolding fail crunch_all attempt insert_block
    build_block w =
        let x = w.exporter in
        let (build_err, net) = crunch_all x.columns x.network in
        let w1 : World T (ClickHouse N) = record w { exporter = record x { network = net } } in
        elim build_err [
          | some msg ↦ fail (message_or (bytes "block build failed") msg) false w1
          | none ↦ attempt inserting insert_block w1
        ]

    -- What CommitBatch does once there is a client.
    unfoldable pub insert_columns : World T (ClickHouse N) → Bool × World T (ClickHouse N)
    unfolding attempt build_block
    insert_columns w = attempt building build_block w

    -- The client is made where there is none.
    unfoldable pub with_client : Bool → World T (ClickHouse N) → Bool × World T (ClickHouse N)
    unfolding fail establish_new_connection insert_columns
    with_client use_tls w =
        let (connected, x) = establish_new_connection use_tls w.exporter in
        let w1 : World T (ClickHouse N) = record w { exporter = x } in
        if connected && x.has_client
        then insert_columns w1
        else fail (bytes "connection not established") false w1

    -- CommitBatch
    unfoldable pub commit_batch : Bool → World T (ClickHouse N) → Bool × World T (ClickHouse N)
    unfolding fail attempt with_client insert_columns
    commit_batch use_tls w =
        if not w.exporter.contexts_ready
        then fail (bytes "allocator not initialized") false w
        else (let (init_err, net) = lib.builder_init w.exporter.network in
            let w1 : World T (ClickHouse N) = record w {
              exporter = record w.exporter { network = net };
            } in
            elim init_err [
              | some msg ↦ fail (message_or (bytes "OOM") msg) false w1
              | none ↦
                  if w1.exporter.has_client
                  then insert_columns w1
                  else attempt connecting (with_client use_tls) w1
            ])

    -- ClickHouseExporter as a StatsExporter; `SendArrowBatch` is the one of the interface.
    unfoldable pub clickhouse : Bool → Exporter T (ClickHouse N)
    unfolding commit_batch begin_batch make_col append_value establish_new_connection
    clickhouse use_tls = record {
      is_connected = λ x. x.has_client;
      establish_new_connection = λ w.
          let (opened, x) = establish_new_connection use_tls w.exporter in
          (returned opened, record w { exporter = x });
      begin_batch = λ w. (returned tt, record w { exporter = begin_batch w.exporter });
      add_column = λ (name, kind) w. elim (make_col name kind w.exporter.columns) [
        | some cs ↦ (returned tt, record w { exporter = record w.exporter { columns = cs } })
        | none ↦ (
          thrown (
              exception (
                bytes "ClickHouse column `"
                ++ bytes name
                ++ bytes "` requested with incompatible type")),
          w,
        )
      ];
      begin_row = λ w. (
        returned tt,
        record w {
          exporter = record w.exporter { exported_count = w.exporter.exported_count + 1 };
        },
      );
      append = λ (name, v) w. (
        returned tt,
        record w {
          exporter = record w.exporter { columns = append_value name v w.exporter.columns };
        },
      );
      commit_batch = λ w. let (ok, w') = commit_batch use_tls w in (returned ok, w');
      send_arrow_batch = λ ipc len rows w. (returned false, w);
      num_exported = λ x. x.exported_count;
      num_consecutive_failures = λ x. x.consecutive_failures;
      reset_failures = λ x. record x { consecutive_failures = 0 };
    }
