-- ===== src/Lib.antt =====
-- pg_stat_ch, the part that stands between a query and its export: a PostgreSQL backend turns
-- each query and error into an event, puts it into a ring in shared memory, and one background
-- worker takes the events out and exports them. The strings of a queued event live in a dynamic
-- shared memory area (DSA): error messages one by one, query texts shared through an interner.
--
-- Files:
--   Base          names, tests, lists and numbers that the others share
--   Event         src/queue/event.h, src/queue/ring_entry.h: the event, and the slot of the ring
--   Store         the area and the hash table as values, and `External`: what the code relies on of
--                 PostgreSQL (dsa_allocate, hash_any, dynahash) as operations with laws
--   Dsa           src/queue/psch_dsa.c: PschDsaAllocString, PschDsaResolveString; Dsa/Attach: the
--                 process's handle on the area
--   Intern        src/queue/query_intern.c: PschQueryInternAcquire, PschQueryInternResolveAndRelease
--                 and the functions below them (Intern/RoundTrip: the one after the other)
--   Ring          src/queue/shmem.c: TryEnqueueLocked, PschDequeueEvent and the overflow counter
--   Queue         the bounded queue of events that the ring stands for
--   Producer      src/queue/shmem.c, src/queue/local_batch.c: PschEnqueueEvent, PschEnqueueBatch and
--                 the batch of a backend that did not get the lock
--   Stats         src/queue/shmem.c, src/config/guc.c: setup, counters, reset, capacity check
--   Cache         src/hooks/query_normalize_state.c: the cache of normalized query texts
--                 (PschRememberNormalizedQuery, PschLookupNormalizedQuery), over a hash table that
--                 is a parameter
--   Normalize     src/hooks/query_normalize.c: PschNormalizeQuery (`Normalize.Laws.Segment` is a
--                 constant with the text before it), and FillInConstantLengths (Lengths)
--   Strings       src/hooks/string_utils.h: the copies that trim
--   Worker        src/worker/bgworker.c: CalculateSleepMs, ExportBatchWithRecovery, RunExportCycle,
--                 PschSignalFlush, over an exporter that is a parameter; Worker/Process: the stored
--                 process id from PschBgworkerMain to PschBgworkerShutdown, as steps of processes
--   Export        src/export/exporter_interface.h: an exporter as actions that may throw, and the
--                 contract that its callers rely on (Export/Contract, Export/Recorded)
--   Export/Rows, Export/Batch, Export/Fifo, Export/Retry
--                 src/export/stats_exporter.cc: the columns and rows, PschExportBatch with what it calls
--                 (Export/Batch/Cycle: with the worker around it), DequeueEvents, the retry delay
--   Export/ClickHouse
--                 src/export/clickhouse_exporter.cc: the columns (Block) and what they hold after a
--                 batch (Strings, Table, Held, Filled), the INSERT, CommitBatch, the connection
--   Export/OpenTelemetry
--                 src/export/otel_exporter.cc: the attributes of a log record (Record), the chunks and
--                 their limits (Bounds), CommitBatch (Settle), the connection
--   Export/ArrowBatch
--                 src/export/arrow_batch.cc: the attributes of the deployment (Attributes), the schema
--                 and the rows (Schema), the builder and its blocks (Cells, Holds, Blocks, Built)
--   Settings      src/config/guc.c: the table of PschInitGuc
--   Functions     src/pg_stat_ch.c, sql/pg_stat_ch--0.3.sql: the SQL functions
--   Hooks         src/hooks/hooks.c: the names of a session (Session), the text kept at parse time
--                 (Parse), the events (Build), which statements and errors are captured (Capture),
--                 the nesting of statements (Nesting)
--   Tests         an instance of `External`, test states, and the theorems at these
--
-- State and interaction. `Ring.Shared` is PschSharedState with the slots; its `store` holds the
-- area and the interner's table. `Producer.World` adds the variables of one process. Functions take
-- a state and return the next one. A lock is not a field: a function is what one process does while
-- it holds the lock, and where the code runs without it, what the other processes do in between is
-- an argument `others`, with the hypothesis (`IsFair`) that it keeps the ring valid. The worker is
-- the only consumer. Memory barriers are not modelled.
-- The worker's process id is the exception: `Worker.Process.Step` is one step of one process, so that
-- its runs are all interleavings.
--
-- Numbers. Unsigned machine integers are natural numbers with the wrap-around written out (`add64`,
-- `sub32`, `% 2 ^ 16`); a capacity is a power of two up to 2^31. A pointer into the area is a
-- number, 0 is the invalid one, and a chunk holds a message or an interned object. A string is its
-- bytes with the NUL, and a buffer of a struct what is written of it; the sizes of the buffers are
-- in the predicates on them (`Hooks.Session.Buffers.Within`). Recursion is structural, but for two
-- loops with fuel: the worker's drain loop, where more rounds than there are queued events are
-- enough (`Worker.Drain`), and the loop over the attributes of the deployment, where more than the
-- length of the input is enough (`Export.ArrowBatch.Attributes.Split`). RecvUntil has the bound of
-- the source, 4096 packets. A double of the statistics is the quotient of two whole numbers.
--
-- Parameters. clickhouse-c, OpenSSL and sockets are `Export.ClickHouse.Library`, whose `raises` says
-- which exception of C++ code, if any, ends a stage of CommitBatch; `Export.Batch.Settings.reserve`
-- says whether the vector of DequeueEvents finds its memory; gRPC and the OTLP client are
-- `Export.OpenTelemetry.Client`, and the Arrow library is `Export.ArrowBatch.Arrow`, with the
-- hypothesis `IsArrow` that its builders are separate and hold what was appended. The batch goes
-- over any `Export.Batch.Builder` that keeps `IsBuilder`, as the builder of Arrow batches does. What
-- a hook reads of PostgreSQL is `Hooks.Session.Postgres`; the lexer, `isspace` and `%d` are
-- `Hooks.Parse.Language`, and the lexer's tokens are related to a statement's constants by `Lexes`.
-- An exporter that keeps `IsExporter` can stand in PschExportBatch; both do. Producers that go on
-- while the worker dequeues are `others` again (`IsFeeding`: they only add events, at most `burst`
-- at a time).
--
-- Not modelled: the resource of a log request, which is calls of its library; _PG_init; the handlers
-- of signals; the locks' and the area's own implementation; errors that PostgreSQL raises out of a
-- locked section; exceptions of the exporters' own allocations while a batch is filled; and the
-- versions of PostgreSQL before 18.
pub mod Base
pub mod Event
pub mod Store
pub mod Dsa
pub mod Intern
pub mod Ring
pub mod Queue
pub mod Producer
pub mod Stats
pub mod Export
pub mod Settings
pub mod Hooks
pub mod Cache
pub mod Worker
pub mod Normalize
pub mod Strings
pub mod Functions
pub mod Tests
