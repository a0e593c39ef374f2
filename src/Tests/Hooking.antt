-- ===== src/Tests/Hooking.antt =====
-- A session, a query and an error, and the theorems on the hooks at these.
use pg_stat_ch_otel_backend.Base.{
  ℕ, ◌<◌, ◌≡◌, refl, subst, Bool, true, false, none, some, not, ◌||◌, List, [], ◌∷◌, ◌++◌, ◌==◌,
  if◌then◌else◌, arith,
}
use pg_stat_ch_otel_backend.Base.Int.{pos}
use pg_stat_ch_otel_backend.Ring.{zero_slot}
use pg_stat_ch_otel_backend.Cache.{Cache, CacheEntry}
use pg_stat_ch_otel_backend.Hooks.Session.{Postgres, BackendState}
use pg_stat_ch_otel_backend.Hooks.Session.Buffers.{Within}
use pg_stat_ch_otel_backend.Hooks.Session.Laws.{IsSound}
use pg_stat_ch_otel_backend.Hooks.Build.{
  Sampling, PgCmd, QueryDesc, ErrorData, build_event_from_query_desc,
}
use pg_stat_ch_otel_backend.Hooks.Build.Ready.{IsReady}
use pg_stat_ch_otel_backend.Hooks.Build.Laws.{IsStocked, build_event_from_query_desc-IsReady}
use pg_stat_ch_otel_backend.Hooks.Nesting.{
  Nest, Statements, query, utility, none_left, first, execute,
}
use pg_stat_ch_otel_backend.Hooks.Nesting.Laws.{
  any_starts, none_true, execute-top_level, execute-balanced,
}
use pg_stat_ch_otel_backend.Hooks.Capture.{Local, Process, executor_end, emit_log_hook}
use pg_stat_ch_otel_backend.Hooks.Capture.Laws.{IsIntact, emit_log_hook_lem, executor_end-IsIntact}
use pg_stat_ch_otel_backend.Tests.Caching.{Texts, table}
use pg_stat_ch_otel_backend.Tests.{
  Table, postgres, settings, nobody, nobody-IsFair, world, world-IsKept,
}

abbrev the_text : CacheEntry
the_text = record { normalized_query = 83 ∷ 0 ∷ []; normalized_len = 1 }

abbrev texts : Cache Texts
texts = record {
  ready = true;
  htab = λ k. if k == 7 then some the_text else none;
  lru = 7 ∷ [];
  max_entries = 4;
}

the_text-Within : Within 2048 (the_text.normalized_query, the_text.normalized_len)
the_text-Within = (omega arith, refl)

texts-IsStocked : IsStocked table texts
texts-IsStocked k e found =
    subst {A = CacheEntry} (λ d. Within 2048 (d.normalized_query, d.normalized_len)) {x = the_text}
      (ground (arith, found)) the_text-Within

abbrev isspace : ℕ → Bool
isspace c = c == 32

abbrev pg : Postgres
pg = record {
  my_database_id = 5;
  user_id = 10;
  my_proc_pid = 4242;
  transaction_state = true;
  database_name = λ oid. some (100 ∷ 98 ∷ []);
  user_name = λ oid. none;
  application_name = some (32 ∷ 112 ∷ []);
  remote_host = none;
}

abbrev fresh : BackendState
fresh = record {
  initialized = false;
  datname = 0 ∷ [];
  datname_len = 0;
  cached_userid = 0;
  username = 0 ∷ [];
  username_len = 0;
  client_addr = 0 ∷ [];
  client_addr_len = 0;
}

fresh-IsSound : IsSound fresh
fresh-IsSound = record {
  datname_fits = (omega arith, refl);
  username_fits = (omega arith, refl);
  client_addr_fits = (omega arith, refl);
}

abbrev desc : QueryDesc
desc = record {
  operation = PgCmd.cmd_select;
  query_id = 7;
  processed = 3;
  totaltime = some (
    1500,
    record {
      buffers = zero_slot.prefix.buffers;
      io = zero_slot.prefix.io;
      wal = zero_slot.prefix.wal;
    },
  );
  jit = none;
  workers_to_launch = 0;
  workers_launched = 0;
}

build_event_from_query_desc-IsReady_example :
    let (event, b, cache) =
      build_event_from_query_desc table isspace pg
        (fresh, texts)
        desc
        100
        true
        (pos 20)
        (pos 5)
        0 in
    IsReady event × IsSound b × IsStocked table cache
build_event_from_query_desc-IsReady_example =
    build_event_from_query_desc-IsReady table isspace pg fresh texts desc 100 true (pos 20) (pos 5)
      0 fresh-IsSound texts-IsStocked

-- Half of the queries below 1 ms.
abbrev sampling : Sampling
sampling = record { min_duration_us = 1000; sample_rate = 500; one = 1000 }

abbrev local : Local Table Texts
local = record { world = world; names = fresh; cache = texts }

local-IsIntact : IsIntact postgres table local
local-IsIntact = record { kept = world-IsKept; sound = fresh-IsSound; stocked = texts-IsStocked }

executor_end-IsIntact_example : IsIntact postgres table (
    executor_end postgres settings nobody table isspace pg true false sampling 0 desc 100 true
      (pos 20)
      (pos 5)
      0
      local)
executor_end-IsIntact_example =
    executor_end-IsIntact postgres settings nobody table isspace pg true nobody-IsFair false
      sampling 0 desc 100 true (pos 20) (pos 5) 0 local local-IsIntact

abbrev proc : Process
proc = record {
  system_init = true;
  log_min_elevel = 19;
  has_proc = true;
  parallel_worker = false;
  under_postmaster = true;
  bgworker = false;
}

abbrev edata : ErrorData
edata = record { elevel = 21; sqlerrcode = 16908420; message = some (32 ∷ 69 ∷ []) }

emit_log_hook_lem_example :
    let l' =
      emit_log_hook postgres settings nobody table isspace pg true proc
        (some edata)
        100
        true
        none
        local in
    (l'.world.backend.suppressed ≡ false) × ((false ≡ true) → l' ≡ local)
emit_log_hook_lem_example =
    emit_log_hook_lem postgres settings nobody table isspace pg true proc (some edata) 100 true none
      local

abbrev top : Nest
top = record { nesting_level = 0; query_is_top_level = false; query_start_ts = 0 }

-- A query that calls a function with a query of its own.
abbrev calls : Statements
calls = first (query true none_left none_left) none_left

execute-top_level_example :
    (nested : List Bool) × ((execute 100 (query true calls none_left) top).1
      ≡ nested ++ not (any_starts calls || any_starts none_left) ∷ [])
    × (none_true nested ≡ true)
    × ((execute 100 (query true calls none_left) top).2.nesting_level ≡ 0)
unfolding execute
execute-top_level_example = execute-top_level 100 true calls none_left top refl refl

execute-balanced_example :
    ((execute 100 (utility false calls) top).2.nesting_level ≡ 0)
    × (0 < 0 → none_true (execute 100 (utility false calls) top).1 ≡ true)
execute-balanced_example = execute-balanced 100 (utility false calls) top
