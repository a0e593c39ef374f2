-- ===== src/Hooks/Nesting.antt =====
-- The nesting level of src/hooks/hooks.c, and the flag of a query that ran at top level, through
-- ExecutorStart, ExecutorRun, ExecutorFinish and ExecutorEnd, and through ProcessUtility.
pub mod Laws
use pg_stat_ch_otel_backend.Base.{
  ℕ, zero, suc, ◌+◌, ◌-◌, Bool, true, false, not, List, [], ◌∷◌, ◌++◌, ◌==◌, ◌&&◌, if◌then◌else◌,
}

-- `nesting_level`, `current_query_is_top_level` and `query_start_ts`
pub record Nest : Type 0 where
  pub nesting_level : ℕ
  pub query_is_top_level : Bool
  pub query_start_ts : ℕ

-- The start of PschExecutorStart, at the time `now`
unfoldable pub executor_start : ℕ → Nest → Nest
executor_start now n =
    if n.nesting_level == 0
    then record n { query_is_top_level = true; query_start_ts = now }
    else record n { query_is_top_level = false }

-- `nesting_level++`, and `nesting_level--` under PG_FINALLY
abbrev pub enter : Nest → Nest
enter n = record n { nesting_level = n.nesting_level + 1 }

abbrev pub leave : Nest → Nest
leave n = record n { nesting_level = n.nesting_level - 1 }

-- What a backend executes: a query, with what it runs within ExecutorRun and ExecutorFinish, and a
-- utility statement that is tracked, with what runs within it. A query and a utility that do not
-- return raise an error, which goes up to the top.
mutual
  pub data Statement : Type 0 where
    query : Bool → Statements → Statements → Statement
    utility : Bool → Statements → Statement

  pub data Statements : Type 0 where
    none_left : Statements
    first : Statement → Statements → Statements

-- A statement: whether it returns, the flags `top_level` of the events in the order in which they
-- are built, and the state after it. The clock is `now` throughout.
unfoldable mutual
  unfolding executor_start

  pub execute : ℕ → Statement → Nest → Bool × List Bool × Nest
  execute now (query returns run finish) n =
      let (ran, events1, n1) = execute_all now run (enter (executor_start now n)) in
      let (finished, events2, n2) = execute_all now finish (enter (leave n1)) in
      if not (ran && returns)
      then (false, events1, leave n1)
      else (if not finished
          then (false, events1 ++ events2, leave n2)
          else (true, (events1 ++ events2) ++ n2.query_is_top_level ∷ [], leave n2))
  execute now (utility returns body) n =
      let is_top_level = n.nesting_level == 0 in
      let (ran, events, n1) = execute_all now body (enter n) in
      if not (ran && returns)
      then (false, events, leave n1)
      else (true, events ++ is_top_level ∷ [], leave n1)

  pub execute_all : ℕ → Statements → Nest → Bool × List Bool × Nest
  execute_all now none_left n = (true, [], n)
  execute_all now (first s ss) n =
      let (returned, events1, n1) = execute now s n in
      let (rest, events2, n2) = execute_all now ss n1 in
      if returned then (rest, events1 ++ events2, n2) else (false, events1, n1)
