-- ===== src/Hooks/Nesting/Laws.antt =====
-- The level is balanced whatever fails, and which event is flagged as one of a top-level query.
use pg_stat_ch_otel_backend.Base.{
  ℕ, ◌<◌, ◌≡◌, refl, ap, ◌∙◌, Bool, true, false, not, List, [], ◌∷◌, ◌++◌, ◌==◌, ◌&&◌, ◌||◌,
  if◌then◌else◌, arith, Bool-cases, inl, inr,
}
use pg_stat_ch_otel_backend.Hooks.Nesting.{
  Nest, executor_start, enter, leave, Statement, Statements, query, utility, none_left, first,
  execute, execute_all,
}

executor_start-nesting :
    (now : ℕ) (n : Nest) → (executor_start now n).nesting_level ≡ n.nesting_level
unfolding executor_start
executor_start-nesting now n = elim (Bool-cases (n.nesting_level == 0)) [
  | inl h ↦ simp (h, executor_start) refl
  | inr h ↦ simp (h, executor_start) refl
]

mutual
  unfolding execute execute_all

  execute-nesting :
      (now : ℕ) (s : Statement) (n : Nest) → (execute now s n).2.nesting_level ≡ n.nesting_level
  execute-nesting now (query returns run finish) n =
      let n0 = executor_start now n in
      let (ran, events1, n1) = execute_all now run (enter n0) in
      let (finished, events2, n2) = execute_all now finish (enter (leave n1)) in
      let e0 = executor_start-nesting now n in
      let e1 = execute_all-nesting now run (enter n0) in
      let e2 = execute_all-nesting now finish (enter (leave n1)) in
      elim (Bool-cases (ran && returns)) [
        | inr h ↦ rw (h, execute) (omega (arith, e0, e1))
        | inl h ↦ elim (Bool-cases finished) [
          | inr h' ↦ rw (h, h', execute) (omega (arith, e0, e1, e2))
          | inl h' ↦ rw (h, h', execute) (omega (arith, e0, e1, e2))
        ]
      ]
  execute-nesting now (utility returns body) n =
      let (ran, events, n1) = execute_all now body (enter n) in
      let e1 = execute_all-nesting now body (enter n) in
      elim (Bool-cases (ran && returns)) [
        | inr h ↦ rw (h, execute) (omega (arith, e1))
        | inl h ↦ rw (h, execute) (omega (arith, e1))
      ]

  execute_all-nesting :
      (now : ℕ) (ss : Statements) (n : Nest)
      → (execute_all now ss n).2.nesting_level ≡ n.nesting_level
  execute_all-nesting now none_left n = refl
  execute_all-nesting now (first s ss) n =
      let (returned, events1, n1) = execute now s n in
      let e1 = execute-nesting now s n in
      let e2 = execute_all-nesting now ss n1 in
      elim (Bool-cases returned) [
        | inl h ↦ rw (h, execute_all) (e2 ∙ e1)
        | inr h ↦ rw (h, execute_all) e1
      ]

-- Whether a statement starts the executor when it runs to its end.
mutual
  pub starts : Statement → Bool
  starts (query returns run finish) = true
  starts (utility returns body) = any_starts body

  pub any_starts : Statements → Bool
  any_starts none_left = false
  any_starts (first s ss) = starts s || any_starts ss

pub none_true : List Bool → Bool
none_true [] = true
none_true (b ∷ bs) = not b && none_true bs

none_true-append :
    (xs ys : List Bool) → none_true xs ≡ true → none_true ys ≡ true → none_true (xs ++ ys) ≡ true
unfolding none_true
none_true-append [] ys hx hy = hy
none_true-append (true ∷ xs) ys hx hy = absurd (ground (arith, hx))
none_true-append (false ∷ xs) ys hx hy = none_true-append xs ys hx hy

nested_start :
    (now : ℕ) (n : Nest) → 0 < n.nesting_level → (executor_start now n).query_is_top_level ≡ false
unfolding executor_start
nested_start now n h =
    let other : (n.nesting_level == 0) ≡ false = ground arith in simp (other, executor_start) refl

false_either : (b : Bool) → (if b then false else false) ≡ false
false_either true = refl
false_either false = refl

then_or :
    (a b c : Bool) → (if b then false else (if a then false else c)) ≡ (if a || b then false else c)
then_or true true c = refl
then_or true false c = refl
then_or false true c = refl
then_or false false c = refl

mutual
  unfolding execute execute_all starts any_starts

  -- A nested query leaves the flag cleared, for the query around it too.
  execute-flag :
      (now : ℕ) (s : Statement) (n : Nest)
      → 0 < n.nesting_level
      → (execute now s n).0 ≡ true
      → (execute now s n).2.query_is_top_level ≡ (if starts s then false else n.query_is_top_level)
  execute-flag now (query returns run finish) n deep ok =
      let n0 = executor_start now n in
      let (ran, events1, n1) = execute_all now run (enter n0) in
      let (finished, events2, n2) = execute_all now finish (enter (leave n1)) in
      elim (Bool-cases ran) [
        | inr h ↦ absurd (ground (arith, h, ok))
        | inl h ↦ elim (Bool-cases returns) [
          | inr h1 ↦ absurd (ground (arith, h, h1, ok))
          | inl h1 ↦ elim (Bool-cases finished) [
            | inr h2 ↦ absurd (ground (arith, h, h1, h2, ok))
            | inl h2 ↦
                let f0 = nested_start now n deep in
                let f1 = execute_all-flag now run (enter n0) (omega arith) h in
                let f2 = execute_all-flag now finish (enter (leave n1)) (omega arith) h2 in
                let f : n2.query_is_top_level ≡ (
                    if any_starts run || any_starts finish then false else n0.query_is_top_level) =
                  f2
                  ∙ ap (λ c. if any_starts finish then false else c) f1
                  ∙ then_or (any_starts run) (any_starts finish) n0.query_is_top_level in
                rw (h, h1, h2, execute)
                  (f
                    ∙ ap (λ c. if any_starts run || any_starts finish then false else c) f0
                    ∙ false_either (any_starts run || any_starts finish))
          ]
        ]
      ]
  execute-flag now (utility returns body) n deep ok =
      let (ran, events, n1) = execute_all now body (enter n) in
      elim (Bool-cases ran) [
        | inr h ↦ absurd (ground (arith, h, ok))
        | inl h ↦ elim (Bool-cases returns) [
          | inr h1 ↦ absurd (ground (arith, h, h1, ok))
          | inl h1 ↦ rw (h, h1, execute) (execute_all-flag now body (enter n) (omega arith) h)
        ]
      ]

  execute_all-flag :
      (now : ℕ) (ss : Statements) (n : Nest)
      → 0 < n.nesting_level
      → (execute_all now ss n).0 ≡ true
      → (execute_all now ss n).2.query_is_top_level
        ≡ (if any_starts ss then false else n.query_is_top_level)
  execute_all-flag now none_left n deep ok = refl
  execute_all-flag now (first s ss) n deep ok =
      let (returned, events1, n1) = execute now s n in
      elim (Bool-cases returned) [
        | inr h ↦ absurd (ground (arith, h, ok))
        | inl h ↦
            let e1 = execute-nesting now s n in
            let f1 = execute-flag now s n deep h in
            let f2 = execute_all-flag now ss n1 (omega (arith, e1)) (ground (arith, h, ok)) in
            rw (h, execute_all)
              (f2
                ∙ ap (λ c. if any_starts ss then false else c) f1
                ∙ then_or (starts s) (any_starts ss) n.query_is_top_level)
      ]

mutual
  unfolding execute execute_all none_true

  -- Below the top, no event is flagged.
  execute-none_true :
      (now : ℕ) (s : Statement) (n : Nest)
      → 0 < n.nesting_level
      → none_true (execute now s n).1 ≡ true
  execute-none_true now (query returns run finish) n deep =
      let n0 = executor_start now n in
      let (ran, events1, n1) = execute_all now run (enter n0) in
      let (finished, events2, n2) = execute_all now finish (enter (leave n1)) in
      let a1 = execute_all-none_true now run (enter n0) (omega arith) in
      let a2 = execute_all-none_true now finish (enter (leave n1)) (omega arith) in
      let nested = none_true-append events1 events2 a1 a2 in
      elim (Bool-cases ran) [
        | inr h ↦ rw (h, execute) a1
        | inl h ↦ elim (Bool-cases returns) [
          | inr h1 ↦ rw (h, h1, execute) a1
          | inl h1 ↦ elim (Bool-cases finished) [
            | inr h2 ↦ rw (h, h1, h2, execute) nested
            | inl h2 ↦
                let f0 = nested_start now n deep in
                let f1 = execute_all-flag now run (enter n0) (omega arith) h in
                let f2 = execute_all-flag now finish (enter (leave n1)) (omega arith) h2 in
                let off : n2.query_is_top_level ≡ false = ground (arith, f0, f1, f2) in
                rw (h, h1, h2, execute)
                  (none_true-append (events1 ++ events2) (n2.query_is_top_level ∷ []) nested
                    (ap (λ b. not b && true) off))
          ]
        ]
      ]
  execute-none_true now (utility returns body) n deep =
      let (ran, events, n1) = execute_all now body (enter n) in
      let a = execute_all-none_true now body (enter n) (omega arith) in
      let off : (n.nesting_level == 0) ≡ false = ground arith in
      elim (Bool-cases (ran && returns)) [
        | inr h ↦ rw (h, execute) a
        | inl h ↦
            rw (h, execute)
              (none_true-append events ((n.nesting_level == 0) ∷ []) a
                (ap (λ b. not b && true) off))
      ]

  execute_all-none_true :
      (now : ℕ) (ss : Statements) (n : Nest)
      → 0 < n.nesting_level
      → none_true (execute_all now ss n).1 ≡ true
  execute_all-none_true now none_left n deep = refl
  execute_all-none_true now (first s ss) n deep =
      let (returned, events1, n1) = execute now s n in
      let events2 = (execute_all now ss n1).1 in
      let a1 = execute-none_true now s n deep in
      let e1 = execute-nesting now s n in
      let a2 = execute_all-none_true now ss n1 (omega (arith, e1)) in
      elim (Bool-cases returned) [
        | inr h ↦ rw (h, execute_all) a1
        | inl h ↦ rw (h, execute_all) (none_true-append events1 events2 a1 a2)
      ]

top_start :
    (now : ℕ) (n : Nest) → n.nesting_level ≡ 0 → (executor_start now n).query_is_top_level ≡ true
unfolding executor_start
top_start now n h =
    let at_top : (n.nesting_level == 0) ≡ true = ground (arith, h) in
    simp (at_top, executor_start) refl

not_any : (b : Bool) → (if b then false else true) ≡ not b
not_any true = refl
not_any false = refl

-- A query that starts at nesting level 0 and returns leaves the level at 0; the events of what
-- ran within it are not flagged as top-level, and its own event, the last one, is flagged as
-- top-level exactly where nothing that ran within its run or its finish started the executor.
pub execute-top_level :
    (now : ℕ) (returns : Bool) (run finish : Statements) (n : Nest)
    → n.nesting_level ≡ 0
    → let (returned, events, n') = execute now (query returns run finish) n in
      returned ≡ true
      → (nested : List Bool) × (events ≡ nested ++ not (any_starts run || any_starts finish) ∷ [])
        × (none_true nested ≡ true)
        × (n'.nesting_level ≡ 0)
unfolding execute
execute-top_level now returns run finish n top ok =
    let n0 = executor_start now n in
    let (ran, events1, n1) = execute_all now run (enter n0) in
    let (finished, events2, n2) = execute_all now finish (enter (leave n1)) in
    elim (Bool-cases ran) [
      | inr h ↦ absurd (ground (arith, h, ok))
      | inl h ↦ elim (Bool-cases returns) [
        | inr h1 ↦ absurd (ground (arith, h, h1, ok))
        | inl h1 ↦ elim (Bool-cases finished) [
          | inr h2 ↦ absurd (ground (arith, h, h1, h2, ok))
          | inl h2 ↦
              let any = any_starts run || any_starts finish in
              let f1 = execute_all-flag now run (enter n0) (omega arith) h in
              let f2 = execute_all-flag now finish (enter (leave n1)) (omega arith) h2 in
              let f : n2.query_is_top_level ≡ not any =
                f2
                ∙ ap (λ c. if any_starts finish then false else c) f1
                ∙ then_or (any_starts run) (any_starts finish) n0.query_is_top_level
                ∙ ap (λ c. if any then false else c) (top_start now n top)
                ∙ not_any any in
              (
                events1 ++ events2,
                rw (h, h1, h2, execute) (ap (λ b. (events1 ++ events2) ++ b ∷ []) f),
                none_true-append events1 events2
                    (execute_all-none_true now run (enter n0) (omega arith))
                    (execute_all-none_true now finish (enter (leave n1)) (omega arith)),
                execute-nesting now (query returns run finish) n ∙ top,
              )
        ]
      ]
    ]

-- Executing any statement, queries and utilities with whatever runs within them, leaves the
-- nesting level as it was, also where an error ends it anywhere; and below the top no event of it
-- is flagged as top-level.
pub execute-balanced :
    (now : ℕ) (s : Statement) (n : Nest)
    → ((execute now s n).2.nesting_level ≡ n.nesting_level)
      × (0 < n.nesting_level → none_true (execute now s n).1 ≡ true)
execute-balanced now s n = (execute-nesting now s n, execute-none_true now s n)
