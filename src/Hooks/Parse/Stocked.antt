-- ===== src/Hooks/Parse/Stocked.antt =====
-- The hook at parse time keeps the cache well-formed, whatever statement it is given.
use pg_stat_ch_otel_backend.Base.{
  ℕ, ◌<◌, ◌≤◌, ◌≡◌, subst, Bool, true, some, List, [], ◌∷◌, not, length, ltb, ◌==◌, ◌||◌,
  if◌then◌else◌, arith, Bool-cases, Option-cases, List-cases, inl, inr,
}
use pg_stat_ch_otel_backend.Strings.{copy_trimmed_statement}
use pg_stat_ch_otel_backend.Stats.{strlen}
use pg_stat_ch_otel_backend.Cache.{
  CacheEntry, HashTable, Cache, make_entry, clamp_cached_query_len, init_cache, ensure_initialized,
  remember_ready, remember,
}
use pg_stat_ch_otel_backend.Cache.Remember.{IsValid, remember_ready-Fronted, init_cache-IsValid}
use pg_stat_ch_otel_backend.Normalize.Lengths.{psch_normalize_query}
use pg_stat_ch_otel_backend.Hooks.Session.Buffers.{Within, copied-Within}
use pg_stat_ch_otel_backend.Hooks.Build.Laws.{IsStocked}
use pg_stat_ch_otel_backend.Hooks.Parse.{
  Analyzed, Language, plain_text, exported_query, post_parse_analyze,
}

strlen_fits : (str : List ℕ) → strlen str ≤ length str
strlen_fits [] = omega arith
strlen_fits (c ∷ cs) = ground (arith, strlen_fits cs)

-- A new entry is a text within its buffer, terminated.
make_entry_fits :
    (text : List ℕ) (len : ℕ)
    → len ≤ length text
    → Within 2048 ((make_entry text len).normalized_query, (make_entry text len).normalized_len)
unfolding make_entry clamp_cached_query_len
make_entry_fits text len fits =
    copied-Within 2048 (clamp_cached_query_len len) text (ground (arith, fits)) (ground arith)

module _ {H : Type 0} (table : HashTable H) where
  -- A cache in use is valid, and each entry of any cache is a text with its NUL.
  pub record IsSafe (cache : Cache H) : Type 0 where
    pub valid : cache.ready ≡ true → IsValid table cache
    pub stocked : IsStocked table cache

  pub remember_ready-IsSafe :
      (cache : Cache H) (k : ℕ) (text : List ℕ) (len : ℕ)
      → IsValid table cache
      → IsStocked table cache
      → len ≤ length text
      → IsSafe (remember_ready table cache k text len)
  remember_ready-IsSafe cache k text len v stocked fits =
      let front = remember_ready-Fronted table cache v k text len in
      record {
        valid = λ r. front.valid;
        stocked = λ j e found. elim (Bool-cases (k == j)) [
          | inl same ↦
              subst {A = CacheEntry} (λ d. Within 2048 (d.normalized_query, d.normalized_len))
                {x = make_entry text len} (ground (arith, front.entries j, found, same))
                (make_entry_fits text len fits)
          | inr other ↦ stocked j e (ground (arith, front.entries j, found, other))
        ];
      }

  ensure_initialized-IsSafe :
      (setting : ℕ) (cache : Cache H)
      → 0 < setting
      → IsSafe cache
      → IsValid table (ensure_initialized table setting cache)
        × IsStocked table (ensure_initialized table setting cache)
  unfolding ensure_initialized init_cache
  ensure_initialized-IsSafe setting cache pos safe = elim (Bool-cases cache.ready) [
    | inl used ↦ simp (used, ensure_initialized) (safe.valid used, safe.stocked)
    | inr unused ↦
        simp (unused, ensure_initialized)
          (
            init_cache-IsValid table cache
                (if ltb 0 cache.max_entries then cache.max_entries else setting)
                (ground (arith, pos)),
            λ k e found. absurd (ground (arith, found, table.find-empty k)),
          )
  ]

  remember-IsSafe :
      (setting : ℕ) (cache : Cache H) (query_id : ℕ) (text : List ℕ) (len : ℕ)
      → 0 < setting
      → len ≤ length text
      → IsSafe cache
      → IsSafe (remember table setting cache query_id (some text) len)
  unfolding remember
  remember-IsSafe setting cache query_id text len pos fits safe =
      elim (Bool-cases (query_id == 0)) [
        | inl zero_id ↦ simp (zero_id, remember) safe
        | inr other ↦
            let (v, stocked) = ensure_initialized-IsSafe setting cache pos safe in
            rw (other, remember)
              (remember_ready-IsSafe (ensure_initialized table setting cache) query_id text len v
                stocked fits)
      ]

module _ (lang : Language) where
  plain_text_fits :
      (q : Analyzed) (text : List ℕ) (len : ℕ)
      → plain_text lang q ≡ some (text, len)
      → len ≤ length text
  unfolding plain_text
  plain_text_fits q text len e =
      elim (Option-cases (copy_trimmed_statement lang.isspace (some q.query_text) q.query_len)) [
        | inl missing ↦ absurd (ground (arith, e, missing))
        | inr (t, found) ↦ ground (arith, e, found, strlen_fits t)
      ]

  exported_query_fits :
      (q : Analyzed) (text : List ℕ) (len : ℕ)
      → exported_query lang q ≡ some (text, len)
      → len ≤ length text
  unfolding exported_query
  exported_query_fits q text len e = elim (Option-cases q.jumble) [
    | inl missing ↦ plain_text_fits q text len (ground (arith, e, missing))
    | inr ((jstate, ls), given) ↦ elim (List-cases ls) [
      | inl empty ↦ plain_text_fits q text len (ground (arith, e, given, empty))
      | inr (m, ms, more) ↦
          elim (Option-cases (
            psch_normalize_query lang.decimal lang.lexer jstate (m ∷ ms) q.query_text q.query_loc
              q.query_len)) [
                | inl missing ↦ absurd (ground (arith, e, given, more, missing))
                | inr (t, found) ↦ ground (arith, e, given, more, found)
              ]
    ]
  ]

  module _ {H : Type 0} (table : HashTable H) where
    -- Whatever statement PschPostParseAnalyze is given, and whether the extension is on or not,
    -- with a positive psch_normalize_cache_max it keeps every text of the cache in at most 2048
    -- bytes with a NUL at its length, and the cache valid once it is in use, also where it sets
    -- the cache up or replaces or evicts a text.
    pub post_parse_analyze-IsSafe :
        (enabled parallel_worker : Bool) (setting : ℕ) (q : Analyzed) (cache : Cache H)
        → 0 < setting
        → IsSafe table cache
        → IsSafe table (post_parse_analyze lang table enabled parallel_worker setting q cache)
    unfolding post_parse_analyze
    post_parse_analyze-IsSafe enabled parallel_worker setting q cache pos safe =
        elim (Bool-cases (not enabled || parallel_worker || (q.query_id == 0))) [
          | inl off ↦ rw (off, post_parse_analyze) safe
          | inr on ↦ elim (Option-cases (exported_query lang q)) [
            | inl missing ↦ rw (on, missing, post_parse_analyze) safe
            | inr ((text, len), e) ↦
                rw (on, e, post_parse_analyze)
                  (remember-IsSafe table setting cache q.query_id text len pos
                    (exported_query_fits q text len e) safe)
          ]
        ]
