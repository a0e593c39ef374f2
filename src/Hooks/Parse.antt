-- ===== src/Hooks/Parse.antt =====
-- src/hooks/hooks.c: PschPostParseAnalyze, which keeps the text of a statement for its execution.
-- The hook before it and the memory contexts are left out.
pub mod Laws
pub mod Stocked
use pg_stat_ch_otel_backend.Base.{
  ℕ, Bool, Option, none, some, List, [], ◌∷◌, not, length, ◌==◌, ◌||◌, if◌then◌else◌,
}
use pg_stat_ch_otel_backend.Strings.{copy_trimmed_statement}
use pg_stat_ch_otel_backend.Stats.{strlen}
use pg_stat_ch_otel_backend.Cache.{HashTable, Cache, remember}
use pg_stat_ch_otel_backend.Normalize.{LocationLen, JumbleState}
use pg_stat_ch_otel_backend.Normalize.Lengths.{Token, psch_normalize_query}

-- What the hook is given: `query_id`, and the text, location and length that CleanQuerytext makes of
-- the statement; `jumble` is the JumbleState with its locations, none for NULL.
pub record Analyzed : Type 0 where
  pub query_id : ℕ
  pub query_text : List ℕ
  pub query_loc : ℕ
  pub query_len : ℕ
  pub jumble : Option (JumbleState × List LocationLen)

-- What the hook takes of PostgreSQL and the C library.
pub record Language : Type 0 where
  pub isspace : ℕ → Bool
  pub decimal : ℕ → List ℕ
  pub lexer : List ℕ → List Token

module _ (lang : Language) where
  -- The copy of a statement without constants, and its length
  unfoldable pub plain_text : Analyzed → Option (List ℕ × ℕ)
  unfolding copy_trimmed_statement
  plain_text q = elim (copy_trimmed_statement lang.isspace (some q.query_text) q.query_len) [
    | none ↦ none
    | some text ↦ some (text, strlen text)
  ]

  -- `exported_query` and `query_len`
  unfoldable pub exported_query : Analyzed → Option (List ℕ × ℕ)
  unfolding plain_text
  exported_query q = elim q.jumble [
    | none ↦ plain_text q
    | some (jstate, []) ↦ plain_text q
    | some (jstate, l ∷ ls) ↦
        elim (psch_normalize_query lang.decimal lang.lexer jstate (l ∷ ls) q.query_text q.query_loc
          q.query_len) [ none ↦ none | some text ↦ some (text, length text) ]
  ]

  -- PschPostParseAnalyze; `setting` is psch_normalize_cache_max
  unfoldable pub post_parse_analyze :
      {H : Type 0}
      → HashTable H
      → (enabled parallel_worker : Bool) → ℕ
      → Analyzed
      → Cache H
      → Cache H
  unfolding remember
  post_parse_analyze table enabled parallel_worker setting q cache =
      if not enabled || parallel_worker || (q.query_id == 0)
      then cache
      else elim (exported_query q) [
        | none ↦ cache
        | some (text, len) ↦ remember table setting cache q.query_id (some text) len
      ]
