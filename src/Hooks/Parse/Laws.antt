-- ===== src/Hooks/Parse/Laws.antt =====
-- The text that the hook keeps for a statement with constants is the normalized one.
use pg_stat_ch_otel_backend.Base.{
  ℕ, ◌+◌, ◌-◌, ◌^◌, ◌<◌, ◌≤◌, ◌≡◌, ◌≢◌, refl, subst, true, false, some, List, [], ◌∷◌, ◌++◌, min,
  take, length, ◌==◌, arith,
}
use pg_stat_ch_otel_backend.Cache.{HashTable, Cache, ensure_initialized, remember, lookup}
use pg_stat_ch_otel_backend.Cache.Remember.{IsValid}
use pg_stat_ch_otel_backend.Cache.Lookup.{lookup-remember}
use pg_stat_ch_otel_backend.Normalize.{LocationLen, JumbleState}
use pg_stat_ch_otel_backend.Normalize.Laws.{Segment, assemble, normalized}
use pg_stat_ch_otel_backend.Normalize.Lengths.{sort_locations}
use pg_stat_ch_otel_backend.Normalize.Lengths.Laws.{unmeasured, Lexes, psch_normalize_query_lem}
use pg_stat_ch_otel_backend.Event.{Event, max_query_len}
use pg_stat_ch_otel_backend.Hooks.Build.{copy_query_text}
use pg_stat_ch_otel_backend.Hooks.Parse.{Analyzed, Language, exported_query, post_parse_analyze}

-- The statement `query_text` holds, with its constants, and what follows it in the source text.
pub record IsStatement (lang : Language) (q : Analyzed) (jstate : JumbleState) (l : LocationLen)
    (ls : List LocationLen) (s : Segment) (ss : List Segment) (rest more : List ℕ) : Type 0 where
  pub given : q.jumble ≡ some (jstate, l ∷ ls)
  pub text : q.query_text ≡ assemble (s ∷ ss) (rest ++ more)
  pub len : q.query_len ≡ length (assemble (s ∷ ss) rest)
  pub sorted : sort_locations (l ∷ ls) ≡ unmeasured q.query_loc (s ∷ ss)
  pub lexed : Lexes q.query_text 0 (s ∷ ss) (lang.lexer q.query_text)

module _ (lang : Language) where
  exported_query-normalized :
      (q : Analyzed) (jstate : JumbleState) (l : LocationLen) (ls : List LocationLen) (s : Segment)
      (ss : List Segment) (rest more : List ℕ)
      → IsStatement lang q jstate l ls s ss rest more
      → let text = normalized lang.decimal (jstate.highest_extern_param_id + 1) (s ∷ ss) rest in
        exported_query lang q ≡ some (text, length text)
  unfolding exported_query
  exported_query-normalized q jstate l ls s ss rest more h =
      let done =
        psch_normalize_query_lem lang.decimal lang.lexer jstate (l ∷ ls) q.query_loc s ss rest more
          h.sorted (subst (λ t. Lexes t 0 (s ∷ ss) (lang.lexer t)) h.text h.lexed) in
      simp (h.given, h.text, h.len, done, exported_query) refl

  module _ {H : Type 0} (table : HashTable H) where
    -- What PschLookupNormalizedQuery copies into a buffer of 1 to 2^16 bytes behind the hook.
    pub lookup-post_parse_analyze :
        (setting : ℕ) (cache : Cache H) (q : Analyzed) (jstate : JumbleState) (l : LocationLen)
        (ls : List LocationLen) (s : Segment) (ss : List Segment) (rest more : List ℕ)
        (dst_size : ℕ)
        → IsStatement lang q jstate l ls s ss rest more
        → IsValid table cache
        → cache.ready ≡ true
        → q.query_id ≢ 0
        → 0 < dst_size
        → dst_size ≤ 2 ^ 16
        → let text = normalized lang.decimal (jstate.highest_extern_param_id + 1) (s ∷ ss) rest in
          let n = min (min (length text) 2047) (dst_size - 1) in
          (lookup table
            (post_parse_analyze lang table true false setting q cache)
            q.query_id
            dst_size).0
          ≡ some (take n text ++ 0 ∷ [], n)
    unfolding post_parse_analyze remember ensure_initialized
    lookup-post_parse_analyze setting cache q jstate l ls s ss rest more dst_size h v ready id pos
          small =
        let text = normalized lang.decimal (jstate.highest_extern_param_id + 1) (s ∷ ss) rest in
        let kept = exported_query-normalized q jstate l ls s ss rest more h in
        let other : (q.query_id == 0) ≡ false = ground (arith, id) in
        simp (other, kept, ready, post_parse_analyze, remember, ensure_initialized)
          (lookup-remember table cache v q.query_id text (length text) dst_size ready id pos small
            (omega arith))

    -- Where a statement has constants, none of them squashed or an external parameter, that the
    -- lexer finds as its tokens, each a token or a minus and a token, at the locations that
    -- PostgreSQL gives in any order and without duplicates, and the cache is in use and valid,
    -- the event that CopyQueryText fills after PschPostParseAnalyze, under an identifier other
    -- than 0 and with the extension on, outside a parallel worker, has as its text the statement
    -- with a numbered placeholder in place of each constant, cut to 2047 bytes and terminated,
    -- and its length.
    pub copy_query_text-post_parse_analyze :
        (setting : ℕ) (cache : Cache H) (q : Analyzed) (jstate : JumbleState) (l : LocationLen)
        (ls : List LocationLen) (s : Segment) (ss : List Segment) (rest more : List ℕ)
        (event : Event)
        → IsStatement lang q jstate l ls s ss rest more
        → IsValid table cache
        → cache.ready ≡ true
        → q.query_id ≢ 0
        → let text = normalized lang.decimal (jstate.highest_extern_param_id + 1) (s ∷ ss) rest in
          let n = min (length text) 2047 in
          (copy_query_text table
            (post_parse_analyze lang table true false setting q cache)
            q.query_id
            event).0
          ≡ record event {
            prefix = record event.prefix { query_len = n };
            query = take n text ++ 0 ∷ [];
          }
    unfolding copy_query_text
    copy_query_text-post_parse_analyze setting cache q jstate l ls s ss rest more event h v ready
          id =
        let text = normalized lang.decimal (jstate.highest_extern_param_id + 1) (s ∷ ss) rest in
        let found =
          lookup-post_parse_analyze setting cache q jstate l ls s ss rest more max_query_len h v
            ready id (omega arith) (omega arith) in
        let same : min (min (length text) 2047) (max_query_len - 1) ≡ min (length text) 2047 =
          omega arith in
        simp (found, same, copy_query_text) refl
