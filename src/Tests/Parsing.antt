-- ===== src/Tests/Parsing.antt =====
-- The statement `a=5 b=-7; c`, its tokens and its constants in the wrong order, and the theorems on
-- the hook that sees it first.
use pg_stat_ch_otel_backend.Base.{
  ℕ, ◌+◌, ◌≡◌, refl, true, false, some, List, [], ◌∷◌, length, ◌==◌, if◌then◌else◌, arith,
}
use pg_stat_ch_otel_backend.Base.Int.{negsuc}
use pg_stat_ch_otel_backend.Cache.{init_cache, remember_ready}
use pg_stat_ch_otel_backend.Cache.Remember.{init_cache-IsValid}
use pg_stat_ch_otel_backend.Normalize.{LocationLen, JumbleState}
use pg_stat_ch_otel_backend.Normalize.Laws.{Segment}
use pg_stat_ch_otel_backend.Normalize.Lengths.{Token, psch_normalize_query}
use pg_stat_ch_otel_backend.Normalize.Lengths.Laws.{
  Lexes, behind, between, constant, negative, psch_normalize_query_lem, psch_normalize_query-redact,
}
use pg_stat_ch_otel_backend.Hooks.Build.{copy_query_text}
use pg_stat_ch_otel_backend.Hooks.Parse.{Analyzed, Language, post_parse_analyze}
use pg_stat_ch_otel_backend.Hooks.Parse.Laws.{IsStatement, copy_query_text-post_parse_analyze}
use pg_stat_ch_otel_backend.Hooks.Parse.Stocked.{
  IsSafe, remember_ready-IsSafe, post_parse_analyze-IsSafe,
}
use pg_stat_ch_otel_backend.Tests.{event}
use pg_stat_ch_otel_backend.Tests.Caching.{table, blank, text, full, full-IsValid}

-- One digit.
abbrev digit : ℕ → List ℕ
digit n = (48 + n) ∷ []

abbrev jstate : JumbleState
jstate = record { has_squashed_lists = false; highest_extern_param_id = 0 }

abbrev five : Segment
five = record { gap = 97 ∷ 61 ∷ []; constant = 53 ∷ []; squashed = false }

abbrev minus_seven : Segment
minus_seven = record { gap = 32 ∷ 98 ∷ 61 ∷ []; constant = 45 ∷ 55 ∷ []; squashed = false }

abbrev source : List ℕ
source = 97 ∷ 61 ∷ 53 ∷ 32 ∷ 98 ∷ 61 ∷ 45 ∷ 55 ∷ 59 ∷ 32 ∷ 99 ∷ []

abbrev at : ℕ → LocationLen
at k = record { location = k; length = negsuc 0; squashed = false; extern_param = false }

abbrev token : ℕ → ℕ → Token
token first end = record { first = first; end = end }

abbrev lexer : List ℕ → List Token
lexer query =
    token 0 1
    ∷ token 1 2
    ∷ token 2 3
    ∷ token 4 5
    ∷ token 5 6
    ∷ token 6 7
    ∷ token 7 8
    ∷ token 8 9
    ∷ token 10 11
    ∷ []

lexed : Lexes source 0 (five ∷ minus_seven ∷ []) (lexer source)
lexed = between 0 five (minus_seven ∷ []) (token 0 1) _ (omega arith) (
    between 0 five (minus_seven ∷ []) (token 1 2) _ (omega arith) (
      constant 0 five (minus_seven ∷ []) (token 2 3) _ refl (omega arith) refl (omega arith) refl (
        between 3 minus_seven [] (token 4 5) _ (omega arith) (
          between 3 minus_seven [] (token 5 6) _ (omega arith) (
            negative 3 minus_seven [] (token 6 7) (token 7 8) _ refl (omega arith) refl
              (omega arith) refl (behind 8 _))))))

psch_normalize_query_lem_example :
    psch_normalize_query digit lexer jstate (at 106 ∷ at 102 ∷ []) source 100 9
    ≡ some (97 ∷ 61 ∷ 36 ∷ 49 ∷ 32 ∷ 98 ∷ 61 ∷ 36 ∷ 50 ∷ 59 ∷ [])
unfolding pg_stat_ch_otel_backend.Normalize.placeholder
    pg_stat_ch_otel_backend.Normalize.Lengths.sort_locations
psch_normalize_query_lem_example =
    psch_normalize_query_lem digit lexer jstate (at 106 ∷ at 102 ∷ []) 100 five (minus_seven ∷ [])
      (59 ∷ []) (32 ∷ 99 ∷ []) refl lexed

-- The statement `a=42 b=67;` before another text, with its tokens.
abbrev forty_two : Segment
forty_two = record five { constant = 52 ∷ 50 ∷ [] }

abbrev sixty_seven : Segment
sixty_seven = record minus_seven { constant = 54 ∷ 55 ∷ [] }

abbrev other_source : List ℕ
other_source = 97 ∷ 61 ∷ 52 ∷ 50 ∷ 32 ∷ 98 ∷ 61 ∷ 54 ∷ 55 ∷ 59 ∷ 32 ∷ 100 ∷ []

-- The tokens of both texts.
abbrev both : List ℕ → List Token
both query =
    if length query == 11
    then lexer query
    else token 0 1
      ∷ token 1 2
      ∷ token 2 4
      ∷ token 5 6
      ∷ token 6 7
      ∷ token 7 9
      ∷ token 9 10
      ∷ token 11 12
      ∷ []

other_lexed : Lexes other_source 0 (forty_two ∷ sixty_seven ∷ []) (both other_source)
other_lexed = between 0 forty_two (sixty_seven ∷ []) (token 0 1) _ (omega arith) (
    between 0 forty_two (sixty_seven ∷ []) (token 1 2) _ (omega arith) (
      constant 0 forty_two (sixty_seven ∷ []) (token 2 4) _ refl (omega arith) refl (omega arith)
        refl
        (between 4 sixty_seven [] (token 5 6) _ (omega arith) (
          between 4 sixty_seven [] (token 6 7) _ (omega arith) (
            constant 4 sixty_seven [] (token 7 9) _ refl (omega arith) refl (omega arith) refl
              (behind 9 _))))))

psch_normalize_query-redact_example :
    psch_normalize_query digit both jstate (at 42 ∷ at 47 ∷ []) other_source 40 10
    ≡ psch_normalize_query digit both jstate (at 106 ∷ at 102 ∷ []) source 100 9
unfolding pg_stat_ch_otel_backend.Normalize.Lengths.sort_locations
psch_normalize_query-redact_example =
    psch_normalize_query-redact digit both jstate (at 106 ∷ at 102 ∷ []) (at 42 ∷ at 47 ∷ []) 100 40
      five (minus_seven ∷ []) (52 ∷ 50 ∷ []) ((54 ∷ 55 ∷ []) ∷ []) (59 ∷ []) (32 ∷ 99 ∷ [])
      (32 ∷ 100 ∷ []) refl lexed refl other_lexed

abbrev lang : Language
lang = record { isspace = λ c. c == 32; decimal = digit; lexer = lexer }

abbrev analyzed : Analyzed
analyzed = record {
  query_id = 6;
  query_text = source;
  query_loc = 100;
  query_len = 9;
  jumble = some (jstate, at 106 ∷ at 102 ∷ []);
}

analyzed-IsStatement :
    IsStatement lang analyzed jstate
      (at 106)
      (at 102 ∷ [])
      five
      (minus_seven ∷ [])
      (59 ∷ [])
      (32 ∷ 99 ∷ [])
unfolding pg_stat_ch_otel_backend.Normalize.Lengths.sort_locations
analyzed-IsStatement = record {
  given = refl;
  text = refl;
  len = refl;
  sorted = refl;
  lexed = lexed;
}

copy_query_text-post_parse_analyze_example :
    (copy_query_text table (post_parse_analyze lang table true false 2 analyzed full) 6 event).0
    ≡ record event {
      prefix = record event.prefix { query_len = 10 };
      query = 97 ∷ 61 ∷ 36 ∷ 49 ∷ 32 ∷ 98 ∷ 61 ∷ 36 ∷ 50 ∷ 59 ∷ 0 ∷ [];
    }
unfolding pg_stat_ch_otel_backend.Normalize.placeholder remember_ready init_cache
copy_query_text-post_parse_analyze_example =
    copy_query_text-post_parse_analyze lang table 2 full analyzed jstate (at 106) (at 102 ∷ []) five
      (minus_seven ∷ []) (59 ∷ []) (32 ∷ 99 ∷ []) event analyzed-IsStatement full-IsValid refl
      (omega arith)

once-IsSafe : IsSafe table (remember_ready table (init_cache table blank 2) 4 text 3)
unfolding init_cache
once-IsSafe =
    remember_ready-IsSafe table (init_cache table blank 2) 4 text 3
      (init_cache-IsValid table blank 2 (omega arith)) (λ k e found. absurd (ground (arith, found)))
      (omega arith)

full-IsSafe : IsSafe table full
unfolding remember_ready init_cache
full-IsSafe =
    remember_ready-IsSafe table (remember_ready table (init_cache table blank 2) 4 text 3) 5 text 2
      (once-IsSafe.valid refl) once-IsSafe.stocked (omega arith)

post_parse_analyze-IsSafe_example :
    IsSafe table (post_parse_analyze lang table true false 2 analyzed full)
post_parse_analyze-IsSafe_example =
    post_parse_analyze-IsSafe lang table true false 2 analyzed full (omega arith) full-IsSafe
