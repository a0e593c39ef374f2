-- ===== src/Normalize/Lengths/Laws.antt =====
-- The lexer's tokens give each constant its length, so that normalization replaces the constants.
use pg_stat_ch_otel_backend.Base.{
  ℕ, ◌+◌, ◌-◌, ◌≤◌, ◌<◌, ◌≡◌, refl, subst, ap, ◌∙◌, sym, true, false, Option, none, some, List, [],
  ◌∷◌, ◌++◌, length, get_or, ◌==◌, arith,
}
use pg_stat_ch_otel_backend.Base.Int.{pos, negsuc}
use pg_stat_ch_otel_backend.Normalize.{LocationLen, JumbleState, normalize_query}
use pg_stat_ch_otel_backend.Normalize.Laws.{
  Segment, assemble, locations, normalized, normalize_query_within, redact, normalized-redact,
}
use pg_stat_ch_otel_backend.Normalize.Lengths.{
  Token, duplicate, sort_locations, signed_token, measure, fill_lengths, fill_in_constant_lengths,
  psch_normalize_query,
}

-- The locations as PostgreSQL gives them, with no length yet.
abbrev pub unmeasured : ℕ → List Segment → List LocationLen
unmeasured p [] = []
unmeasured p (s ∷ ss) =
    record {
      location = p + length s.gap;
      length = negsuc 0;
      squashed = s.squashed;
      extern_param = false;
    }
    ∷ unmeasured (p + length s.gap + length s.constant) ss

-- The tokens of a statement from `p` on: any in the text before a constant, and the constant, which
-- is one token, or a minus and a second one. A constant is not empty.
pub data Lexes (query : List ℕ) : ℕ → List Segment → List Token → Type 0 where
  behind : (p : ℕ) (ts : List Token) → Lexes query p [] ts
  between :
      (p : ℕ) (s : Segment) (ss : List Segment) (t : Token) (ts : List Token)
      → t.first < p + length s.gap
      → Lexes query p (s ∷ ss) ts
      → Lexes query p (s ∷ ss) (t ∷ ts)
  constant :
      (p : ℕ) (s : Segment) (ss : List Segment) (t : Token) (ts : List Token)
      → s.squashed ≡ false
      → 0 < length s.constant
      → (get_or query (p + length s.gap) 0 == b'-') ≡ false
      → p + length s.gap ≤ t.first
      → t.end ≡ p + length s.gap + length s.constant
      → Lexes query (p + length s.gap + length s.constant) ss ts
      → Lexes query p (s ∷ ss) (t ∷ ts)
  negative :
      (p : ℕ) (s : Segment) (ss : List Segment) (t u : Token) (ts : List Token)
      → s.squashed ≡ false
      → 0 < length s.constant
      → (get_or query (p + length s.gap) 0 == b'-') ≡ true
      → p + length s.gap ≤ t.first
      → u.end ≡ p + length s.gap + length s.constant
      → Lexes query (p + length s.gap + length s.constant) ss ts
      → Lexes query p (s ∷ ss) (t ∷ u ∷ ts)

-- The location before, if there is one, lies before.
abbrev Before : Option ℕ → ℕ → Type 0
Before none p = Unit {0}
Before (some k) p = k < p

-- What the inner loop finds at a constant, and what is left behind it.
abbrev Measured : List ℕ → ℕ → List Segment → List Token → Type 0
Measured query p [] ts = Unit {0}
Measured query p (s ∷ ss) ts =
    (s.squashed ≡ false)
    × (0 < length s.constant)
    × (us : List Token) × (measure query (p + length s.gap) ts
        ≡ some (p + length s.gap + length s.constant, us))
    × Lexes query (p + length s.gap + length s.constant) ss us

measure-Measured :
    (query : List ℕ) (p : ℕ) (ss : List Segment) (ts : List Token)
    → Lexes query p ss ts
    → Measured query p ss ts
unfolding measure signed_token
measure-Measured query _ _ _ (behind p ts) = tt
measure-Measured query _ _ _ (between p s ss t ts early more) =
    let (plain, some_byte, us, e, left) = measure-Measured query p (s ∷ ss) ts more in
    (plain, some_byte, us, ground (arith, early, e), left)
measure-Measured query _ _ _ (constant p s ss t [] plain some_byte sign from to more) =
    (plain, some_byte, [], ground (arith, sign, from, to), more)
measure-Measured query _ _ _ (constant p s ss t (u ∷ ts) plain some_byte sign from to more) =
    (plain, some_byte, u ∷ ts, ground (arith, sign, from, to), more)
measure-Measured query _ _ _ (negative p s ss t u ts plain some_byte sign from to more) =
    (plain, some_byte, ts, ground (arith, sign, from, to), more)

not_duplicate : (last : Option ℕ) (p k : ℕ) → Before last p → p ≤ k → duplicate last k ≡ false
not_duplicate none p k b le = refl
not_duplicate (some j) p k b le = ground arith

module _ (query : List ℕ) (query_loc : ℕ) where
  fill_step :
      (last : Option ℕ) (l : LocationLen) (ls : List LocationLen) (end : ℕ) (ts us : List Token)
      → duplicate last l.location ≡ false
      → l.squashed ≡ false
      → measure query (l.location - query_loc) ts ≡ some (end, us)
      → fill_lengths query query_loc last (l ∷ ls) ts
        ≡ record l { length = pos (end - (l.location - query_loc)) }
          ∷ fill_lengths query query_loc (some l.location) ls us
  unfolding fill_lengths
  fill_step last l ls end ts us first plain e = simp (first, plain, e, fill_lengths) refl

  fill_lengths-locations :
      (last : Option ℕ) (p : ℕ) (ss : List Segment) (ts : List Token)
      → Before last (query_loc + p)
      → Lexes query p ss ts
      → fill_lengths query query_loc last (unmeasured (query_loc + p) ss) ts
        ≡ locations (query_loc + p) ss
  unfolding fill_lengths
  fill_lengths-locations last p [] ts b lexed = refl
  fill_lengths-locations last p (s ∷ ss) ts b lexed =
      let (plain, some_byte, us, e, left) = measure-Measured query p (s ∷ ss) ts lexed in
      let at = p + length s.gap in
      let l : LocationLen = record {
        location = query_loc + p + length s.gap;
        length = negsuc 0;
        squashed = s.squashed;
        extern_param = false;
      } in
      let off : at ≡ query_loc + p + length s.gap - query_loc = omega arith in
      let width : at + length s.constant - at ≡ length s.constant = omega arith in
      let next : query_loc + p + length s.gap + length s.constant
          ≡ query_loc + (at + length s.constant) =
        omega arith in
      let later = unmeasured (query_loc + p + length s.gap + length s.constant) ss in
      let step =
        fill_step last l later (at + length s.constant) ts us
          (not_duplicate last (query_loc + p) (query_loc + p + length s.gap) b (omega arith)) plain
          (subst (λ k. measure query k ts ≡ some (at + length s.constant, us)) off e) in
      let rest =
        fill_lengths-locations (some l.location) (at + length s.constant) ss us (omega arith)
          left in
      step ∙ rw (← off, width, next) (ap (◌∷◌ (record l { length = pos (length s.constant) })) rest)

-- Where the lexer's tokens of a text from the statement on hold each constant of the statement,
-- as one token or as a minus and a token, with any tokens between them, and none of the constants
-- is squashed or an external parameter, and the locations in order are those of the constants,
-- PschNormalizeQuery gives the statement with a numbered placeholder in place of each constant
-- and all other bytes kept, and nothing of the text behind the statement.
pub psch_normalize_query_lem :
    (decimal : ℕ → List ℕ) (lexer : List ℕ → List Token) (jstate : JumbleState)
    (locs : List LocationLen) (query_loc : ℕ) (s : Segment) (ss : List Segment) (rest more : List ℕ)
    → sort_locations locs ≡ unmeasured query_loc (s ∷ ss)
    → Lexes (assemble (s ∷ ss) (rest ++ more)) 0 (s ∷ ss) (lexer (assemble (s ∷ ss) (rest ++ more)))
    → psch_normalize_query decimal lexer jstate locs
        (assemble (s ∷ ss) (rest ++ more))
        query_loc
        (length (assemble (s ∷ ss) rest))
      ≡ some (normalized decimal (jstate.highest_extern_param_id + 1) (s ∷ ss) rest)
unfolding psch_normalize_query fill_in_constant_lengths
psch_normalize_query_lem decimal lexer jstate locs query_loc s ss rest more sorted lexed =
    let query = assemble (s ∷ ss) (rest ++ more) in
    let start : query_loc + 0 ≡ query_loc = omega arith in
    let filled =
      subst
        (λ k.
          fill_lengths query query_loc none (unmeasured k (s ∷ ss)) (lexer query)
          ≡ locations k (s ∷ ss))
        start (fill_lengths-locations query query_loc none 0 (s ∷ ss) (lexer query) tt lexed) in
    rw (sorted) (
      ap (normalize_query decimal jstate query query_loc (length (assemble (s ∷ ss) rest))) filled
      ∙ normalize_query_within decimal jstate query_loc s ss rest more)

-- PschNormalizeQuery does not disclose the constants: for two texts that start with a statement,
-- the statements equal but for the bytes of their constants, of any length, it returns the same,
-- whatever follows the statements and wherever they stand; where in each of the texts the lexer's
-- tokens hold each constant, as one token or as a minus and a token, with any tokens between
-- them, no constant is squashed or an external parameter, and the locations in order are those of
-- the constants.
pub psch_normalize_query-redact :
    (decimal : ℕ → List ℕ) (lexer : List ℕ → List Token) (jstate : JumbleState)
    (locs locs' : List LocationLen) (query_loc query_loc' : ℕ) (s : Segment) (ss : List Segment)
    (c : List ℕ) (cs : List (List ℕ)) (rest more more' : List ℕ)
    → sort_locations locs ≡ unmeasured query_loc (s ∷ ss)
    → Lexes (assemble (s ∷ ss) (rest ++ more)) 0 (s ∷ ss) (lexer (assemble (s ∷ ss) (rest ++ more)))
    → sort_locations locs' ≡ unmeasured query_loc' (redact (s ∷ ss) (c ∷ cs))
    → Lexes
        (assemble (redact (s ∷ ss) (c ∷ cs)) (rest ++ more'))
        0
        (redact (s ∷ ss) (c ∷ cs))
        (lexer (assemble (redact (s ∷ ss) (c ∷ cs)) (rest ++ more')))
    → psch_normalize_query decimal lexer jstate locs'
        (assemble (redact (s ∷ ss) (c ∷ cs)) (rest ++ more'))
        query_loc'
        (length (assemble (redact (s ∷ ss) (c ∷ cs)) rest))
      ≡ psch_normalize_query decimal lexer jstate locs
          (assemble (s ∷ ss) (rest ++ more))
          query_loc
          (length (assemble (s ∷ ss) rest))
psch_normalize_query-redact decimal lexer jstate locs locs' query_loc query_loc' s ss c cs rest more
      more' sorted lexed sorted' lexed' =
    psch_normalize_query_lem decimal lexer jstate locs' query_loc' (record s { constant = c })
      (redact ss cs) rest more' sorted' lexed'
    ∙ (ap (λ t. some t)
          (normalized-redact decimal (jstate.highest_extern_param_id + 1) (s ∷ ss) (c ∷ cs) rest)
        ∙ sym (
            psch_normalize_query_lem decimal lexer jstate locs query_loc s ss rest more sorted
              lexed))
