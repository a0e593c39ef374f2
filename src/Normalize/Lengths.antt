-- ===== src/Normalize/Lengths.antt =====
-- FillInConstantLengths of src/hooks/query_normalize.c. PostgreSQL's lexer is a parameter: the tokens
-- that it finds in a text. It ends the text behind each token with a NUL, so that `strlen` from a place
-- in a token measures up to the token's end.
pub mod Laws
use pg_stat_ch_otel_backend.Base.{
  ℕ, ◌+◌, ◌-◌, Bool, true, false, Option, none, some, List, [], ◌∷◌, leb, get_or, ◌==◌,
  if◌then◌else◌,
}
use pg_stat_ch_otel_backend.Base.Int.{ℤ, pos, negsuc}
use pg_stat_ch_otel_backend.Normalize.{LocationLen, JumbleState, normalize_query}

-- The place of a token, from its first byte up to the one behind it.
pub record Token : Type 0 where
  pub first : ℕ
  pub end : ℕ

-- qsort by CompLocation
unfoldable pub insert_location : LocationLen → List LocationLen → List LocationLen
insert_location l [] = l ∷ []
insert_location l (m ∷ ms) =
    if leb l.location m.location then l ∷ m ∷ ms else m ∷ insert_location l ms

unfoldable pub sort_locations : List LocationLen → List LocationLen
unfolding insert_location
sort_locations [] = []
sort_locations (l ∷ ls) = insert_location l (sort_locations ls)

-- The location is that of the one before.
abbrev pub duplicate : Option ℕ → ℕ → Bool
duplicate none location = false
duplicate (some last) location = location == last

module _ (query : List ℕ) where
  -- The token of a constant, behind its sign if it has one: the end of it, or none at the end of the
  -- text, and the tokens that are left.
  unfoldable pub signed_token : ℕ → Token → List Token → Option (ℕ × List Token)
  signed_token loc t [] = if get_or query loc 0 == b'-' then none else some (t.end, [])
  signed_token loc t (u ∷ ts) =
      if get_or query loc 0 == b'-' then some (u.end, ts) else some (t.end, u ∷ ts)

  -- The inner loop: the first token from `loc` on.
  unfoldable pub measure : ℕ → List Token → Option (ℕ × List Token)
  unfolding signed_token
  measure loc [] = none
  measure loc (t ∷ ts) = if leb loc t.first then signed_token loc t ts else measure loc ts

  -- The outer loop over the locations, after one at `last`
  unfoldable pub fill_lengths : ℕ → Option ℕ → List LocationLen → List Token → List LocationLen
  unfolding measure
  fill_lengths query_loc last [] tokens = []
  fill_lengths query_loc last (l ∷ ls) tokens =
      let loc = l.location - query_loc in
      let rest = fill_lengths query_loc (some l.location) ls in
      if duplicate last l.location
      then record l { length = negsuc 0 } ∷ rest tokens
      else (if l.squashed then l ∷ rest tokens else elim (measure loc tokens) [
        | none ↦ l ∷ ls
        | some (end, tokens') ↦ record l { length = pos (end - loc) } ∷ rest tokens'
      ])

-- FillInConstantLengths
unfoldable pub fill_in_constant_lengths :
    (List ℕ → List Token) → List ℕ → ℕ → List LocationLen → List LocationLen
unfolding fill_lengths sort_locations
fill_in_constant_lengths lexer query query_loc locs =
    fill_lengths query query_loc none (sort_locations locs) (lexer query)

-- PschNormalizeQuery
unfoldable pub psch_normalize_query :
    (ℕ → List ℕ)
    → (List ℕ → List Token)
    → JumbleState
    → List LocationLen
    → List ℕ
    → ℕ
    → ℕ
    → Option (List ℕ)
unfolding fill_in_constant_lengths normalize_query
psch_normalize_query decimal lexer jstate locs query query_loc query_len =
    normalize_query decimal jstate query query_loc query_len
      (fill_in_constant_lengths lexer query query_loc locs)
