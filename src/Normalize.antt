-- ===== src/Normalize.antt =====
-- src/hooks/query_normalize.c: the text of a statement with its constants replaced by `$1`, `$2`
-- and so on, once the lengths of the constants are known.
pub mod Laws
pub mod Lengths
use pg_stat_ch_otel_backend.Base.{
  ℕ, ◌+◌, ◌-◌, Bool, true, false, Option, none, some, List, [], ◌∷◌, ◌++◌, not, take, drop, length,
  ◌==◌, ◌&&◌, if◌then◌else◌,
}
use pg_stat_ch_otel_backend.Base.Int.{ℤ, pos, negsuc}

-- PostgreSQL's LocationLen; a duplicate has a negative length
pub record LocationLen : Type 0 where
  pub location : ℕ
  pub length : ℤ
  pub squashed : Bool
  pub extern_param : Bool

-- The fields of PostgreSQL's JumbleState that the code reads, besides the locations.
pub record JumbleState : Type 0 where
  pub has_squashed_lists : Bool
  pub highest_extern_param_id : ℕ

-- ShouldPreserveExternalParam
unfoldable pub should_preserve_external_param : JumbleState → LocationLen → Bool
should_preserve_external_param jstate loc = loc.extern_param && not jstate.has_squashed_lists

-- " /*, ... */"
abbrev pub squashed_comment : List ℕ
squashed_comment = 32 ∷ 47 ∷ 42 ∷ 44 ∷ 32 ∷ 46 ∷ 46 ∷ 46 ∷ 32 ∷ 42 ∷ 47 ∷ []

-- `decimal` is what `%d` prints.
module _ (decimal : ℕ → List ℕ) where
  -- The format "$%d%s" of PschNormalizeQuery
  unfoldable pub placeholder : ℕ → Bool → List ℕ
  placeholder n squashed = 36 ∷ (decimal n ++ (if squashed then squashed_comment else []))

  module _ (jstate : JumbleState) (query : List ℕ) (query_loc query_len : ℕ) where
    -- The loop of PschNormalizeQuery over the locations that are left, and the copy behind it.
    unfoldable pub replace_constants :
        List LocationLen
        → (quer_loc last_off last_tok_len num_constants_replaced : ℕ) → List ℕ
        → List ℕ
    replace_constants [] quer_loc last_off last_tok_len n norm_query =
        norm_query ++ take (query_len - quer_loc) (drop quer_loc query)
    replace_constants (l ∷ ls) quer_loc last_off last_tok_len n norm_query =
        if should_preserve_external_param jstate l
        then replace_constants ls quer_loc last_off last_tok_len n norm_query
        else elim l.length [
          | negsuc m ↦ replace_constants ls quer_loc last_off last_tok_len n norm_query
          | pos tok_len ↦
              let off = l.location - query_loc in
              let len_to_wrt = off - last_off - last_tok_len in
              replace_constants ls (off + tok_len) off tok_len (n + 1) (
                norm_query
                ++ (take len_to_wrt (drop quer_loc query)
                    ++ placeholder (n + 1 + jstate.highest_extern_param_id) l.squashed))
        ]

    -- PschNormalizeQuery below the call of FillInConstantLengths, on sorted locations with lengths.
    unfoldable pub normalize_query : List LocationLen → Option (List ℕ)
    normalize_query [] = none
    normalize_query (l ∷ ls) = some (replace_constants (l ∷ ls) 0 0 0 0 [])
