-- ===== src/Export/ArrowBatch/Attributes/Split.antt =====
-- The loop over the attributes ends, and is a fold over the tokens between the semicolons.
use pg_stat_ch_otel_backend.Base.{
  ℕ, zero, suc, ◌+◌, ◌<◌, ◌≡◌, refl, Bool, none, some, List, [], ◌∷◌, length, length-drop, take,
  drop, ◌==◌, if◌then◌else◌, arith, Bool-cases, Option-cases, inl, inr,
}
use pg_stat_ch_otel_backend.Export.ArrowBatch.Attributes.{
  ExtraAttrs, index_of, add_token, parse_loop, parse_extra_attributes,
}

-- A character before the first token.
abbrev pub cons_head : ℕ → List (List ℕ) → List (List ℕ)
cons_head c [] = (c ∷ []) ∷ []
cons_head c (t ∷ ts) = (c ∷ t) ∷ ts

-- The tokens of a text between the characters `d`, empty ones included.
unfoldable pub split_on : ℕ → List ℕ → List (List ℕ)
split_on d [] = [] ∷ []
split_on d (c ∷ cs) = if c == d then [] ∷ split_on d cs else cons_head c (split_on d cs)

-- What `find` says of the tokens.
pub split_on-none : (d : ℕ) (xs : List ℕ) → index_of d xs ≡ none → split_on d xs ≡ xs ∷ []
unfolding index_of split_on
split_on-none d [] h = refl
split_on-none d (x ∷ xs) h = ground (arith, split_on-none d xs)

pub split_on-some :
    (d : ℕ) (xs : List ℕ) (i : ℕ)
    → index_of d xs ≡ some i
    → split_on d xs ≡ take i xs ∷ split_on d (drop (suc i) xs)
unfolding index_of split_on
split_on-some d [] i h = cc
split_on-some d (x ∷ xs) zero h = elim (Bool-cases (x == d)) [
  | inl e ↦ rw (e, split_on) refl
  | inr e ↦ absurd (ground (arith, e, h))
]
split_on-some d (x ∷ xs) (suc i) h = ground (arith, split_on-some d xs i)

module _ (isspace : ℕ → Bool) where
  -- Each token in turn.
  unfoldable pub add_tokens : List (List ℕ) → ExtraAttrs → ExtraAttrs
  add_tokens [] attrs = attrs
  add_tokens (t ∷ ts) attrs = add_tokens ts (add_token isspace t attrs)

  pub add_tokens_empty : (attrs : ExtraAttrs) → add_tokens (split_on b';' []) attrs ≡ attrs
  unfolding add_tokens split_on add_token
  add_tokens_empty attrs = refl

  -- With fuel above the length of the input the loop of ParseExtraAttributes ends, and it has
  -- added every token between the semicolons, in their order, empty tokens and a trailing
  -- semicolon included.
  pub parse_loop_total :
      (fuel : ℕ) (input : List ℕ) (attrs : ExtraAttrs)
      → length input < fuel
      → parse_loop isspace fuel input attrs ≡ some (add_tokens (split_on b';' input) attrs)
  unfolding parse_loop add_tokens
  parse_loop_total zero input attrs h = absurd (omega arith)
  parse_loop_total (suc fuel) [] attrs h = rw add_tokens_empty
  parse_loop_total (suc fuel) (c ∷ cs) attrs h = elim (Option-cases (index_of b';' (c ∷ cs))) [
    | inl e ↦ rw (e, split_on-none b';' (c ∷ cs) e, parse_loop) refl
    | inr (i, e) ↦
        rw (e, split_on-some b';' (c ∷ cs) i e, parse_loop)
          (parse_loop_total fuel (drop (suc i) (c ∷ cs)) (add_token isspace (take i (c ∷ cs)) attrs)
            (omega (arith, length-drop (suc i) (c ∷ cs))))
  ]

  pub parse_extra_attributes-add_tokens :
      (input : List ℕ) → parse_extra_attributes isspace input ≡ add_tokens (split_on b';' input) []
  unfolding parse_extra_attributes
  parse_extra_attributes-add_tokens input =
      rw (parse_loop_total (length input + 1) input [] (omega arith), parse_extra_attributes) refl
