-- ===== src/Export/ArrowBatch/Attributes.antt =====
-- The attributes of a deployment in src/export/arrow_batch.cc, read from "key:value;key:value". A
-- text is its bytes; `isspace` of the C library is a parameter.
pub mod Split
pub mod RoundTrip
use pg_stat_ch_otel_backend.Base.{
  ℕ, zero, suc, ◌+◌, Bool, true, false, Option, none, some, List, [], ◌∷◌, ◌++◌, length, take, drop,
  list_eq, ◌==◌, if◌then◌else◌,
}
use pg_stat_ch_otel_backend.Strings.{skip_leading, trimmed_len}

-- The unordered map `extra_attrs`, in the order in which its keys came
abbrev pub ExtraAttrs : Type 0
ExtraAttrs = List (List ℕ × List ℕ)

-- `find` of a character in a text
unfoldable pub index_of : ℕ → List ℕ → Option ℕ
index_of c [] = none
index_of c (x ∷ xs) =
    if x == c then some 0 else elim (index_of c xs) [ none ↦ none | some i ↦ some (suc i) ]

-- `find` of a key in `extra_attrs`
unfoldable pub find_attr : List ℕ → ExtraAttrs → Option (List ℕ)
find_attr key [] = none
find_attr key ((k, v) ∷ attrs) = if list_eq k key then some v else find_attr key attrs

-- ExtraAttr
unfoldable pub extra_attr : List ℕ → ExtraAttrs → List ℕ
unfolding find_attr
extra_attr key attrs = elim (find_attr key attrs) [ none ↦ [] | some v ↦ v ]

-- `extra_attrs.emplace`, which keeps what stands there
unfoldable pub emplace : List ℕ → List ℕ → ExtraAttrs → ExtraAttrs
unfolding find_attr
emplace key value attrs = elim (find_attr key attrs) [
  | some v ↦ attrs
  | none ↦ attrs ++ (key, value) ∷ []
]

module _ (isspace : ℕ → Bool) where
  -- TrimAsciiWhitespace
  unfoldable pub trim_ascii_whitespace : List ℕ → List ℕ
  unfolding skip_leading trimmed_len
  trim_ascii_whitespace input =
      let text = skip_leading isspace input in take (trimmed_len isspace text (length text)) text

  -- What the loop of ParseExtraAttributes does with a token.
  unfoldable pub add_token : List ℕ → ExtraAttrs → ExtraAttrs
  unfolding index_of trim_ascii_whitespace emplace
  add_token token attrs = elim (index_of b':' token) [
    | none ↦ attrs
    | some sep ↦
        let value = trim_ascii_whitespace (drop (suc sep) token) in
        elim (trim_ascii_whitespace (take sep token)) [
          | [] ↦ attrs
          | c ∷ cs ↦ emplace (c ∷ cs) value attrs
        ]
  ]

  -- The loop of ParseExtraAttributes, with fuel; none where that runs out.
  unfoldable pub parse_loop : ℕ → List ℕ → ExtraAttrs → Option ExtraAttrs
  unfolding index_of add_token
  parse_loop zero input attrs = none
  parse_loop (suc fuel) [] attrs = some attrs
  parse_loop (suc fuel) (c ∷ cs) attrs = elim (index_of b';' (c ∷ cs)) [
    | none ↦ some (add_token (c ∷ cs) attrs)
    | some next ↦ parse_loop fuel (drop (suc next) (c ∷ cs)) (add_token (take next (c ∷ cs)) attrs)
  ]

  -- ParseExtraAttributes
  unfoldable pub parse_extra_attributes : List ℕ → ExtraAttrs
  unfolding parse_loop
  parse_extra_attributes input = elim (parse_loop (length input + 1) input []) [
    | none ↦ []
    | some attrs ↦ attrs
  ]
