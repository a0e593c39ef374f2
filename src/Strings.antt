-- ===== src/Strings.antt =====
-- src/hooks/string_utils.h: the helpers that copy and trim strings. `isspace` of the C library is a
-- parameter; a text is its bytes without the NUL where it comes in, and with it where it is kept.
use pg_stat_ch_otel_backend.Base.{
  ℕ, zero, suc, ◌-◌, ◌^◌, ◌%◌, ◌<◌, ◌≤◌, ◌≡◌, subst, Bool, true, false, Option, none, some, List,
  [], ◌∷◌, ◌++◌, min, take, length, get_or, ◌==◌, if◌then◌else◌, arith, Bool-cases, dec_lt, inl,
  inr,
}

-- PschCopyName: what the destination holds, and the length as a `uint8`
unfoldable pub copy_name : ℕ → List ℕ → List ℕ × ℕ
copy_name dst_size src =
    let len = min (length src) (dst_size - 1) in (take len src ++ 0 ∷ [], len % 2 ^ 8)

module _ (isspace : ℕ → Bool) where
  -- The loop of PschTrimTrailing: the length that is left of the first `len` bytes.
  unfoldable pub trimmed_len : List ℕ → ℕ → ℕ
  trimmed_len str zero = zero
  trimmed_len str (suc len) =
      let rest = trimmed_len str len in if isspace (get_or str len 0) then rest else suc len

  -- The loop of PschCopyTrimmed and PschCopyTrimmedStatement over the leading bytes.
  unfoldable pub skip_leading : List ℕ → List ℕ
  skip_leading [] = []
  skip_leading (c ∷ cs) = if isspace c then skip_leading cs else c ∷ cs

  -- PschCopyTrimmed; the source may be NULL
  unfoldable pub copy_trimmed : ℕ → Option (List ℕ) → List ℕ × ℕ
  copy_trimmed dst_size none = (if dst_size == 0 then [] else 0 ∷ [], 0)
  copy_trimmed dst_size (some src) =
      if dst_size == 0
      then ([], 0)
      else (let text = skip_leading src in
          let len = trimmed_len text (min (length text) (dst_size - 1)) in
          (take len text ++ 0 ∷ [], len))

  -- PschCopyTrimmedStatement, of the first `query_len` bytes
  unfoldable pub copy_trimmed_statement : Option (List ℕ) → ℕ → Option (List ℕ)
  copy_trimmed_statement none query_len = none
  copy_trimmed_statement (some query_text) query_len =
      if query_len == 0
      then none
      else (let text = skip_leading (take query_len query_text) in
          some (take (trimmed_len text (length text)) text ++ 0 ∷ []))

  -- PschTrimTrailing keeps at most the length it is given; every byte that it cuts off is white
  -- space, and the last byte that it keeps, if there is one, is not.
  pub trimmed_len_lem :
      (str : List ℕ) (len : ℕ)
      → let n = trimmed_len str len in
        (n ≤ len)
        × ((i : ℕ) → n ≤ i → i < len → isspace (get_or str i 0) ≡ true)
        × (0 < n → isspace (get_or str (n - 1) 0) ≡ false)
  unfolding trimmed_len
  trimmed_len_lem str zero = (omega arith, λ i a b. absurd (omega arith), λ a. absurd (omega arith))
  trimmed_len_lem str (suc len) = elim (Bool-cases (isspace (get_or str len 0))) [
    | inl space ↦
        let (le, cut, kept) = trimmed_len_lem str len in
        rw (space, trimmed_len)
          (
            omega arith,
            λ i a b. elim (dec_lt i len) [
              | yes below ↦ cut i a below
              | no last ↦
                  (let here : len ≡ i = omega arith in
                    subst (λ (j : ℕ). isspace (get_or str j 0) ≡ true) here space)
            ],
            kept,
          )
    | inr other ↦
        rw (other, trimmed_len)
          (
            omega arith,
            λ i a b. absurd (omega arith),
            λ a.
                (let here : len ≡ suc len - 1 = omega arith in
                  subst (λ (j : ℕ). isspace (get_or str j 0) ≡ false) here other),
          )
  ]
