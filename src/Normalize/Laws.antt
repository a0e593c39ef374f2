-- ===== src/Normalize/Laws.antt =====
-- The normalized text depends on what stands between the constants, and on no constant.
use pg_stat_ch_otel_backend.Base.{
  ℕ, zero, suc, ◌+◌, ◌-◌, ◌≡◌, refl, sym, subst, ap, ◌∙◌, Bool, false, some, List, [], ◌∷◌, ◌++◌,
  append_assoc, take, drop, length, append-nil, length-append, arith,
}
use pg_stat_ch_otel_backend.Base.Int.{pos}
use pg_stat_ch_otel_backend.Normalize.{
  LocationLen, JumbleState, should_preserve_external_param, placeholder, replace_constants,
  normalize_query,
}

-- What stands before a constant, and the constant.
pub record Segment : Type 0 where
  pub gap : List ℕ
  pub constant : List ℕ
  pub squashed : Bool

-- The statement that the segments and the rest behind them make.
abbrev pub assemble : List Segment → List ℕ → List ℕ
assemble [] rest = rest
assemble (s ∷ ss) rest = s.gap ++ (s.constant ++ assemble ss rest)

-- The locations of the constants, where the first segment starts at `p` of the source text.
abbrev pub locations : ℕ → List Segment → List LocationLen
locations p [] = []
locations p (s ∷ ss) =
    record {
      location = p + length s.gap;
      length = pos (length s.constant);
      squashed = s.squashed;
      extern_param = false;
    }
    ∷ locations (p + length s.gap + length s.constant) ss

-- Each constant replaced by its placeholder, from the number `n` on.
abbrev pub normalized : (ℕ → List ℕ) → ℕ → List Segment → List ℕ → List ℕ
normalized decimal n [] rest = rest
normalized decimal n (s ∷ ss) rest =
    s.gap ++ (placeholder decimal n s.squashed ++ normalized decimal (n + 1) ss rest)

take-length-append : (xs ys : List ℕ) → take (length xs) (xs ++ ys) ≡ xs
take-length-append [] ys = refl
take-length-append (x ∷ xs) ys = ap (◌∷◌ x) (take-length-append xs ys)

drop-length-append : (xs ys : List ℕ) → drop (length xs) (xs ++ ys) ≡ ys
drop-length-append [] ys = refl
drop-length-append (x ∷ xs) ys = drop-length-append xs ys

drop-nil : (k : ℕ) → drop {A = ℕ} k [] ≡ []
drop-nil zero = refl
drop-nil (suc k) = refl

drop-drop : (p k : ℕ) (xs : List ℕ) → drop k (drop p xs) ≡ drop (p + k) xs
drop-drop zero k xs = ap (λ n. drop n xs) (omega arith)
drop-drop (suc p) k [] = drop-nil k ∙ sym (drop-nil (suc p + k))
drop-drop (suc p) k (x ∷ xs) =
    let moved : suc (p + k) ≡ suc p + k = omega arith in
    drop-drop p k xs ∙ ap (λ n. drop n (x ∷ xs)) moved

module _ (decimal : ℕ → List ℕ) (jstate : JumbleState) (query : List ℕ) (query_loc query_len : ℕ)
    (rest more : List ℕ) where
  -- `more` is what follows the statement in the source text.
  replace_constants-normalized :
      (ss : List Segment) (p last_off last_tok_len n : ℕ) (out : List ℕ)
      → last_off + last_tok_len ≡ p
      → drop p query ≡ assemble ss (rest ++ more)
      → query_len ≡ p + length (assemble ss rest)
      → replace_constants decimal jstate query query_loc query_len
          (locations (query_loc + p) ss)
          p
          last_off
          last_tok_len
          n
          out
        ≡ out ++ normalized decimal (n + 1 + jstate.highest_extern_param_id) ss rest
  unfolding replace_constants should_preserve_external_param
  replace_constants-normalized [] p last_off last_tok_len n out at e len =
      let left : query_len - p ≡ length rest = omega (arith, len) in
      ap (◌++◌ out) (rw (left, e) (take-length-append rest more))
  replace_constants-normalized (s ∷ ss) p last_off last_tok_len n out at e len =
      let ph : List ℕ = placeholder decimal (n + 1 + jstate.highest_extern_param_id) s.squashed in
      let ih =
        replace_constants-normalized ss (p + length s.gap + length s.constant) (p + length s.gap)
          (length s.constant) (n + 1) (out ++ (s.gap ++ ph)) refl behind
          (omega (
            arith,
            len,
            length-append s.gap (s.constant ++ assemble ss rest),
            length-append s.constant (assemble ss rest),
          )) in
      rw (off, written, before, next)
        (ih
          ∙ (ap (λ m. (out ++ (s.gap ++ ph)) ++ normalized decimal m ss rest) (omega arith)
              ∙ (append_assoc out (s.gap ++ ph) _ ∙ ap (◌++◌ out) (append_assoc s.gap ph _))))
    where
      off : query_loc + p + length s.gap - query_loc ≡ p + length s.gap
      off = omega arith

      written : p + length s.gap - last_off - last_tok_len ≡ length s.gap
      written = omega arith

      next :
          query_loc + p + length s.gap + length s.constant
          ≡ query_loc + (p + length s.gap + length s.constant)
      next = omega arith

      before : take (length s.gap) (drop p query) ≡ s.gap
      before = ap (take (length s.gap)) e ∙ take-length-append s.gap _

      behind : drop (p + length s.gap + length s.constant) query ≡ assemble ss (rest ++ more)
      behind =
          sym (drop-drop (p + length s.gap) (length s.constant) query)
          ∙ (ap (drop (length s.constant)) (
                sym (drop-drop p (length s.gap) query)
                ∙ (ap (drop (length s.gap)) e ∙ drop-length-append s.gap _))
              ∙ drop-length-append s.constant _)

-- A statement with whatever follows it in the source text.
pub normalize_query_within :
    (decimal : ℕ → List ℕ) (jstate : JumbleState) (query_loc : ℕ) (s : Segment) (ss : List Segment)
    (rest more : List ℕ)
    → normalize_query decimal jstate
        (assemble (s ∷ ss) (rest ++ more))
        query_loc
        (length (assemble (s ∷ ss) rest))
        (locations query_loc (s ∷ ss))
      ≡ some (normalized decimal (jstate.highest_extern_param_id + 1) (s ∷ ss) rest)
unfolding normalize_query
normalize_query_within decimal jstate query_loc s ss rest more =
    ap (λ t. some t)
      (subst
          (λ (l : ℕ).
            replace_constants decimal jstate whole query_loc (length (assemble (s ∷ ss) rest))
              (locations l (s ∷ ss)) 0 0 0 0 []
            ≡ normalized decimal (0 + 1 + jstate.highest_extern_param_id) (s ∷ ss) rest)
          (omega arith)
          (replace_constants-normalized decimal jstate whole query_loc
            (length (assemble (s ∷ ss) rest)) rest more (s ∷ ss) 0 0 0 0 [] refl refl (omega arith))
        ∙ ap (λ m. normalized decimal m (s ∷ ss) rest) (omega arith))
  where
    whole : List ℕ
    whole = assemble (s ∷ ss) (rest ++ more)

-- On a statement
pub normalize_query-normalized :
    (decimal : ℕ → List ℕ) (jstate : JumbleState) (query_loc : ℕ) (s : Segment) (ss : List Segment)
    (rest : List ℕ)
    → normalize_query decimal jstate
        (assemble (s ∷ ss) rest)
        query_loc
        (length (assemble (s ∷ ss) rest))
        (locations query_loc (s ∷ ss))
      ≡ some (normalized decimal (jstate.highest_extern_param_id + 1) (s ∷ ss) rest)
normalize_query-normalized decimal jstate query_loc s ss rest =
    subst
      (λ r.
        normalize_query decimal jstate (assemble (s ∷ ss) r) query_loc
          (length (assemble (s ∷ ss) rest)) (locations query_loc (s ∷ ss))
        ≡ some (normalized decimal (jstate.highest_extern_param_id + 1) (s ∷ ss) rest))
      (append-nil rest) (normalize_query_within decimal jstate query_loc s ss rest [])

-- The same with other constants.
abbrev pub redact : List Segment → List (List ℕ) → List Segment
redact [] cs = []
redact (s ∷ ss) [] = s ∷ ss
redact (s ∷ ss) (c ∷ cs) = record s { constant = c } ∷ redact ss cs

pub normalized-redact :
    (decimal : ℕ → List ℕ) (n : ℕ) (ss : List Segment) (cs : List (List ℕ)) (rest : List ℕ)
    → normalized decimal n (redact ss cs) rest ≡ normalized decimal n ss rest
normalized-redact decimal n [] cs rest = refl
normalized-redact decimal n (s ∷ ss) [] rest = refl
normalized-redact decimal n (s ∷ ss) (c ∷ cs) rest =
    ap (λ t. s.gap ++ (placeholder decimal n s.squashed ++ t))
      (normalized-redact decimal (n + 1) ss cs rest)
