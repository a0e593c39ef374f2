-- ===== src/Export/ArrowBatch/Cells.antt =====
-- The cells of the builders: what Append and Reset do to the values of each column.
use Prim.Native.String.{String}
use text.Mathlib.Text.{◌==◌}
use text.Mathlib.TextEquality.{eq_iff}
use pg_stat_ch_otel_backend.Base.{
  ◌≡◌, ◌⊎◌, refl, subst, ◌∙◌, Bool, true, false, not, ◌&&◌, Option, none, some, List, [], ◌∷◌, ◌++◌,
  arith, Bool-cases, inl, inr, if◌then◌else◌,
}
use pg_stat_ch_otel_backend.Export.Rows.{Value}
use pg_stat_ch_otel_backend.Export.ArrowBatch.{Arrow, append_all, reset_all}

-- What the code relies on of the Arrow library: the builders are separate, Append adds one value at
-- the end, Reset empties, and Finish gives the values as an array.
pub record IsArrow {N A : Type 0} (lib : Arrow N A) : Type 0 where
  pub cells : N → String → List Value
  pub contents : A → List Value
  pub appends :
      (name : String) (v : Value) (n : N)
      → (lib.append name v n).0 ≡ true
      → cells (lib.append name v n).1 name ≡ cells n name ++ v ∷ []
  pub appends_alone :
      (name other : String) (v : Value) (n : N)
      → (name == other) ≡ false
      → cells (lib.append name v n).1 other ≡ cells n other
  pub empties : (name : String) (n : N) → cells (lib.reset name n) name ≡ []
  pub empties_alone :
      (name other : String) (n : N)
      → (name == other) ≡ false
      → cells (lib.reset name n) other ≡ cells n other
  pub finishes :
      (name : String) (n : N) (a : A) → (lib.finish name n).0 ≡ some a → contents a ≡ cells n name
  pub finishes_alone :
      (name other : String) (n : N)
      → (name == other) ≡ false
      → cells (lib.finish name n).1 other ≡ cells n other

-- The value of a column in a row
abbrev pub value_of : String → List (String × Value) → Option Value
value_of name [] = none
value_of name ((n, v) ∷ vs) = if n == name then some v else value_of name vs

abbrev pub has : String → List String → Bool
has name [] = false
has name (n ∷ ns) = if n == name then true else has name ns

abbrev pub distinct : List String → Bool
distinct [] = true
distinct (n ∷ ns) = not (has n ns) && distinct ns

abbrev pub names : List (String × Value) → List String
names [] = []
names ((n, v) ∷ vs) = n ∷ names vs

value_of-none :
    (name : String) (vs : List (String × Value))
    → has name (names vs) ≡ false
    → value_of name vs ≡ none
value_of-none name [] h = refl
value_of-none name ((n, v) ∷ vs) h = ground (arith, value_of-none name vs)

pub distinct_cons :
    (m : String) (ns : List String)
    → distinct (m ∷ ns) ≡ true
    → (has m ns ≡ false) × (distinct ns ≡ true)
distinct_cons m ns h = ground arith

module _ {N A : Type 0} (lib : Arrow N A) (law : IsArrow lib) where
  open law use {cells, contents}

  -- The cells of a column after a row: one value more, where it has one.
  abbrev pub Extended : Option Value → List Value → List Value → Type 0
  Extended none before after = after ≡ before
  Extended (some v) before after = after ≡ before ++ v ∷ []

  pub append_all-cells :
      (vs : List (String × Value)) (n : N) (name : String)
      → distinct (names vs) ≡ true
      → (append_all lib vs n).0 ≡ true
      → Extended (value_of name vs) (cells n name) (cells (append_all lib vs n).1 name)
  unfolding append_all
  append_all-cells [] n name d h = refl
  append_all-cells ((m, v) ∷ vs) n name d h =
      let (fresh, d') = distinct_cons m (names vs) d in
      let n' = (lib.append m v n).1 in
      elim (Bool-cases (lib.append m v n).0) [
        | inr failed ↦ absurd (ground (arith, failed, h))
        | inl appended ↦
            let rest = append_all-cells vs n' name d' (ground (arith, appended, h)) in
            elim (Bool-cases (m == name)) [
              | inr other ↦
                  rw (appended, other)
                    (subst
                      (λ c. Extended (value_of name vs) c (cells (append_all lib vs n').1 name))
                      (law.appends_alone m name v n other) rest)
              | inl same ↦
                  let here : m ≡ name = (eq_iff m name).0 same in
                  let none_left =
                    value_of-none name vs (subst (λ k. has k (names vs) ≡ false) here fresh) in
                  let kept =
                    subst (λ o. Extended o (cells n' name) (cells (append_all lib vs n').1 name))
                      none_left rest in
                  rw (appended, same)
                    (kept
                      ∙ subst (λ k. cells n' k ≡ cells n k ++ v ∷ []) here
                          (law.appends m v n appended))
            ]
      ]

  reset_all-cells :
      (ns : List String) (n : N) (name : String)
      → cells n name ≡ []
      → cells (reset_all lib ns n) name ≡ []
  unfolding reset_all
  reset_all-cells [] n name h = h
  reset_all-cells (m ∷ ns) n name h =
      reset_all-cells ns (lib.reset m n) name (still (Bool-cases (m == name)))
    where
      still : ((m == name) ≡ true) ⊎ ((m == name) ≡ false) → cells (lib.reset m n) name ≡ []
      still (inl same) =
          subst (λ k. cells (lib.reset m n) k ≡ []) ((eq_iff m name).0 same) (law.empties m n)
      still (inr other) = law.empties_alone m name n other ∙ h

  pub reset_all-has :
      (ns : List String) (n : N) (name : String)
      → has name ns ≡ true
      → cells (reset_all lib ns n) name ≡ []
  unfolding reset_all
  reset_all-has [] n name h = cc
  reset_all-has (m ∷ ns) n name h = elim (Bool-cases (m == name)) [
    | inl same ↦
        reset_all-cells ns (lib.reset m n) name
          (subst (λ k. cells (lib.reset m n) k ≡ []) ((eq_iff m name).0 same) (law.empties m n))
    | inr other ↦ reset_all-has ns (lib.reset m n) name (ground (arith, other, h))
  ]
