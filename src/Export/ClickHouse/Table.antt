-- ===== src/Export/ClickHouse/Table.antt =====
-- The columns of a batch once some rows are in, and what a row adds to them.
use Prim.Native.String.{String}
use text.Mathlib.Text.{◌==◌}
use pg_stat_ch_otel_backend.Base.{
  ℕ, ◌+◌, ◌≡◌, refl, sym, ap, ap₂, ◌∙◌, Bool, true, false, ◌&&◌, not, List, [], ◌∷◌, ◌++◌,
  append-nil, append_assoc, map-append, length, length-append, map, arith,
}
use pg_stat_ch_otel_backend.Event.{Event}
use pg_stat_ch_otel_backend.Export.Rows.{Kind, Value, chars, int, uint, columns, row}
use pg_stat_ch_otel_backend.Export.Rows.Laws.{accepts, fits}
use pg_stat_ch_otel_backend.Export.ClickHouse.Block.{
  Column, Cells, fixed, strings, push, clear, factory, append_value,
}
use pg_stat_ch_otel_backend.Export.ClickHouse.Strings.{concat, ends}

-- The texts of the values.
abbrev pub texts : List Value → List (List ℕ)
texts [] = []
texts (chars s ∷ vs) = s ∷ texts vs
texts (int n ∷ vs) = texts vs
texts (uint n ∷ vs) = texts vs

-- Cells with these values, like the cells of a factory.
abbrev pub hold : Cells → List Value → Cells
hold (fixed type_name _) vs = fixed type_name vs
hold (strings _ _) vs = strings (concat (texts vs)) (ends 0 (texts vs))

abbrev pub first_value : List (String × Value) → Value
first_value [] = uint 0
first_value ((name, v) ∷ r) = v

abbrev pub rest_values : List (String × Value) → List (String × Value)
rest_values [] = []
rest_values ((name, v) ∷ r) = r

-- The columns with these rows: each holds one value of each row, in order.
abbrev pub table : List (String × Kind) → List (List (String × Value)) → List Column
table [] rows = []
table ((name, kind) ∷ cs) rows =
    record {
      name = name;
      cpp_type = (factory kind).0;
      cells = hold (factory kind).1 (map first_value rows);
    }
    ∷ table cs (map rest_values rows)

concat-append : (ss : List (List ℕ)) (s : List ℕ) → concat (ss ++ s ∷ []) ≡ concat ss ++ s
concat-append [] s = append-nil s
concat-append (t ∷ ss) s =
    ap (λ u. t ++ u) (concat-append ss s) ∙ sym (append_assoc t (concat ss) s)

ends-append :
    (ss : List (List ℕ)) (s : List ℕ) (start : ℕ)
    → ends start (ss ++ s ∷ []) ≡ ends start ss ++ (start + length (concat ss ++ s)) ∷ []
ends-append [] s start = refl
ends-append (t ∷ ss) s start =
    let at : start + length t + length (concat ss ++ s) ≡ start + length (t ++ concat ss ++ s) =
      omega (
        arith,
        length-append (t ++ concat ss) s,
        length-append t (concat ss),
        length-append (concat ss) s,
      ) in
    ap (◌∷◌ (start + length t))
      (ends-append ss s (start + length t) ∙ ap (λ n. ends (start + length t) ss ++ n ∷ []) at)

texts-append : (vs : List Value) (s : List ℕ) → texts (vs ++ chars s ∷ []) ≡ texts vs ++ s ∷ []
texts-append [] s = refl
texts-append (chars t ∷ vs) s = ap (◌∷◌ t) (texts-append vs s)
texts-append (int n ∷ vs) s = texts-append vs s
texts-append (uint n ∷ vs) s = texts-append vs s

-- A value that the column accepts goes behind the others.
push-strings :
    (b o : List ℕ) (vs : List Value) (s : List ℕ)
    → push (chars s) (hold (strings b o) vs) ≡ hold (strings b o) (vs ++ chars s ∷ [])
unfolding push
push-strings b o vs s = rw (texts-append vs s) (
    ap₂ strings (sym (concat-append (texts vs) s))
      (ap (λ n. ends 0 (texts vs) ++ n ∷ []) (omega arith) ∙ sym (ends-append (texts vs) s 0)))

push-hold :
    (kind : Kind) (v : Value) (vs : List Value)
    → accepts kind v ≡ true
    → push v (hold (factory kind).1 vs) ≡ hold (factory kind).1 (vs ++ v ∷ [])
unfolding push factory accepts
push-hold Kind.lc_string (chars s) vs ok = push-strings [] [] vs s
push-hold Kind.hc_string (chars s) vs ok = push-strings [] [] vs s
push-hold Kind.db_name (chars s) vs ok = push-strings [] [] vs s
push-hold Kind.db_user (chars s) vs ok = push-strings [] [] vs s
push-hold Kind.db_operation (chars s) vs ok = push-strings [] [] vs s
push-hold Kind.db_query_text (chars s) vs ok = push-strings [] [] vs s
push-hold Kind.lc_int16 v vs ok = refl
push-hold Kind.lc_int32 v vs ok = refl
push-hold Kind.hc_int64 v vs ok = refl
push-hold Kind.timestamp v vs ok = refl
push-hold Kind.lc_uint8 v vs ok = refl
push-hold Kind.hc_uint64 v vs ok = refl
push-hold Kind.db_duration v vs ok = refl
push-hold _ _ vs ok = absurd (ground (arith, ok))

clear-hold : (c : Cells) (vs : List Value) → clear (hold c vs) ≡ hold c []
unfolding clear
clear-hold (fixed type_name ws) vs = refl
clear-hold (strings bytes offsets) vs = refl

-- Each value on its own column.
abbrev pub push_row : List (String × Value) → List Column → List Column
push_row [] cs = []
push_row (x ∷ r) [] = []
push_row ((name, v) ∷ r) (c ∷ cs) = record c { cells = push v c.cells } ∷ push_row r cs

-- A row that has a value for each column goes behind the others.
pub push_row-table :
    (cs : List (String × Kind)) (r : List (String × Value)) (rows : List (List (String × Value)))
    → fits cs r ≡ true
    → push_row r (table cs rows) ≡ table cs (rows ++ r ∷ [])
unfolding fits
push_row-table [] [] rows ok = refl
push_row-table [] (x ∷ r) rows ok = absurd (ground (arith, ok))
push_row-table ((name, kind) ∷ cs) [] rows ok = absurd (ground (arith, ok))
push_row-table ((name, kind) ∷ cs) ((name', v) ∷ r) rows ok =
    let own : accepts kind v ≡ true = ground (arith, ok) in
    let later : fits cs r ≡ true = ground (arith, ok) in
    let grown =
      push-hold kind v (map first_value rows) own
      ∙ ap (hold (factory kind).1) (sym (map-append first_value rows (((name', v) ∷ r) ∷ []))) in
    ap₂
      (λ (c : Cells) (rest : List Column).
        record { name = name; cpp_type = (factory kind).0; cells = c } ∷ rest)
      grown
      (push_row-table cs r (map rest_values rows) later
        ∙ ap (table cs) (sym (map-append rest_values rows (((name', v) ∷ r) ∷ []))))

-- The name is none of these.
abbrev absent_column : String → List Column → Bool
absent_column name [] = true
absent_column name (c ∷ cs) = not (c.name == name) && absent_column name cs

abbrev absent_value : String → List (String × Value) → Bool
absent_value name [] = true
absent_value name ((name', v) ∷ r) = not (name == name') && absent_value name r

-- The row has the names of the columns, each of them once.
abbrev pub aligned : List (String × Value) → List Column → Bool
aligned [] [] = true
aligned ((name, v) ∷ r) (c ∷ cs) =
    (c.name == name) && absent_column name cs && absent_value c.name r && aligned r cs
aligned _ _ = false

-- The calls of Append for a row, on the columns.
abbrev pub append_row : List (String × Value) → List Column → List Column
append_row [] cs = cs
append_row ((name, v) ∷ r) cs = append_row r (append_value name v cs)

append_value-absent :
    (name : String) (v : Value) (cs : List Column)
    → absent_column name cs ≡ true
    → append_value name v cs ≡ cs
unfolding append_value
append_value-absent name v [] new = refl
append_value-absent name v (c ∷ cs) new =
    ground (arith, new, append_value-absent name v cs (ground (arith, new)))

append_row-absent :
    (r : List (String × Value)) (c : Column) (cs : List Column)
    → absent_value c.name r ≡ true
    → append_row r (c ∷ cs) ≡ c ∷ append_row r cs
unfolding append_value
append_row-absent [] c cs new = refl
append_row-absent ((name, v) ∷ r) c cs new =
    let other : (c.name == name) ≡ false = ground (arith, new) in
    simp (other, append_value)
      (append_row-absent r c (append_value name v cs) (ground (arith, new)))

pub append_row-push_row :
    (r : List (String × Value)) (cs : List Column)
    → aligned r cs ≡ true
    → append_row r cs ≡ push_row r cs
unfolding append_value
append_row-push_row [] [] ok = refl
append_row-push_row [] (c ∷ cs) ok = absurd (ground (arith, ok))
append_row-push_row (x ∷ r) [] ok = absurd (ground (arith, ok))
append_row-push_row ((name, v) ∷ r) (c ∷ cs) ok =
    let own : (c.name == name) ≡ true = ground (arith, ok) in
    let new : absent_column name cs ≡ true = ground (arith, ok) in
    let once : absent_value c.name r ≡ true = ground (arith, ok) in
    let later : aligned r cs ≡ true = ground (arith, ok) in
    let pushed : Column = record c { cells = push v c.cells } in
    rw (own, append_value-absent name v cs new, append_value)
      (append_row-absent r pushed cs once ∙ ap (◌∷◌ pushed) (append_row-push_row r cs later))

pub row-aligned :
    (ev : Event) (rows : List (List (String × Value)))
    → aligned (row ev) (table columns rows) ≡ true
unfolding row columns
row-aligned ev rows = refl

-- The columns before a batch: none yet, or those of the rows before.
pub data IsPrepared : List Column → Type 0 where
  unused : IsPrepared []
  filled : (rows : List (List (String × Value))) → IsPrepared (table columns rows)

pub clear_table :
    (cs : List (String × Kind)) (rows : List (List (String × Value)))
    → map (λ (c : Column). record c { cells = clear c.cells }) (table cs rows) ≡ table cs []
clear_table [] rows = refl
clear_table ((name, kind) ∷ cs) rows =
    ap₂
      (λ (c : Cells) (rest : List Column).
        record { name = name; cpp_type = (factory kind).0; cells = c } ∷ rest)
      (clear-hold (factory kind).1 (map first_value rows)) (clear_table cs (map rest_values rows))
