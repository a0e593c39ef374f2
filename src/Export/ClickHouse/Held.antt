-- ===== src/Export/ClickHouse/Held.antt =====
-- What can be read back from the columns of a batch.
use Prim.Native.String.{String}
use text.Mathlib.Text.{◌==◌}
use pg_stat_ch_otel_backend.Base.{
  ℕ, ◌≡◌, ◌≢◌, refl, ap, ap₂, ◌∙◌, Bool, true, false, ◌&&◌, List, [], ◌∷◌, map, arith,
}
use pg_stat_ch_otel_backend.Base.Int.{ℤ}
use pg_stat_ch_otel_backend.Event.{Event}
use pg_stat_ch_otel_backend.Export.Rows.{Kind, Value, chars, int, uint, columns, row}
use pg_stat_ch_otel_backend.Export.Rows.Laws.{accepts, fits, row-fits}
use pg_stat_ch_otel_backend.Export.ClickHouse.Block.{Column, Cells, fixed, strings, factory}
use pg_stat_ch_otel_backend.Export.ClickHouse.Strings.{cut, cut-ends}
use pg_stat_ch_otel_backend.Export.ClickHouse.Table.{texts, hold, first_value, rest_values, table}

-- What a reader finds in a column.
abbrev pub held : Cells → List Value
held (fixed type_name vs) = vs
held (strings bytes offsets) = map chars (cut 0 bytes offsets)

-- The values of the rows, column by column.
abbrev pub by_column : List (String × Kind) → List (List (String × Value)) → List (List Value)
by_column [] rows = []
by_column (c ∷ cs) rows = map first_value rows ∷ by_column cs (map rest_values rows)

-- Each row has a value for each column.
abbrev all_fit : List (String × Kind) → List (List (String × Value)) → Bool
all_fit cs [] = true
all_fit cs (r ∷ rows) = fits cs r && all_fit cs rows

abbrev all_accepted : Kind → List Value → Bool
all_accepted kind [] = true
all_accepted kind (v ∷ vs) = accepts kind v && all_accepted kind vs

pub rows-fit : (events : List Event) → all_fit columns (map row events) ≡ true
rows-fit [] = refl
rows-fit (ev ∷ events) = ground (arith, row-fits ev, rows-fit events)

both : (a b : Bool) → a ≡ true → b ≡ true → (a && b) ≡ true
both a b p q = ground (arith, p, q)

parts : (a b : Bool) → (a && b) ≡ true → (a ≡ true) × (b ≡ true)
parts a b p = (ground (arith, p), ground (arith, p))

-- The columns of strings.
abbrev is_text : Kind → Bool
is_text Kind.lc_string = true
is_text Kind.hc_string = true
is_text Kind.db_name = true
is_text Kind.db_user = true
is_text Kind.db_operation = true
is_text Kind.db_query_text = true
is_text _ = false

-- They take nothing else.
not_int : (kind : Kind) (n : ℤ) → is_text kind ≡ true → accepts kind (int n) ≢ true
unfolding accepts
not_int Kind.lc_string n text ok = absurd (ground (arith, ok))
not_int _ n text ok = absurd (ground (arith, text, ok))

not_uint : (kind : Kind) (n : ℕ) → is_text kind ≡ true → accepts kind (uint n) ≢ true
unfolding accepts
not_uint Kind.lc_string n text ok = absurd (ground (arith, ok))
not_uint _ n text ok = absurd (ground (arith, text, ok))

chars-texts :
    (kind : Kind) (vs : List Value)
    → is_text kind ≡ true
    → all_accepted kind vs ≡ true
    → map chars (texts vs) ≡ vs
chars-texts kind [] text ok = refl
chars-texts kind (chars s ∷ vs) text ok =
    ap (◌∷◌ (chars s))
      (chars-texts kind vs text (parts (accepts kind (chars s)) (all_accepted kind vs) ok).1)
chars-texts kind (int n ∷ vs) text ok =
    absurd (not_int kind n text (parts (accepts kind (int n)) (all_accepted kind vs) ok).0)
chars-texts kind (uint n ∷ vs) text ok =
    absurd (not_uint kind n text (parts (accepts kind (uint n)) (all_accepted kind vs) ok).0)

held-strings :
    (kind : Kind) (vs : List Value)
    → is_text kind ≡ true
    → all_accepted kind vs ≡ true
    → held (hold (strings [] []) vs) ≡ vs
held-strings kind vs text ok = ap (map chars) (cut-ends (texts vs) 0) ∙ chars-texts kind vs text ok

held-hold :
    (kind : Kind) (vs : List Value)
    → all_accepted kind vs ≡ true
    → held (hold (factory kind).1 vs) ≡ vs
unfolding factory
held-hold Kind.lc_string vs ok = held-strings Kind.lc_string vs refl ok
held-hold Kind.hc_string vs ok = held-strings Kind.hc_string vs refl ok
held-hold Kind.db_name vs ok = held-strings Kind.db_name vs refl ok
held-hold Kind.db_user vs ok = held-strings Kind.db_user vs refl ok
held-hold Kind.db_operation vs ok = held-strings Kind.db_operation vs refl ok
held-hold Kind.db_query_text vs ok = held-strings Kind.db_query_text vs refl ok
held-hold _ vs ok = refl

first_fit :
    (name : String) (kind : Kind) (cs : List (String × Kind)) (r : List (String × Value))
    → fits ((name, kind) ∷ cs) r ≡ true
    → (accepts kind (first_value r) ≡ true) × (fits cs (rest_values r) ≡ true)
unfolding fits
first_fit name kind cs [] ok = absurd (ground (arith, ok))
first_fit name kind cs ((name', v) ∷ r) ok =
    let (front, later) = parts ((name == name') && accepts kind v) (fits cs r) ok in
    ((parts (name == name') (accepts kind v) front).1, later)

first-all_fit :
    (name : String) (kind : Kind) (cs : List (String × Kind)) (rows : List (List (String × Value)))
    → all_fit ((name, kind) ∷ cs) rows ≡ true
    → (all_accepted kind (map first_value rows) ≡ true) × (all_fit cs (map rest_values rows) ≡ true)
first-all_fit name kind cs [] ok = (refl, refl)
first-all_fit name kind cs (r ∷ rows) ok =
    let (here, later) = parts (fits ((name, kind) ∷ cs) r) (all_fit ((name, kind) ∷ cs) rows) ok in
    let (own, others) = first_fit name kind cs r here in
    let (all_own, all_others) = first-all_fit name kind cs rows later in
    (
      both (accepts kind (first_value r)) (all_accepted kind (map first_value rows)) own all_own,
      both (fits cs (rest_values r)) (all_fit cs (map rest_values rows)) others all_others,
    )

pub held-table :
    (cs : List (String × Kind)) (rows : List (List (String × Value)))
    → all_fit cs rows ≡ true
    → map (λ (c : Column). held c.cells) (table cs rows) ≡ by_column cs rows
held-table [] rows ok = refl
held-table ((name, kind) ∷ cs) rows ok =
    let (own, later) = first-all_fit name kind cs rows ok in
    ap₂ (◌∷◌) (held-hold kind (map first_value rows) own)
      (held-table cs (map rest_values rows) later)
