-- ===== src/Export/ArrowBatch/Blocks.antt =====
-- What Finish writes: a block with the values of the appended events and no others.
use Prim.Native.String.{String}
use text.Mathlib.Text.{◌==◌}
use text.Mathlib.TextEquality.{eq_iff}
use text.Mathlib.TextPositions.{eq_refl}
use pg_stat_ch_otel_backend.Base.{
  ℕ, ◌≡◌, refl, sym, subst, ap, ◌∙◌, true, false, not, ◌||◌, some, List, [], ◌∷◌, map, length,
  arith, Bool-cases, Option-cases, inl, inr, leb,
}
use pg_stat_ch_otel_backend.Event.{Event}
use pg_stat_ch_otel_backend.Export.ArrowBatch.Attributes.{ExtraAttrs}
use pg_stat_ch_otel_backend.Export.ArrowBatch.Schema.{finish_order, schema}
use pg_stat_ch_otel_backend.Export.ArrowBatch.{
  Arrow, Impl, finish_all, write_block, finish_block, finish,
}
use pg_stat_ch_otel_backend.Export.ArrowBatch.Cells.{IsArrow, has, distinct, distinct_cons}
use pg_stat_ch_otel_backend.Export.ArrowBatch.Holds.{Holds, column_of}

-- Finish takes the arrays in the order of the schema.
finish_order-schema : finish_order ≡ map (λ f. f.0) schema
unfolding finish_order schema
finish_order-schema = refl

finish_order-distinct : distinct finish_order ≡ true
unfolding finish_order
finish_order-distinct = refl

other_name :
    (m name : String) (ns : List String)
    → has m ns ≡ false
    → has name ns ≡ true
    → (m == name) ≡ false
other_name m name ns fresh h = elim (Bool-cases (m == name)) [
  | inr other ↦ other
  | inl same ↦
      absurd (ground (arith, fresh, subst (λ k. has k ns ≡ true) (sym ((eq_iff m name).0 same)) h))
]

module _ {N A : Type 0} (lib : Arrow N A) (law : IsArrow lib) where
  open law use {cells, contents}

  -- One array for each column, with the values of the events.
  abbrev pub AreColumns : ExtraAttrs → List ℕ → List Event → List String → List A → Type 0
  AreColumns attrs version events [] [] = Unit {0}
  AreColumns attrs version events (name ∷ ns) (a ∷ arrays) =
      (map some (contents a) ≡ column_of attrs version name events)
      × AreColumns attrs version events ns arrays
  AreColumns attrs version events [] (a ∷ arrays) = ⊥
  AreColumns attrs version events (name ∷ ns) [] = ⊥

  -- Finish of all builders succeeds where that of each does.
  finish_all_cons :
      (m : String) (ns : List String) (n : N) (arrays : List A)
      → (finish_all lib (m ∷ ns) n).0 ≡ some arrays
      → (a : A) × (rest : List A) × ((lib.finish m n).0 ≡ some a)
        × ((finish_all lib ns (lib.finish m n).1).0 ≡ some rest)
        × (arrays ≡ a ∷ rest)
  unfolding finish_all
  finish_all_cons m ns n arrays e = elim (Option-cases (lib.finish m n).0) [
    | inl fails ↦ absurd (ground (arith, fails, e))
    | inr (a, made) ↦ elim (Option-cases (finish_all lib ns (lib.finish m n).1).0) [
      | inl fails ↦ absurd (ground (arith, made, fails, e))
      | inr (rest, more) ↦ (a, rest, made, more, ground (arith, made, more, e))
    ]
  ]

  finish_all-AreColumns :
      (attrs : ExtraAttrs) (version : List ℕ) (events : List Event) (ns : List String) (n : N)
      (arrays : List A)
      → distinct ns ≡ true
      → ((name : String)
          → has name ns ≡ true
          → map some (cells n name) ≡ column_of attrs version name events)
      → (finish_all lib ns n).0 ≡ some arrays
      → AreColumns attrs version events ns arrays
  unfolding finish_all
  finish_all-AreColumns attrs version events [] n [] d held e = tt
  finish_all-AreColumns attrs version events [] n (a ∷ arrays) d held e = ground (arith, e)
  finish_all-AreColumns attrs version events (m ∷ ns) n arrays d held e =
      let (a, rest, made, more, split) = finish_all_cons m ns n arrays e in
      let (fresh, d') = distinct_cons m ns d in
      subst (AreColumns attrs version events (m ∷ ns)) (sym split) (
        ap (map some) (law.finishes m n a made) ∙ held m (rw (eq_refl m) refl),
        finish_all-AreColumns attrs version events ns (lib.finish m n).1 rest d'
            (λ name h.
              (let other = other_name m name ns fresh h in
                ap (map some) (law.finishes_alone m name n other) ∙ held name (rw other h)))
            more,
      )

  -- The block that was written for the events.
  pub record IsBlock (attrs : ExtraAttrs) (version : List ℕ) (events : List Event) (ipc : List ℕ)
      (rows : ℕ) : Type 0 where
    pub arrays : List A
    pub state : N
    pub columns : AreColumns attrs version events (map (λ f. f.0) schema) arrays
    pub written : (write_block lib (length events) arrays state).0 ≡ some ipc
    pub counted : rows ≡ length events

  -- Where.
  pub finish-IsBlock :
      (b : Impl N) (events : List Event) (ipc : List ℕ)
      → Holds lib law b events
      → (finish lib b).0 ≡ some ipc
      → IsBlock b.extra_attrs b.service_version events ipc (finish lib b).1
  unfolding finish finish_block
  finish-IsBlock b events ipc held e = elim (Bool-cases (leb b.num_rows 0 || not b.has_schema)) [
    | inl g ↦ absurd (ground (arith, g, e))
    | inr g ↦ elim (Option-cases (finish_all lib finish_order b.builders).0) [
      | inl fails ↦ absurd (ground (arith, g, fails, e))
      | inr (arrays, made) ↦
          let n' = (finish_all lib finish_order b.builders).1 in
          elim (Option-cases (write_block lib b.num_rows arrays n').0) [
            | inl fails ↦ absurd (ground (arith, g, made, fails, e))
            | inr (ipc', wrote) ↦
                rw (g, made, wrote, finish, finish_block)
                  (record {
                    arrays = arrays;
                    state = n';
                    columns =
                        subst
                          (λ names. AreColumns b.extra_attrs b.service_version events names arrays)
                          finish_order-schema
                          (finish_all-AreColumns b.extra_attrs b.service_version events finish_order
                            b.builders arrays finish_order-distinct held.columns made);
                    written =
                        subst (λ k. (write_block lib k arrays n').0 ≡ some ipc) held.count
                          (wrote ∙ ground (arith, g, made, wrote, e));
                    counted = held.count;
                  })
          ]
    ]
  ]
