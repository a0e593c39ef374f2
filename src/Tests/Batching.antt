-- ===== src/Tests/Batching.antt =====
-- Builders that keep their values in a function, and the theorems at them.
use Prim.Native.String.{String}
use text.Mathlib.Text.{◌==◌}
use text.Mathlib.TextPositions.{eq_refl}
use pg_stat_ch_otel_backend.Base.{
  ℕ, ◌≡◌, refl, Bool, true, false, some, List, [], ◌∷◌, ◌++◌, if◌then◌else◌, arith, ◌||◌, leb,
}
use pg_stat_ch_otel_backend.Export.{bytes}
use pg_stat_ch_otel_backend.Export.Rows.{Value}
use pg_stat_ch_otel_backend.Export.Batch.Arrow.{IsBuilder}
use pg_stat_ch_otel_backend.Export.ArrowBatch.Attributes.{
  ExtraAttrs, extra_attr, parse_loop, parse_extra_attributes,
}
use pg_stat_ch_otel_backend.Export.ArrowBatch.Attributes.Split.{
  split_on, add_tokens, parse_loop_total,
}
use pg_stat_ch_otel_backend.Export.ArrowBatch.Attributes.RoundTrip.{
  write_attrs, extra_attr-write_attrs,
}
use pg_stat_ch_otel_backend.Export.ArrowBatch.Schema.{finish_order, values}
use pg_stat_ch_otel_backend.Export.ArrowBatch.{
  Arrow, Impl, append_all, append_event, finish_all, finish_block, finish, write_block, reset, init,
  arrow_builder,
}
use pg_stat_ch_otel_backend.Export.ArrowBatch.Laws.{arrow_builder-IsBuilder}
use pg_stat_ch_otel_backend.Export.ArrowBatch.Cells.{IsArrow}
use pg_stat_ch_otel_backend.Export.ArrowBatch.Blocks.{IsBlock}
use pg_stat_ch_otel_backend.Export.ArrowBatch.Built.{started, appended, Built-IsBlock}
use pg_stat_ch_otel_backend.Tests.{event}

abbrev Builders : Type 0
Builders = String → List Value

abbrev put : String → List Value → Builders → Builders
put name vs n other = if name == other then vs else n other

-- The block is the number of its arrays.
abbrev library : Arrow Builders (List Value)
library = record {
  append = λ name v n. (true, put name (n name ++ v ∷ []) n);
  reset = λ name n. put name [] n;
  finish = λ name n. (some (n name), put name [] n);
  create_sink = λ n. (true, n);
  create_codec = λ n. (true, n);
  make_stream_writer = λ n. (true, n);
  write_record_batch = λ rows arrays n. (true, n);
  close_writer = λ n. (true, n);
  finish_sink = λ n. (some (7 ∷ []), n);
}

library-IsArrow : IsArrow library
library-IsArrow = record {
  cells = λ n name. n name;
  contents = λ a. a;
  appends = λ name v n e. rw (eq_refl name) refl;
  appends_alone = λ name other v n e. rw e refl;
  empties = λ name n. rw (eq_refl name) refl;
  empties_alone = λ name other n e. rw e refl;
  finishes = λ name n a e. ground (arith, e);
  finishes_alone = λ name other n e. rw e refl;
}

abbrev blank : ℕ → Bool
blank c = (if leb c b' ' then leb b' ' c else false) || (if leb c b'\t' then leb b'\t' c else false)

abbrev attrs : ExtraAttrs
attrs = (bytes "region", bytes "eu 1") ∷ (bytes "cell", []) ∷ []

abbrev fresh_builder : Impl Builders
unfolding init
fresh_builder = init library blank (bytes "region:eu 1") (bytes "1.0") (λ name. [])

abbrev one_row : Impl Builders
unfolding append_event
one_row = (append_event library event fresh_builder).1

arrow_builder-IsBuilder_example : IsBuilder (arrow_builder library blank [] [] (λ name. []))
arrow_builder-IsBuilder_example = arrow_builder-IsBuilder library blank [] [] (λ name. [])

parse_loop_total_example :
    parse_loop blank 20 (bytes "region:eu;;cell") []
    ≡ some (add_tokens blank (split_on b';' (bytes "region:eu;;cell")) [])
parse_loop_total_example = parse_loop_total blank 20 (bytes "region:eu;;cell") [] (omega arith)

extra_attr-write_attrs_example :
    extra_attr (bytes "region") (parse_extra_attributes blank (write_attrs attrs))
    ≡ extra_attr (bytes "region") attrs
extra_attr-write_attrs_example = extra_attr-write_attrs blank (bytes "region") attrs (
  record {
    filled = λ e. ground (arith, e);
    key_trimmed = record { front = refl; back = refl };
    value_trimmed = record { front = refl; back = refl };
    key_whole = ground arith;
    key_one = ground arith;
    value_one = ground arith;
  },
  (
    record {
      filled = λ e. ground (arith, e);
      key_trimmed = record { front = refl; back = refl };
      value_trimmed = tt;
      key_whole = ground arith;
      key_one = ground arith;
      value_one = tt;
    },
    tt,
  ),
)

row_appended : (append_event library event fresh_builder).0 ≡ true
unfolding append_event append_all values
row_appended = refl

block_written : (finish library one_row).0 ≡ some (7 ∷ [])
unfolding finish finish_block finish_all finish_order one_row append_event append_all values
    fresh_builder init reset write_block
block_written = refl

Built-IsBlock_example :
    IsBlock library library-IsArrow
      (parse_extra_attributes blank (bytes "region:eu 1"))
      (bytes "1.0")
      (event ∷ [])
      (7 ∷ [])
      (finish library one_row).1
unfolding init fresh_builder append_event one_row
Built-IsBlock_example =
    Built-IsBlock library library-IsArrow blank (bytes "region:eu 1") (bytes "1.0") (λ name. [])
      (event ∷ []) one_row (7 ∷ []) (appended [] fresh_builder event started row_appended)
      block_written
