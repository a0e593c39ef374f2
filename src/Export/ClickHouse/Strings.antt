-- ===== src/Export/ClickHouse/Strings.antt =====
-- What a StringCol holds is its strings: they can be read back from the bytes and the offsets.
use pg_stat_ch_otel_backend.Base.{
  ℕ, ◌+◌, ◌-◌, ◌≡◌, refl, sym, ap, ap₂, ◌∙◌, List, [], ◌∷◌, ◌++◌, append-nil, append_assoc, length,
  length-append, take, drop, arith,
}
use pg_stat_ch_otel_backend.Export.Rows.{chars}
use pg_stat_ch_otel_backend.Export.ClickHouse.Block.{Cells, strings, push}

-- The strings that a reader cuts out of the bytes, the first one starting at `start`: each ends at
-- its offset.
abbrev pub cut : ℕ → List ℕ → List ℕ → List (List ℕ)
cut start bytes [] = []
cut start bytes (o ∷ os) = take (o - start) bytes ∷ cut o (drop (o - start) bytes) os

-- The column after a sequence of calls of Append.
abbrev pub push_all : List (List ℕ) → Cells → Cells
push_all [] c = c
push_all (s ∷ ss) c = push_all ss (push (chars s) c)

abbrev pub concat : List (List ℕ) → List ℕ
concat [] = []
concat (s ∷ ss) = s ++ concat ss

-- The offsets of strings after `start` bytes.
abbrev pub ends : ℕ → List (List ℕ) → List ℕ
ends start [] = []
ends start (s ∷ ss) = (start + length s) ∷ ends (start + length s) ss

push_all-ends :
    (ss : List (List ℕ)) (bytes offsets : List ℕ)
    → push_all ss (strings bytes offsets)
      ≡ strings (bytes ++ concat ss) (offsets ++ ends (length bytes) ss)
unfolding push
push_all-ends [] bytes offsets = ap₂ strings (sym (append-nil bytes)) (sym (append-nil offsets))
push_all-ends (s ∷ ss) bytes offsets =
    push_all-ends ss (bytes ++ s) (offsets ++ length (bytes ++ s) ∷ [])
    ∙ ap₂ strings (append_assoc bytes s (concat ss)) (
        append_assoc offsets (length (bytes ++ s) ∷ []) (ends (length (bytes ++ s)) ss)
        ∙ ap (λ n. offsets ++ n ∷ ends n ss) (length-append bytes s))

take-front : (s t : List ℕ) → take (length s) (s ++ t) ≡ s
take-front [] t = refl
take-front (c ∷ s) t = ap (◌∷◌ c) (take-front s t)

drop-front : (s t : List ℕ) → drop (length s) (s ++ t) ≡ t
drop-front [] t = refl
drop-front (c ∷ s) t = drop-front s t

pub cut-ends : (ss : List (List ℕ)) (start : ℕ) → cut start (concat ss) (ends start ss) ≡ ss
cut-ends [] start = refl
cut-ends (s ∷ ss) start =
    let own : start + length s - start ≡ length s = omega arith in
    rw (own, take-front s (concat ss), drop-front s (concat ss))
      (ap (◌∷◌ s) (cut-ends ss (start + length s)))

-- The strings that a reader finds in a column.
abbrev pub read_strings : Cells → List (List ℕ)
read_strings (strings bytes offsets) = cut 0 bytes offsets
read_strings _ = []

-- The strings that are appended to an empty string column can be read back from its bytes and its
-- offsets, in order, empty strings included.
pub read_strings-push_all : (ss : List (List ℕ)) → read_strings (push_all ss (strings [] [])) ≡ ss
read_strings-push_all ss = ap read_strings (push_all-ends ss [] []) ∙ cut-ends ss 0
