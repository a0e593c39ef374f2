-- ===== src/Dsa.antt =====
-- src/queue/psch_dsa.c: error messages kept in the shared area, one private copy for each event,
-- and the life of a process's handle on that area.
pub mod Laws
pub mod Attach
use pg_stat_ch_otel_backend.Base.{
  ℕ, ◌+◌, ◌-◌, ◌^◌, ◌%◌, Bool, true, false, Option, none, some, List, [], ◌∷◌, ◌++◌, not, min, take,
  ◌==◌, if◌then◌else◌,
}
use pg_stat_ch_otel_backend.Store.{Heap, Body, text, object, update, Store, External}

-- `pg_atomic_fetch_add_u64` and the other counters of 64 bits
abbrev pub add64 : ℕ → ℕ → ℕ
add64 a b = (a + b) % 2 ^ 64

-- The bytes at an address. A chunk that holds no message has none to show; `Laws` proves that
-- the code reads only chunks that do.
abbrev pub bytes_at : Heap → ℕ → List ℕ
bytes_at h p = elim (h p) [ none ↦ [] | some (text b) ↦ b | some (object o) ↦ [] ]

abbrev pub dsa_free : Heap → ℕ → Heap
dsa_free h p = update h p none

module _ {T : Type 0} (ext : External T) where
  -- the part of PschDsaAllocString below its guards, at the clamped length
  unfoldable pub alloc_clamped : Store T → List ℕ → ℕ → ℕ × Store T
  alloc_clamped s src clamped = elim (ext.allocate s.heap (clamped + 1)) [
    | none ↦ (0, record s { oom = add64 s.oom 1 })
    | some dp ↦
        (dp, record s { heap = update s.heap dp (some (text (take clamped src ++ 0 ∷ []))) })
  ]

  unfoldable pub alloc_string : Store T → List ℕ → ℕ → ℕ → ℕ × Store T
  unfolding alloc_clamped
  alloc_string s src len max_len =
      if len == 0
      then (0, s)
      else if not s.dsa_ready
      then (0, s)
      else alloc_clamped s src (min len ((max_len - 1) % 2 ^ 16))

-- The buffer that is filled, its length, and the store without the chunk.
unfoldable pub resolve_string : {T : Type 0} → Store T → ℕ → ℕ → ℕ → List ℕ × ℕ × Store T
resolve_string s dp src_len max_len =
    if dp == 0
    then (0 ∷ [], 0, s)
    else if not s.dsa_ready
    then (0 ∷ [], 0, s)
    else (let len = min src_len ((max_len - 1) % 2 ^ 16) in
        (take len (bytes_at s.heap dp) ++ 0 ∷ [], len, record s { heap = dsa_free s.heap dp }))
