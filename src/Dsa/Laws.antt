-- ===== src/Dsa/Laws.antt =====
-- PschDsaAllocString either stores the message in a new chunk or gives out the invalid pointer, and
-- PschDsaResolveString reads back what was stored and frees that chunk alone.
use pg_stat_ch_otel_backend.Base.{
  ℕ, ◌+◌, ◌-◌, ◌^◌, ◌%◌, ◌≡◌, ◌≢◌, ◌⊎◌, inl, inr, true, none, some, List, [], ◌∷◌, ◌++◌, min, take,
  not, ◌==◌, if◌then◌else◌, Bool-cases, Option-cases, arith,
}
use pg_stat_ch_otel_backend.Store.{text, update, Store, External}
use pg_stat_ch_otel_backend.Dsa.{add64, dsa_free, alloc_clamped, alloc_string, resolve_string}

-- The two outcomes of an allocation for the first `n` bytes of `src`.
abbrev pub Outcome : {T : Type 0} → Store T → List ℕ → ℕ → ℕ × Store T → Type 0
Outcome s src n r =
    ((m : ℕ) × (r ≡ (0, record s { oom = m })))
    ⊎ ((dp : ℕ) × (r
          ≡ (dp, record s { heap = update s.heap dp (some (text (take n src ++ 0 ∷ []))) }))
        × (dp ≢ 0)
        × (s.heap dp ≡ none))

module _ {T : Type 0} (ext : External T) (s : Store T) (src : List ℕ) where
  alloc_clamped-Outcome : (n : ℕ) → Outcome s src n (alloc_clamped ext s src n)
  unfolding alloc_clamped
  alloc_clamped-Outcome n = elim (Option-cases (ext.allocate s.heap (n + 1))) [
    | inl out ↦ inl (add64 s.oom 1, rw (out, alloc_clamped))
    | inr (dp, new) ↦
        let fresh = ext.allocate_fresh s.heap (n + 1) dp new in
        inr (dp, rw (new, alloc_clamped), fresh.0, fresh.1)
  ]

  pub alloc_string-Outcome :
      (len max_len : ℕ)
      → Outcome s src (min len ((max_len - 1) % 2 ^ 16)) (alloc_string ext s src len max_len)
  unfolding alloc_string
  alloc_string-Outcome len max_len = elim (Bool-cases (len == 0)) [
    | inl e ↦ inl (s.oom, rw e)
    | inr e ↦ elim (Bool-cases (not s.dsa_ready)) [
      | inl gone ↦ inl (s.oom, rw (e, gone))
      | inr ready ↦ rw (e, ready) (alloc_clamped-Outcome (min len ((max_len - 1) % 2 ^ 16)))
    ]
  ]

-- The bytes and the length that a message pointer shows.
abbrev pub shown : {T : Type 0} → Store T → ℕ → ℕ → ℕ → List ℕ × ℕ
shown s dp src_len max_len = let (dst, len, s') = resolve_string s dp src_len max_len in (dst, len)

-- They depend on the one chunk.
pub shown-same :
    {T : Type 0} (s s' : Store T) (dp src_len max_len : ℕ)
    → s'.dsa_ready ≡ s.dsa_ready
    → (dp ≢ 0 → s'.heap dp ≡ s.heap dp)
    → shown s' dp src_len max_len ≡ shown s dp src_len max_len
unfolding resolve_string
shown-same s s' dp src_len max_len ready same = ground (arith, same)

-- What is left of the store.
pub resolve_string-store :
    {T : Type 0} (s : Store T) (dp src_len max_len : ℕ)
    → s.dsa_ready ≡ true
    → (resolve_string s dp src_len max_len).2
      ≡ record s { heap = if dp == 0 then s.heap else dsa_free s.heap dp }
unfolding resolve_string
resolve_string-store s dp src_len max_len ready = elim (Bool-cases (dp == 0)) [
  | inl e ↦ rw e
  | inr e ↦ rw (e, ready)
]
