-- ===== src/Cache/Lookup.antt =====
-- What a lookup finds, and that it counts as a use.
use pg_stat_ch_otel_backend.Base.{
  ℕ, ◌-◌, ◌^◌, ◌<◌, ◌≤◌, ◌≡◌, ◌≢◌, refl, ap, ap₂, ◌∙◌, true, false, some, List, [], ◌∷◌, ◌++◌, not,
  min, take, length, take-take, ◌==◌, ◌||◌, arith, Bool-cases, Option-cases, inl, inr,
}
use pg_stat_ch_otel_backend.Cache.{
  HashTable, Cache, make_entry, copy_entry_text, clamp_cached_query_len, lookup, remember_ready,
}
use pg_stat_ch_otel_backend.Cache.Keys.{mem, mem-delete, NoDup-delete, length-delete}
use pg_stat_ch_otel_backend.Cache.Remember.{
  IsValid, Fronted, remember_ready-Fronted, remember_ready-ready,
}

-- A text that fits the entry is copied up to the end of the buffer.
copy_entry_text_lem :
    (text : List ℕ) (n dst_size : ℕ)
    → n ≤ length text
    → 0 < dst_size
    → dst_size ≤ 2 ^ 16
    → copy_entry_text
        (record { normalized_query = take n text ++ 0 ∷ []; normalized_len = n })
        dst_size
      ≡ (take (min n (dst_size - 1)) text ++ 0 ∷ [], min n (dst_size - 1))
unfolding copy_entry_text
copy_entry_text_lem text n dst_size fits room small =
    ap₂ (λ a b. (a ++ 0 ∷ [], b))
      (take-take (min n (dst_size - 1)) n text (0 ∷ []) (omega arith) fits) (omega arith)

module _ {T : Type 0} (table : HashTable T) (c : Cache T) (v : IsValid table c) (k : ℕ) where
  -- PschLookupNormalizedQuery on a valid cache keeps it valid and changes no text, whether it
  -- finds the key or not.
  pub lookup-IsValid :
      (dst_size : ℕ)
      → let (out, c') = lookup table c k dst_size in
        IsValid table c' × ((j : ℕ) → table.find c'.htab j ≡ table.find c.htab j)
  unfolding lookup
  lookup-IsValid dst_size = elim (Bool-cases (not c.ready || (dst_size == 0) || (k == 0))) [
    | inl off ↦ rw (off, lookup) (v, λ j. refl)
    | inr on ↦ elim (Option-cases (table.find c.htab k)) [
      | inl e ↦ rw (on, e, lookup) (v, λ j. refl)
      | inr (d, e) ↦
          let there : mem k c.lru ≡ true = ground (arith, v.linked k, e) in
          rw (on, e, lookup)
            (
              record {
                nodup =
                    (ground (arith, mem-delete k k c.lru v.nodup), NoDup-delete k c.lru v.nodup);
                bounded = omega (arith, length-delete k c.lru there, v.bounded);
                positive = v.positive;
                linked = λ j. ground (arith, v.linked j, mem-delete k j c.lru v.nodup, there);
              },
              λ j. refl,
            )
    ]
  ]

  -- A text of at least `len` bytes that PschRememberNormalizedQuery keeps under a key other than
  -- 0 in a valid cache is what PschLookupNormalizedQuery then returns with its length, cut to
  -- 2047 bytes and to a buffer of 1 to 2^16 bytes, and terminated.
  pub lookup-remember :
      (text : List ℕ) (len dst_size : ℕ)
      → c.ready ≡ true
      → k ≢ 0
      → 0 < dst_size
      → dst_size ≤ 2 ^ 16
      → len ≤ length text
      → let n = min (min len 2047) (dst_size - 1) in
        (lookup table (remember_ready table c k text len) k dst_size).0
        ≡ some (take n text ++ 0 ∷ [], n)
  unfolding lookup copy_entry_text make_entry clamp_cached_query_len
  lookup-remember text len dst_size ready key room small fits =
      rw (usable, found, lookup) (ap (λ r. some r) copied)
    where
      front : Fronted table c k (make_entry text len) (remember_ready table c k text len)
      front = remember_ready-Fronted table c v k text len

      found : table.find (remember_ready table c k text len).htab k ≡ some (make_entry text len)
      found = ground (arith, front.entries k)

      usable :
          (not (remember_ready table c k text len).ready || (dst_size == 0) || (k == 0)) ≡ false
      usable = ground (arith, remember_ready-ready table c v k text len, ready, key)

      cut : clamp_cached_query_len len ≡ min len 2047
      cut = ground arith

      copied : copy_entry_text (make_entry text len) dst_size ≡ (
        take (min (min len 2047) (dst_size - 1)) text ++ 0 ∷ [],
        min (min len 2047) (dst_size - 1),
      )
      copied =
          ap
            (λ n.
              copy_entry_text
                (record { normalized_query = take n text ++ 0 ∷ []; normalized_len = n }) dst_size)
            cut
          ∙ copy_entry_text_lem text (min len 2047) dst_size (omega arith) room small
