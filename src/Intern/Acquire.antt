-- ===== src/Intern/Acquire.antt =====
-- PschQueryInternAcquire keeps the interner sound, gives out an object with the text that was asked
-- for, and moves no chunk that is in use.
use pg_stat_ch_otel_backend.Base.{
  ℕ, ◌+◌, ◌^◌, ◌<◌, ◌≤◌, ◌≡◌, ◌≢◌, refl, ap, none, some, length, take, List, [], ◌∷◌, ◌++◌, ◌==◌,
  arith, dec_lt, false, Bool-cases, Option-cases, inl, inr, not, ◌||◌,
}
use pg_stat_ch_otel_backend.Store.{Key, object, update, Store, External}
use pg_stat_ch_otel_backend.Intern.{
  intern_magic, object_matches, alloc_object, miss, acquire, make_key, object_header,
}
use pg_stat_ch_otel_backend.Intern.Sound.{IsSound, IsSound-heap}
use pg_stat_ch_otel_backend.Intern.Enter.{IsSound-refs}
use pg_stat_ch_otel_backend.Intern.Insert.{Acquired, Pending, hit, insert-Acquired}

module _ {T : Type 0} {ext : External T} {s : Store T} {refs : ℕ → ℕ}
    (sound : IsSound ext s refs) where
  -- Nothing is acquired, and no chunk and no entry changes.
  nothing :
      (query : List ℕ) (k : Key) (n : ℕ) → Acquired ext s.heap refs query k 0 (record s { oom = n })
  nothing query k n = record {
    sound = λ refs' gain.
        IsSound-refs (record { held = sound.held; owned = sound.owned }) refs'
          (λ q. ground (arith, gain q));
    holds = λ z. absurd (z refl);
    entered = λ z. absurd (z refl);
    frame = λ q _. refl;
  }

  module _ (k : Key) (query : List ℕ) (fits : k.query_len ≤ length query)
      (small : (q : ℕ) → refs q + 1 < 2 ^ 32) where
    -- The store with the new chunk.
    abbrev filled : ℕ → Store T
    filled dp = record s {
      heap = update s.heap dp (
          some (
            object (record {
              key = k;
              magic = intern_magic;
              query = take k.query_len query ++ 0 ∷ [];
            })));
    }

    filled-IsSound : (dp : ℕ) → s.heap dp ≡ none → IsSound ext (filled dp) refs
    filled-IsSound dp new =
        IsSound-heap sound _ (λ j e f. ground (arith, (sound.held j e f).placed))

    filled-Pending : (dp : ℕ) → (dp ≢ 0) × (s.heap dp ≡ none) → Pending (filled dp) refs k query dp
    filled-Pending dp new = record { placed = ground arith; valid = new.0; unused = unused }
      where
        unused : refs dp ≡ 0
        unused = elim (dec_lt 0 (refs dp)) [
          | yes used ↦
              let at = sound.owned dp used in
              let old = sound.held at.key at.entry at.found in
              absurd (cc (new.1, old.placed, ap s.heap at.here))
          | no n ↦ omega arith
        ]

    -- What the new chunk replaces was not in use.
    widen :
        (dp : ℕ) {p : ℕ} {s' : Store T}
        → s.heap dp ≡ none
        → Acquired ext (update (filled dp).heap dp none) refs query k p s'
        → Acquired ext s.heap refs query k p s'
    widen dp new a = record {
      sound = a.sound;
      holds = a.holds;
      entered = a.entered;
      frame = λ q used. ground (arith, a.frame q);
    }

    -- A miss, with nobody in between: the text is allocated and entered.
    miss-Acquired :
        let (p, s') = miss ext (λ o. o) s k query k.query_len in
        Acquired ext s.heap refs query k p s'
    unfolding miss alloc_object
    miss-Acquired = elim (Option-cases (ext.allocate s.heap (object_header + k.query_len + 1))) [
      | inl out ↦ rw (out, alloc_object, miss) (nothing query k _)
      | inr (dp, new) ↦
          let fresh = ext.allocate_fresh s.heap _ dp new in
          let valid : (dp == 0) ≡ false = ground (arith, fresh.0) in
          rw (new, alloc_object, miss)
            (rw valid (
              widen dp fresh.1 (
                insert-Acquired (filled-IsSound dp fresh.1) k query fits dp
                  (filled-Pending dp fresh) small)))
    ]

  -- Where the interner is sound for the references held and no count is near 2^32,
  -- PschQueryInternAcquire with nobody in between leaves it sound with one reference more to the
  -- pointer it returns; a pointer other than 0 holds the text and is the object of the key's
  -- entry; and no chunk in use changes.
  pub acquire-Acquired :
      (dbid queryid : ℕ) (query : List ℕ) (len : ℕ)
      → len ≤ length query
      → ((q : ℕ) → refs q + 1 < 2 ^ 32)
      → let (p, s') = acquire ext (λ o. o) s dbid queryid query len in
        Acquired ext s.heap refs query (make_key ext dbid queryid query len) p s'
  unfolding acquire
  acquire-Acquired dbid queryid query len fits small =
      elim (Bool-cases ((len == 0) || not s.htab_ready)) [
        | inl skip ↦ rw (skip, acquire) (nothing query k s.oom)
        | inr on ↦ elim (Bool-cases (not s.dsa_ready)) [
          | inl gone ↦ rw (on, gone, acquire) (nothing query k s.oom)
          | inr ready ↦ elim (Option-cases (ext.find s.table k)) [
            | inl absent ↦ rw (on, ready, absent, acquire) (miss-Acquired k query fits small)
            | inr (e, f) ↦ elim (Bool-cases (object_matches s.heap e.object query len)) [
              | inl m ↦
                  rw (on, ready, f, m, acquire) (hit sound k query fits e f m (small e.object))
              | inr m ↦ rw (on, ready, f, m, acquire) (nothing query k s.oom)
            ]
          ]
        ]
      ]
    where
      k : Key
      k = make_key ext dbid queryid query len

-- An acquisition detaches the process from nothing.
pub acquire-ready :
    {T : Type 0} (ext : External T) (s : Store T) (dbid queryid : ℕ) (query : List ℕ) (len : ℕ)
    → let s' = (acquire ext (λ o. o) s dbid queryid query len).1 in
      (s'.dsa_ready ≡ s.dsa_ready) × (s'.htab_ready ≡ s.htab_ready)
unfolding acquire
acquire-ready ext s dbid queryid query len = (ground arith, ground arith)
