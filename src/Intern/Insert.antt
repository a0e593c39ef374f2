-- ===== src/Intern/Insert.antt =====
-- The steps of PschQueryInternAcquire: a hit, and the second look that follows an allocation.
use pg_stat_ch_otel_backend.Base.{
  ℕ, ◌+◌, ◌^◌, ◌<◌, ◌≤◌, ◌≡◌, ◌≢◌, refl, ◌∙◌, none, some, length, take, List, [], ◌∷◌, ◌++◌, ◌==◌,
  if◌then◌else◌, arith, true, Bool-cases, Option-cases, inl, inr, length-take, take-append,
  take_of_length-le, length-append, list_eq_iff,
}
use pg_stat_ch_otel_backend.Store.{Key, Entry, Object, Heap, object, update, Store, External}
use pg_stat_ch_otel_backend.Store.Table
use pg_stat_ch_otel_backend.Intern.{intern_magic, bump, object_at, object_matches, free, insert}
use pg_stat_ch_otel_backend.Intern.Enter.{enter-IsSound, IsSound-refs, unreferenced, free-IsSound}
use pg_stat_ch_otel_backend.Intern.Sound.{IsSound, bump-IsSound}

-- The chunk at `p` holds a query of `len` bytes, which are those of `query`.
pub record Holds (h : Heap) (p : ℕ) (query : List ℕ) (len : ℕ) : Type 0 where
  pub body : Object
  pub placed : object_at h p ≡ some body
  pub lengths : body.key.query_len ≡ len
  pub bytes : take len body.query ≡ take len query

-- A successful comparison is what it says.
object_matches-Holds :
    (h : Heap) (p : ℕ) (query : List ℕ) (len : ℕ)
    → object_matches h p query len ≡ true
    → Holds h p query len
unfolding object_matches
object_matches-Holds h p query len m = elim (Option-cases (object_at h p)) [
  | inl e ↦ absurd (ground arith)
  | inr (o, e) ↦ record {
    body = o;
    placed = e;
    lengths = ground arith;
    bytes = (list_eq_iff _ _).0 (ground arith);
  }
]

-- One reference more to a pointer that is not 0.
abbrev pub GainsRef : ℕ → (ℕ → ℕ) → (ℕ → ℕ) → Type 0
GainsRef p refs refs' =
    (q : ℕ) → refs' q ≡ (if p == q then (if q == 0 then 0 else 1) else 0) + refs q

-- What an acquisition that returns `p` leaves.
pub record Acquired {T : Type 0} (ext : External T) (h : Heap) (refs : ℕ → ℕ) (query : List ℕ)
    (k : Key) (p : ℕ) (s' : Store T) : Type 0 where
  pub sound : (refs' : ℕ → ℕ) → GainsRef p refs refs' → IsSound ext s' refs'
  pub holds : p ≢ 0 → Holds s'.heap p query k.query_len
  pub entered : p ≢ 0 → (e : Entry) × (ext.find s'.table k ≡ some e) × (e.object ≡ p)
  pub frame : (q : ℕ) → h q ≢ none → s'.heap q ≡ h q

-- A chunk that `alloc_object` has filled, before any entry refers to it.
pub record Pending {T : Type 0} (s : Store T) (refs : ℕ → ℕ) (k : Key) (query : List ℕ) (dp : ℕ)
    : Type 0 where
  pub placed :
      s.heap dp
      ≡ some (
          object
            (record { key = k; magic = intern_magic; query = take k.query_len query ++ 0 ∷ [] }))
  pub valid : dp ≢ 0
  pub unused : refs dp ≡ 0

Holds-heap :
    {h h' : Heap} {p : ℕ} {query : List ℕ} {len : ℕ}
    → h' p ≡ h p
    → Holds h p query len
    → Holds h' p query len
Holds-heap same a = record {
  body = a.body;
  placed = ground (arith, a.placed);
  lengths = a.lengths;
  bytes = a.bytes;
}

-- The text that `alloc_object` writes reads back.
pub take-text : (n : ℕ) (bs : List ℕ) → n ≤ length bs → take n (take n bs ++ 0 ∷ []) ≡ take n bs
take-text n bs h =
    take-append n (take n bs) (0 ∷ []) (omega (arith, length-take n bs))
    ∙ take_of_length-le n (take n bs) (omega (arith, length-take n bs))

module _ {T : Type 0} {ext : External T} {s : Store T} {refs : ℕ → ℕ} (sound : IsSound ext s refs)
    (k : Key) (query : List ℕ) (fits : k.query_len ≤ length query) where
  -- A found entry whose text compares equal is shared.
  pub hit :
      (e : Entry)
      → ext.find s.table k ≡ some e
      → object_matches s.heap e.object query k.query_len ≡ true
      → refs e.object + 1 < 2 ^ 32
      → Acquired ext s.heap refs query k e.object (bump ext s k e)
  unfolding bump
  hit e f m small = record {
    sound = λ refs' gain.
        bump-IsSound sound k e refs' f (λ q. ground (arith, gain q, (sound.held k e f).valid))
          small;
    holds = λ _. object_matches-Holds s.heap e.object query k.query_len m;
    entered = λ _. (_, Table.assign_self ext s.table k _ e f, refl);
    frame = λ q _. refl;
  }

  module _ (dp : ℕ) (pending : Pending s refs k query dp) where
    -- Nothing is acquired, and the chunk is given back.
    given_back : Acquired ext (update s.heap dp none) refs query k 0 (free ext s dp)
    unfolding free
    given_back = record {
      sound = λ refs' gain.
          IsSound-refs (free-IsSound sound dp pending.unused) refs' (λ q. ground (arith, gain q));
      holds = λ z. absurd (z refl);
      entered = λ z. absurd (z refl);
      frame = λ q _. refl;
    }

    -- Another process was faster with the same text: its object is shared.
    lost_race :
        (e : Entry)
        → ext.find s.table k ≡ some e
        → object_matches s.heap e.object query k.query_len ≡ true
        → refs e.object + 1 < 2 ^ 32
        → Acquired ext (update s.heap dp none) refs query k e.object (free ext (bump ext s k e) dp)
    unfolding free bump
    lost_race e f m small =
        let apart = unreferenced sound dp pending.unused k e f in
        let shared = hit e f m small in
        record {
          sound = λ refs' gain.
              free-IsSound (shared.sound refs' gain) dp
                (ground (arith, gain dp, pending.unused, apart));
          holds = λ z. Holds-heap (ground (arith, apart)) (shared.holds z);
          entered = shared.entered;
          frame = λ q _. refl;
        }

    won :
        (t' : T)
        → ext.find s.table k ≡ none
        → ext.enter s.table k (record { object = dp; refcount = 1 }) ≡ some t'
        → Acquired ext (update s.heap dp none) refs query k dp (record s { table = t' })
    won t' absent entered = record {
      sound = λ refs' gain.
          enter-IsSound sound k dp _ t' refs' absent pending.placed
            (
              refl,
              refl,
              omega (
                arith,
                length-append (take k.query_len query) (0 ∷ []),
                length-take k.query_len query,
              ),
            )
            pending.valid pending.unused entered (λ q. ground (arith, gain q, pending.valid));
      holds = λ _. record {
        body = record { key = k; magic = intern_magic; query = take k.query_len query ++ 0 ∷ [] };
        placed = ground (arith, pending.placed);
        lengths = refl;
        bytes = take-text k.query_len query fits;
      };
      entered = λ _. (_, Table.enter_self ext s.table k t' _ entered, refl);
      frame = λ q used. ground arith;
    }

    pub insert-Acquired :
        ((q : ℕ) → refs q + 1 < 2 ^ 32)
        → let (p, s') = insert ext s k query k.query_len dp in
          Acquired ext (update s.heap dp none) refs query k p s'
    unfolding insert
    insert-Acquired small = elim (Option-cases (ext.find s.table k)) [
      | inl absent ↦
          elim (Option-cases (ext.enter s.table k (record { object = dp; refcount = 1 }))) [
            | inl full ↦ rw (absent, full, insert) given_back
            | inr (t', entered) ↦ rw (absent, entered, insert) (won t' absent entered)
          ]
      | inr (e, f) ↦ elim (Bool-cases (object_matches s.heap e.object query k.query_len)) [
        | inl m ↦ rw (f, m, insert) (lost_race e f m (small e.object))
        | inr m ↦ rw (f, m, insert) given_back
      ]
    ]
