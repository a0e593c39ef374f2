-- ===== src/Intern/Sound.antt =====
-- What must hold of the interner while `refs p` queued events refer to the object at `p`: the count
-- of each entry is exact, and the object of each entry is in place.
use pg_stat_ch_otel_backend.Base.{
  ℕ, ◌+◌, ◌^◌, ◌<◌, ◌≡◌, ◌≢◌, refl, sym, ap, ◌∙◌, some, length, ◌==◌, if◌then◌else◌, arith,
  ℕ_discrete,
}
use pg_stat_ch_otel_backend.Store.{Key, Key-discrete, Entry, Object, Heap, object, Store, External}
use pg_stat_ch_otel_backend.Store.Table
use pg_stat_ch_otel_backend.Intern.{intern_magic, add32, bump}

-- The entry `e` of the key `k` at `refs` references to its object.
pub record Held (h : Heap) (refs : ℕ → ℕ) (k : Key) (e : Entry) : Type 0 where
  pub body : Object
  pub placed : h e.object ≡ some (object body)
  pub keyed : body.key ≡ k
  pub stamped : body.magic ≡ intern_magic
  pub sized : length body.query ≡ k.query_len + 1
  pub valid : e.object ≢ 0
  pub positive : 0 < e.refcount
  pub exact : e.refcount ≡ refs e.object

-- The pointer `p` is the object of some entry.
pub record Interned {T : Type 0} (ext : External T) (t : T) (p : ℕ) : Type 0 where
  pub key : Key
  pub entry : Entry
  pub found : ext.find t key ≡ some entry
  pub here : entry.object ≡ p

pub record IsSound {T : Type 0} (ext : External T) (s : Store T) (refs : ℕ → ℕ) : Type 0 where
  pub held : (k : Key) (e : Entry) → ext.find s.table k ≡ some e → Held s.heap refs k e
  pub owned : (p : ℕ) → 0 < refs p → Interned ext s.table p

-- Two entries never share an object.
pub key_unique :
    {h : Heap} {refs : ℕ → ℕ} {k j : Key} {e d : Entry}
    → Held h refs k e
    → Held h refs j d
    → e.object ≡ d.object
    → k ≡ j
key_unique {h} a b same = cc (ap h same)

-- A new count for the same object.
pub Held-recount :
    {h : Heap} {refs refs' : ℕ → ℕ} {k : Key} {e d : Entry}
    → Held h refs k e
    → d.object ≡ e.object
    → 0 < d.refcount
    → d.refcount ≡ refs' e.object
    → Held h refs' k d
Held-recount {h} {refs' = refs'} a same pos count = record {
  body = a.body;
  placed = ap h same ∙ a.placed;
  keyed = a.keyed;
  stamped = a.stamped;
  sized = a.sized;
  valid = λ z. a.valid (sym same ∙ z);
  positive = pos;
  exact = count ∙ ap refs' (sym same);
}

-- One reference to `p` more.
abbrev pub Gains : ℕ → (ℕ → ℕ) → (ℕ → ℕ) → Type 0
Gains p refs refs' = (q : ℕ) → refs' q ≡ (if p == q then 1 else 0) + refs q

module _ {T : Type 0} {ext : External T} {s : Store T} {refs : ℕ → ℕ}
    (sound : IsSound ext s refs) where
  -- Only the objects of the entries matter.
  pub IsSound-heap :
      (h : Heap)
      → ((k : Key) (e : Entry) → ext.find s.table k ≡ some e → h e.object ≡ s.heap e.object)
      → IsSound ext (record s { heap = h }) refs
  IsSound-heap h same = record {
    held = λ k e f.
        let old = sound.held k e f in
        record {
          body = old.body;
          placed = same k e f ∙ old.placed;
          keyed = old.keyed;
          stamped = old.stamped;
          sized = old.sized;
          valid = old.valid;
          positive = old.positive;
          exact = old.exact;
        };
    owned = sound.owned;
  }

  -- A write of `e'`, for the same object, to the element of the key `k`.
  pub assign-IsSound :
      (k : Key) (e e' : Entry) (refs' : ℕ → ℕ)
      → ext.find s.table k ≡ some e
      → e'.object ≡ e.object
      → 0 < e'.refcount
      → e'.refcount ≡ refs' e.object
      → ((q : ℕ) → e.object ≢ q → refs' q ≡ refs q)
      → IsSound ext (record s { table = ext.assign s.table k e' }) refs'
  assign-IsSound k e e' refs' f same pos count others = record {
    held = λ j d g. elim (Key-discrete k j) [
      | yes p ↦
          let at : e' ≡ d = cc (Table.assign_self ext s.table k e' e f, p, g) in
          let old : Held s.heap refs j e = rw (← p) (sound.held k e f) in
          rw (← at) (Held-recount old same pos count)
      | no n ↦
          let old : Held s.heap refs j d =
            sound.held j d (sym (Table.assign_ne ext s.table k j e' e f n) ∙ g) in
          Held-recount old refl old.positive
            (old.exact ∙ sym (others d.object (λ q. n (key_unique (sound.held k e f) old q))))
    ];
    owned = λ p q. elim (ℕ_discrete e.object p) [
      | yes here ↦ record {
        key = k;
        entry = e';
        found = Table.assign_self ext s.table k e' e f;
        here = same ∙ here;
      }
      | no away ↦ owned_away p away (sound.owned p (rw (← others p away) q))
    ];
  }
    where
      owned_away :
          (p : ℕ) → e.object ≢ p → Interned ext s.table p → Interned ext (ext.assign s.table k e') p
      owned_away p away old = record {
        key = old.key;
        entry = old.entry;
        found =
            Table.assign_ne ext s.table k old.key e' e f
              (λ q. away (cc (ap (ext.find s.table) q, f, old.found, old.here)))
            ∙ old.found;
        here = old.here;
      }

  -- One reference more to the object of an entry.
  pub bump-IsSound :
      (k : Key) (e : Entry) (refs' : ℕ → ℕ)
      → ext.find s.table k ≡ some e
      → Gains e.object refs refs'
      → refs e.object + 1 < 2 ^ 32
      → IsSound ext (bump ext s k e) refs'
  unfolding bump
  bump-IsSound k e refs' f gain small =
      assign-IsSound k e (record e { refcount = add32 e.refcount 1 }) refs' f refl
        (omega (arith, old.exact)) (ground (arith, old.exact, gain e.object))
        (λ q n. ground (arith, gain q))
    where
      old : Held s.heap refs k e
      old = sound.held k e f
