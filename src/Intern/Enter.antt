-- ===== src/Intern/Enter.antt =====
-- A new entry of the interner, and a chunk that no entry refers to.
use pg_stat_ch_otel_backend.Base.{
  ℕ, ◌+◌, ◌≡◌, ◌≢◌, refl, sym, ap, ◌∙◌, none, some, length, arith, ℕ_discrete, Option,
}
use pg_stat_ch_otel_backend.Store.{
  Key, Key-discrete, Entry, Object, object, update, Store, External,
}
use pg_stat_ch_otel_backend.Store.Table
use pg_stat_ch_otel_backend.Intern.{intern_magic, free}
use pg_stat_ch_otel_backend.Intern.Sound.{
  Held, Interned, IsSound, Gains, Held-recount, IsSound-heap,
}

module _ {T : Type 0} {ext : External T} {s : Store T} {refs : ℕ → ℕ}
    (sound : IsSound ext s refs) where
  -- A new entry with one reference to a new object.
  pub enter-IsSound :
      (k : Key) (dp : ℕ) (o : Object) (t' : T) (refs' : ℕ → ℕ)
      → ext.find s.table k ≡ none
      → s.heap dp ≡ some (object o)
      → (o.key ≡ k) × (o.magic ≡ intern_magic) × (length o.query ≡ k.query_len + 1)
      → dp ≢ 0
      → refs dp ≡ 0
      → ext.enter s.table k (record { object = dp; refcount = 1 }) ≡ some t'
      → Gains dp refs refs'
      → IsSound ext (record s { table = t' }) refs'
  enter-IsSound k dp o t' refs' absent placed fits valid unused entered gain = record {
    held = λ j d g. elim (Key-discrete k j) [
      | yes p ↦
          let new : some (record { object = dp; refcount = 1 }) ≡ some d =
            sym (Table.enter_self ext s.table k t' _ entered) ∙ (ap (ext.find t') p ∙ g) in
          record {
            body = o;
            placed = ap s.heap (sym (ap object_of new)) ∙ placed;
            keyed = fits.0 ∙ p;
            stamped = fits.1;
            sized = fits.2 ∙ ap (λ (i : Key). i.query_len + 1) p;
            valid = λ z. valid (ap object_of new ∙ z);
            positive = ground (arith, ap count_of new);
            exact = ground (arith, ap count_of new, ap object_of new, gain dp, unused);
          }
      | no n ↦
          let old : Held s.heap refs j d =
            sound.held j d (sym (Table.enter_ne ext s.table k j t' _ entered n) ∙ g) in
          Held-recount old refl old.positive
            (ground (arith, old.exact, old.positive, gain d.object, ap refs, unused))
    ];
    owned = λ p q. elim (ℕ_discrete dp p) [
      | yes here ↦ record {
        key = k;
        entry = record { object = dp; refcount = 1 };
        found = Table.enter_self ext s.table k t' _ entered;
        here = here;
      }
      | no away ↦ owned_away p (sound.owned p (ground (arith, gain p)))
    ];
  }
    where
      object_of : Option Entry → ℕ
      object_of none = 0
      object_of (some e) = e.object

      count_of : Option Entry → ℕ
      count_of none = 0
      count_of (some e) = e.refcount

      owned_away : (p : ℕ) → Interned ext s.table p → Interned ext t' p
      owned_away p old = record {
        key = old.key;
        entry = old.entry;
        found =
            Table.enter_ne ext s.table k old.key t' _ entered
              (λ q. cc (absent, ap (ext.find s.table) q, old.found))
            ∙ old.found;
        here = old.here;
      }

  -- Other references may be counted by an equal function.
  pub IsSound-refs : (refs' : ℕ → ℕ) → ((q : ℕ) → refs' q ≡ refs q) → IsSound ext s refs'
  IsSound-refs refs' same = record {
    held = λ k e f.
        let old = sound.held k e f in
        Held-recount old refl old.positive (old.exact ∙ sym (same e.object));
    owned = λ p pos. sound.owned p (rw (← same p) pos);
  }

  -- A chunk without a reference is the object of no entry.
  pub unreferenced :
      (p : ℕ) → refs p ≡ 0 → (k : Key) (e : Entry) → ext.find s.table k ≡ some e → p ≢ e.object
  unreferenced p unused k e f same =
      let old = sound.held k e f in omega (arith, old.exact, old.positive, unused, ap refs same)

  pub free-IsSound : (p : ℕ) → refs p ≡ 0 → IsSound ext (free ext s p) refs
  unfolding free
  free-IsSound p unused =
      IsSound-heap sound (update s.heap p none)
        (λ k e f. ground (arith, unreferenced p unused k e f))
