-- ===== src/Intern/Release.antt =====
-- ReleaseRef and PschQueryInternResolveAndRelease: one reference less, the chunk freed with the
-- last one and with no other, and the text as it was stored.
use pg_stat_ch_otel_backend.Base.{
  ℕ, zero, suc, ◌-◌, ◌≤◌, min, if◌then◌else◌, ◌^◌, ◌<◌, ◌≡◌, ◌≢◌, refl, subst, sym, ap, ◌∙◌, none,
  some, take, List, [], ◌∷◌, ◌++◌, ◌==◌, arith, true, false, Bool-cases, inl, inr, ◌||◌, leb,
  ℕ_discrete,
}
use pg_stat_ch_otel_backend.Store.{Key, Key-discrete, Entry, Heap, update, Store, External}
use pg_stat_ch_otel_backend.Store.Table
use pg_stat_ch_otel_backend.Intern.{object_at, sub32, drop_ref, release, resolve_into}
use pg_stat_ch_otel_backend.Intern.Sound.{
  Held, Interned, IsSound, Gains, key_unique, assign-IsSound,
}
use pg_stat_ch_otel_backend.Intern.Insert.{Holds}

-- What the release of `ref` leaves, with `refs'` references still held.
pub record Released {T : Type 0} (ext : External T) (h : Heap) (refs' : ℕ → ℕ) (ref : ℕ)
    (s' : Store T) : Type 0 where
  pub sound : IsSound ext s' refs'
  pub others : (q : ℕ) → q ≢ ref → s'.heap q ≡ h q
  pub kept : 0 < refs' ref → s'.heap ref ≡ h ref
  pub freed : refs' ref ≡ 0 → s'.heap ref ≡ none

module _ {T : Type 0} {ext : External T} {s : Store T} {refs : ℕ → ℕ} (sound : IsSound ext s refs)
    (refs' : ℕ → ℕ) where
  -- The entry without references goes, and its object with it.
  remove-IsSound :
      (k : Key) (e : Entry)
      → ext.find s.table k ≡ some e
      → refs' e.object ≡ 0
      → ((q : ℕ) → e.object ≢ q → refs' q ≡ refs q)
      → IsSound ext
          (record s { table = ext.remove s.table k; heap = update s.heap e.object none })
          refs'
  remove-IsSound k e f last others = record {
    held = λ j d g. elim (Key-discrete k j) [
      | yes p ↦
          absurd (cc (Table.remove_self ext s.table k, ap (ext.find (ext.remove s.table k)) p, g))
      | no n ↦
          let old : Held s.heap refs j d =
            sound.held j d (sym (Table.remove_ne ext s.table k j n) ∙ g) in
          let apart : e.object ≢ d.object = λ q. n (key_unique (sound.held k e f) old q) in
          record {
            body = old.body;
            placed = ground (arith, apart, old.placed);
            keyed = old.keyed;
            stamped = old.stamped;
            sized = old.sized;
            valid = old.valid;
            positive = old.positive;
            exact = old.exact ∙ sym (others d.object apart);
          }
    ];
    owned = λ p q. elim (ℕ_discrete e.object p) [
      | yes here ↦ absurd (omega (arith, ap refs' here))
      | no away ↦ owned_away p away (sound.owned p (rw (← others p away) q))
    ];
  }
    where
      owned_away :
          (p : ℕ) → e.object ≢ p → Interned ext s.table p → Interned ext (ext.remove s.table k) p
      owned_away p away old = record {
        key = old.key;
        entry = old.entry;
        found =
            Table.remove_ne ext s.table k old.key
              (λ q. away (cc (ap (ext.find s.table) q, f, old.found, old.here)))
            ∙ old.found;
        here = old.here;
      }

  module _ (k : Key) (e : Entry) (f : ext.find s.table k ≡ some e)
      (gain : Gains e.object refs' refs) (small : refs e.object < 2 ^ 32) where
    count : sub32 e.refcount 1 ≡ refs' e.object
    count = ground (arith, (sound.held k e f).exact, gain e.object)

    drop_ref-Released : Released ext s.heap refs' e.object (drop_ref ext s k e.object)
    unfolding drop_ref
    drop_ref-Released = elim (Bool-cases (sub32 e.refcount 1 == 0)) [
      | inl last ↦
          rw (f, itself, last, drop_ref)
            (record {
              sound = remove-IsSound k e f (ground (arith, count)) (λ q n. ground (arith, gain q));
              others = λ q n. ground arith;
              kept = λ pos. absurd (ground (arith, count));
              freed = λ _. ground arith;
            })
      | inr more ↦
          rw (f, itself, more, drop_ref)
            (record {
              sound =
                  assign-IsSound sound k e (record e { refcount = sub32 e.refcount 1 }) refs' f refl
                    (ground arith) count (λ q n. ground (arith, gain q));
              others = λ q n. refl;
              kept = λ _. refl;
              freed = λ z. absurd (ground (arith, count));
            })
    ]
      where
        itself : (e.object == e.object) ≡ true
        itself = ground arith

    at_object : object_at s.heap e.object ≡ some (sound.held k e f).body
    at_object = ground (arith, (sound.held k e f).placed, (sound.held k e f).stamped)

    release-entry :
        s.htab_ready ≡ true
        → s.dsa_ready ≡ true
        → Released ext s.heap refs' e.object (release ext s e.object)
    unfolding release
    release-entry tab area =
        let old = sound.held k e f in
        let valid : (e.object == 0) ≡ false = ground (arith, old.valid) in
        rw (valid, tab, area, at_object, old.keyed, release) drop_ref-Released

  -- In a process whose area and table are there, where the interner is sound for the references
  -- held, a reference is held and its count is below 2^32, ReleaseRef leaves the interner sound
  -- for the references that remain, frees the chunk exactly where the reference was the last, and
  -- changes no other chunk.
  pub release-Released :
      (ref : ℕ)
      → Gains ref refs' refs
      → refs ref < 2 ^ 32
      → s.htab_ready ≡ true
      → s.dsa_ready ≡ true
      → Released ext s.heap refs' ref (release ext s ref)
  release-Released ref gain small tab area =
      let at = sound.owned ref (ground (arith, gain ref)) in
      subst (λ p. Released ext s.heap refs' p (release ext s p)) at.here
        (release-entry at.key at.entry at.found (rw at.here gain) (rw at.here small) tab area)

take-take : (n m : ℕ) (xs : List ℕ) → n ≤ m → take n xs ≡ take n (take m xs)
take-take zero m xs le = refl
take-take (suc n) zero xs le = absurd (omega arith)
take-take (suc n) (suc m) [] le = refl
take-take (suc n) (suc m) (x ∷ xs) le = ap (◌∷◌ x) (take-take n m xs (omega arith))

take-prefix : (n m : ℕ) (xs ys : List ℕ) → n ≤ m → take m xs ≡ take m ys → take n xs ≡ take n ys
take-prefix n m xs ys le e = take-take n m xs le ∙ (ap (take n) e ∙ sym (take-take n m ys le))

-- Through a reference whose object holds a text, ResolveInto copies that text, cut to the buffer.
pub resolve_into-Holds :
    {T : Type 0} (s : Store T) (ref : ℕ) (query : List ℕ) (len dst_size : ℕ)
    → ref ≢ 0
    → s.dsa_ready ≡ true
    → Holds s.heap ref query len
    → 0 < dst_size
    → let n = min len (dst_size - 1) in resolve_into s ref dst_size ≡ (take n query ++ 0 ∷ [], n)
unfolding resolve_into
resolve_into-Holds s ref query len dst_size valid area h room =
    let usable : ((ref == 0) || (dst_size == 0)) ≡ false = ground (arith, valid) in
    let cut : (if leb dst_size len then dst_size - 1 else len) ≡ min len (dst_size - 1) =
      ground arith in
    rw (usable, area, h.placed, h.lengths, cut, resolve_into)
      (ap (λ t. (t ++ 0 ∷ [], min len (dst_size - 1)))
        (take-prefix (min len (dst_size - 1)) len h.body.query query (omega arith) h.bytes))

module _ {T : Type 0} (ext : External T) (s : Store T) (ref : ℕ) where
  -- A release detaches the process from nothing.
  pub release-ready :
      ((release ext s ref).dsa_ready ≡ s.dsa_ready)
      × ((release ext s ref).htab_ready ≡ s.htab_ready)
  unfolding release
  release-ready = (ground arith, ground arith)

  pub release_invalid : (ref == 0) ≡ true → release ext s ref ≡ s
  unfolding release
  release_invalid e = rw e

pub resolve_into_invalid :
    {T : Type 0} (s : Store T) (dst_size : ℕ) → resolve_into s 0 dst_size ≡ (0 ∷ [], 0)
unfolding resolve_into
resolve_into_invalid s dst_size = refl
