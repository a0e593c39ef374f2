-- ===== src/Cache/Remember.antt =====
-- The cache holds at most `max_entries` texts, those of the keys that were used last.
use pg_stat_ch_otel_backend.Base.{
  ℕ, suc, ◌<◌, ◌≤◌, ◌≡◌, ◌≢◌, sym, subst, ap, ap₂, ◌∙◌, Bool, true, false, Option, none, some, List,
  ◌∷◌, take, length, take_of_length-le, leb, ◌==◌, if◌then◌else◌, arith, Bool-cases, Option-cases,
  List-cases, inl, inr,
}
use pg_stat_ch_otel_backend.Cache.{
  CacheEntry, HashTable, Cache, delete, last_of, make_entry, init_cache, evict_lru, remember_ready,
}
use pg_stat_ch_otel_backend.Cache.Keys.{
  mem, NoDup, mem-delete, NoDup-delete, length-delete, delete_absent, mem-last_of, delete-last_of,
}

abbrev pub is_some : Option CacheEntry → Bool
is_some none = false
is_some (some e) = true

-- The list has each key of the table once, and no more than the cache may hold.
pub record IsValid {T : Type 0} (table : HashTable T) (c : Cache T) : Type 0 where
  pub nodup : NoDup c.lru
  pub bounded : length c.lru ≤ c.max_entries
  pub positive : 0 < c.max_entries
  pub linked : (j : ℕ) → is_some (table.find c.htab j) ≡ mem j c.lru

module _ {T : Type 0} (table : HashTable T) where
  pub init_cache-IsValid : (c : Cache T) (n : ℕ) → 0 < n → IsValid table (init_cache table c n)
  unfolding init_cache
  init_cache-IsValid c n pos = record {
    nodup = tt;
    bounded = omega arith;
    positive = pos;
    linked = λ j. ap is_some (table.find-empty j);
  }

  -- What an operation that leaves the key `k` in front, with the entry `e`, makes of `c`.
  pub record Fronted (c : Cache T) (k : ℕ) (e : CacheEntry) (c' : Cache T) : Type 0 where
    pub valid : IsValid table c'
    pub order : c'.lru ≡ take c.max_entries (k ∷ delete k c.lru)
    pub entries :
        (j : ℕ)
        → table.find c'.htab j
          ≡ (if k == j then some e else if mem j c'.lru then table.find c.htab j else none)

  module _ (c : Cache T) (v : IsValid table c) (k : ℕ) (text : List ℕ) (len : ℕ) where
    absent_entry : (j : ℕ) → mem j c.lru ≡ false → table.find c.htab j ≡ none
    absent_entry j m = elim (Option-cases (table.find c.htab j)) [
      | inl e ↦ e
      | inr (d, e) ↦ absurd (ground (arith, v.linked j, e))
    ]

    abbrev entry : CacheEntry
    entry = make_entry text len

    -- The key is there: its text is replaced.
    replaced :
        mem k c.lru ≡ true
        → Fronted c k entry
            (record c { htab = table.enter c.htab k entry; lru = k ∷ delete k c.lru })
    replaced there = record {
      valid = record {
        nodup = (ground (arith, mem-delete k k c.lru v.nodup), NoDup-delete k c.lru v.nodup);
        bounded = omega (arith, length-delete k c.lru there, v.bounded);
        positive = v.positive;
        linked = λ j.
            ground
              (arith, table.find-enter c.htab k j entry, v.linked j, mem-delete k j c.lru v.nodup);
      };
      order = sym (
          take_of_length-le c.max_entries (k ∷ delete k c.lru)
            (omega (arith, length-delete k c.lru there, v.bounded)));
      entries = λ j.
          ground (
            arith,
            table.find-enter c.htab k j entry,
            mem-delete k j c.lru v.nodup,
            absent_entry j,
          );
    }

    -- The key is new, and there is room.
    added :
        mem k c.lru ≡ false
        → length c.lru < c.max_entries
        → Fronted c k entry (record c { htab = table.enter c.htab k entry; lru = k ∷ c.lru })
    added new room = record {
      valid = record {
        nodup = (new, v.nodup);
        bounded = omega arith;
        positive = v.positive;
        linked = λ j. ground (arith, table.find-enter c.htab k j entry, v.linked j);
      };
      order =
          rw (delete_absent k c.lru new)
            (sym (take_of_length-le c.max_entries (k ∷ c.lru) (omega arith)));
      entries = λ j. ground (arith, table.find-enter c.htab k j entry, absent_entry j);
    }

    -- The key is new, and takes the place of the last one.
    displaced :
        (x : ℕ) (xs : List ℕ)
        → c.lru ≡ x ∷ xs
        → mem k c.lru ≡ false
        → c.max_entries ≤ length c.lru
        → Fronted c k entry (record c {
          htab = table.remove (table.enter c.htab k entry) (last_of x xs);
          lru = k ∷ delete (last_of x xs) c.lru;
        })
    displaced x xs e new full = record {
      valid = record {
        nodup = (ground (arith, mem-delete l k c.lru v.nodup, new), NoDup-delete l c.lru v.nodup);
        bounded = omega (arith, length-delete l c.lru there, v.bounded);
        positive = v.positive;
        linked = λ j. ground (
          arith,
          table.find-remove (table.enter c.htab k entry) l j,
          table.find-enter c.htab k j entry,
          v.linked j,
          mem-delete l j c.lru v.nodup,
          differ,
        );
      };
      order =
          ap (◌∷◌ k) (
            ap (delete l) e
            ∙ (delete-last_of x xs (subst NoDup e v.nodup) ∙ ap (take (length xs)) (sym e)))
          ∙ ap₂ (λ n q. take n (k ∷ q)) (sym whole) (sym (delete_absent k c.lru new));
      entries = λ j. ground (
        arith,
        table.find-remove (table.enter c.htab k entry) l j,
        table.find-enter c.htab k j entry,
        mem-delete l j c.lru v.nodup,
        absent_entry j,
        differ,
      );
    }
      where
        l : ℕ
        l = last_of x xs

        there : mem l c.lru ≡ true
        there = ap (mem l) e ∙ mem-last_of x xs

        differ : l ≢ k
        differ z = absurd (ground (arith, new, there, ap (λ i. mem i c.lru) z))

        whole : c.max_entries ≡ suc (length xs)
        whole = omega (arith, ap (λ (q : List ℕ). length q) e, v.bounded)

    -- The last key goes, with its entry.
    evict_lru_at :
        (d : Cache T) (x : ℕ) (xs : List ℕ)
        → d.lru ≡ x ∷ xs
        → evict_lru table d ≡ record d {
          lru = delete (last_of x xs) d.lru;
          htab = table.remove d.htab (last_of x xs);
        }
    unfolding evict_lru
    evict_lru_at d x xs e =
        rw (e, evict_lru)
          (ap
            (λ (q : List ℕ). record d {
              lru = delete (last_of x xs) q;
              htab = table.remove d.htab (last_of x xs);
            })
            e)

    -- On a cache whose list has each key of its table once and no more keys than max_entries,
    -- which is positive, PschRememberNormalizedQuery keeps that so, whether the key is there, is
    -- new with room, or is new in a full cache: the keys in order of use are the new key and then
    -- the others in the order they had, cut to max_entries; the key has the new text, each other
    -- key in the list keeps its text, and no other key has one.
    pub remember_ready-Fronted : Fronted c k entry (remember_ready table c k text len)
    unfolding remember_ready
    remember_ready-Fronted = elim (Option-cases (table.find c.htab k)) [
      | inl new ↦
          let absent : mem k c.lru ≡ false = ground (arith, new, v.linked k) in
          elim (Bool-cases (leb c.max_entries (length c.lru))) [
            | inl full ↦ elim (List-cases c.lru) [
              | inl e ↦ absurd (ground (arith, v.positive, e, full))
              | inr (x, xs, e) ↦
                  rw
                    (
                      new,
                      full,
                      evict_lru_at (record c { htab = table.enter c.htab k entry }) x xs e,
                      remember_ready,
                    )
                    (displaced x xs e absent (ground (arith, full)))
            ]
            | inr room ↦ rw (new, room, remember_ready) (added absent (ground (arith, room)))
          ]
      | inr (d, old) ↦ rw (old, remember_ready) (replaced (ground (arith, old, v.linked k)))
    ]

    pub remember_ready-ready : (remember_ready table c k text len).ready ≡ c.ready
    unfolding remember_ready evict_lru
    remember_ready-ready = ground arith
