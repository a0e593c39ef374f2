-- ===== src/Tests/Caching.antt =====
-- A cache of two texts, and the theorems at it.
use pg_stat_ch_otel_backend.Base.{
  ℕ, ◌≡◌, refl, false, Option, none, some, List, [], ◌∷◌, ◌==◌, if◌then◌else◌, arith,
}
use pg_stat_ch_otel_backend.Cache.{
  CacheEntry, HashTable, Cache, init_cache, make_entry, remember_ready, lookup,
}
use pg_stat_ch_otel_backend.Cache.Remember.{
  IsValid, Fronted, init_cache-IsValid, remember_ready-Fronted,
}
use pg_stat_ch_otel_backend.Cache.Lookup.{lookup-remember}

abbrev pub Texts : Type 0
Texts = ℕ → Option CacheEntry

abbrev pub table : HashTable Texts
table = record {
  empty = λ j. none;
  find = λ t k. t k;
  enter = λ t k e j. if k == j then some e else t j;
  remove = λ t k j. if k == j then none else t j;
  find-empty = λ k. refl;
  find-enter = λ t k j e. refl;
  find-remove = λ t k j. refl;
}

abbrev pub blank : Cache Texts
blank = record { ready = false; htab = λ j. none; lru = []; max_entries = 0 }

abbrev pub text : List ℕ
text = 83 ∷ 69 ∷ 76 ∷ []

-- The cache with the keys 5 and 4, which is full.
abbrev pub full : Cache Texts
full = remember_ready table (remember_ready table (init_cache table blank 2) 4 text 3) 5 text 2

pub full-IsValid : IsValid table full
full-IsValid =
    (remember_ready-Fronted table (remember_ready table (init_cache table blank 2) 4 text 3)
      (remember_ready-Fronted table (init_cache table blank 2)
        (init_cache-IsValid table blank 2 (omega arith)) 4 text 3).valid
      5 text 2).valid

remember_ready-Fronted_example :
    Fronted table full 6 (make_entry text 3) (remember_ready table full 6 text 3)
remember_ready-Fronted_example = remember_ready-Fronted table full full-IsValid 6 text 3

lookup-remember_example :
    (lookup table (remember_ready table full 6 text 3) 6 3).0 ≡ some (83 ∷ 69 ∷ 0 ∷ [], 2)
unfolding remember_ready init_cache
lookup-remember_example =
    lookup-remember table full full-IsValid 6 text 3 3 refl (omega arith) (omega arith)
      (omega arith) (omega arith)
