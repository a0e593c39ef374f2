-- ===== src/Cache.antt =====
-- src/hooks/query_normalize_state.c: the backend's cache of normalized query texts, which forgets
-- the text that was used least recently.
--
-- The hash table (dynahash) is a parameter. The list of least recent use (dclist) is the list of
-- the keys of its nodes, the most recently used first. A cache text is copied, so its chunk is the
-- entry's own and is freed with it.
pub mod Keys
pub mod Remember
pub mod Lookup
use pg_stat_ch_otel_backend.Base.{
  ℕ, ◌+◌, ◌-◌, ◌^◌, ◌%◌, ◌≡◌, Bool, true, false, Option, none, some, List, [], ◌∷◌, ◌++◌, not, min,
  take, length, leb, ltb, ◌==◌, ◌||◌, if◌then◌else◌,
}

-- PschNormalizeCacheEntry, without its key and its node
pub record CacheEntry : Type 0 where
  pub normalized_query : List ℕ
  pub normalized_len : ℕ

-- What the code relies on of a hash table with the keys `query_id`: HASH_FIND, HASH_ENTER with what
-- is then written into the element, HASH_REMOVE.
pub record HashTable (T : Type 0) : Type 0 where
  pub empty : T
  pub find : T → ℕ → Option CacheEntry
  pub enter : T → ℕ → CacheEntry → T
  pub remove : T → ℕ → T
  pub find-empty : (k : ℕ) → find empty k ≡ none
  pub find-enter :
      (t : T) (k j : ℕ) (e : CacheEntry)
      → find (enter t k e) j ≡ (if k == j then some e else find t j)
  pub find-remove : (t : T) (k j : ℕ) → find (remove t k) j ≡ (if k == j then none else find t j)

-- PschNormalizedQueryCache; `ready` says that `htab` is not NULL
pub record Cache (T : Type 0) : Type 0 where
  pub ready : Bool
  pub htab : T
  pub lru : List ℕ
  pub max_entries : ℕ

-- PSCH_MAX_CACHED_QUERY_LEN
abbrev pub max_cached_query_len : ℕ
max_cached_query_len = 2048

-- dclist_delete_from, of the node with the key
abbrev pub delete : ℕ → List ℕ → List ℕ
delete k [] = []
delete k (x ∷ xs) = if x == k then xs else x ∷ delete k xs

-- dclist_tail_node, of a list that starts with `x`
abbrev pub last_of : ℕ → List ℕ → ℕ
last_of x [] = x
last_of x (y ∷ ys) = last_of y ys

-- ClampCachedQueryLen
unfoldable pub clamp_cached_query_len : ℕ → ℕ
clamp_cached_query_len n = if leb max_cached_query_len n then max_cached_query_len - 1 else n

-- CopyEntryText: the bytes with the NUL, and the length as a `uint16`
unfoldable pub copy_entry_text : CacheEntry → ℕ → List ℕ × ℕ
copy_entry_text e dst_size =
    let len = min e.normalized_len (dst_size - 1) in
    (take len e.normalized_query ++ 0 ∷ [], len % 2 ^ 16)

-- The entry that a text of `len` bytes is kept in (CopyQueryText, at the clamped length).
unfoldable pub make_entry : List ℕ → ℕ → CacheEntry
make_entry text len =
    let n = clamp_cached_query_len len in
    record { normalized_query = take n text ++ 0 ∷ []; normalized_len = n }

module _ {T : Type 0} (table : HashTable T) where
  -- PschInitNormalizedQueryCache
  unfoldable pub init_cache : Cache T → ℕ → Cache T
  init_cache c max_entries = record {
    ready = true;
    htab = table.empty;
    lru = [];
    max_entries = max_entries;
  }

  -- EnsureCacheInitialized; `setting` is psch_normalize_cache_max
  unfoldable pub ensure_initialized : ℕ → Cache T → Cache T
  unfolding init_cache
  ensure_initialized setting c =
      if c.ready then c else init_cache c (if ltb 0 c.max_entries then c.max_entries else setting)

  -- EvictLru
  unfoldable pub evict_lru : Cache T → Cache T
  evict_lru c = elim c.lru [
    | [] ↦ c
    | x ∷ xs ↦
        let victim = last_of x xs in
        record c { lru = delete victim c.lru; htab = table.remove c.htab victim }
  ]

  -- PschRememberNormalizedQuery on a cache with a table
  unfoldable pub remember_ready : Cache T → ℕ → List ℕ → ℕ → Cache T
  remember_ready c query_id text len =
      let entered : Cache T = record c {
        htab = table.enter c.htab query_id (make_entry text len);
      } in
      let c1 : Cache T = elim (table.find c.htab query_id) [
        | some old ↦ record entered { lru = delete query_id c.lru }
        | none ↦ if leb c.max_entries (length c.lru) then evict_lru entered else entered
      ] in
      record c1 { lru = query_id ∷ c1.lru }

  -- PschRememberNormalizedQuery; the text may be NULL
  unfoldable pub remember : ℕ → Cache T → ℕ → Option (List ℕ) → ℕ → Cache T
  remember setting c query_id none len = c
  remember setting c query_id (some text) len =
      if query_id == 0 then c else remember_ready (ensure_initialized setting c) query_id text len

  -- PschLookupNormalizedQuery, with `dst` and `out_len` that are not NULL
  unfoldable pub lookup : Cache T → ℕ → ℕ → Option (List ℕ × ℕ) × Cache T
  lookup c query_id dst_size =
      if not c.ready || (dst_size == 0) || (query_id == 0)
      then (none, c)
      else elim (table.find c.htab query_id) [
        | none ↦ (none, c)
        | some e ↦
            (some (copy_entry_text e dst_size), record c { lru = query_id ∷ delete query_id c.lru })
      ]
