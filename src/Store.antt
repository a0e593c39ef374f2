-- ===== src/Store.antt =====
-- What the queue keeps its strings in, and what it takes from PostgreSQL to do so.
--
-- The dynamic shared memory area is a store from pointers to bodies; 0 is InvalidDsaPointer. Which
-- pointer `dsa_allocate_extended` hands out, and when it is out of memory, is a parameter, and so
-- are the shared hash table (dynahash) and `hash_any_extended`.
pub mod Table
use pg_stat_ch_otel_backend.Base.{
  ℕ, ◌≡◌, ◌≢◌, Bool, Option, none, some, List, ite, ◌==◌, if◌then◌else◌, ℕ_discrete,
}

-- PschQueryInternKey
pub record Key : Type 0 where
  pub dbid : ℕ
  pub queryid : ℕ
  pub query_hash : ℕ
  pub query_len : ℕ

pub Key-discrete : Discrete Key
Key-discrete = hlevel ℕ_discrete

-- PschQueryInternEntry, without the key, which the table keeps
pub record Entry : Type 0 where
  pub object : ℕ
  pub refcount : ℕ

-- PschQueryInternObject; `query` is its bytes with the NUL
pub record Object : Type 0 where
  pub key : Key
  pub magic : ℕ
  pub query : List ℕ

-- What an allocated chunk holds: an error message with its NUL, or an interned query.
pub data Body : Type 0 where
  text : List ℕ → Body
  object : Object → Body

abbrev pub Heap : Type 0
Heap = ℕ → Option Body

abbrev pub update : Heap → ℕ → Option Body → Heap
update h p b q = if p == q then b else h q

-- What the code relies on of PostgreSQL, for tables of type `T`.
pub record External (T : Type 0) : Type 0 where
  -- `dsa_allocate_extended` with DSA_ALLOC_NO_OOM: `none` is InvalidDsaPointer
  pub allocate : Heap → ℕ → Option ℕ
  -- a new chunk is not the invalid pointer, and is not in use
  pub allocate_fresh : (h : Heap) (n p : ℕ) → allocate h n ≡ some p → (p ≢ 0) × (h p ≡ none)
  -- `hash_any_extended`
  pub hash_any : List ℕ → ℕ
  -- `hash_search` with HASH_FIND, with HASH_ENTER_NULL for a new key (`none` for NULL, and the
  -- value is what the caller then writes into the element), a write to a found element, HASH_REMOVE
  pub find : T → Key → Option Entry
  pub enter : T → Key → Entry → Option T
  pub assign : T → Key → Entry → T
  pub remove : T → Key → T
  pub find-enter :
      (t t' : T) (k j : Key) (e : Entry)
      → enter t k e ≡ some t'
      → find t' j ≡ ite (Key-discrete k j) (some e) (find t j)
  pub find-assign :
      (t : T) (k j : Key) (e d : Entry)
      → find t k ≡ some d
      → find (assign t k e) j ≡ ite (Key-discrete k j) (some e) (find t j)
  pub find-remove :
      (t : T) (k j : Key) → find (remove t k) j ≡ ite (Key-discrete k j) none (find t j)

-- The shared string storage, as one process sees it.
pub record Store (T : Type 0) : Type 0 where
  pub heap : Heap
  pub table : T
  -- `dsa_oom_count`
  pub oom : ℕ
  -- PschDsaGetArea() is not NULL
  pub dsa_ready : Bool
  -- `psch_query_intern_htab` is not NULL
  pub htab_ready : Bool
