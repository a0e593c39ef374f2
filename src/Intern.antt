-- ===== src/Intern.antt =====
-- src/queue/query_intern.c: query texts shared between queued events, in a hash table of counted
-- references to objects of the shared area.
pub mod Sound
pub mod Enter
pub mod Insert
pub mod Acquire
pub mod Release
pub mod RoundTrip
use pg_stat_ch_otel_backend.Base.{
  ℕ, ◌+◌, ◌-◌, ◌^◌, ◌%◌, Bool, true, false, Option, none, some, List, [], ◌∷◌, ◌++◌, not, take, leb,
  ◌==◌, ◌||◌, ◌&&◌, if◌then◌else◌, list_eq,
}
use pg_stat_ch_otel_backend.Store.{Key, Entry, Object, Heap, object, update, Store, External}
use pg_stat_ch_otel_backend.Dsa.{add64, dsa_free}

-- PSCH_QUERY_INTERN_MAGIC
abbrev pub intern_magic : ℕ
intern_magic = 0x51544348

-- offsetof(PschQueryInternObject, query): a key of 32 bytes and the magic number
abbrev pub object_header : ℕ
object_header = 36

-- `uint32` arithmetic
abbrev pub add32 : ℕ → ℕ → ℕ
add32 a b = (a + b) % 2 ^ 32

abbrev pub sub32 : ℕ → ℕ → ℕ
sub32 a b = (a + 2 ^ 32 - b) % 2 ^ 32

-- The object at an address; `none` where the bytes there have not its magic number.
abbrev pub object_at : Heap → ℕ → Option Object
object_at h p = elim (h p) [
  | some (object o) ↦ if o.magic == intern_magic then some o else none
  | _ ↦ none
]

-- memcmp(a, b, n) == 0, where both buffers hold at least `n` bytes
abbrev pub same_bytes : ℕ → List ℕ → List ℕ → Bool
same_bytes n a b = list_eq (take n a) (take n b)

-- ObjectMatches
unfoldable pub object_matches : Heap → ℕ → List ℕ → ℕ → Bool
object_matches h dp query query_len = elim (object_at h dp) [
  | none ↦ false
  | some o ↦ (o.key.query_len == query_len) && same_bytes query_len o.query query
]

module _ {T : Type 0} (ext : External T) where
  -- MakeKey
  unfoldable pub make_key : ℕ → ℕ → List ℕ → ℕ → Key
  make_key dbid queryid query query_len = record {
    dbid = dbid;
    queryid = queryid;
    query_hash = ext.hash_any (take query_len query);
    query_len = query_len;
  }

  -- AllocInternObject
  unfoldable pub alloc_object : Store T → Key → List ℕ → ℕ → ℕ × Store T
  alloc_object s key query query_len = elim (ext.allocate s.heap (object_header + query_len + 1)) [
    | none ↦ (0, record s { oom = add64 s.oom 1 })
    | some dp ↦ (
      dp,
      record s {
        heap = update s.heap dp (
            some (
              object (record {
                key = key;
                magic = intern_magic;
                query = take query_len query ++ 0 ∷ [];
              })));
      },
    )
  ]

  -- `entry->refcount++` on a found element
  unfoldable pub bump : Store T → Key → Entry → Store T
  bump s key e = record s {
    table = ext.assign s.table key (record e { refcount = add32 e.refcount 1 });
  }

  unfoldable pub free : Store T → ℕ → Store T
  free s p = record s { heap = dsa_free s.heap p }

  -- The second look under the partition lock, once `new_dp` is allocated.
  unfoldable pub insert : Store T → Key → List ℕ → ℕ → ℕ → ℕ × Store T
  unfolding bump free object_matches
  insert s key query query_len new_dp = elim (ext.find s.table key) [
    | some e ↦
        if object_matches s.heap e.object query query_len
        then (e.object, free (bump s key e) new_dp)
        else (0, free s new_dp)
    | none ↦ elim (ext.enter s.table key (record { object = new_dp; refcount = 1 })) [
      | none ↦ (0, free s new_dp)
      | some t ↦ (new_dp, record s { table = t })
    ]
  ]

  -- A miss of the first look: `others` is what other processes do while no lock is held.
  unfoldable pub miss : (Store T → Store T) → Store T → Key → List ℕ → ℕ → ℕ × Store T
  unfolding alloc_object insert
  miss others s key query query_len =
      let (new_dp, s') = alloc_object s key query query_len in
      if new_dp == 0 then (0, s') else insert (others s') key query query_len new_dp

  -- PschQueryInternAcquire
  unfoldable pub acquire : (Store T → Store T) → Store T → ℕ → ℕ → List ℕ → ℕ → ℕ × Store T
  unfolding make_key miss
  acquire others s dbid queryid query query_len =
      if query_len == 0 || not s.htab_ready
      then (0, s)
      else if not s.dsa_ready
      then (0, s)
      else (let key = make_key dbid queryid query query_len in
          elim (ext.find s.table key) [
            | some e ↦
                if object_matches s.heap e.object query query_len
                then (e.object, bump s key e)
                else (0, s)
            | none ↦ miss others s key query query_len
          ])

  -- The part of ReleaseRef under the partition lock, with the free that follows it.
  unfoldable pub drop_ref : Store T → Key → ℕ → Store T
  drop_ref s key ref = elim (ext.find s.table key) [
    | none ↦ s
    | some e ↦
        if e.object == ref
        then (let n = sub32 e.refcount 1 in
            if n == 0
            then record s { table = ext.remove s.table key; heap = dsa_free s.heap e.object }
            else record s { table = ext.assign s.table key (record e { refcount = n }) })
        else s
  ]

  -- ReleaseRef
  unfoldable pub release : Store T → ℕ → Store T
  unfolding drop_ref
  release s ref =
      if ref == 0 || not s.htab_ready
      then s
      else if not s.dsa_ready
      then s
      else elim (object_at s.heap ref) [ none ↦ s | some o ↦ drop_ref s o.key ref ]

-- ResolveInto on a buffer that holds the empty text, with its length
unfoldable pub resolve_into : {T : Type 0} → Store T → ℕ → ℕ → List ℕ × ℕ
resolve_into s ref dst_size =
    if ref == 0 || dst_size == 0
    then (0 ∷ [], 0)
    else if not s.dsa_ready
    then (0 ∷ [], 0)
    else elim (object_at s.heap ref) [
      | none ↦ (0 ∷ [], 0)
      | some o ↦
          let copy_len = if leb dst_size o.key.query_len then dst_size - 1 else o.key.query_len in
          (take copy_len o.query ++ 0 ∷ [], copy_len)
    ]

-- PschQueryInternResolveAndRelease, with output arguments that are not NULL
unfoldable pub resolve_and_release :
    {T : Type 0} → External T → Store T → ℕ → ℕ → List ℕ × ℕ × Store T
unfolding resolve_into release
resolve_and_release ext s ref dst_size =
    let (dst, out_len) = resolve_into s ref dst_size in (dst, out_len, release ext s ref)
