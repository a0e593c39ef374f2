-- ===== src/Hooks/Session/Laws.antt =====
-- The names and addresses of the session are within its buffers and terminated.
use pg_stat_ch_otel_backend.Base.{
  ℕ, ◌-◌, ◌%◌, ◌^◌, ◌<◌, ◌≡◌, ◌++◌, Bool, true, false, Option, none, some, List, [], ◌∷◌, not, ◌&&◌,
  take, min, length, ◌==◌, arith, Bool-cases, Option-cases, inl, inr, if◌then◌else◌,
}
use pg_stat_ch_otel_backend.Event.{Event}
use pg_stat_ch_otel_backend.Strings.{
  copy_name, copy_trimmed, trimmed_len, skip_leading, trimmed_len_lem,
}
use pg_stat_ch_otel_backend.Export.{bytes}
use pg_stat_ch_otel_backend.Hooks.Session.Buffers.{Within, copied-Within, empty-Within, byte-Within}
use pg_stat_ch_otel_backend.Hooks.Session.{
  Postgres, BackendState, namedatalen, client_addr_size, unknown, or_unknown, same_text, copy_text,
  get_client_address, get_application_name, cache_username, ensure_backend_cache, resolve_names,
  copy_client_context,
}

-- A name, in a buffer of 64 bytes.
copy_name-Within : (src : List ℕ) → Within 64 (copy_name namedatalen src)
unfolding copy_name
copy_name-Within src =
    let len = min (length src) 63 in
    byte-Within 64 (take len src ++ 0 ∷ []) len (omega arith)
      (copied-Within 64 len src (omega arith) (omega arith))

copy_text-Within : (text : List ℕ) (size : ℕ) → 0 < size → Within size (copy_text text size)
copy_text-Within text size some_room =
    copied-Within size (min (length text) (size - 1)) text (omega arith) (omega arith)

pub copy_trimmed-Within :
    (isspace : ℕ → Bool) (size : ℕ) (src : Option (List ℕ))
    → 0 < size
    → Within size (copy_trimmed isspace size src)
unfolding copy_trimmed
copy_trimmed-Within isspace size none some_room =
    let positive : (size == 0) ≡ false = ground arith in
    rw (positive, copy_trimmed) (empty-Within size some_room)
copy_trimmed-Within isspace size (some src) some_room =
    let positive : (size == 0) ≡ false = ground arith in
    let text = skip_leading isspace src in
    let m = min (length text) (size - 1) in
    let len = trimmed_len isspace text m in
    let cut = (trimmed_len_lem isspace text m).0 in
    rw (positive, copy_trimmed)
      (copied-Within size len text (omega (arith, cut)) (omega (arith, cut)))

get_client_address-Within : (pg : Postgres) → Within 46 (get_client_address pg client_addr_size)
unfolding get_client_address
get_client_address-Within pg = elim (Option-cases pg.remote_host) [
  | inl e ↦ rw (e, get_client_address) (empty-Within 46 (omega arith))
  | inr (host, e) ↦ elim (Bool-cases (length host == 0)) [
    | inl h ↦ rw (e, h, get_client_address) (empty-Within 46 (omega arith))
    | inr h ↦ elim (Bool-cases (same_text host (bytes "[local]"))) [
      | inl h' ↦
          rw (e, h, h', get_client_address) (copy_text-Within (bytes "127.0.0.1") 46 (omega arith))
      | inr h' ↦ rw (e, h, h', get_client_address) (copy_text-Within host 46 (omega arith))
    ]
  ]
]

get_application_name-Within :
    (isspace : ℕ → Bool) (pg : Postgres) → Within 64 (get_application_name isspace pg namedatalen)
unfolding get_application_name
get_application_name-Within isspace pg = elim (Option-cases pg.application_name) [
  | inl e ↦ rw (e, get_application_name) (empty-Within 64 (omega arith))
  | inr (name, e) ↦ elim (Bool-cases (length name == 0)) [
    | inl h ↦ rw (e, h, get_application_name) (empty-Within 64 (omega arith))
    | inr h ↦
        rw (e, h, get_application_name) (copy_trimmed-Within isspace 64 (some name) (omega arith))
  ]
]

-- The names and the address in buffers of 64, 64 and 46 bytes, terminated.
pub record IsSound (b : BackendState) : Type 0 where
  pub datname_fits : Within 64 (b.datname, b.datname_len)
  pub username_fits : Within 64 (b.username, b.username_len)
  pub client_addr_fits : Within 46 (b.client_addr, b.client_addr_len)

cache_username-IsSound :
    (pg : Postgres) (userid : ℕ) (fallback_on_null : Bool) (b : BackendState)
    → IsSound b
    → IsSound (cache_username pg userid fallback_on_null b)
unfolding cache_username
cache_username-IsSound pg userid fallback_on_null b v = elim (Option-cases (pg.user_name userid)) [
  | inr (name, e) ↦
      rw (e, cache_username)
        (record {
          datname_fits = v.datname_fits;
          username_fits = copy_name-Within name;
          client_addr_fits = v.client_addr_fits;
        })
  | inl e ↦ elim (Bool-cases fallback_on_null) [
    | inr h ↦ rw (e, h, cache_username) v
    | inl h ↦
        rw (e, h, cache_username)
          (record {
            datname_fits = v.datname_fits;
            username_fits = copy_name-Within unknown;
            client_addr_fits = v.client_addr_fits;
          })
  ]
]

pub ensure_backend_cache-IsSound :
    (pg : Postgres) (b : BackendState) → IsSound b → IsSound (ensure_backend_cache pg b)
unfolding ensure_backend_cache
ensure_backend_cache-IsSound pg b v = elim (Bool-cases (not b.initialized)) [
  | inl fresh ↦ elim (Bool-cases (not pg.transaction_state)) [
    | inl h ↦ simp (fresh, h, ensure_backend_cache) v
    | inr h ↦
        let (name, len) = copy_name namedatalen (or_unknown (pg.database_name pg.my_database_id)) in
        let (addr, addr_len) = get_client_address pg client_addr_size in
        let b1 : BackendState = record b {
          datname = name;
          datname_len = len;
          client_addr = addr;
          client_addr_len = addr_len % 2 ^ 8;
        } in
        let v1 : IsSound b1 = record {
          datname_fits = copy_name-Within (or_unknown (pg.database_name pg.my_database_id));
          username_fits = v.username_fits;
          client_addr_fits =
              byte-Within 46 (get_client_address pg client_addr_size).0
                (get_client_address pg client_addr_size).1 (omega arith)
                (get_client_address-Within pg);
        } in
        let v2 = cache_username-IsSound pg pg.user_id true b1 v1 in
        simp (fresh, h, ensure_backend_cache)
          (record {
            datname_fits = v2.datname_fits;
            username_fits = v2.username_fits;
            client_addr_fits = v2.client_addr_fits;
          })
  ]
  | inr known ↦ elim (Bool-cases (not (b.cached_userid == pg.user_id) && pg.transaction_state)) [
    | inl h ↦ simp (known, h, ensure_backend_cache) (cache_username-IsSound pg pg.user_id false b v)
    | inr h ↦ simp (known, h, ensure_backend_cache) v
  ]
]

-- The names of an event are within its buffers, of 64 and for the address 46 bytes, and terminated.
pub record IsNamed (event : Event) : Type 0 where
  pub datname_fits : Within 64 (event.datname, event.datname_len)
  pub username_fits : Within 64 (event.username, event.username_len)
  pub app_fits : Within 64 (event.application_name, event.application_name_len)
  pub client_addr_fits : Within 46 (event.client_addr, event.client_addr_len)

pub resolve_names-IsNamed :
    (pg : Postgres) (b : BackendState) (event : Event)
    → IsSound b
    → IsNamed event
    → IsNamed (resolve_names pg b event).0 × IsSound (resolve_names pg b event).1
unfolding resolve_names
resolve_names-IsNamed pg b event v named =
    let v1 = ensure_backend_cache-IsSound pg b v in
    let datname = or_unknown (if pg.transaction_state then pg.database_name event.dbid else none) in
    let username = or_unknown (if pg.transaction_state then pg.user_name event.userid else none) in
    elim (Bool-cases (ensure_backend_cache pg b).initialized) [
      | inl h ↦
          simp (h, resolve_names)
            (
              record {
                datname_fits = v1.datname_fits;
                username_fits = v1.username_fits;
                app_fits = named.app_fits;
                client_addr_fits = named.client_addr_fits;
              },
              v1,
            )
      | inr h ↦
          simp (h, resolve_names)
            (
              record {
                datname_fits = copy_name-Within datname;
                username_fits = copy_name-Within username;
                app_fits = named.app_fits;
                client_addr_fits = named.client_addr_fits;
              },
              v1,
            )
    ]

pub copy_client_context-IsNamed :
    (isspace : ℕ → Bool) (pg : Postgres) (b : BackendState) (event : Event)
    → IsSound b
    → IsNamed event
    → IsNamed (copy_client_context isspace pg b event).0
      × IsSound (copy_client_context isspace pg b event).1
unfolding copy_client_context
copy_client_context-IsNamed isspace pg b event v named =
    let v1 = ensure_backend_cache-IsSound pg b v in
    let (app, app_len) = get_application_name isspace pg namedatalen in
    let app_within =
      byte-Within 64 app app_len (omega arith) (get_application_name-Within isspace pg) in
    elim (Bool-cases (ensure_backend_cache pg b).initialized) [
      | inl h ↦
          simp (h, copy_client_context)
            (
              record {
                datname_fits = named.datname_fits;
                username_fits = named.username_fits;
                app_fits = app_within;
                client_addr_fits = v1.client_addr_fits;
              },
              v1,
            )
      | inr h ↦
          simp (h, copy_client_context)
            (
              record {
                datname_fits = named.datname_fits;
                username_fits = named.username_fits;
                app_fits = app_within;
                client_addr_fits =
                    byte-Within 46 (get_client_address pg client_addr_size).0
                      (get_client_address pg client_addr_size).1 (omega arith)
                      (get_client_address-Within pg);
              },
              v1,
            )
    ]
