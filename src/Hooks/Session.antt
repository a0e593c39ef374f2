-- ===== src/Hooks/Session.antt =====
-- The session of a backend in src/hooks/hooks.c: its names and addresses, and their cache.
pub mod Buffers
pub mod Laws
use pg_stat_ch_otel_backend.Base.{
  ℕ, ◌-◌, ◌+◌, ◌^◌, ◌%◌, Bool, true, false, Option, none, some, List, [], ◌∷◌, ◌++◌, take, length,
  min, not, ◌==◌, ◌&&◌, if◌then◌else◌,
}
use pg_stat_ch_otel_backend.Event.{Event, Prefix}
use pg_stat_ch_otel_backend.Strings.{copy_name, copy_trimmed}
use pg_stat_ch_otel_backend.Export.{bytes}

-- What PostgreSQL answers at the time of a call. A text is its bytes without the NUL; NULL is none.
-- `remote_host` is the answer of pg_getnameinfo_all, none without a port or where it fails.
pub record Postgres : Type 0 where
  pub my_database_id : ℕ
  pub user_id : ℕ
  pub my_proc_pid : ℕ
  pub transaction_state : Bool
  pub database_name : ℕ → Option (List ℕ)
  pub user_name : ℕ → Option (List ℕ)
  pub application_name : Option (List ℕ)
  pub remote_host : Option (List ℕ)

-- PschBackendState without the cache of texts: a buffer is its bytes through the NUL.
pub record BackendState : Type 0 where
  pub initialized : Bool
  pub datname : List ℕ
  pub datname_len : ℕ
  pub cached_userid : ℕ
  pub username : List ℕ
  pub username_len : ℕ
  pub client_addr : List ℕ
  pub client_addr_len : ℕ

-- NAMEDATALEN, and the sizes of `client_addr` and `application_name`
abbrev pub namedatalen : ℕ
namedatalen = 64

abbrev pub client_addr_size : ℕ
client_addr_size = 46

abbrev pub unknown : List ℕ
unknown = bytes "<unknown>"

abbrev pub or_unknown : Option (List ℕ) → List ℕ
or_unknown none = unknown
or_unknown (some name) = name

-- `strcmp(a, b) == 0`
abbrev pub same_text : List ℕ → List ℕ → Bool
same_text [] [] = true
same_text (a ∷ s) (b ∷ t) = let rest = same_text s t in (a == b) && rest
same_text _ _ = false

-- `strlcpy`, and the length that the buffer then has
abbrev pub copy_text : List ℕ → ℕ → List ℕ × ℕ
copy_text text size = let len = min (length text) (size - 1) in (take len text ++ 0 ∷ [], len)

-- GetClientAddress
unfoldable pub get_client_address : Postgres → ℕ → List ℕ × ℕ
get_client_address pg buf_size = elim pg.remote_host [
  | none ↦ (0 ∷ [], 0)
  | some host ↦
      if length host == 0
      then (0 ∷ [], 0)
      else (if same_text host (bytes "[local]")
          then copy_text (bytes "127.0.0.1") buf_size
          else copy_text host buf_size)
]

module _ (isspace : ℕ → Bool) where
  -- GetApplicationName
  unfoldable pub get_application_name : Postgres → ℕ → List ℕ × ℕ
  get_application_name pg buf_size = elim pg.application_name [
    | none ↦ (0 ∷ [], 0)
    | some name ↦
        if length name == 0 then (0 ∷ [], 0) else copy_trimmed isspace buf_size (some name)
  ]

-- CacheUsername
unfoldable pub cache_username : Postgres → ℕ → Bool → BackendState → BackendState
cache_username pg userid fallback_on_null b = elim (pg.user_name userid) [
  | some name ↦
      let (username, len) = copy_name namedatalen name in
      record b { username = username; username_len = len; cached_userid = userid }
  | none ↦
      let (username, len) = copy_name namedatalen unknown in
      if fallback_on_null
      then record b { username = username; username_len = len; cached_userid = userid }
      else b
]

-- EnsureBackendCache
unfoldable pub ensure_backend_cache : Postgres → BackendState → BackendState
unfolding cache_username get_client_address
ensure_backend_cache pg b =
    if not b.initialized
    then (if not pg.transaction_state
        then b
        else (let (datname, datname_len) =
              copy_name namedatalen (or_unknown (pg.database_name pg.my_database_id)) in
            let (client_addr, client_addr_len) = get_client_address pg client_addr_size in
            record (cache_username pg pg.user_id true (record b {
              datname = datname;
              datname_len = datname_len;
              client_addr = client_addr;
              client_addr_len = client_addr_len % 2 ^ 8;
            })) { initialized = true }))
    else (if not (b.cached_userid == pg.user_id) && pg.transaction_state
        then cache_username pg pg.user_id false b
        else b)

-- ResolveNames
unfoldable pub resolve_names : Postgres → BackendState → Event → Event × BackendState
unfolding ensure_backend_cache
resolve_names pg b event =
    let b1 = ensure_backend_cache pg b in
    let (datname, datname_len) =
      copy_name namedatalen
        (or_unknown (if pg.transaction_state then pg.database_name event.dbid else none)) in
    let (username, username_len) =
      copy_name namedatalen
        (or_unknown (if pg.transaction_state then pg.user_name event.userid else none)) in
    (
      (if b1.initialized
          then record event {
            prefix = record event.prefix {
              datname = b1.datname;
              datname_len = b1.datname_len;
              username = b1.username;
              username_len = b1.username_len;
            };
          }
          else record event {
            prefix = record event.prefix {
              datname = datname;
              datname_len = datname_len;
              username = username;
              username_len = username_len;
            };
          }),
      b1,
    )

-- CopyClientContext
unfoldable pub copy_client_context :
    (ℕ → Bool) → Postgres → BackendState → Event → Event × BackendState
unfolding ensure_backend_cache get_application_name get_client_address
copy_client_context isspace pg b event =
    let (app, app_len) = get_application_name isspace pg namedatalen in
    let b1 = ensure_backend_cache pg b in
    let (addr, addr_len) = get_client_address pg client_addr_size in
    let named : Prefix = record event.prefix {
      application_name = app;
      application_name_len = app_len % 2 ^ 8;
    } in
    (
      record event {
        prefix =
            if b1.initialized
            then record named { client_addr = b1.client_addr; client_addr_len = b1.client_addr_len }
            else record named { client_addr = addr; client_addr_len = addr_len % 2 ^ 8 };
      },
      b1,
    )
