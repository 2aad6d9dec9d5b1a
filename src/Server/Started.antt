-- ===== src/Server/Started.antt =====
-- The start of `serve`, up to the port on which it listens.
use tiny_cache.Base.{
  ℕ, zero, suc, ◌<◌, ◌≡◌, ◌⊎◌, refl, Text, Text-discrete, codes, Bytes, int_text, Bool-cases, true,
  List, [], ◌∷◌, ◌∙◌, ◌++◌, ◌||◌, sym, ap, inl, inr, arith,
}
use tiny_cache.Errors.{
  Error, Result, ok, raise, raise_if, value_error, tls_paths_missing, other_exception,
  chain_returned, Result-cases,
}
use tiny_cache.Dict.{Dict}
use tiny_cache.MemoryStore.State.{CacheStore}
use tiny_cache.SqliteStore.State.{SqliteStore, Row}
use tiny_cache.Settings.{Environ, Settings, loaded, load_settings}
use tiny_cache.Settings.Factory.{create_cache_store, store_of, create_cache_store-limits}
use tiny_cache.Settings.Tls.{
  Listening, insecure_port, secure_port, is_unset, path_of, build_tls_server_credentials,
  add_grpc_listen_port, IsGuarded, add_grpc_listen_port-IsGuarded,
}

abbrev pub Store : Type 0
Store = CacheStore ⊎ SqliteStore

-- what `serve` does that outlasts it, or that it does to that
pub data Effect : Type 0 where
  makes_store : Store → Effect
  binds : Listening → Effect
  stops_store : Effect

-- How the start ends: with an exception, or with a store and a port; and what it did, in order.
abbrev pub Start : Type 0
Start = Result (Store × Listening × ℕ) × List Effect

abbrev pub address : Listening → Text
address (insecure_port addr) = addr
address (secure_port addr credentials) = addr

abbrev pub listen_addr : Settings → Text
listen_addr settings = settings.host ++ codes ":" ++ int_text settings.port

-- `read_bytes` reads a file, and `bind` is the number of the port that gRPC gives, or an exception.
module _ (read_bytes : Text → Result Bytes) (bind : Listening → Result ℕ) where
  -- `RuntimeError` is raised if there is no port
  abbrev pub check_port : Store → Listening → Result ℕ → Start
  check_port store port (raise e) = (raise e, makes_store store ∷ binds port ∷ [])
  check_port store port (ok zero) =
      (raise other_exception, makes_store store ∷ binds port ∷ stops_store ∷ [])
  check_port store port (ok (suc n)) =
      (ok (store, port, suc n), makes_store store ∷ binds port ∷ [])

  unfoldable pub start : Settings → Result (Dict Row) → Start
  start settings opened = elim (create_cache_store settings opened) [
    | raise e ↦ (raise e, [])
    | ok store ↦ elim (add_grpc_listen_port read_bytes (listen_addr settings) settings) [
      | raise e ↦ (raise e, makes_store store ∷ [])
      | ok port ↦ check_port store port (bind port)
    ]
  ]

  -- a port at the address of the settings, and as secure as they ask
  abbrev pub IsAsked : Settings → Listening → Type 0
  IsAsked settings port =
      (address port ≡ settings.host ++ codes ":" ++ int_text settings.port)
      × IsGuarded read_bytes settings port

  -- The five ways in which a start can end.
  pub data IsStart (settings : Settings) (opened : Result (Dict Row)) : Start → Type 0 where
    fails_to_open :
        {e : Error}
        → settings.backend ≡ codes "sqlite"
        → opened ≡ raise e
        → IsStart settings opened (raise e, [])
    fails_for_files :
        {store : Store} {e : Error}
        → store_of settings opened ≡ ok store
        → settings.tls_enabled ≡ true
        → add_grpc_listen_port read_bytes (listen_addr settings) settings ≡ raise e
        → IsStart settings opened (raise e, makes_store store ∷ [])
    fails_to_bind :
        {store : Store} {port : Listening} {e : Error}
        → store_of settings opened ≡ ok store
        → IsAsked settings port
        → bind port ≡ raise e
        → IsStart settings opened (raise e, makes_store store ∷ binds port ∷ [])
    is_given_no_port :
        {store : Store} {port : Listening}
        → store_of settings opened ≡ ok store
        → IsAsked settings port
        → bind port ≡ ok 0
        → IsStart settings opened
            (raise other_exception, makes_store store ∷ binds port ∷ stops_store ∷ [])
    listens :
        {store : Store} {port : Listening} {n : ℕ}
        → store_of settings opened ≡ ok store
        → IsAsked settings port
        → bind port ≡ ok n
        → 0 < n
        → IsStart settings opened (ok (store, port, n), makes_store store ∷ binds port ∷ [])

  check_port-IsStart :
      (settings : Settings) (opened : Result (Dict Row)) (store : Store) (port : Listening)
      (n : Result ℕ)
      → store_of settings opened ≡ ok store
      → bind port ≡ n
      → IsAsked settings port
      → IsStart settings opened (check_port store port n)
  check_port-IsStart settings opened store port (raise e) made b g = fails_to_bind made g b
  check_port-IsStart settings opened store port (ok zero) made b g = is_given_no_port made g b
  check_port-IsStart settings opened store port (ok (suc n)) made b g =
      listens made g b (omega arith)

  listen_address :
      (settings : Settings) {port : Listening}
      → add_grpc_listen_port read_bytes (listen_addr settings) settings ≡ ok port
      → address port ≡ listen_addr settings
  unfolding add_grpc_listen_port
  listen_address settings {port} h =
      let addr = listen_addr settings in
      elim (Bool-cases settings.tls_enabled) [
        | inr off ↦
            let plain : insecure_port addr ≡ port = ground (arith, off, h) in sym (ap address plain)
        | inl on ↦
            let asked = rw (on, add_grpc_listen_port) at h in
            let unset = is_unset settings.tls_cert_path || is_unset settings.tls_key_path in
            let (_, _, h₀) =
              chain_returned (raise_if unset (value_error tls_paths_missing)) _ asked in
            let (credentials, _, same) =
              chain_returned
                (build_tls_server_credentials read_bytes (path_of settings.tls_cert_path)
                  (path_of settings.tls_key_path) settings.tls_client_ca_path
                  settings.tls_require_client_auth)
                _ h₀ in
            let secure : secure_port addr credentials ≡ port = cc in sym (ap address secure)
      ]

  no_store :
      (settings : Settings) (opened : Result (Dict Row)) {e : Error}
      → store_of settings opened ≡ raise e
      → (settings.backend ≡ codes "sqlite") × (opened ≡ raise e)
  no_store settings opened h = elim (Text-discrete settings.backend (codes "sqlite")) [
    | no other ↦ absurd (ground (arith, h, other))
    | yes same ↦ ground (arith, h, same)
  ]

  listen_fails :
      (settings : Settings) {e : Error}
      → add_grpc_listen_port read_bytes (listen_addr settings) settings ≡ raise e
      → settings.tls_enabled ≡ true
  unfolding add_grpc_listen_port
  listen_fails settings h = elim (Bool-cases settings.tls_enabled) [
    | inl on ↦ on
    | inr off ↦ absurd (ground (arith, off, h))
  ]

  -- From settings that were loaded the start fails for its store only if the database of the
  -- backend `sqlite` cannot be opened, with that exception. Otherwise it makes the store of the
  -- backend and with the limits that the settings name. It fails before it asks for a port only if
  -- TLS is on; it asks for a port at their address that is as secure as they ask; if that raises it fails
  -- with the exception and leaves the store running; if it gives no port the store is stopped, as
  -- the last thing; and otherwise the server has that store and that port.
  pub start-IsStart :
      (environ : Environ) (opened : Result (Dict Row)) {settings : Settings}
      → load_settings environ ≡ loaded settings
      → IsStart settings opened (start settings opened)
  unfolding start
  start-IsStart environ opened {settings} h =
      let made = create_cache_store-limits environ opened h in
      elim (Result-cases (store_of settings opened)) [
        | inr (e, q) ↦
            let (named, failed) = no_store settings opened q in
            rw (made ∙ q, start) (fails_to_open named failed)
        | inl (store, q) ↦
            elim (Result-cases (add_grpc_listen_port read_bytes (listen_addr settings) settings)) [
              | inr (e, p) ↦
                  rw (made ∙ q, start) (rw p (fails_for_files q (listen_fails settings p) p))
              | inl (port, p) ↦
                  rw (made ∙ q, start)
                    (rw p (
                      check_port-IsStart settings opened store port (bind port) q refl (
                        listen_address settings p,
                        add_grpc_listen_port-IsGuarded read_bytes (listen_addr settings) settings p,
                      )))
            ]
      ]
