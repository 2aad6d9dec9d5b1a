-- ===== src/Grpc/Stack.antt =====
-- The transport and the application service over a backend.
use tiny_cache.Base.{
  ℕ, ◌≡◌, ◌≢◌, refl, ap, ◌∙◌, Text, Option, some, inl, inr, leb, if◌then◌else◌, arith,
}
use tiny_cache.Errors.{Error, Result, ok, raise, value_error, other_exception, Result-cases}
use tiny_cache.Domain.{validate_value}
use tiny_cache.Results.{CacheSetStatus, cache_write_failure_from_set_status}
use tiny_cache.StoreModels.{Env}
use tiny_cache.MemoryStore.State.{CacheStore}
use tiny_cache.MemoryStore.Port.{memory_port}
use tiny_cache.Service
use tiny_cache.Service.{storage_key}
use tiny_cache.Service.Keys.{storage_key-IsKey}
use tiny_cache.Grpc.Proto.{CacheStatus, CacheItem, CacheResponse}
use tiny_cache.Grpc.Mapping.{map_set_status}
use tiny_cache.Grpc.Contracts.{CacheApp, StatusCode, service_app}
use tiny_cache.Grpc.Lifecycle.{
  World, RpcRequestState, namespace_from_context, handle_invalid_argument, handle_internal_error,
}
use tiny_cache.Grpc.Rejections.{namespace_from_context-IsAnswerable, storage_key-IsAnswerable}
use tiny_cache.Grpc.Servicer
use tiny_cache.Grpc.Servicer.{answer, respond_set, unspecified}
use tiny_cache.Grpc.Answers.{called, handle-seen}
use tiny_cache.Ports.{CacheStorePort}
use tiny_cache.Backends.{BackendView, IsBackend, set_outcome}

-- the server over the in-memory backend
abbrev pub memory_app : Env → CacheApp CacheStore
memory_app env = service_app (memory_port env)

-- the code and the status with which a `Set` ends that the application answers or refuses
abbrev pub set_reply : Result CacheSetStatus → Option StatusCode → Option StatusCode × CacheStatus
set_reply (ok CacheSetStatus.ok_status) code = (code, CacheStatus.ok)
set_reply (ok _) code = (some StatusCode.resource_exhausted, CacheStatus.cache_status_unspecified)
set_reply (raise (value_error _)) code =
    (some StatusCode.invalid_argument, CacheStatus.cache_status_unspecified)
set_reply (raise other_exception) code =
    (some StatusCode.internal, CacheStatus.cache_status_unspecified)

abbrev pub code_and_status :
    {S : Type 0} → CacheResponse × World S → Option StatusCode × CacheStatus
code_and_status (response, w) = (w.context.code, response.status)

answer-set :
    {S : Type 0} (state : RpcRequestState) (r : Result CacheSetStatus) (w : World S)
    → code_and_status (answer unspecified respond_set state (r, w)) ≡ set_reply r w.context.code
unfolding map_set_status cache_write_failure_from_set_status handle_invalid_argument
    handle_internal_error
answer-set state (ok CacheSetStatus.ok_status) w = refl
answer-set state (ok CacheSetStatus.value_too_large) w = refl
answer-set state (ok CacheSetStatus.capacity_exhausted) w = refl
answer-set state (raise (value_error m)) w = refl
answer-set state (raise other_exception) w = refl

-- what the service answers to a `set` in a namespace
abbrev pub set_result : Env → CacheItem → Option Text → ℕ → Result CacheSetStatus
set_result env request namespace max_value_bytes = elim (storage_key request.key namespace) [
  | ok _ ↦ set_outcome env request.value max_value_bytes
  | raise e ↦ raise e
]

rejected_reply :
    (e : Error) (code : Option StatusCode)
    → e ≢ other_exception
    → set_reply (raise e) code
      ≡ (some StatusCode.invalid_argument, CacheStatus.cache_status_unspecified)
rejected_reply (value_error m) code h = refl
rejected_reply other_exception code h = absurd (h refl)

settled_key :
    (env : Env) (request : CacheItem) (max_value_bytes : ℕ) (n : Option Text)
    (code : Option StatusCode)
    → set_reply (set_result env request n max_value_bytes) code ≡ elim (storage_key request.key n) [
      | raise _ ↦ (some StatusCode.invalid_argument, CacheStatus.cache_status_unspecified)
      | ok _ ↦
          if leb (env.getsizeof request.value) max_value_bytes
          then (code, CacheStatus.ok)
          else (some StatusCode.resource_exhausted, CacheStatus.cache_status_unspecified)
    ]
settled_key env request max_value_bytes n code = elim (Result-cases (storage_key request.key n)) [
  | inl (k, p) ↦ rw (p, set_result) (ground arith)
  | inr (e, p) ↦
      rw (p, set_result)
        (rejected_reply e code (λ q. storage_key-IsAnswerable request.key n (p ∙ ap raise q)))
]

module _ {S : Type 0} (env : Env) (port : CacheStorePort S) (b : BackendView S)
    (backend : IsBackend env port b) (request : CacheItem) where
  service-set :
      (namespace : Option Text) (s : S)
      → b.Holds s
      → (Service.set port request.key request.value request.ttl namespace s).0
        ≡ set_result env request namespace (b.max_value_bytes s)
  unfolding Service.set validate_value
  service-set namespace s holds = elim (Result-cases (storage_key request.key namespace)) [
    | inl (k, p) ↦
        rw (p, set_result)
          (backend.set k request.value (Service.ttl_of_seconds request.ttl) s
            (storage_key-IsKey request.key namespace k p) holds).0
    | inr (e, p) ↦ rw (p, set_result) refl
  ]

  abbrev call : Option Text → S → Result CacheSetStatus × S
  call = Service.set port request.key request.value request.ttl

  called-set :
      (w : World S)
      → b.Holds w.app
      → (called call w).0 ≡ elim (namespace_from_context w.context) [
        | ok namespace ↦ set_result env request namespace (b.max_value_bytes w.app)
        | raise e ↦ raise e
      ]
  called-set w holds = elim (Result-cases (namespace_from_context w.context)) [
    | inl (n, p) ↦ rw (p, called) (service-set n w.app holds)
    | inr (e, p) ↦ rw (p, called) refl
  ]

  -- Over any backend that keeps the promises of the port, and in a state that its invariant holds
  -- of, a `Set` never ends with an internal error. It is refused as an invalid argument exactly if
  -- the namespace or the key is, it exhausts a resource exactly if the value is too large, and
  -- otherwise it answers `ok` and sets no code.
  pub set-reply :
      (w : World S)
      → b.Holds w.app
      → code_and_status (Servicer.set (service_app port) request w)
        ≡ elim (namespace_from_context w.context) [
          | raise _ ↦ (some StatusCode.invalid_argument, CacheStatus.cache_status_unspecified)
          | ok namespace ↦ elim (storage_key request.key namespace) [
            | raise _ ↦ (some StatusCode.invalid_argument, CacheStatus.cache_status_unspecified)
            | ok _ ↦
                if leb (env.getsizeof request.value) (b.max_value_bytes w.app)
                then (w.context.code, CacheStatus.ok)
                else (some StatusCode.resource_exhausted, CacheStatus.cache_status_unspecified)
          ]
        ]
  unfolding Servicer.set
  set-reply w holds =
      let (state, w', context, app, e) = handle-seen unspecified respond_set (λ _. call) w in
      ap (λ r. (r.1.code, r.0.status)) e
      ∙ answer-set state (called call w).0 w'
      ∙ ap (λ c. set_reply (called call w).0 c.code) context
      ∙ ap (λ r. set_reply r w.context.code) (called-set w holds)
      ∙ elim (Result-cases (namespace_from_context w.context)) [
        | inr (e, p) ↦ rw p (
            rejected_reply e w.context.code
              (λ q. namespace_from_context-IsAnswerable w.context (p ∙ ap raise q)))
        | inl (n, p) ↦ rw p (settled_key env request (b.max_value_bytes w.app) n w.context.code)
      ]
