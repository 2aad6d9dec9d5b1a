-- ===== src/Cli/Ends.antt =====
-- How a command ends over the server: client, transport, service and backend together.
use tiny_cache.Base.{
  ℕ, ◌≡◌, refl, ap, ◌∙◌, Text, Bytes, Bool, true, false, Option, none, some, Option-cases,
  Bool-cases, inl, inr, leb, if◌then◌else◌, arith,
}
use tiny_cache.Errors.{Result, ok, raise, Result-cases}
use tiny_cache.Domain.{validate_namespace}
use tiny_cache.Ports.{CacheStorePort}
use tiny_cache.Backends.{BackendView, IsBackend}
use tiny_cache.StoreModels.{Env}
use tiny_cache.Service.{storage_key}
use tiny_cache.Grpc.Contracts.{CacheApp, RpcContext, StatusCode, service_app}
use tiny_cache.Grpc.Lifecycle.{World, Handler, namespace_from_context}
use tiny_cache.Grpc.Proto.{CacheStatus, CacheItem, CacheResponse, is_int32, new_cache_item}
use tiny_cache.Grpc.Servicer
use tiny_cache.Grpc.Stack.{set-reply, code_and_status}
use tiny_cache.Cli.{Args, Attempt, done, failed, Command, Outside, ◌>>=◌}
use tiny_cache.Cli.Values.{Label, parse_value_input, validate_value_args}
use tiny_cache.Cli.Run.{
  Metadata, Stub, StatsPayload, run, run_command, metadata, request_id_of, show_status, ended, made,
  keyed, called_with,
}
use tiny_cache.Cli.Sent.{given, first_namespace-metadata}

abbrev pub incoming : Metadata → RpcContext
incoming sent = record { invocation_metadata = ok sent; code = none; details = none }

-- What gRPC makes of a handler's end: a call on which a code was set raises, with a line that shows
-- the code and its details; any other returns the message, after the metadata `initial`.
module _ {S : Type 0} (rpc_failed : StatusCode → Option Text → Text) (initial : Metadata) where
  abbrev pub delivered : {B : Type 0} → B × World S → Attempt (B × Metadata) × World S
  delivered (response, w) = (
    elim w.context.code [
      | none ↦ done (response, initial)
      | some code ↦ failed (rpc_failed code w.context.details)
    ],
    w,
  )

-- A call by a handler over a channel that is ready, and that ends before its timeout and with
-- messages that are within the limits on their size. gRPC may refuse to send the metadata, with a
-- line that shows its error (`refuses`).
module _ {S : Type 0} (refuses : Metadata → Option Text)
    (rpc_failed : StatusCode → Option Text → Text) (initial : Metadata) where
  abbrev pub over_channel :
      {B : Type 0} → Metadata → Handler S B → World S → Attempt (B × Metadata) × World S
  over_channel sent handler w = elim (refuses sent) [
    | none ↦ delivered rpc_failed initial (handler (record w { context = incoming sent }))
    | some line ↦ (failed line, w)
  ]

  abbrev pub connected : CacheApp S → Stub (World S)
  connected app = record {
    get = λ sent request. over_channel sent (Servicer.get app request);
    set = λ sent request. over_channel sent (Servicer.set app request);
    set_if_absent = λ sent request. over_channel sent (Servicer.set_if_absent app request);
    compare_and_set = λ sent request. over_channel sent (Servicer.compare_and_set app request);
    delete = λ sent request. over_channel sent (Servicer.delete app request);
    stats = λ sent. over_channel sent (Servicer.stats app);
  }

-- the exit code for what a `Set` ends with
abbrev pub exit_code : Option StatusCode × CacheStatus → ℕ
exit_code (none, CacheStatus.ok) = 0
exit_code (none, _) = 2
exit_code (some _, _) = 2

show_status-code :
    (outside : Outside) (args : Args) (initial : Metadata) (status : CacheStatus)
    → (show_status outside args (record { status = status }, initial)).code
      ≡ exit_code (none, status)
show_status-code outside args initial CacheStatus.cache_status_unspecified = refl
show_status-code outside args initial CacheStatus.ok = refl
show_status-code outside args initial CacheStatus.error = refl

module _ {S : Type 0} (outside : Outside) (rpc_failed : StatusCode → Option Text → Text)
    (initial : Metadata) (args : Args) where
  code-delivered :
      (r : CacheResponse × World S)
      → (ended (do
        response ← (delivered rpc_failed initial r).0
        done (show_status outside args response))).code
        ≡ exit_code (code_and_status r)
  code-delivered r = elim (Option-cases r.1.context.code) [
    | inl p ↦ rw p (show_status-code outside args initial r.0.status)
    | inr (code, p) ↦ rw p refl
  ]

-- the exit code of a `set` of a value that could be read
abbrev pub stored_code : Env → Text → Option Text → Bytes → ℕ → ℕ
stored_code env key namespace value max_value_bytes = elim (validate_namespace namespace) [
  | raise _ ↦ 2
  | ok normalized ↦ elim (storage_key key normalized) [
    | raise _ ↦ 2
    | ok _ ↦ if leb (env.getsizeof value) max_value_bytes then 0 else 2
  ]
]

-- the exit code `code`, unless protobuf refuses the key or gRPC the metadata, or the TTL is out of
-- range
abbrev pub sent_code : Option Text → Option Text → Bool → ℕ → ℕ
sent_code none none true code = code
sent_code none none false code = 2
sent_code none (some _) in_range code = 2
sent_code (some _) refused in_range code = 2

-- the code and the status of the reply, for what the namespace is read as
abbrev reply_for : Env → Text → Bytes → ℕ → Result (Option Text) → Option StatusCode × CacheStatus
reply_for env key value max_value_bytes namespace = elim namespace [
  | raise _ ↦ (some StatusCode.invalid_argument, CacheStatus.cache_status_unspecified)
  | ok normalized ↦ elim (storage_key key normalized) [
    | raise _ ↦ (some StatusCode.invalid_argument, CacheStatus.cache_status_unspecified)
    | ok _ ↦
        if leb (env.getsizeof value) max_value_bytes
        then (none, CacheStatus.ok)
        else (some StatusCode.resource_exhausted, CacheStatus.cache_status_unspecified)
  ]
]

reply_for-code :
    (env : Env) (key : Text) (value : Bytes) (max_value_bytes : ℕ)
    (namespace : Result (Option Text))
    → exit_code (reply_for env key value max_value_bytes namespace) ≡ elim namespace [
      | raise _ ↦ 2
      | ok normalized ↦ elim (storage_key key normalized) [
        | raise _ ↦ 2
        | ok _ ↦ if leb (env.getsizeof value) max_value_bytes then 0 else 2
      ]
    ]
reply_for-code env key value max_value_bytes (raise e) = refl
reply_for-code env key value max_value_bytes (ok n) = elim (Result-cases (storage_key key n)) [
  | inl (k, p) ↦ rw (p, reply_for) (ground arith)
  | inr (e, p) ↦ rw (p, reply_for) refl
]

pub namespace-sent :
    (request_id : Text) (namespace : Option Text)
    → namespace_from_context (incoming (metadata request_id namespace))
      ≡ validate_namespace (given namespace)
unfolding namespace_from_context
namespace-sent request_id namespace =
    ap validate_namespace (first_namespace-metadata request_id namespace)

module _ {S : Type 0} (env : Env) (port : CacheStorePort S) (b : BackendView S)
    (backend : IsBackend env port b) (outside : Outside) (refuses : Metadata → Option Text)
    (rpc_failed : StatusCode → Option Text → Text) (initial : Metadata)
    (dumps : StatsPayload → Text) (args : Args) (is_set : args.command ≡ Command.set) where
  abbrev stub : Stub (World S)
  stub = connected refuses rpc_failed initial (service_app port)

  set-code :
      (value : Bytes) (request_id : Text) (w : World S)
      → b.Holds w.app
      → refuses (metadata request_id args.namespace) ≡ none
      → let (reply, _) =
          stub.set
            (metadata request_id args.namespace)
            (record { key = args.key; value = value; ttl = args.ttl })
            w in
        ((ended (do response ← reply; done (show_status outside args response))).code
          ≡ stored_code env args.key (given args.namespace) value (b.max_value_bytes w.app))
  set-code value request_id w holds carried =
      let sent = metadata request_id args.namespace in
      let request : CacheItem = record { key = args.key; value = value; ttl = args.ttl } in
      let w' = record w { context = incoming sent } in
      rw (carried, over_channel)
        (code-delivered outside rpc_failed initial args
          (Servicer.set (service_app port) request w'))
      ∙ ap exit_code (set-reply env port b backend request w' holds)
      ∙ ap (λ n. exit_code (reply_for env args.key value (b.max_value_bytes w.app) n))
          (namespace-sent request_id args.namespace)
      ∙ reply_for-code env args.key value (b.max_value_bytes w.app)
          (validate_namespace (given args.namespace))

  parsed :
      (value : Attempt Bytes) (request_id : Text) (w : World S)
      → b.Holds w.app
      → (called_with
          (do v ← value; made outside args.key args.ttl (new_cache_item args.key v args.ttl))
          (stub.set (metadata request_id args.namespace))
          (show_status outside args)
          w).0.code
        ≡ elim value [
          | failed _ ↦ 2
          | done v ↦
              sent_code
                (outside.string_refused args.key)
                (refuses (metadata request_id args.namespace))
                (is_int32 args.ttl)
                (stored_code env args.key (given args.namespace) v (b.max_value_bytes w.app))
        ]
  unfolding new_cache_item
  parsed (failed line) request_id w holds = refl
  parsed (done v) request_id w holds = elim (Option-cases (outside.string_refused args.key)) [
    | inr (line, k) ↦ elim (Bool-cases (is_int32 args.ttl)) [
      | inl p ↦ rw (p, new_cache_item) (rw (k, made, keyed) refl)
      | inr p ↦ rw (p, new_cache_item) (rw (k, made, keyed) refl)
    ]
    | inl k ↦ elim (Bool-cases (is_int32 args.ttl)) [
      | inr p ↦ elim (Option-cases (refuses (metadata request_id args.namespace))) [
        | inl c ↦ rw (p, new_cache_item) (rw (k, made, keyed) (rw c refl))
        | inr (line, c) ↦ rw (p, new_cache_item) (rw (k, made, keyed) (rw c refl))
      ]
      | inl p ↦ elim (Option-cases (refuses (metadata request_id args.namespace))) [
        | inl c ↦
            rw (p, new_cache_item) (rw (k, made, keyed) (rw c (set-code v request_id w holds c)))
        | inr (line, c) ↦ rw (p, new_cache_item) (rw (k, made, keyed) (rw (c, over_channel) refl))
      ]
    ]
  ]

  -- Over any backend that keeps the promises of the port, and a channel that is ready and on which no
  -- call runs into its timeout or the limit on the size of a message, the command `set` exits with 0
  -- exactly if its arguments do not conflict, its value could be read, its key is Unicode and its TTL in the range of `int32`, gRPC
  -- sends the metadata, the namespace and the key are accepted, and the value is no larger than the
  -- limit; in every other case it exits with 2.
  pub run-set_code :
      (fresh_id : Text) (w : World S)
      → b.Holds w.app
      → (run outside stub dumps args fresh_id w).0.code ≡ elim (validate_value_args args) [
        | some _ ↦ 2
        | none ↦ elim (parse_value_input outside Command.set Label.new_value args.value) [
          | failed _ ↦ 2
          | done value ↦
              sent_code
                (outside.string_refused args.key)
                (refuses (metadata (request_id_of args fresh_id) args.namespace))
                (is_int32 args.ttl)
                (stored_code env args.key (given args.namespace) value (b.max_value_bytes w.app))
        ]
      ]
  unfolding run run_command
  run-set_code fresh_id w holds = elim (Option-cases (validate_value_args args)) [
    | inr (message, p) ↦ rw (p, run) refl
    | inl p ↦
        rw (p, run)
          (rw (is_set, run_command)
            (parsed (parse_value_input outside Command.set Label.new_value args.value)
              (request_id_of args fresh_id) w holds))
  ]
