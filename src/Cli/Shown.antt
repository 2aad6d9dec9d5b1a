-- ===== src/Cli/Shown.antt =====
-- What `get` shows of what `set` stored: client, transport, service and backend together.
use tiny_cache.Base.{
  ℕ, ◌≤◌, ◌≡◌, refl, ap, ◌∙◌, Text, Bytes, Option, none, some, true, List, [], ◌∷◌,
}
use tiny_cache.Errors.{ok}
use tiny_cache.Domain.{validate_namespace}
use tiny_cache.Ports.{CacheStorePort}
use tiny_cache.Backends.{BackendView, IsBackend}
use tiny_cache.StoreModels.{Env}
use tiny_cache.Service.{storage_key}
use tiny_cache.Grpc.Contracts.{StatusCode, service_app}
use tiny_cache.Grpc.Lifecycle.{World}
use tiny_cache.Grpc.Proto.{CacheItem, CacheValue, is_int32, new_cache_item}
use tiny_cache.Grpc.Servicer
use tiny_cache.Grpc.RoundTrip.{get-value, found_later, value_message, read_back}
use tiny_cache.Cli.{Args, Attempt, done, failed, Command, Outside, ◌>>=◌}
use tiny_cache.Cli.Values.{Label, parse_value_input, validate_value_args, pairs, encode_output}
use tiny_cache.Cli.Run.{
  Metadata, Stub, StatsPayload, Ending, run, run_command, metadata, request_id_of, show_value,
  ended, ended_after, made, keyed, emit_response_request_id,
}
use tiny_cache.Cli.Sent.{given}
use tiny_cache.Cli.Ends.{connected, over_channel, delivered, incoming, namespace-sent}

-- the exit code and the lines that are printed for what a `get` finds
abbrev pub shown : Outside → Args → Option Bytes → ℕ × List Text
shown outside args none = (1, [])
shown outside args (some value) = elim (encode_output outside value args.format) [
  | done text ↦ (0, text ∷ [])
  | failed _ ↦ (2, [])
]

abbrev pub code_and_lines : Ending → ℕ × List Text
code_and_lines ending = (ending.code, ending.stdout)

encoded :
    (lines : List Text) (value : Bytes) (text : Attempt Text)
    → code_and_lines (
        ended_after lines
          (do line ← text; done (record { code = 0; stdout = line ∷ []; stderr = lines })))
      ≡ elim text [ done line ↦ (0, line ∷ []) | failed _ ↦ (2, []) ]
encoded lines value (done line) = refl
encoded lines value (failed line) = refl

show-found :
    (outside : Outside) (initial : Metadata) (args : Args) (found : Option Bytes)
    → args.output ≡ none
    → code_and_lines (show_value outside args (value_message found, initial))
      ≡ shown outside args found
show-found outside initial args none printed = refl
show-found outside initial args (some value) printed =
    rw (printed, show_value)
      (encoded (emit_response_request_id args initial) value
        (encode_output outside value args.format))

-- the end of a `get` whose call ends so
abbrev get_ending :
    {S : Type 0}
    → Outside
    → Args
    → (StatusCode → Option Text → Text)
    → Metadata
    → CacheValue × World S
    → Ending
get_ending outside args rpc_failed initial r =
    ended
      (do response ← (delivered rpc_failed initial r).0; done (show_value outside args response))

get_ending-found :
    {S : Type 0} (outside : Outside) (args : Args) (rpc_failed : StatusCode → Option Text → Text)
    (initial : Metadata) (r : CacheValue × World S) (found : Option Bytes)
    → args.output ≡ none
    → r.0 ≡ value_message found
    → r.1.context.code ≡ none
    → code_and_lines (get_ending outside args rpc_failed initial r) ≡ shown outside args found
get_ending-found outside args rpc_failed initial r found printed message answered =
    rw (answered, delivered)
      (ap (λ m. code_and_lines (show_value outside args (m, initial))) message
        ∙ show-found outside initial args found printed)

-- a `get` has no value to check
get-unchecked : (args : Args) → args.command ≡ Command.get → validate_value_args args ≡ none
unfolding validate_value_args
get-unchecked args is_get = rw (is_get, pairs) refl

module _ {S : Type 0} (env : Env) (port : CacheStorePort S) (b : BackendView S)
    (backend : IsBackend env port b) (outside : Outside) (refuses : Metadata → Option Text)
    (rpc_failed : StatusCode → Option Text → Text) (initial : Metadata)
    (dumps : StatsPayload → Text) (args args' : Args) (is_set : args.command ≡ Command.set)
    (is_get : args'.command ≡ Command.get) (printed : args'.output ≡ none)
    (same_key : args'.key ≡ args.key) (same_namespace : args'.namespace ≡ args.namespace) where
  abbrev stub : Stub (World S)
  stub = connected refuses rpc_failed initial (service_app port)

  -- Protobuf takes the key, and gRPC sends the metadata.
  abbrev IsSendable : Args → Text → Type 0
  IsSendable a fresh_id =
      (outside.string_refused a.key ≡ none)
      × (refuses (metadata (request_id_of a fresh_id) a.namespace) ≡ none)

  abbrev request_of : Bytes → CacheItem
  request_of value = record { key = args.key; value = value; ttl = args.ttl }

  after-set :
      (fresh_id : Text) (value : Bytes) (w : World S)
      → validate_value_args args ≡ none
      → parse_value_input outside Command.set Label.new_value args.value ≡ done value
      → IsSendable args fresh_id
      → is_int32 args.ttl ≡ true
      → (run outside stub dumps args fresh_id w).1
        ≡ (Servicer.set (service_app port) (request_of value) (record w {
          context = incoming (metadata (request_id_of args fresh_id) args.namespace);
        })).1
  unfolding run run_command new_cache_item
  after-set fresh_id value w valid parsed (unicode, carried) in_range =
      rw (valid, run)
        (rw (is_set, run_command)
          (rw parsed (
            rw (in_range, new_cache_item)
              (rw (unicode, made, keyed) (rw (carried, over_channel) refl)))))

  run_get-ending :
      (fresh_id : Text) (v : World S)
      → IsSendable args' fresh_id
      → (run outside stub dumps args' fresh_id v).0
        ≡ get_ending outside args' rpc_failed initial (
            Servicer.get
              (service_app port)
              (record { key = args'.key })
              (record v {
                context = incoming (metadata (request_id_of args' fresh_id) args'.namespace);
              }))
  unfolding run run_command emit_response_request_id
  run_get-ending fresh_id v (unicode, carried) =
      rw (get-unchecked args' is_get, run)
        (rw (is_get, run_command) (rw (unicode, keyed) (rw (carried, over_channel) refl)))

  -- What the command `set` stores over any backend that keeps the promises of the port, the command
  -- `get` prints later, for the same key and namespace, as long as the store still holds the entry,
  -- over a channel that is ready, sends the metadata of both, and on which no call runs into its
  -- timeout or the limit on the size of a message. It exits with 0 and shows the value in the format
  -- that was asked for, or with 2 if the value has none in that format, or with 1 and shows nothing
  -- once the TTL has passed. The arguments of `set` do not conflict, its value can be read and is
  -- within the limit, its key is Unicode and its TTL in the range of `int32`, and the namespace and
  -- the key are accepted; and `get` is not told to write to a file.
  pub run-get_set :
      (fresh_id fresh_id' : Text) (value : Bytes) (normalized : Option Text) (stored : Text)
      (w v : World S)
      → validate_value_args args ≡ none
      → parse_value_input outside Command.set Label.new_value args.value ≡ done value
      → IsSendable args fresh_id
      → IsSendable args' fresh_id'
      → is_int32 args.ttl ≡ true
      → validate_namespace (given args.namespace) ≡ ok normalized
      → storage_key args.key normalized ≡ ok stored
      → b.Holds w.app
      → b.Holds v.app
      → env.getsizeof value ≤ b.max_value_bytes w.app
      → b.entry v.app stored ≡ b.entry (run outside stub dumps args fresh_id w).1.app stored
      → code_and_lines (run outside stub dumps args' fresh_id' v).0
        ≡ shown outside args'
            (read_back env args.ttl value (env.clock (b.reads w.app)) (env.clock (b.reads v.app)))
  run-get_set fresh_id fresh_id' value normalized stored w v valid parsed sendable sendable'
        in_range named accepted holds later small same =
      let id = request_id_of args fresh_id in
      let id' = request_id_of args' fresh_id' in
      let w' = record w { context = incoming (metadata id args.namespace) } in
      let v' = record v { context = incoming (metadata id' args'.namespace) } in
      let sent = namespace-sent id args.namespace ∙ named in
      let sent' =
        namespace-sent id' args'.namespace
        ∙ ap (λ n. validate_namespace (given n)) same_namespace
        ∙ named in
      let stays =
        same
        ∙ ap (λ (u : World S). b.entry u.app stored)
            (after-set fresh_id value w valid parsed sendable in_range) in
      let found =
        found_later env port b backend (request_of value) normalized stored accepted w' v' holds
          later small sent stays in
      let (message, context) =
        get-value env port b backend (request_of value) normalized stored accepted v' _ sent'
          found in
      let reply = Servicer.get (service_app port) (record { key = args.key }) v' in
      ap code_and_lines (run_get-ending fresh_id' v sendable')
      ∙ ap
          (λ key. code_and_lines (
            get_ending outside args' rpc_failed initial
              (Servicer.get (service_app port) (record { key = key }) v')))
          same_key
      ∙ get_ending-found outside args' rpc_failed initial reply _ printed message
          (ap (λ c. c.code) context)
