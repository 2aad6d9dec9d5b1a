-- ===== src/Cli/Run.antt =====
-- `run`: one command, from its arguments to the exit code.
use tiny_cache.Base.{
  ℕ, ℤ, Text, Text-discrete, codes, ite, not, ◌++◌, Option, none, some, List, [], ◌∷◌,
  if◌then◌else◌,
}
use tiny_cache.Domain.{is_empty}
use tiny_cache.Grpc.Lifecycle.{lower}
use tiny_cache.Grpc.Proto.{
  CacheStatus, ConditionalCacheStatus, CacheKey, CacheItem, CompareAndSetRequest, CacheValue,
  CacheResponse, ConditionalCacheResponse, CacheStats, new_cache_item, new_compare_and_set_request,
}
use tiny_cache.Cli.{Args, Attempt, done, failed, Command, Outside, ◌>>=◌}
use tiny_cache.Cli.Values.{Label, parse_value_input, encode_output, validate_value_args}

abbrev pub Metadata : Type 0
Metadata = List (Text × Text)

abbrev pub request_id_header : Text
request_id_header = codes "x-request-id"

abbrev pub namespace_header : Text
namespace_header = codes "x-cache-namespace"

-- What the client sees of the server in the state `S`: a call ends with the response and the
-- metadata that came before it, or raises.
pub record Stub (S : Type 0) : Type 0 where
  pub get : Metadata → CacheKey → S → Attempt (CacheValue × Metadata) × S
  pub set : Metadata → CacheItem → S → Attempt (CacheResponse × Metadata) × S
  pub set_if_absent : Metadata → CacheItem → S → Attempt (ConditionalCacheResponse × Metadata) × S
  pub compare_and_set :
      Metadata → CompareAndSetRequest → S → Attempt (ConditionalCacheResponse × Metadata) × S
  pub delete : Metadata → CacheKey → S → Attempt (CacheResponse × Metadata) × S
  pub stats : Metadata → S → Attempt (CacheStats × Metadata) × S

-- `_metadata`
unfoldable pub metadata : Text → Option Text → Metadata
metadata request_id none = (request_id_header, request_id) ∷ []
metadata request_id (some []) = (request_id_header, request_id) ∷ []
metadata request_id (some (c ∷ name)) =
    (request_id_header, request_id) ∷ (namespace_header, c ∷ name) ∷ []

unfoldable pub get_response_request_id : Metadata → Option Text
get_response_request_id [] = none
get_response_request_id ((key, value) ∷ rest) =
    ite (Text-discrete (lower key) request_id_header)
      (if not (is_empty value) then some value else get_response_request_id rest)
      (get_response_request_id rest)

-- how a command ends: the exit code, the lines on both outputs
pub record Ending : Type 0 where
  pub code : ℕ
  pub stdout : List Text
  pub stderr : List Text

-- the line that shows the request id of the response, if it is asked for
unfoldable pub emit_response_request_id : Args → Metadata → List Text
emit_response_request_id args initial = elim (get_response_request_id initial) [
  | none ↦ []
  | some request_id ↦
      if args.show_request_id then (request_id_header ++ codes "=" ++ request_id) ∷ [] else []
]

unfoldable pub conditional_exit_code : ConditionalCacheStatus → ℕ
conditional_exit_code ConditionalCacheStatus.stored = 0
conditional_exit_code _ = 1

-- `ConditionalCacheStatus.Name`
abbrev pub status_name : ConditionalCacheStatus → Text
status_name ConditionalCacheStatus.conditional_cache_status_unspecified =
    codes "CONDITIONAL_CACHE_STATUS_UNSPECIFIED"
status_name ConditionalCacheStatus.stored = codes "STORED"
status_name ConditionalCacheStatus.exists = codes "EXISTS"
status_name ConditionalCacheStatus.not_found = codes "NOT_FOUND"
status_name ConditionalCacheStatus.mismatch = codes "MISMATCH"

-- `args.request_id or uuid.uuid4().hex`
abbrev pub request_id_of : Args → Text → Text
request_id_of args fresh_id = elim args.request_id [ some (c ∷ id) ↦ c ∷ id | _ ↦ fresh_id ]

-- the `except` clauses
abbrev pub ended : Attempt Ending → Ending
ended (done ending) = ending
ended (failed line) = record { code = 2; stdout = []; stderr = line ∷ [] }

-- an exception that comes after the request id was shown
abbrev pub ended_after : List Text → Attempt Ending → Ending
ended_after shown (done ending) = ending
ended_after shown (failed line) = record { code = 2; stdout = []; stderr = shown ++ line ∷ [] }

module _ (outside : Outside) (args : Args) where
  -- what follows the call, command by command
  abbrev pub show_value : CacheValue × Metadata → Ending
  show_value (response, initial) =
      let shown = emit_response_request_id args initial in
      if not response.found
      then record { code = 1; stdout = []; stderr = shown }
      else elim args.output [
        | some (c ∷ path) ↦ ended_after shown (do
          _ ← outside.write_bytes (c ∷ path) response.value
          done (record { code = 0; stdout = []; stderr = shown }))
        | _ ↦ ended_after shown (do
          text ← encode_output outside response.value args.format
          done (record { code = 0; stdout = text ∷ []; stderr = shown }))
      ]

  abbrev pub show_status : CacheResponse × Metadata → Ending
  show_status (response, initial) =
      let shown = emit_response_request_id args initial in
      elim response.status [
        | CacheStatus.ok ↦ record { code = 0; stdout = codes "OK" ∷ []; stderr = shown }
        | _ ↦ record { code = 2; stdout = []; stderr = shown ++ codes "ERROR" ∷ [] }
      ]

  abbrev pub show_conditional : ConditionalCacheResponse × Metadata → Ending
  show_conditional (response, initial) = record {
    code = conditional_exit_code response.status;
    stdout = status_name response.status ∷ [];
    stderr = emit_response_request_id args initial;
  }

-- the statistics that are printed
pub record StatsPayload : Type 0 where
  pub size : ℕ
  pub hits : ℕ
  pub misses : ℕ
  pub evictions : ℕ
  pub hit_rate : ℕ × ℕ
  pub memory_usage_bytes : ℕ
  pub max_memory_bytes : ℕ
  pub max_items : ℕ

abbrev pub stats_payload : CacheStats → StatsPayload
stats_payload response = record {
  size = response.size;
  hits = response.hits;
  misses = response.misses;
  evictions = response.evictions;
  hit_rate = response.hit_rate;
  memory_usage_bytes = response.memory_usage_bytes;
  max_memory_bytes = response.max_memory_bytes;
  max_items = response.max_items;
}

-- a message with a key, which protobuf refuses to make if the key is no Unicode
abbrev pub keyed : {A : Type 0} → Outside → Text → Attempt A → Attempt A
keyed outside key message = elim (outside.string_refused key) [
  | none ↦ message
  | some line ↦ failed line
]

-- a message with a key and a TTL, which is refused, too, if the TTL is out of range
abbrev pub made : {A : Type 0} → Outside → Text → ℤ → Option A → Attempt A
made outside key ttl (some message) = keyed outside key (done message)
made outside key ttl none = keyed outside key (failed (outside.out_of_range ttl))

-- what a call of the server gives, if the request could be made
abbrev pub called_with :
    {S A B : Type 0} → Attempt A → (A → S → Attempt B × S) → (B → Ending) → S → Ending × S
called_with (done request) call show s =
    let (reply, s') = call request s in (ended (do response ← reply; done (show response)), s')
called_with (failed line) call show s = (ended (failed line), s)

module _ {S : Type 0} (outside : Outside) (stub : Stub S) (dumps : StatsPayload → Text) where
  -- The body of the `try`, over a channel that is ready. `dumps` is `json.dumps`.
  unfoldable pub run_command : Args → Metadata → S → Ending × S
  run_command args sent = elim args.command [
    | Command.get ↦
        called_with (keyed outside args.key (done (record { key = args.key }))) (stub.get sent)
          (show_value outside args)
    | Command.set ↦
        called_with
          (do
            value ← parse_value_input outside Command.set Label.new_value args.value
            made outside args.key args.ttl (new_cache_item args.key value args.ttl))
          (stub.set sent) (show_status outside args)
    | Command.set_if_absent ↦
        called_with
          (do
            value ← parse_value_input outside Command.set_if_absent Label.new_value args.value
            made outside args.key args.ttl (new_cache_item args.key value args.ttl))
          (stub.set_if_absent sent) (show_conditional outside args)
    | Command.compare_and_set ↦
        called_with
          (do
            expected_value ←
                parse_value_input outside Command.compare_and_set Label.old_value
                  args.expected_value
            value ← parse_value_input outside Command.compare_and_set Label.new_value args.value
            made outside args.key args.ttl
                (new_compare_and_set_request args.key expected_value value args.ttl))
          (stub.compare_and_set sent) (show_conditional outside args)
    | Command.delete ↦
        called_with (keyed outside args.key (done (record { key = args.key }))) (stub.delete sent)
          (show_status outside args)
    | Command.stats ↦
        called_with (done tt) (λ _. stub.stats sent)
          (λ r. record {
            code = 0;
            stdout = dumps (stats_payload r.0) ∷ [];
            stderr = emit_response_request_id args r.1;
          })
  ]

  -- `run`, with the id that `uuid.uuid4` would give
  unfoldable pub run : Args → Text → S → Ending × S
  run args fresh_id s = elim (validate_value_args args) [
    | some message ↦ (record { code = 2; stdout = []; stderr = message ∷ [] }, s)
    | none ↦ run_command args (metadata (request_id_of args fresh_id) args.namespace) s
  ]
