-- ===== src/Tests/Client.antt =====
-- Tests of the command line client over the in-memory backend.
use tiny_cache.Base.{
  arith, ◌≡◌, refl, Text-discrete, pos, codes, decimal, digits, none, some, [], ◌∷◌, true, false,
  negsuc,
}
use tiny_cache.Errors.{ok}
use tiny_cache.Domain.{
  validate_namespace, validate_key, check_namespace, matches_namespace_pattern, all_name_characters,
  is_name_character, is_alphanumeric, strip, lstrip, rstrip, keep_before, is_space,
}
use tiny_cache.MemoryStore.State.{CacheStore}
use tiny_cache.MemoryStore.Port.{memory_port}
use tiny_cache.Backends.Memory.{memory_view, memory-IsBackend}
use tiny_cache.Grpc.Contracts.{service_app}
use tiny_cache.Grpc.Lifecycle.{World}
use tiny_cache.Grpc.Proto.{is_int32, new_cache_item}
use tiny_cache.Grpc.Contracts.{RpcContext}
use tiny_cache.Grpc.Servicer
use tiny_cache.Dict.{lookup}
use tiny_cache.Grpc.Scope.{Rpc, serve}
use tiny_cache.Grpc.Sound.{serve_all, serve_all-IsValid}
use tiny_cache.MemoryStore.Invariant.{IsValid}
use tiny_cache.Service.{storage_key, qualified_key, namespaced}
use tiny_cache.Cli.Shown.{code_and_lines, run-get_set}
use tiny_cache.Cli.{Args, done, failed, Command, Format, Outside, ValueInput}
use tiny_cache.Cli.Values.{Label, parse_value_input, validate_value_args}
use tiny_cache.Cli.Run.{run, run_command, metadata}
use tiny_cache.Cli.Sent.{given}
use tiny_cache.Cli.Ends.{incoming, connected, stored_code, sent_code, run-set_code}
use tiny_cache.Tests.Fixtures.{env, store, store-IsValid}

client : Unit {0}
unfolding Text-discrete decimal digits strip lstrip rstrip keep_before is_space validate_key
    validate_namespace check_namespace matches_namespace_pattern all_name_characters
    is_name_character is_alphanumeric storage_key qualified_key namespaced parse_value_input
    validate_value_args
client = tt

-- codecs that leave a text as it is
abbrev outside : Outside
outside = record {
  read_bytes = λ path. done path;
  write_bytes = λ path value. done tt;
  b64decode = λ text. done text;
  b64encode = λ value. value;
  fromhex = λ text. done text;
  hex = λ value. value;
  utf8_encode = λ text. done text;
  utf8_decode = λ value. done value;
  string_refused = λ key. none;
  out_of_range = λ ttl. codes "error: Value out of range";
}

abbrev nothing : ValueInput
nothing = record { positional = none; base64 = none; hex = none; file = none }

-- tiny-cache --namespace team set k v
abbrev args : Args
args = record {
  request_id = none;
  show_request_id = false;
  namespace = some (codes "team");
  command = Command.set;
  key = codes "k";
  format = Format.base64;
  output = none;
  value = record nothing { positional = some (codes "v") };
  expected_value = nothing;
  ttl = pos 1;
}

-- A positional value beside an option that is not empty is refused; beside an empty option it is
-- taken for granted that the option is meant.
positional_conflict :
    validate_value_args (record args { value = record args.value { hex = some (codes "00") } })
    ≡ some (codes "set: positional value cannot be combined with --value-*")
unfolding client
positional_conflict = refl

positional_dropped :
    (validate_value_args (record args { value = record args.value { hex = some [] } }) ≡ none)
    × (parse_value_input outside Command.set Label.new_value (record args.value { hex = some [] })
        ≡ done [])
unfolding client
positional_dropped = (refl, refl)

abbrev world : World CacheStore
world = record {
  app = store;
  context = record { invocation_metadata = ok []; code = none; details = none };
  request_id_var = codes "-";
  fresh_id = codes "f00d";
}

-- the least and the greatest TTL that its field holds, and their neighbours
ttl-range :
    (is_int32 (pos 2147483647) ≡ true)
    × (is_int32 (pos 2147483648) ≡ false)
    × (is_int32 (negsuc 2147483647) ≡ true)
    × (is_int32 (negsuc 2147483648) ≡ false)
ttl-range = (refl, refl, refl, refl)

-- tiny-cache --namespace team set k v --ttl 3000000000
ttl_refused :
    (run outside
      (connected
        (λ _. none)
        (λ code details. codes "rpc failed")
        []
        (service_app (memory_port env)))
      (λ _. [])
      (record args { ttl = pos 3000000000 })
      (codes "1d")
      world).0
    ≡ record { code = 2; stdout = []; stderr = codes "error: Value out of range" ∷ [] }
unfolding run run_command validate_value_args parse_value_input new_cache_item
ttl_refused = refl

run-set_code_example :
    (run outside
      (connected
        (λ _. none)
        (λ code details. codes "rpc failed")
        []
        (service_app (memory_port env)))
      (λ _. [])
      args
      (codes "1d")
      world).0.code
    ≡ elim (validate_value_args args) [
      | some _ ↦ 2
      | none ↦ elim (parse_value_input outside Command.set Label.new_value args.value) [
        | failed _ ↦ 2
        | done value ↦
            sent_code none none true (stored_code env (codes "k") (given args.namespace) value 40)
      ]
    ]
run-set_code_example =
    run-set_code env (memory_port env) (memory_view env) (memory-IsBackend env) outside (λ _. none)
      (λ code details. codes "rpc failed") [] (λ _. []) args refl (codes "1d") world store-IsValid

abbrev get_args : Args
get_args = record args { command = Command.get; value = nothing }

abbrev sent : RpcContext
sent = incoming (metadata (codes "1d") (some (codes "team")))

-- the server after the command
abbrev after_set : World CacheStore
after_set = record world {
  app =
      (Servicer.set (service_app (memory_port env))
        (record { key = codes "k"; value = codes "v"; ttl = pos 1 })
        (record world { context = sent })).1.app;
}

after_set-IsValid : IsValid env after_set.app
unfolding serve_all serve
after_set-IsValid =
    serve_all-IsValid env
      (record {
        rpc = Rpc.set (record { key = codes "k"; value = codes "v"; ttl = pos 1 });
        context = sent;
        fresh_id = codes "f00d";
      }
        ∷ [])
      world store-IsValid

-- when the TTL has passed
abbrev later : World CacheStore
later = record after_set { app = record after_set.app { reads = 40 } }

later-IsValid : IsValid env later.app
later-IsValid =
    let (h, steady) = after_set-IsValid in
    (
      record {
        distinct = h.distinct;
        counted = h.counted;
        within_memory = h.within_memory;
        within_items = h.within_items;
        measured = h.measured;
      },
      steady,
    )

value_given : parse_value_input outside Command.set Label.new_value args.value ≡ done (codes "v")
unfolding client
value_given = refl

args_valid : validate_value_args args ≡ none
unfolding client
args_valid = refl

team_accepted : validate_namespace (given args.namespace) ≡ ok (some (codes "team"))
unfolding client
team_accepted = refl

team_key : storage_key (codes "k") (some (codes "team")) ≡ ok (codes "4:team:k")
unfolding client
team_key = refl

entry_stays :
    lookup (codes "4:team:k") after_set.app.store
    ≡ lookup
        (codes "4:team:k")
        (run outside
          (connected
            (λ _. none)
            (λ code details. codes "rpc failed")
            []
            (service_app (memory_port env)))
          (λ _. [])
          args
          (codes "1d")
          world).1.app.store
unfolding run run_command validate_value_args parse_value_input new_cache_item
entry_stays = refl

run-get_set_example :
    code_and_lines
      (run outside
        (connected
          (λ _. none)
          (λ code details. codes "rpc failed")
          []
          (service_app (memory_port env)))
        (λ _. [])
        get_args
        (codes "2e")
        later).0
    ≡ (1, [])
run-get_set_example =
    run-get_set env (memory_port env) (memory_view env) (memory-IsBackend env) outside (λ _. none)
      (λ code details. codes "rpc failed") [] (λ _. []) args get_args refl refl refl refl refl
      (codes "1d") (codes "2e") (codes "v") (some (codes "team")) (codes "4:team:k") world later
      args_valid value_given (refl, refl) (refl, refl) refl team_accepted team_key store-IsValid
      later-IsValid (omega arith) entry_stays
