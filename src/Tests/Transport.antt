-- ===== src/Tests/Transport.antt =====
-- Tests of the gRPC front end over the in-memory backend.
use tiny_cache.Base.{
  ◌≡◌, refl, codes, decimal, digits, pos, none, some, [], ◌∷◌, map, leb, if◌then◌else◌, arith,
}
use tiny_cache.Errors.{ok, raise, other_exception, message_text}
use tiny_cache.Domain.{
  validate_namespace, check_namespace, strip, lstrip, rstrip, keep_before, is_space,
  matches_namespace_pattern, all_name_characters, is_name_character, is_alphanumeric,
}
use tiny_cache.Results.{cache_write_failure_from_set_status}
use tiny_cache.MemoryStore.State.{CacheStore}
use tiny_cache.MemoryStore.Invariant.{IsValid}
use tiny_cache.Service
use tiny_cache.Service.{storage_key, qualified_key, namespaced}
use tiny_cache.Grpc.Proto.{CacheItem, CacheStatus, CacheOperationResult}
use tiny_cache.Grpc.Mapping.{map_set_status}
use tiny_cache.Grpc.Contracts.{RpcContext, StatusCode}
use tiny_cache.Grpc.Lifecycle.{
  World, namespace_from_context, first_namespace, internal_error_details, begin_request,
  finish_request, handle_invalid_argument, handle_internal_error,
}
use tiny_cache.Grpc.Batch.{
  build_multi_get_items, build_multi_set_results, build_multi_delete_results, set_item, lookup_item,
  delete_item, error_text,
}
use tiny_cache.Grpc.Servicer
use tiny_cache.Grpc.Servicer.{handle}
use tiny_cache.Grpc.Scope.{Rpc, serve, serve-request_id_var}
use tiny_cache.Grpc.Stack.{memory_app, code_and_status, set-reply}
use tiny_cache.Grpc.RoundTrip.{get-set_messages, value_message}
use tiny_cache.Grpc.Sound.{serve_all, serve_all-IsValid, serve_all-Holds}
use tiny_cache.Backends.Memory.{memory_view, memory-IsBackend}
use tiny_cache.MemoryStore.Port.{memory_port}
use tiny_cache.Grpc.Batches.{multi_set-one_by_one, batches-one_by_one}
use tiny_cache.Grpc.OneByOne.{operation_result, lookup_result, one_by_one, ended}
use tiny_cache.Tests.Backend.{program}
use tiny_cache.Tests.Fixtures.{env, a_key, store, store-IsValid}

transport : Unit {0}
unfolding program validate_namespace check_namespace strip lstrip rstrip keep_before is_space
    matches_namespace_pattern all_name_characters is_name_character is_alphanumeric storage_key
    qualified_key namespaced decimal digits Service.get Service.set Service.delete Service.stats
    namespace_from_context first_namespace internal_error_details begin_request finish_request
    handle_invalid_argument handle_internal_error message_text error_text set_item lookup_item
    delete_item build_multi_get_items build_multi_set_results build_multi_delete_results
    map_set_status cache_write_failure_from_set_status handle Servicer.get Servicer.set
    Servicer.multi_get Servicer.multi_set
transport = tt

-- the metadata of a client of the namespace "team"
abbrev context : RpcContext
context = record {
  invocation_metadata =
      ok ((codes "user-agent", codes "x") ∷ (codes "X-Cache-Namespace", codes " team ") ∷ []);
  code = none;
  details = none;
}

abbrev world : World CacheStore
world = record {
  app = store;
  context = context;
  request_id_var = codes "-";
  fresh_id = codes "f00d";
}

abbrev item : CacheItem
item = record { key = codes "k"; value = codes "v"; ttl = pos 1 }

team : namespace_from_context context ≡ ok (some (codes "team"))
unfolding transport
team = refl

team_key : storage_key (codes "k") (some (codes "team")) ≡ ok (codes "4:team:k")
unfolding transport
team_key = refl

-- An empty key is refused, with the message of the validation.
set_rejected :
    let r = Servicer.set (memory_app env) (record item { key = [] }) world in
    (r.1.context.code ≡ some StatusCode.invalid_argument)
    × (r.1.context.details ≡ some (codes "Key cannot be empty"))
    × (r.1.request_id_var ≡ codes "-")
unfolding transport
set_rejected = (refl, refl, refl)

-- A batch reports the item that fails in its place.
multi_set_failure :
    map
      (λ (r : CacheOperationResult). r.status)
      (Servicer.multi_set
        (memory_app env)
        (record { items = item ∷ record item { key = [] } ∷ item ∷ [] })
        world).0.items
    ≡ CacheStatus.ok ∷ CacheStatus.error ∷ CacheStatus.ok ∷ []
unfolding transport
multi_set_failure = refl

serve-request_id_var_example :
    (serve (memory_app env) (Rpc.get (record { key = [] })) world).request_id_var ≡ codes "-"
serve-request_id_var_example =
    serve-request_id_var (memory_app env) (Rpc.get (record { key = [] })) world

set-reply_example :
    code_and_status (Servicer.set (memory_app env) item world)
    ≡ elim (namespace_from_context context) [
      | raise _ ↦ (some StatusCode.invalid_argument, CacheStatus.cache_status_unspecified)
      | ok namespace ↦ elim (storage_key (codes "k") namespace) [
        | raise _ ↦ (some StatusCode.invalid_argument, CacheStatus.cache_status_unspecified)
        | ok _ ↦
            if leb 34 40
            then (none, CacheStatus.ok)
            else (some StatusCode.resource_exhausted, CacheStatus.cache_status_unspecified)
      ]
    ]
set-reply_example =
    set-reply env (memory_port env) (memory_view env) (memory-IsBackend env) item world
      store-IsValid

abbrev after_set : World CacheStore
after_set = record world { app = (Servicer.set (memory_app env) item world).1.app }

-- when the TTL has passed
abbrev later : World CacheStore
later = record after_set { app = record after_set.app { reads = 40 } }

-- a `Set` keeps the store valid
after_set-IsValid : IsValid env after_set.app
unfolding serve_all serve
after_set-IsValid =
    serve_all-IsValid env
      (record { rpc = Rpc.set item; context = context; fresh_id = codes "f00d" } ∷ []) world
      store-IsValid

later-IsValid : IsValid env later.app
later-IsValid =
    let (h, steady) = after_set-IsValid in
    (
      record {
        distinct = h.distinct;
        counted = h.counted;
        within_memory = h.within_memory;
        within_items = h.within_items;
        measured = h.measured;
      },
      steady,
    )

-- The value that is set for a second at the tick 20 is gone at the tick 40.
get-set_messages_example :
    (Servicer.get (memory_app env) (record { key = codes "k" }) later).0 ≡ value_message none
get-set_messages_example =
    get-set_messages env (memory_port env) (memory_view env) (memory-IsBackend env) item
      (some (codes "team")) (codes "4:team:k") team_key world later store-IsValid later-IsValid
      (omega arith) team team refl

serve_all-Holds_example :
    IsValid env
      (serve_all
        (memory_app env)
        (record { rpc = Rpc.set item; context = context; fresh_id = codes "f00d" }
          ∷ record {
            rpc = Rpc.multi_get (record { keys = codes "k" ∷ [] ∷ [] });
            context = record context { invocation_metadata = raise other_exception };
            fresh_id = codes "cafe";
          }
          ∷ [])
        world).app
serve_all-Holds_example =
    serve_all-Holds env (memory_port env) (memory_view env) (memory-IsBackend env)
      (record { rpc = Rpc.set item; context = context; fresh_id = codes "f00d" }
        ∷ record {
          rpc = Rpc.multi_get (record { keys = codes "k" ∷ [] ∷ [] });
          context = record context { invocation_metadata = raise other_exception };
          fresh_id = codes "cafe";
        }
        ∷ [])
      world store-IsValid

abbrev blank_item : CacheItem
blank_item = record item { key = [] }

-- the second item fails
multi_set-one_by_one_example :
    ended
      (Servicer.multi_set (memory_app env) (record { items = item ∷ blank_item ∷ item ∷ [] }) world)
    ≡ elim (namespace_from_context context) [
      | ok _ ↦
          let (ends, s) =
            one_by_one
              (Servicer.set (memory_app env))
              (λ (i : CacheItem) response c. operation_result i.key response c)
              (item ∷ blank_item ∷ item ∷ [])
              world in
          (record { items = ends }, none, s)
      | raise _ ↦ (record { items = [] }, some StatusCode.invalid_argument, store)
    ]
multi_set-one_by_one_example =
    multi_set-one_by_one (memory_app env) (record { items = item ∷ blank_item ∷ item ∷ [] }) world
      refl

batches-one_by_one_example :
    (ended (Servicer.multi_get (memory_app env) (record { keys = a_key ∷ [] ∷ [] }) world)
      ≡ elim (namespace_from_context context) [
        | ok _ ↦
            let (ends, s) =
              one_by_one
                (λ key. Servicer.get (memory_app env) (record { key = key }))
                lookup_result
                (a_key ∷ [] ∷ [])
                world in
            (record { items = ends }, none, s)
        | raise _ ↦ (record { items = [] }, some StatusCode.invalid_argument, store)
      ])
    × (ended (Servicer.multi_delete (memory_app env) (record { keys = a_key ∷ [] ∷ [] }) world)
        ≡ elim (namespace_from_context context) [
          | ok _ ↦
              let (ends, s) =
                one_by_one
                  (λ key. Servicer.delete (memory_app env) (record { key = key }))
                  operation_result
                  (a_key ∷ [] ∷ [])
                  world in
              (record { items = ends }, none, s)
          | raise _ ↦ (record { items = [] }, some StatusCode.invalid_argument, store)
        ])
batches-one_by_one_example =
    batches-one_by_one (memory_app env) (record { keys = a_key ∷ [] ∷ [] }) world refl
