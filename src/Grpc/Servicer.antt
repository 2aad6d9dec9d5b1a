-- ===== src/Grpc/Servicer.antt =====
-- tiny_cache/transport/grpc/servicer.py: `GrpcCacheService`, over any application. A call of the
-- application, which runs in a worker thread, is one step on the application's state.
use tiny_cache.Base.{Text, Bytes, Bool, true, false, Option, none, some, List, []}
use tiny_cache.Errors.{Result, ok, raise, value_error, other_exception}
use tiny_cache.Results.{CacheSetStatus, CacheConditionalSetStatus, CacheStatsSnapshot}
use tiny_cache.Grpc.Proto.{
  CacheStatus, ConditionalCacheStatus, CacheKey, MultiCacheKeyRequest, CacheItem,
  CompareAndSetRequest, MultiCacheItemRequest, CacheValue, CacheLookup, MultiCacheValueResponse,
  CacheResponse, ConditionalCacheResponse, CacheOperationResult, MultiCacheResponse, CacheStats,
}
use tiny_cache.Grpc.Mapping.{map_set_status, map_conditional_status, cache_stats_response}
use tiny_cache.Grpc.Contracts.{CacheApp, StatusCode}
use tiny_cache.Grpc.Lifecycle.{
  World, RpcRequestState, Handler, begin_request, finish_request, handle_invalid_argument,
  handle_internal_error, namespace_from_context, set_status,
}
use tiny_cache.Grpc.Batch.{
  build_multi_get_items, build_multi_set_results, build_multi_delete_results,
}

-- the messages that a handler answers without a result
abbrev pub unspecified : CacheResponse
unspecified = record { status = CacheStatus.cache_status_unspecified }

abbrev pub unspecified_conditional : ConditionalCacheResponse
unspecified_conditional = record {
  status = ConditionalCacheStatus.conditional_cache_status_unspecified;
}

abbrev pub no_stats : CacheStats
no_stats = record {
  size = 0;
  hits = 0;
  misses = 0;
  evictions = 0;
  hit_rate = (0, 1);
  memory_usage_bytes = 0;
  max_memory_bytes = 0;
  max_items = 0;
  max_value_bytes = 0;
  lru_evictions = 0;
  expired_removals = 0;
  rejected_oversize = 0;
  rejected_capacity = 0;
}

module _ {S : Type 0} where
  -- `begin_request`, the body of the `try`, and `finish_request` in the `finally`
  abbrev pub in_request : {A : Type 0} → (RpcRequestState → Handler S A) → Handler S A
  in_request body w =
      let (state, w') = begin_request w in
      let (response, w'') = body state w' in (response, finish_request state w'')

  -- The call of the application, after the namespace is read from the context.
  abbrev pub call_app : {A : Type 0} → (Option Text → S → Result A × S) → Handler S (Result A)
  call_app call w = elim (namespace_from_context w.context) [
    | ok namespace ↦ let (result, app) = call namespace w.app in (result, record w { app = app })
    | raise e ↦ (raise e, w)
  ]

  -- What follows the call, with the two `except` clauses, which answer the empty message.
  abbrev pub answer :
      {A B : Type 0} → B → (A → Handler S B) → RpcRequestState → Result A × World S → B × World S
  answer empty respond state (ok a, w) = respond a w
  answer empty respond state (raise (value_error message), w) =
      (empty, handle_invalid_argument message w)
  answer empty respond state (raise other_exception, w) = (empty, handle_internal_error state w)

  abbrev pub respond_value : Option Bytes → Handler S CacheValue
  respond_value none w = (record { found = false; value = [] }, w)
  respond_value (some value) w = (record { found = true; value = value }, w)

  abbrev pub respond_set : CacheSetStatus → Handler S CacheResponse
  respond_set status w = elim (map_set_status status).error [
    | none ↦ (record { status = CacheStatus.ok }, w)
    | some error ↦ (unspecified, set_status StatusCode.resource_exhausted error w)
  ]

  abbrev pub respond_conditional : CacheConditionalSetStatus → Handler S ConditionalCacheResponse
  respond_conditional status w = elim (map_conditional_status status).error [
    | none ↦ (record { status = (map_conditional_status status).proto_status }, w)
    | some error ↦ (unspecified_conditional, set_status StatusCode.resource_exhausted error w)
  ]

  -- A handler that reads the namespace, calls the application and answers. A batch call passes the
  -- request id on.
  unfoldable pub handle :
      {A B : Type 0} → B → (A → Handler S B) → (Text → Option Text → S → Result A × S) → Handler S B
  handle empty respond call =
      in_request (λ state w. answer empty respond state (call_app (call state.request_id) w))

  abbrev pub respond_items : List CacheLookup → Handler S MultiCacheValueResponse
  respond_items items w = (record { items = items }, w)

  abbrev pub respond_results : List CacheOperationResult → Handler S MultiCacheResponse
  respond_results items w = (record { items = items }, w)

  abbrev pub respond_deleted : Bool → Handler S CacheResponse
  respond_deleted deleted w = (record { status = CacheStatus.ok }, w)

  -- The loop of a batch call catches what an item raises, and so raises nothing.
  abbrev pub batch : {A : Type 0} → List A × S → Result (List A) × S
  batch (items, s) = (ok items, s)

  -- `Stats` reads no namespace, and has one `except` clause for every exception, also that of a
  -- response that cannot be made.
  abbrev pub answer_stats :
      RpcRequestState → World S → Result CacheStatsSnapshot × S → CacheStats × World S
  answer_stats state w (ok stats, s) = elim (cache_stats_response stats) [
    | some response ↦ (response, record w { app = s })
    | none ↦ (no_stats, handle_internal_error state (record w { app = s }))
  ]
  answer_stats state w (raise _, s) = (no_stats, handle_internal_error state (record w { app = s }))

module _ {S : Type 0} (app : CacheApp S) where
  unfoldable pub get : CacheKey → Handler S CacheValue
  get request =
      handle (record { found = false; value = [] }) respond_value (λ _. app.get request.key)

  unfoldable pub multi_get : MultiCacheKeyRequest → Handler S MultiCacheValueResponse
  multi_get request =
      handle (record { items = [] }) respond_items
        (λ request_id namespace s.
          batch (build_multi_get_items app request_id namespace request.keys s))

  unfoldable pub set : CacheItem → Handler S CacheResponse
  set request = handle unspecified respond_set (λ _. app.set request.key request.value request.ttl)

  unfoldable pub set_if_absent : CacheItem → Handler S ConditionalCacheResponse
  set_if_absent request =
      handle unspecified_conditional respond_conditional
        (λ _. app.set_if_absent request.key request.value request.ttl)

  unfoldable pub compare_and_set : CompareAndSetRequest → Handler S ConditionalCacheResponse
  compare_and_set request =
      handle unspecified_conditional respond_conditional
        (λ _. app.compare_and_set request.key request.expected_value request.value request.ttl)

  unfoldable pub multi_set : MultiCacheItemRequest → Handler S MultiCacheResponse
  multi_set request =
      handle (record { items = [] }) respond_results
        (λ request_id namespace s.
          batch (build_multi_set_results app request_id namespace request.items s))

  unfoldable pub delete : CacheKey → Handler S CacheResponse
  delete request = handle unspecified respond_deleted (λ _. app.delete request.key)

  unfoldable pub multi_delete : MultiCacheKeyRequest → Handler S MultiCacheResponse
  multi_delete request =
      handle (record { items = [] }) respond_results
        (λ request_id namespace s.
          batch (build_multi_delete_results app request_id namespace request.keys s))

  unfoldable pub stats : Handler S CacheStats
  stats = in_request (λ state w. answer_stats state w (app.stats w.app))
