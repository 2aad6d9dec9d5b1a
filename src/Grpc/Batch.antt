-- ===== src/Grpc/Batch.antt =====
-- tiny_cache/transport/grpc/batch_mapping.py: the loops of the batch calls. An item that fails is
-- reported in its place, and the loop goes on.
use tiny_cache.Base.{Text, Bytes, Bool, true, false, Option, none, some, List, [], ◌∷◌}
use tiny_cache.Errors.{Result, ok, raise, Error, value_error, other_exception, message_text}
use tiny_cache.Results.{CacheSetStatus}
use tiny_cache.Grpc.Proto.{CacheItem, CacheLookup, CacheOperationResult, CacheStatus}
use tiny_cache.Grpc.Mapping.{map_set_status}
use tiny_cache.Grpc.Contracts.{CacheApp}
use tiny_cache.Grpc.Lifecycle.{internal_error_details}

-- the text that the two `except` clauses report
unfoldable pub error_text : Text → Error → Text
error_text request_id (value_error message) = message_text message
error_text request_id other_exception = internal_error_details request_id

unfoldable pub lookup_item : Text → Text → Result (Option Bytes) → CacheLookup
lookup_item request_id key (ok none) = record { key = key; found = false; value = []; error = [] }
lookup_item request_id key (ok (some value)) = record {
  key = key;
  found = true;
  value = value;
  error = [];
}
lookup_item request_id key (raise e) = record {
  key = key;
  found = false;
  value = [];
  error = error_text request_id e;
}

abbrev pub succeeded : Text → CacheOperationResult
succeeded key = record { key = key; status = CacheStatus.ok; error = [] }

abbrev pub failed : Text → Text → CacheOperationResult
failed key error = record { key = key; status = CacheStatus.error; error = error }

unfoldable pub set_item : Text → Text → Result CacheSetStatus → CacheOperationResult
set_item request_id key (ok set_status) = elim (map_set_status set_status).error [
  | none ↦ succeeded key
  | some error ↦ failed key error
]
set_item request_id key (raise e) = failed key (error_text request_id e)

unfoldable pub delete_item : Text → Text → Result Bool → CacheOperationResult
delete_item request_id key (ok _) = succeeded key
delete_item request_id key (raise e) = failed key (error_text request_id e)

module _ {S : Type 0} (app : CacheApp S) (request_id : Text) (namespace : Option Text) where
  unfoldable pub build_multi_get_items : List Text → S → List CacheLookup × S
  build_multi_get_items [] s = ([], s)
  build_multi_get_items (key ∷ keys) s =
      let (result, s') = app.get key namespace s in
      let (items, s'') = build_multi_get_items keys s' in
      (lookup_item request_id key result ∷ items, s'')

  unfoldable pub build_multi_set_results : List CacheItem → S → List CacheOperationResult × S
  build_multi_set_results [] s = ([], s)
  build_multi_set_results (item ∷ items) s =
      let (result, s') = app.set item.key item.value item.ttl namespace s in
      let (results, s'') = build_multi_set_results items s' in
      (set_item request_id item.key result ∷ results, s'')

  unfoldable pub build_multi_delete_results : List Text → S → List CacheOperationResult × S
  build_multi_delete_results [] s = ([], s)
  build_multi_delete_results (key ∷ keys) s =
      let (result, s') = app.delete key namespace s in
      let (results, s'') = build_multi_delete_results keys s' in
      (delete_item request_id key result ∷ results, s'')
