-- ===== src/Grpc/Batches.antt =====
-- The batch calls against the single calls: each item of a batch ends as a call of its own would.
use tiny_cache.Base.{
  ◌≡◌, refl, ap, ap₂, sym, ◌∙◌, Text, Option, none, some, false, List, [], ◌∷◌, inl, inr,
}
use tiny_cache.Errors.{ok, raise, value_error, other_exception, Result-cases}
use tiny_cache.Results.{CacheSetStatus, cache_write_failure_from_set_status}
use tiny_cache.Grpc.Proto.{
  MultiCacheKeyRequest, CacheItem, MultiCacheItemRequest, CacheValue, CacheLookup,
  MultiCacheValueResponse, CacheOperationResult, MultiCacheResponse,
}
use tiny_cache.Grpc.Mapping.{map_set_status}
use tiny_cache.Grpc.Contracts.{CacheApp, StatusCode}
use tiny_cache.Grpc.Lifecycle.{
  World, begin_request, namespace_from_context, handle_invalid_argument, handle_internal_error,
}
use tiny_cache.Grpc.Servicer
use tiny_cache.Grpc.Servicer.{
  handle, answer, batch, unspecified, respond_value, respond_set, respond_deleted,
}
use tiny_cache.Grpc.Answers.{respond_value-app, respond_set-app}
use tiny_cache.Grpc.Batch.{
  lookup_item, set_item, delete_item, error_text, build_multi_get_items, build_multi_set_results,
  build_multi_delete_results,
}
use tiny_cache.Grpc.OneByOne.{
  operation_result, lookup_result, one_by_one, loop, Fits, loop-one_by_one, ended, batch-ended,
}

abbrev no_value : CacheValue
no_value = record { found = false; value = [] }

module _ {S : Type 0} where
  set-Fits :
      Fits {S = S} unspecified respond_set
        (λ (i : CacheItem) response c. operation_result i.key response c)
        (λ id i. set_item id i.key)
  unfolding set_item map_set_status cache_write_failure_from_set_status error_text
      handle_invalid_argument handle_internal_error
  set-Fits state i (ok CacheSetStatus.ok_status) w fresh = rw fresh refl
  set-Fits state i (ok CacheSetStatus.value_too_large) w fresh = refl
  set-Fits state i (ok CacheSetStatus.capacity_exhausted) w fresh = refl
  set-Fits state i (raise (value_error m)) w fresh = refl
  set-Fits state i (raise other_exception) w fresh = refl

  get-Fits : Fits {S = S} no_value respond_value lookup_result lookup_item
  unfolding lookup_item error_text handle_invalid_argument handle_internal_error
  get-Fits state i (ok none) w fresh = rw fresh refl
  get-Fits state i (ok (some value)) w fresh = rw fresh refl
  get-Fits state i (raise (value_error m)) w fresh = refl
  get-Fits state i (raise other_exception) w fresh = refl

  delete-Fits : Fits {S = S} unspecified respond_deleted operation_result delete_item
  unfolding delete_item error_text handle_invalid_argument handle_internal_error
  delete-Fits state i (ok deleted) w fresh = rw fresh refl
  delete-Fits state i (raise (value_error m)) w fresh = refl
  delete-Fits state i (raise other_exception) w fresh = refl

module _ {S : Type 0} (app : CacheApp S) (id : Text) (n : Option Text) where
  gets-loop :
      (keys : List Text) (s : S)
      → build_multi_get_items app id n keys s ≡ loop app.get lookup_item id n keys s
  unfolding build_multi_get_items loop
  gets-loop [] s = refl
  gets-loop (key ∷ keys) s =
      let (result, s') = app.get key n s in
      ap (λ r. (lookup_item id key result ∷ r.0, r.1)) (gets-loop keys s')

  deletes-loop :
      (keys : List Text) (s : S)
      → build_multi_delete_results app id n keys s ≡ loop app.delete delete_item id n keys s
  unfolding build_multi_delete_results loop
  deletes-loop [] s = refl
  deletes-loop (key ∷ keys) s =
      let (result, s') = app.delete key n s in
      ap (λ r. (delete_item id key result ∷ r.0, r.1)) (deletes-loop keys s')

  sets-loop :
      (items : List CacheItem) (s : S)
      → build_multi_set_results app id n items s
        ≡ loop
            (λ (i : CacheItem). app.set i.key i.value i.ttl)
            (λ rid i. set_item rid i.key)
            id
            n
            items
            s
  unfolding build_multi_set_results loop
  sets-loop [] s = refl
  sets-loop (i ∷ items) s =
      let (result, s') = app.set i.key i.value i.ttl n s in
      ap (λ r. (set_item id i.key result ∷ r.0, r.1)) (sets-loop items s')

module _ {S : Type 0} (app : CacheApp S) where
  -- A batch of sets, in a context without a code, ends as the sequence of its single `Set`s does:
  -- each item is answered in its place with the status of its own call, or with an error and the
  -- text that its own call would tell the client, and the application is left in the state after
  -- the last of them. No item that fails keeps the others from being set. But if the namespace is
  -- refused, no item is tried, and the whole call ends as an invalid argument.
  pub multi_set-one_by_one :
      (request : MultiCacheItemRequest) (w : World S)
      → w.context.code ≡ none
      → ended (Servicer.multi_set app request w) ≡ elim (namespace_from_context w.context) [
        | ok _ ↦
            let (ends, s) =
              one_by_one
                (Servicer.set app)
                (λ i response c. operation_result i.key response c)
                request.items
                w in
            (record { items = ends }, none, s)
        | raise _ ↦ (record { items = [] }, some StatusCode.invalid_argument, w.app)
      ]
  unfolding Servicer.multi_set Servicer.set
  multi_set-one_by_one request w fresh =
      let make : List CacheOperationResult → MultiCacheResponse =
        λ items. record { items = items } in
      let id = (begin_request w).0.request_id in
      batch-ended make (λ i n s. build_multi_set_results app i n request.items s) w
      ∙ elim (Result-cases (namespace_from_context w.context)) [
        | inr (e, p) ↦ rw p refl
        | inl (n, p) ↦ rw p (
            ap₂ (λ r c. (make r.0, c, r.1))
              (sets-loop app id n request.items w.app
                ∙ sym (
                    loop-one_by_one unspecified respond_set
                      (λ (i : CacheItem). app.set i.key i.value i.ttl)
                      (λ i response c. operation_result i.key response c)
                      (λ rid i. set_item rid i.key) set-Fits respond_set-app w n fresh p
                      request.items w.app))
              fresh)
      ]

  multi_get-one_by_one :
      (request : MultiCacheKeyRequest) (w : World S)
      → w.context.code ≡ none
      → ended (Servicer.multi_get app request w) ≡ elim (namespace_from_context w.context) [
        | ok _ ↦
            let (ends, s) =
              one_by_one
                (λ key. Servicer.get app (record { key = key }))
                lookup_result
                request.keys
                w in
            (record { items = ends }, none, s)
        | raise _ ↦ (record { items = [] }, some StatusCode.invalid_argument, w.app)
      ]
  unfolding Servicer.multi_get Servicer.get
  multi_get-one_by_one request w fresh =
      let make : List CacheLookup → MultiCacheValueResponse = λ items. record { items = items } in
      let id = (begin_request w).0.request_id in
      batch-ended make (λ i n s. build_multi_get_items app i n request.keys s) w
      ∙ elim (Result-cases (namespace_from_context w.context)) [
        | inr (e, p) ↦ rw p refl
        | inl (n, p) ↦ rw p (
            ap₂ (λ r c. (make r.0, c, r.1))
              (gets-loop app id n request.keys w.app
                ∙ sym (
                    loop-one_by_one no_value respond_value app.get lookup_result lookup_item
                      get-Fits respond_value-app w n fresh p request.keys w.app))
              fresh)
      ]

  multi_delete-one_by_one :
      (request : MultiCacheKeyRequest) (w : World S)
      → w.context.code ≡ none
      → ended (Servicer.multi_delete app request w) ≡ elim (namespace_from_context w.context) [
        | ok _ ↦
            let (ends, s) =
              one_by_one
                (λ key. Servicer.delete app (record { key = key }))
                operation_result
                request.keys
                w in
            (record { items = ends }, none, s)
        | raise _ ↦ (record { items = [] }, some StatusCode.invalid_argument, w.app)
      ]
  unfolding Servicer.multi_delete Servicer.delete
  multi_delete-one_by_one request w fresh =
      let make : List CacheOperationResult → MultiCacheResponse =
        λ items. record { items = items } in
      let id = (begin_request w).0.request_id in
      batch-ended make (λ i n s. build_multi_delete_results app i n request.keys s) w
      ∙ elim (Result-cases (namespace_from_context w.context)) [
        | inr (e, p) ↦ rw p refl
        | inl (n, p) ↦ rw p (
            ap₂ (λ r c. (make r.0, c, r.1))
              (deletes-loop app id n request.keys w.app
                ∙ sym (
                    loop-one_by_one unspecified respond_deleted app.delete operation_result
                      delete_item delete-Fits (λ _ _. refl) w n fresh p request.keys w.app))
              fresh)
      ]

  -- A batch of gets and one of deletes, in a context without a code, end as the sequences of their
  -- single calls do: each key is answered in its place with what its own `Get` or `Delete` answers,
  -- or with an error and the text that its own call would tell the client, and the application is
  -- left in the state after the last of them. But if the namespace is refused, no key is tried, and
  -- the whole call ends as an invalid argument.
  pub batches-one_by_one :
      (request : MultiCacheKeyRequest) (w : World S)
      → w.context.code ≡ none
      → (ended (Servicer.multi_get app request w) ≡ elim (namespace_from_context w.context) [
        | ok _ ↦
            let (ends, s) =
              one_by_one
                (λ key. Servicer.get app (record { key = key }))
                lookup_result
                request.keys
                w in
            (record { items = ends }, none, s)
        | raise _ ↦ (record { items = [] }, some StatusCode.invalid_argument, w.app)
      ])
        × (ended (Servicer.multi_delete app request w) ≡ elim (namespace_from_context w.context) [
          | ok _ ↦
              let (ends, s) =
                one_by_one
                  (λ key. Servicer.delete app (record { key = key }))
                  operation_result
                  request.keys
                  w in
              (record { items = ends }, none, s)
          | raise _ ↦ (record { items = [] }, some StatusCode.invalid_argument, w.app)
        ])
  batches-one_by_one request w fresh =
      (multi_get-one_by_one request w fresh, multi_delete-one_by_one request w fresh)
