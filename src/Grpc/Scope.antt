-- ===== src/Grpc/Scope.antt =====
-- The request id around a handler, whichever call it serves.
use tiny_cache.Base.{
  ◌≡◌, refl, ◌∙◌, Text, Bytes, Text-discrete, codes, none, some, Option, Option-cases, arith, inl,
  inr,
}
use tiny_cache.Errors.{Result-cases, Result, ok, raise, value_error, other_exception}
use tiny_cache.Grpc.Proto.{
  CacheKey, MultiCacheKeyRequest, CacheItem, CompareAndSetRequest, MultiCacheItemRequest,
}
use tiny_cache.Grpc.Mapping.{cache_stats_response}
use tiny_cache.Grpc.Contracts.{CacheApp}
use tiny_cache.Results.{CacheSetStatus, CacheConditionalSetStatus}
use tiny_cache.Grpc.Lifecycle.{
  namespace_from_context, handle_invalid_argument, handle_internal_error, World, RpcRequestState,
  Handler, begin_request-unset, begin_request-set, finish_request,
}
use tiny_cache.Grpc.Servicer
use tiny_cache.Grpc.Servicer.{
  handle, in_request, answer, call_app, respond_value, respond_set, respond_conditional,
  answer_stats,
}

-- the calls of the service, each with its request
pub data Rpc : Type 0 where
  get : CacheKey → Rpc
  multi_get : MultiCacheKeyRequest → Rpc
  set set_if_absent : CacheItem → Rpc
  compare_and_set : CompareAndSetRequest → Rpc
  multi_set : MultiCacheItemRequest → Rpc
  delete : CacheKey → Rpc
  multi_delete : MultiCacheKeyRequest → Rpc
  stats : Rpc

unfoldable pub serve : {S : Type 0} → CacheApp S → Rpc → World S → World S
serve app (Rpc.get request) w = (Servicer.get app request w).1
serve app (Rpc.multi_get request) w = (Servicer.multi_get app request w).1
serve app (Rpc.set request) w = (Servicer.set app request w).1
serve app (Rpc.set_if_absent request) w = (Servicer.set_if_absent app request w).1
serve app (Rpc.compare_and_set request) w = (Servicer.compare_and_set app request w).1
serve app (Rpc.multi_set request) w = (Servicer.multi_set app request w).1
serve app (Rpc.delete request) w = (Servicer.delete app request w).1
serve app (Rpc.multi_delete request) w = (Servicer.multi_delete app request w).1
serve app Rpc.stats w = (Servicer.stats app w).1

module _ {S : Type 0} where
  -- a body that leaves the context variable alone
  abbrev KeepsId : {A : Type 0} → Handler S A → Type 0
  KeepsId h = (w : World S) → (h w).1.request_id_var ≡ w.request_id_var

  in_request-restores :
      {A : Type 0} (body : RpcRequestState → Handler S A) (w : World S)
      → ((state : RpcRequestState) → KeepsId (body state))
      → (in_request body w).1.request_id_var ≡ w.request_id_var
  unfolding finish_request
  in_request-restores body w keeps = elim (Text-discrete w.request_id_var (codes "-")) [
    | yes unset ↦ rw (begin_request-unset w unset) refl
    | no own ↦ rw (begin_request-set w own) (keeps _ w)
  ]

  call_app-keeps : {A : Type 0} (call : Option Text → S → Result A × S) → KeepsId (call_app call)
  call_app-keeps call w = elim (Result-cases (namespace_from_context w.context)) [
    | inl (n, p) ↦ rw (p, call_app) refl
    | inr (e, p) ↦ rw (p, call_app) refl
  ]

  answer-keeps :
      {A B : Type 0} (empty : B) (respond : A → Handler S B) (state : RpcRequestState)
      → ((a : A) → KeepsId (respond a))
      → (r : Result A) (w : World S)
      → (answer empty respond state (r, w)).1.request_id_var ≡ w.request_id_var
  unfolding handle_invalid_argument handle_internal_error
  answer-keeps empty respond state keeps (ok a) w = keeps a w
  answer-keeps empty respond state keeps (raise (value_error m)) w = refl
  answer-keeps empty respond state keeps (raise other_exception) w = refl

  handle-restores :
      {A B : Type 0} (empty : B) (respond : A → Handler S B)
      (call : Text → Option Text → S → Result A × S)
      → ((a : A) → KeepsId (respond a))
      → KeepsId (handle empty respond call)
  unfolding handle
  handle-restores empty respond call keeps w =
      in_request-restores
        (λ state w'. answer empty respond state (call_app (call state.request_id) w')) w
        (λ state w'.
          answer-keeps empty respond state keeps (call_app (call state.request_id) w').0
            (call_app (call state.request_id) w').1
          ∙ call_app-keeps (call state.request_id) w')

  respond_set-KeepsId : (r : CacheSetStatus) → KeepsId (respond_set r)
  respond_set-KeepsId r w = ground arith

  respond_conditional-KeepsId :
      (status : CacheConditionalSetStatus) → KeepsId (respond_conditional status)
  respond_conditional-KeepsId status w = ground arith

  respond_value-KeepsId : (value : Option Bytes) → KeepsId (respond_value value)
  respond_value-KeepsId none w = refl
  respond_value-KeepsId (some value) w = refl

  answer_stats-KeepsId :
      (app : CacheApp S) (state : RpcRequestState)
      → KeepsId (λ w. answer_stats state w (app.stats w.app))
  unfolding handle_internal_error
  answer_stats-KeepsId app state w = elim (Result-cases (app.stats w.app).0) [
    | inl (report, q) ↦ rw q (elim (Option-cases (cache_stats_response report)) [
      | inl p ↦ rw (p, answer_stats) refl
      | inr (response, p) ↦ rw (p, answer_stats) refl
    ])
    | inr (e, q) ↦ rw q refl
  ]

  -- Every call restores the context variable of the request id, whichever way it ends: when it
  -- answers, when it refuses the request, and when the application fails.
  pub serve-request_id_var :
      (app : CacheApp S) (rpc : Rpc) (w : World S)
      → (serve app rpc w).request_id_var ≡ w.request_id_var
  unfolding serve Servicer.get Servicer.multi_get Servicer.set Servicer.set_if_absent
      Servicer.compare_and_set Servicer.multi_set Servicer.delete Servicer.multi_delete
      Servicer.stats
  serve-request_id_var app (Rpc.get request) w = handle-restores _ _ _ respond_value-KeepsId w
  serve-request_id_var app (Rpc.multi_get request) w = handle-restores _ _ _ (λ _ _. refl) w
  serve-request_id_var app (Rpc.set request) w = handle-restores _ _ _ respond_set-KeepsId w
  serve-request_id_var app (Rpc.set_if_absent request) w =
      handle-restores _ _ _ respond_conditional-KeepsId w
  serve-request_id_var app (Rpc.compare_and_set request) w =
      handle-restores _ _ _ respond_conditional-KeepsId w
  serve-request_id_var app (Rpc.multi_set request) w = handle-restores _ _ _ (λ _ _. refl) w
  serve-request_id_var app (Rpc.delete request) w = handle-restores _ _ _ (λ _ _. refl) w
  serve-request_id_var app (Rpc.multi_delete request) w = handle-restores _ _ _ (λ _ _. refl) w
  serve-request_id_var app Rpc.stats w =
      in_request-restores (λ state w'. answer_stats state w' (app.stats w'.app)) w
        (answer_stats-KeepsId app)
