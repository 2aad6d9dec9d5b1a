-- ===== src/Grpc/Answers.antt =====
-- A handler in terms of the call that it makes: what it answers, which code it sets, and in which
-- state it leaves the application.
use tiny_cache.Base.{
  ◌≡◌, refl, ap, ap₂, ◌∙◌, Text, Bytes, Text-discrete, codes, Option, none, some, Option-cases, inl,
  inr,
}
use tiny_cache.Errors.{Result, ok, raise, value_error, other_exception, Result-cases}
use tiny_cache.Results.{CacheSetStatus, CacheConditionalSetStatus, CacheStatsSnapshot}
use tiny_cache.Grpc.Mapping.{map_set_status, map_conditional_status, cache_stats_response}
use tiny_cache.Grpc.Contracts.{CacheApp, RpcContext}
use tiny_cache.Grpc.Lifecycle.{
  World, RpcRequestState, Handler, begin_request, begin_request-unset, begin_request-set,
  finish_request, namespace_from_context, handle_invalid_argument, handle_internal_error,
}
use tiny_cache.Grpc.Servicer.{
  handle, answer, call_app, answer_stats, stats, respond_value, respond_set, respond_conditional,
}

module _ {S : Type 0} where
  -- the call of the application in the namespace of the request
  abbrev pub called : {A : Type 0} → (Option Text → S → Result A × S) → World S → Result A × S
  called call w = elim (namespace_from_context w.context) [
    | ok namespace ↦ call namespace w.app
    | raise e ↦ (raise e, w.app)
  ]

  pub begin_request-frame :
      (w : World S) → ((begin_request w).1.context ≡ w.context) × ((begin_request w).1.app ≡ w.app)
  begin_request-frame w = elim (Text-discrete w.request_id_var (codes "-")) [
    | yes unset ↦ rw (begin_request-unset w unset) (refl, refl)
    | no set ↦ rw (begin_request-set w set) (refl, refl)
  ]

  finish_request-frame :
      (state : RpcRequestState) (w : World S)
      → ((finish_request state w).context ≡ w.context) × ((finish_request state w).app ≡ w.app)
  unfolding finish_request
  finish_request-frame state w = elim (Option-cases state.token) [
    | inl p ↦ rw (p, finish_request) (refl, refl)
    | inr (old, p) ↦ rw (p, finish_request) (refl, refl)
  ]

  pub call_app-called :
      {A : Type 0} (call : Option Text → S → Result A × S) (w : World S)
      → ((call_app call w).0 ≡ (called call w).0)
        × ((call_app call w).1.app ≡ (called call w).1)
        × ((call_app call w).1.context ≡ w.context)
  call_app-called call w = elim (Result-cases (namespace_from_context w.context)) [
    | inl (n, p) ↦ rw (p, call_app, called) (refl, refl, refl)
    | inr (e, p) ↦ rw (p, call_app, called) (refl, refl, refl)
  ]

  -- what a handler leaves behind, as far as the client and the application can see it
  abbrev pub seen : {B : Type 0} → B × World S → B × RpcContext × S
  seen (b, w) = (b, w.context, w.app)

  called-frame :
      {A : Type 0} (call : Option Text → S → Result A × S) (v w : World S)
      → v.context ≡ w.context
      → v.app ≡ w.app
      → called call v ≡ called call w
  called-frame {A} call v w p q =
      ap₂
        (λ (c : RpcContext) (s : S). elim (namespace_from_context c) as (λ _. Result A × S) [
          | ok namespace ↦ call namespace s
          | raise e ↦ (raise e, s)
        ])
        p q

  -- A handler ends as its answer to the result of the call does, with the state of the request that
  -- it begins with.
  pub handle-begun :
      {A B : Type 0} (empty : B) (respond : A → Handler S B)
      (call : Text → Option Text → S → Result A × S) (w : World S)
      → let state = (begin_request w).0 in
        ((w' : World S) × (w'.context ≡ w.context)
          × (w'.app ≡ (called (call state.request_id) w).1)
          × (seen (handle empty respond call w)
              ≡ seen (answer empty respond state ((called (call state.request_id) w).0, w'))))
  unfolding handle
  handle-begun empty respond call w =
      let state = (begin_request w).0 in
      let v = (begin_request w).1 in
      let (context, app) = begin_request-frame w in
      let same = called-frame (call state.request_id) v w context app in
      let (result, app', context') = call_app-called (call state.request_id) v in
      let w' = (call_app (call state.request_id) v).1 in
      let reply = answer empty respond state (call_app (call state.request_id) v) in
      let (left, kept) = finish_request-frame state reply.1 in
      (
        w',
        context' ∙ context,
        app' ∙ ap (λ r. r.1) same,
        ap₂ (λ c a. (reply.0, c, a)) left kept
            ∙ ap (λ r. seen (answer empty respond state (r, w'))) (result ∙ ap (λ r. r.0) same),
      )

  -- The same for some state of the request.
  pub handle-seen :
      {A B : Type 0} (empty : B) (respond : A → Handler S B)
      (call : Text → Option Text → S → Result A × S) (w : World S)
      → (state : RpcRequestState) × (w' : World S) × (w'.context ≡ w.context)
        × (w'.app ≡ (called (call state.request_id) w).1)
        × (seen (handle empty respond call w)
            ≡ seen (answer empty respond state ((called (call state.request_id) w).0, w')))
  handle-seen empty respond call w =
      let (w', context, app, e) = handle-begun empty respond call w in
      ((begin_request w).0, w', context, app, e)

  pub answer-app :
      {A B : Type 0} (empty : B) (respond : A → Handler S B) (state : RpcRequestState)
      → ((a : A) (w : World S) → (respond a w).1.app ≡ w.app)
      → (r : Result A) (w : World S) → (answer empty respond state (r, w)).1.app ≡ w.app
  unfolding handle_invalid_argument handle_internal_error
  answer-app empty respond state keeps (ok a) w = keeps a w
  answer-app empty respond state keeps (raise (value_error m)) w = refl
  answer-app empty respond state keeps (raise other_exception) w = refl

  -- A handler leaves the application in the state in which the call does.
  pub handle-app :
      {A B : Type 0} (empty : B) (respond : A → Handler S B)
      (call : Text → Option Text → S → Result A × S) (w : World S)
      → ((a : A) (v : World S) → (respond a v).1.app ≡ v.app)
      → (request_id : Text) × ((handle empty respond call w).1.app ≡ (called (call request_id) w).1)
  handle-app empty respond call w keeps =
      let (state, w', context, app, e) = handle-seen empty respond call w in
      (
        state.request_id,
        ap (λ r. r.2) e
            ∙ answer-app empty respond state keeps (called (call state.request_id) w).0 w'
            ∙ app,
      )

  answer_stats-app :
      (state : RpcRequestState) (w : World S) (r : Result CacheStatsSnapshot) (s : S)
      → (answer_stats state w (r, s)).1.app ≡ s
  unfolding handle_internal_error
  answer_stats-app state w (ok report) s = elim (Option-cases (cache_stats_response report)) [
    | inl p ↦ rw (p, answer_stats) refl
    | inr (response, p) ↦ rw (p, answer_stats) refl
  ]
  answer_stats-app state w (raise e) s = refl

  pub respond_value-app :
      (found : Option Bytes) (w : World S) → (respond_value found w).1.app ≡ w.app
  respond_value-app none w = refl
  respond_value-app (some value) w = refl

  pub respond_set-app :
      (status : CacheSetStatus) (w : World S) → (respond_set status w).1.app ≡ w.app
  respond_set-app status w = elim (Option-cases (map_set_status status).error) [
    | inl p ↦ rw (p, respond_set) refl
    | inr (message, p) ↦ rw (p, respond_set) refl
  ]

  pub respond_conditional-app :
      (status : CacheConditionalSetStatus) (w : World S)
      → (respond_conditional status w).1.app ≡ w.app
  respond_conditional-app status w = elim (Option-cases (map_conditional_status status).error) [
    | inl p ↦ rw (p, respond_conditional) refl
    | inr (message, p) ↦ rw (p, respond_conditional) refl
  ]

  -- `Stats`, which reads no namespace
  pub stats-app : (app : CacheApp S) (w : World S) → (stats app w).1.app ≡ (app.stats w.app).1
  unfolding stats
  stats-app app w =
      let (_, same) = begin_request-frame w in
      let state = (begin_request w).0 in
      let v = (begin_request w).1 in
      (finish_request-frame state (answer_stats state v (app.stats v.app)).1).1
      ∙ answer_stats-app state v (app.stats v.app).0 (app.stats v.app).1
      ∙ ap (λ (s : S). (app.stats s).1) same
