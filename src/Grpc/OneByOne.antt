-- ===== src/Grpc/OneByOne.antt =====
-- A batch call as the sequence of its single calls, for any kind of call.
use tiny_cache.Base.{
  ◌≡◌, ◌≢◌, refl, ap, ap₂, ◌∙◌, Text, Text-discrete, codes, false, Option, none, some, List, [],
  ◌∷◌, inl, inr,
}
use tiny_cache.Errors.{Error, Result, ok, raise, value_error, other_exception, Result-cases}
use tiny_cache.Grpc.Proto.{
  CacheStatus, CacheValue, CacheLookup, CacheResponse, CacheOperationResult,
}
use tiny_cache.Grpc.Contracts.{RpcContext, StatusCode}
use tiny_cache.Grpc.Lifecycle.{
  World, RpcRequestState, Handler, begin_request, begin_request-unset, begin_request-set,
  namespace_from_context, handle_invalid_argument,
}
use tiny_cache.Grpc.Rejections.{namespace_from_context-IsAnswerable}
use tiny_cache.Grpc.Servicer.{handle, answer, batch}
use tiny_cache.Grpc.Answers.{called, handle-begun, answer-app}

-- the text that a client of a call that set a code is told
abbrev pub told : RpcContext → Text
told context = elim context.details [ none ↦ [] | some details ↦ details ]

-- the end of a single `Set` or `Delete`, as an item of a batch
abbrev pub operation_result : Text → CacheResponse → RpcContext → CacheOperationResult
operation_result key response context = elim context.code [
  | none ↦ record { key = key; status = response.status; error = [] }
  | some _ ↦ record { key = key; status = CacheStatus.error; error = told context }
]

-- the end of a single `Get`, as an item of a batch
abbrev pub lookup_result : Text → CacheValue → RpcContext → CacheLookup
lookup_result key response context = elim context.code [
  | none ↦ record { key = key; found = response.found; value = response.value; error = [] }
  | some _ ↦ record { key = key; found = false; value = []; error = told context }
]

-- One call after another, each in a fresh context and in the state that the last one left: the ends
-- of the calls, and the last state.
unfoldable pub one_by_one :
    {S I B J : Type 0}
    → (I → Handler S B)
    → (I → B → RpcContext → J)
    → List I
    → World S
    → List J × S
one_by_one serve end [] w = ([], w.app)
one_by_one serve end (i ∷ is) w =
    let (response, w') = serve i w in
    let (ends, s) = one_by_one serve end is (record w { app = w'.app }) in
    (end i response w'.context ∷ ends, s)

begin_request-app :
    {S : Type 0} (w : World S) (s : S)
    → (begin_request (record w { app = s })).0 ≡ (begin_request w).0
begin_request-app w s = elim (Text-discrete w.request_id_var (codes "-")) [
  | yes unset ↦
      rw (begin_request-unset w unset) (rw (begin_request-unset (record w { app = s }) unset) refl)
  | no set ↦ rw (begin_request-set w set) (rw (begin_request-set (record w { app = s }) set) refl)
]

-- An item of the batch is what its own call would end with.
abbrev pub Fits :
    {S I A B J : Type 0}
    → B
    → (A → Handler S B)
    → (I → B → RpcContext → J)
    → (Text → I → Result A → J)
    → Type 0
Fits {S} {I} {A} empty respond end item =
    (state : RpcRequestState) (i : I) (r : Result A) (w : World S)
    → w.context.code ≡ none
    → end i (answer empty respond state (r, w)).0 (answer empty respond state (r, w)).1.context
      ≡ item state.request_id i r

-- the loop of a batch call
unfoldable pub loop :
    {S I A J : Type 0}
    → (I → Option Text → S → Result A × S)
    → (Text → I → Result A → J)
    → Text
    → Option Text
    → List I
    → S
    → List J × S
loop call item request_id namespace [] s = ([], s)
loop call item request_id namespace (i ∷ is) s =
    let (result, s') = call i namespace s in
    let (items, s'') = loop call item request_id namespace is s' in
    (item request_id i result ∷ items, s'')

module _ {S I A B J : Type 0} (empty : B) (respond : A → Handler S B)
    (call : I → Option Text → S → Result A × S) (end : I → B → RpcContext → J)
    (item : Text → I → Result A → J) where
  abbrev single : I → Handler S B
  single i = handle empty respond (λ _. call i)

  module _ (fits : Fits empty respond end item)
      (keeps : (a : A) (v : World S) → (respond a v).1.app ≡ v.app) (w : World S)
      (namespace : Option Text) (fresh : w.context.code ≡ none)
      (accepted : namespace_from_context w.context ≡ ok namespace) where
    single-item :
        (i : I) (s : S)
        → let (response, w') = single i (record w { app = s }) in
          ((end i response w'.context
              ≡ item (begin_request w).0.request_id i (call i namespace s).0)
            × (w'.app ≡ (call i namespace s).1))
    single-item i s =
        let w_s : World S = record w { app = s } in
        let (w', context, app, e) = handle-begun empty respond (λ _. call i) w_s in
        let state = (begin_request w_s).0 in
        let result : called (call i) w_s ≡ call i namespace s = rw (accepted, called) refl in
        (
          ap (λ r. end i r.0 r.1) e
              ∙ fits state i (called (call i) w_s).0 w' (ap (λ c. c.code) context ∙ fresh)
              ∙ ap₂ (λ t r. item t.request_id i r) (begin_request-app w s) (ap (λ r. r.0) result),
          ap (λ r. r.2) e
              ∙ answer-app empty respond state keeps (called (call i) w_s).0 w'
              ∙ app
              ∙ ap (λ r. r.1) result,
        )

    pub loop-one_by_one :
        (is : List I) (s : S)
        → one_by_one single end is (record w { app = s })
          ≡ loop call item (begin_request w).0.request_id namespace is s
    unfolding loop one_by_one
    loop-one_by_one [] s = refl
    loop-one_by_one (i ∷ is) s =
        let (ends, left) = single-item i s in
        let id = (begin_request w).0.request_id in
        let (result, s') = call i namespace s in
        ap₂
          (λ j a.
            let (rest, last) = one_by_one single end is (record w { app = a }) in (j ∷ rest, last))
          ends left
        ∙ ap (λ r. (item id i result ∷ r.0, r.1)) (loop-one_by_one is s')

-- what a batch call ends with: the code and the application's state beside the response
abbrev pub Ended : Type 0 → Type 0 → Type 0
Ended S M = M × Option StatusCode × S

abbrev pub ended : {S M : Type 0} → M × World S → Ended S M
ended (response, w) = (response, w.context.code, w.app)

module _ {S J M : Type 0} (make : List J → M) (build : Text → Option Text → S → List J × S) where
  abbrev pub respond_made : List J → Handler S M
  respond_made items w = (make items, w)

  -- A namespace that is refused ends the whole call.
  abbrev refused : (e : Error) → World S → Ended S M
  refused e w = (make [], some StatusCode.invalid_argument, w.app)

  answer-refused :
      (state : RpcRequestState) (e : Error) (w : World S)
      → e ≢ other_exception
      → ended (answer (make []) respond_made state (raise e, w)) ≡ refused e w
  unfolding handle_invalid_argument
  answer-refused state (value_error m) w h = refl
  answer-refused state other_exception w h = absurd (h refl)

  pub batch-ended :
      (w : World S)
      → ended (handle (make []) respond_made (λ id n s. batch (build id n s)) w)
        ≡ elim (namespace_from_context w.context) [
          | ok namespace ↦
              let (items, s) = build (begin_request w).0.request_id namespace w.app in
              (make items, w.context.code, s)
          | raise _ ↦ (make [], some StatusCode.invalid_argument, w.app)
        ]
  batch-ended w =
      let call : Text → Option Text → S → Result (List J) × S = λ id n s. batch (build id n s) in
      let (w', context, app, e) = handle-begun (make []) respond_made call w in
      let state = (begin_request w).0 in
      let id = state.request_id in
      ap (λ r. (r.0, r.1.code, r.2)) e ∙ elim (Result-cases (namespace_from_context w.context)) [
        | inl (n, p) ↦
            let result : called (call id) w ≡ call id n w.app = rw (p, called) refl in
            ap (λ r. ended (answer (make []) respond_made state (r, w'))) (ap (λ r. r.0) result)
            ∙ ap₂ (λ c (s : S). (make (build id n w.app).0, c.code, s)) context
                (app ∙ ap (λ r. r.1) result)
            ∙ rw p refl
        | inr (x, p) ↦
            let result : called (call id) w ≡ (raise x, w.app) = rw (p, called) refl in
            ap (λ r. ended (answer (make []) respond_made state (r, w'))) (ap (λ r. r.0) result)
            ∙ answer-refused state x w'
                (λ q. namespace_from_context-IsAnswerable w.context (p ∙ ap raise q))
            ∙ ap (λ (s : S). (make [], some StatusCode.invalid_argument, s))
                (app ∙ ap (λ r. r.1) result)
            ∙ rw p refl
      ]
