-- ===== src/Grpc/Interceptors.antt =====
-- tiny_cache/transport/grpc/interceptors.py: how the two interceptors wrap the handler of a call.
-- The handlers of gRPC are records of behaviours, one for each of the four kinds of calls.
use tiny_cache.Base.{
  ℕ, ◌+◌, ◌-◌, ◌≡◌, refl, ap, ◌∙◌, Text, Bool, Option, none, some, List, ◌∷◌, if◌then◌else◌, inl,
  inr, arith,
}
use tiny_cache.Errors.{Result, ok, raise, Result-cases}
use tiny_cache.ActiveRequests.{ActiveRequests, increment, decrement}
use tiny_cache.Grpc.Lifecycle.{World}
use tiny_cache.Grpc.RequestId.{request_id_header, scope_id}

-- What a call works on within the interceptors: `initial` is the metadata that was sent before the
-- response.
pub record Served (S : Type 0) : Type 0 where
  pub world : World S
  pub active_requests : ActiveRequests
  pub initial : List (Text × Text)

-- a behaviour, which may raise; one that streams answers the list of all that it yields
abbrev pub Behavior : Type 0 → Type 0 → Type 0
Behavior S A = Served S → Result A × Served S

module _ {S A : Type 0} where
  -- `RequestIdInterceptor._request_id_scope` around a behaviour. Reading the metadata may raise;
  -- sending it may fail (`can_send`), without effect.
  unfoldable pub request_id_scope_around : Bool → Behavior S A → Behavior S A
  request_id_scope_around can_send behavior s = elim s.world.context.invocation_metadata [
    | raise e ↦ (raise e, s)
    | ok metadata ↦
        let request_id = scope_id metadata s.world.fresh_id in
        let (response, s') = behavior (record s {
          world = record s.world { request_id_var = request_id };
          initial = if can_send then (request_id_header, request_id) ∷ s.initial else s.initial;
        }) in
        (
          response,
          record s' { world = record s'.world { request_id_var = s.world.request_id_var } },
        )
  ]

  -- `ActiveRequestsInterceptor._active_request_scope` around a behaviour
  unfoldable pub active_request_scope : Behavior S A → Behavior S A
  active_request_scope behavior s =
      let (response, s') = behavior (record s { active_requests = increment s.active_requests }) in
      (response, record s' { active_requests = decrement s'.active_requests })

-- `grpc.RpcMethodHandler`, with codecs of some type `C`
pub record RpcMethodHandler (S A C : Type 0) : Type 0 where
  pub request_deserializer : C
  pub response_serializer : C
  pub unary_unary : Option (Behavior S A)
  pub unary_stream : Option (Behavior S (List A))
  pub stream_unary : Option (Behavior S A)
  pub stream_stream : Option (Behavior S (List A))

module _ {S A C : Type 0} where
  -- a handler with these codecs, before its behaviour is filled in
  abbrev pub no_behavior : C → C → RpcMethodHandler S A C
  no_behavior deserializer serializer = record {
    request_deserializer = deserializer;
    response_serializer = serializer;
    unary_unary = none;
    unary_stream = none;
    stream_unary = none;
    stream_stream = none;
  }

  -- `_wrap_rpc_method_handler` with a scope for either kind of response
  unfoldable pub wrap_rpc_method_handler :
      (Behavior S A → Behavior S A)
      → (Behavior S (List A) → Behavior S (List A))
      → RpcMethodHandler S A C
      → RpcMethodHandler S A C
  wrap_rpc_method_handler scope scope_stream handler =
      let wrapped = no_behavior handler.request_deserializer handler.response_serializer in
      elim handler.unary_unary [
        | some behavior ↦ record wrapped { unary_unary = some (scope behavior) }
        | none ↦ elim handler.unary_stream [
          | some behavior ↦ record wrapped { unary_stream = some (scope_stream behavior) }
          | none ↦ elim handler.stream_unary [
            | some behavior ↦ record wrapped { stream_unary = some (scope behavior) }
            | none ↦ elim handler.stream_stream [
              | some behavior ↦ record wrapped { stream_stream = some (scope_stream behavior) }
              | none ↦ handler
            ]
          ]
        ]
      ]

  -- `intercept_service`, for what the continuation gives
  unfoldable pub intercept_service :
      (Behavior S A → Behavior S A)
      → (Behavior S (List A) → Behavior S (List A))
      → Option (RpcMethodHandler S A C)
      → Option (RpcMethodHandler S A C)
  intercept_service scope scope_stream none = none
  intercept_service scope scope_stream (some handler) =
      some (wrap_rpc_method_handler scope scope_stream handler)

  -- both interceptors, in the order in which `serve` gives them to the server
  unfoldable pub intercepted :
      Bool → Option (RpcMethodHandler S A C) → Option (RpcMethodHandler S A C)
  intercepted can_send handler =
      intercept_service (request_id_scope_around can_send) (request_id_scope_around can_send)
        (intercept_service active_request_scope active_request_scope handler)

-- a call of one of the four kinds
pub data Kind (S A : Type 0) : Type 0 where
  unary_to_unary unary_to_stream stream_to_unary stream_to_stream : Kind S A

abbrev pub Reply : {S A : Type 0} → Kind S A → Type 0
Reply {A = A} unary_to_unary = A
Reply {A = A} unary_to_stream = List A
Reply {A = A} stream_to_unary = A
Reply {A = A} stream_to_stream = List A

module _ {S A C : Type 0} (deserializer serializer : C) where
  -- the handler that gRPC makes of one behaviour
  abbrev pub handler_of : (kind : Kind S A) → Behavior S (Reply kind) → RpcMethodHandler S A C
  handler_of unary_to_unary b = record (no_behavior deserializer serializer) {
    unary_unary = some b;
  }
  handler_of unary_to_stream b = record (no_behavior deserializer serializer) {
    unary_stream = some b;
  }
  handler_of stream_to_unary b = record (no_behavior deserializer serializer) {
    stream_unary = some b;
  }
  handler_of stream_to_stream b = record (no_behavior deserializer serializer) {
    stream_stream = some b;
  }

module _ {S A : Type 0} (can_send : Bool) where
  abbrev pub through : Behavior S A → Behavior S A
  through behavior = request_id_scope_around can_send (active_request_scope behavior)

-- A behaviour that leaves the counter and the context variable as it finds them.
abbrev pub IsQuiet : {S A : Type 0} → Behavior S A → Type 0
IsQuiet {S} b =
    (s : Served S)
    → ((b s).1.active_requests ≡ s.active_requests)
      × ((b s).1.world.request_id_var ≡ s.world.request_id_var)

abbrev counted : ℕ → ActiveRequests
counted n = record { value = n }

decrement-increment : (a : ActiveRequests) → decrement (increment a) ≡ a
unfolding decrement increment
decrement-increment a = let same : a.value + 1 - 1 ≡ a.value = omega arith in ap counted same

through-restores :
    {S B : Type 0} (can_send : Bool) (b : Behavior S B) (s : Served S)
    → IsQuiet b
    → ((through can_send b s).1.active_requests ≡ s.active_requests)
      × ((through can_send b s).1.world.request_id_var ≡ s.world.request_id_var)
unfolding request_id_scope_around active_request_scope
through-restores can_send b s quiet = elim (Result-cases s.world.context.invocation_metadata) [
  | inr (e, p) ↦ rw (p, request_id_scope_around) (refl, refl)
  | inl (metadata, p) ↦
      rw (p, request_id_scope_around)
        (ap decrement (quiet _).0 ∙ decrement-increment s.active_requests, refl)
]

module _ {S A C : Type 0} (can_send : Bool) (deserializer serializer : C) where
  intercepted-through :
      (kind : Kind S A) (b : Behavior S (Reply kind))
      → intercepted can_send (some (handler_of deserializer serializer kind b))
        ≡ some (handler_of deserializer serializer kind (through can_send b))
  unfolding intercepted intercept_service wrap_rpc_method_handler
  intercepted-through unary_to_unary b = refl
  intercepted-through unary_to_stream b = refl
  intercepted-through stream_to_unary b = refl
  intercepted-through stream_to_stream b = refl

  -- A handler of any of the four kinds is wrapped into one of the same kind and with the same
  -- codecs, whose behaviour runs within both scopes. Whether it returns or raises, and whether the
  -- metadata can be read and sent or not, the wrapped behaviour leaves the counter of the requests
  -- in flight and the context variable as they were, if the behaviour does.
  pub intercepted-restores :
      (kind : Kind S A) (b : Behavior S (Reply kind)) (s : Served S)
      → IsQuiet b
      → (intercepted can_send (some (handler_of deserializer serializer kind b))
          ≡ some (handler_of deserializer serializer kind (through can_send b)))
        × ((through can_send b s).1.active_requests ≡ s.active_requests)
        × ((through can_send b s).1.world.request_id_var ≡ s.world.request_id_var)
  intercepted-restores kind b s quiet =
      let (count, id) = through-restores can_send b s quiet in
      (intercepted-through kind b, count, id)
