-- ===== src/Grpc/RequestId.antt =====
-- `RequestIdInterceptor` in tiny_cache/transport/grpc/interceptors.py, around a handler. The id
-- that it also sends to the client is the one that it sets.
use tiny_cache.Base.{
  ◌≡◌, Text, Text-discrete, codes, Option, none, some, List, [], ◌∷◌, ite, not, if◌then◌else◌,
}
use tiny_cache.Errors.{Result, ok, raise}
use tiny_cache.Domain.{is_empty}
use tiny_cache.Grpc.Lifecycle.{World, Handler, lower, internal_error_details}
use tiny_cache.Grpc.Contracts.{StatusCode}
use tiny_cache.Grpc.Servicer

abbrev pub request_id_header : Text
request_id_header = codes "x-request-id"

-- `_get_request_id_from_metadata`
unfoldable pub get_request_id_from_metadata : List (Text × Text) → Option Text
get_request_id_from_metadata [] = none
get_request_id_from_metadata ((key, value) ∷ metadata) =
    ite (Text-discrete (lower key) request_id_header)
      (if not (is_empty value) then some value else get_request_id_from_metadata metadata)
      (get_request_id_from_metadata metadata)

-- the id of the client, or else a new one
abbrev pub scope_id : List (Text × Text) → Text → Text
scope_id metadata fresh_id = elim (get_request_id_from_metadata metadata) [
  | some request_id ↦ request_id
  | none ↦ fresh_id
]

-- `_request_id_scope` around the handler; reading the metadata may raise
unfoldable pub request_id_scope : {S A : Type 0} → Handler S A → World S → Result A × World S
request_id_scope behavior w = elim w.context.invocation_metadata [
  | ok metadata ↦
      let (a, w') = behavior (record w { request_id_var = scope_id metadata w.fresh_id }) in
      (ok a, record w' { request_id_var = w.request_id_var })
  | raise e ↦ (raise e, w)
]

-- an end with an internal error that carries the id `request_id`, and with the context variable `old`
abbrev pub IsReported : {S : Type 0} → Text → Text → World S → Type 0
IsReported request_id old w =
    (w.context.code ≡ some StatusCode.internal)
    × (w.context.details ≡ some (internal_error_details request_id))
    × (w.request_id_var ≡ old)
