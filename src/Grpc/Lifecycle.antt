-- ===== src/Grpc/Lifecycle.antt =====
-- tiny_cache/transport/grpc/request_lifecycle.py: what every handler does around its call of the
-- application. Logging, the peer's address and the duration, which only the log shows, are left out.
use tiny_cache.Base.{
  ◌+◌, Text, Text-discrete, codes, ◌&&◌, not, ite, Option, none, some, List, [], ◌∷◌, ◌++◌, ◌≡◌,
  ◌≢◌, if_pos, if_neg, leb, if◌then◌else◌,
}
use tiny_cache.Errors.{Message, message_text, Result, ok, raise, value_error, other_exception}
use tiny_cache.Domain.{validate_namespace, is_empty}
use tiny_cache.Grpc.Contracts.{StatusCode, RpcContext}

abbrev pub namespace_header : Text
namespace_header = codes "x-cache-namespace"

-- `str.lower`, on the letters that can make a header's name
abbrev pub lower : Text → Text
lower [] = []
lower (c ∷ s) = (if leb b'A' c && leb c b'Z' then c + 32 else c) ∷ lower s

-- What one request works on: the application's state, the context of the call, the context
-- variable of the request id, and the id that `uuid.uuid4` would give next.
pub record World (S : Type 0) : Type 0 where
  pub app : S
  pub context : RpcContext
  pub request_id_var : Text
  pub fresh_id : Text

-- `token` is the value to which the context variable is reset, if this request set it.
pub record RpcRequestState : Type 0 where
  pub request_id : Text
  pub token : Option Text

abbrev pub Handler : Type 0 → Type 0 → Type 0
Handler S A = World S → A × World S

unfoldable pub internal_error_details : Text → Text
internal_error_details request_id =
    codes "Internal server error (request_id=" ++ (request_id ++ codes ")")

module _ {S : Type 0} where
  -- `_ensure_request_id` and the rest of `begin_request`
  unfoldable pub begin_request : Handler S RpcRequestState
  begin_request w =
      ite (Text-discrete w.request_id_var (codes "-"))
        (
          record { request_id = w.fresh_id; token = some w.request_id_var },
          record w { request_id_var = w.fresh_id },
        )
        (record { request_id = w.request_id_var; token = none }, w)

  unfoldable pub finish_request : RpcRequestState → World S → World S
  finish_request state w = elim state.token [
    | none ↦ w
    | some old ↦ record w { request_id_var = old }
  ]

  abbrev pub set_status : StatusCode → Text → World S → World S
  set_status code details w = record w {
    context = record w.context { code = some code; details = some details };
  }

  unfoldable pub handle_invalid_argument : Message → World S → World S
  handle_invalid_argument message = set_status StatusCode.invalid_argument (message_text message)

  unfoldable pub handle_internal_error : RpcRequestState → World S → World S
  handle_internal_error state =
      set_status StatusCode.internal (internal_error_details state.request_id)

module _ {S : Type 0} (w : World S) where
  pub begin_request-unset :
      w.request_id_var ≡ codes "-"
      → begin_request w ≡ (
        record { request_id = w.fresh_id; token = some w.request_id_var },
        record w { request_id_var = w.fresh_id },
      )
  unfolding begin_request
  begin_request-unset unset = if_pos (Text-discrete w.request_id_var (codes "-")) unset _ _

  pub begin_request-set :
      w.request_id_var ≢ codes "-"
      → begin_request w ≡ (record { request_id = w.request_id_var; token = none }, w)
  unfolding begin_request
  begin_request-set set = if_neg (Text-discrete w.request_id_var (codes "-")) set _ _

-- the loop over the metadata: the first non-empty value under the header
unfoldable pub first_namespace : List (Text × Text) → Option Text
first_namespace [] = none
first_namespace ((key, value) ∷ metadata) =
    ite (Text-discrete (lower key) namespace_header)
      (if not (is_empty value) then some value else first_namespace metadata)
      (first_namespace metadata)

-- A `ValueError` is raised again; any other exception means that there is no namespace.
unfoldable pub namespace_from_context : RpcContext → Result (Option Text)
namespace_from_context context = elim context.invocation_metadata [
  | ok metadata ↦ validate_namespace (first_namespace metadata)
  | raise (value_error message) ↦ raise (value_error message)
  | raise other_exception ↦ ok none
]
