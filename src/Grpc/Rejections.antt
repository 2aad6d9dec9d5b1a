-- ===== src/Grpc/Rejections.antt =====
-- What can make a handler refuse a request: the validation raises nothing but `ValueError`, so it
-- is never reported as an internal error.
use tiny_cache.Base.{◌≢◌, Text, Option, arith}
use tiny_cache.Errors.{Result, raise, other_exception}
use tiny_cache.Domain.{validate_key, validate_namespace, check_namespace}
use tiny_cache.Service.{storage_key, qualified_key}
use tiny_cache.Grpc.Contracts.{RpcContext}
use tiny_cache.Grpc.Lifecycle.{namespace_from_context}

-- A result that is no `ok` carries a message for the client.
abbrev pub IsAnswerable {ℓ} : {A : Type ℓ} → Result A → Type ℓ
IsAnswerable r = r ≢ raise other_exception

validate_key-IsAnswerable : (key : Text) → IsAnswerable (validate_key key)
unfolding validate_key
validate_key-IsAnswerable key q = ground arith

validate_namespace-IsAnswerable : (n : Option Text) → IsAnswerable (validate_namespace n)
unfolding validate_namespace check_namespace
validate_namespace-IsAnswerable n q = ground arith

qualified_key-IsAnswerable : (key : Text) (n : Option Text) → IsAnswerable (qualified_key key n)
unfolding qualified_key
qualified_key-IsAnswerable key n q = ground arith

pub storage_key-IsAnswerable : (key : Text) (n : Option Text) → IsAnswerable (storage_key key n)
unfolding storage_key
storage_key-IsAnswerable key n q =
    grind (
      arith, validate_key-IsAnswerable, validate_namespace-IsAnswerable, qualified_key-IsAnswerable,
    )

pub namespace_from_context-IsAnswerable :
    (context : RpcContext) → IsAnswerable (namespace_from_context context)
unfolding namespace_from_context
namespace_from_context-IsAnswerable context q = grind (arith, validate_namespace-IsAnswerable)
