-- ===== src/Tests/Requests.antt =====
-- Tests of the requests in flight and of their ids.
use tiny_cache.Base.{
  ◌≡◌, refl, Text, Bytes, Text-discrete, codes, Option, none, some, true, false, List, [], ◌∷◌,
}
use tiny_cache.Errors.{Result, ok, raise, other_exception}
use tiny_cache.Grpc.Proto.{CacheValue}
use tiny_cache.Grpc.Lifecycle.{World}
use tiny_cache.Grpc.Contracts.{CacheApp}
use tiny_cache.Grpc.Servicer
use tiny_cache.Grpc.RequestId.{get_request_id_from_metadata, scope_id}
use tiny_cache.Grpc.Interceptors.{
  Served, Behavior, intercepted, handler_of, unary_to_unary, through, intercepted-restores,
}
use tiny_cache.ActiveRequests.{
  new_active_requests, increment, decrement, enter, leave, idle, value-InFlight,
}

-- two requests that overlap
value-InFlight_example : (decrement (increment (increment new_active_requests))).value ≡ 1
value-InFlight_example = value-InFlight (leave (enter (enter idle)))

abbrev metadata : List (Text × Text)
metadata = (codes "X-Request-Id", []) ∷ (codes "X-Request-Id", codes "abc") ∷ []

abbrev world : World Text
world = record {
  app = [];
  context = record { invocation_metadata = ok metadata; code = none; details = none };
  request_id_var = codes "-";
  fresh_id = codes "f00d";
}

abbrev failing : Text → Option Text → Text → Result (Option Bytes) × Text
failing request_id namespace s = (raise other_exception, s)

abbrev missing : CacheValue
missing = record { found = false; value = [] }

client_id : scope_id metadata (codes "f00d") ≡ codes "abc"
unfolding get_request_id_from_metadata Text-discrete
client_id = refl

-- an application that always fails
abbrev broken : CacheApp Text
broken = record {
  get = λ key namespace s. (raise other_exception, s);
  set = λ key value ttl namespace s. (raise other_exception, s);
  set_if_absent = λ key value ttl namespace s. (raise other_exception, s);
  compare_and_set = λ key expected value ttl namespace s. (raise other_exception, s);
  delete = λ key namespace s. (raise other_exception, s);
  stats = λ s. (raise other_exception, s);
}

-- a behaviour that raises, beside another request that is in flight
abbrev raising : Behavior Text CacheValue
raising s = (raise other_exception, s)

abbrev served : Served Text
served = record { world = world; active_requests = increment new_active_requests; initial = [] }

intercepted-restores_example :
    (intercepted true (some (handler_of (codes "in") (codes "out") unary_to_unary raising))
      ≡ some (handler_of (codes "in") (codes "out") unary_to_unary (through true raising)))
    × ((through true raising served).1.active_requests ≡ increment new_active_requests)
    × ((through true raising served).1.world.request_id_var ≡ codes "-")
intercepted-restores_example =
    intercepted-restores true (codes "in") (codes "out") unary_to_unary raising served
      (λ s. (refl, refl))
