-- ===== src/ActiveRequests.antt =====
-- tiny_cache/transport/active_requests.py, and the scope of `ActiveRequestsInterceptor` in
-- tiny_cache/transport/grpc/interceptors.py: the count of the requests in flight.
use tiny_cache.Base.{ℕ, suc, ◌+◌, ◌-◌, ◌≡◌, refl, arith}

pub record ActiveRequests : Type 0 where
  pub value : ℕ

abbrev pub new_active_requests : ActiveRequests
new_active_requests = record { value = 0 }

-- Each method holds the lock throughout, so it is one step.
unfoldable pub increment : ActiveRequests → ActiveRequests
increment a = record { value = a.value + 1 }

-- `max(self._value - 1, 0)`: subtraction of natural numbers stops at 0.
unfoldable pub decrement : ActiveRequests → ActiveRequests
decrement a = record { value = a.value - 1 }

-- The states that the interceptor reaches, with the number of requests that are in their scope:
-- any number may be, and they leave in any order.
pub data InFlight : ActiveRequests → ℕ → Type 0 where
  idle : InFlight new_active_requests 0
  enter : {a : ActiveRequests} {n : ℕ} → InFlight a n → InFlight (increment a) (suc n)
  leave : {a : ActiveRequests} {n : ℕ} → InFlight a (suc n) → InFlight (decrement a) n

-- However requests overlap, the counter is the number of those in flight: the lower bound in
-- `decrement` never takes effect, and the counter is 0 again once all have left.
pub value-InFlight : {a : ActiveRequests} {n : ℕ} → InFlight a n → a.value ≡ n
unfolding increment decrement
value-InFlight idle = refl
value-InFlight (enter h) = omega (arith, value-InFlight h)
value-InFlight (leave h) = omega (arith, value-InFlight h)
