-- ===== src/Grpc/RoundTrip.antt =====
-- A `Set` and a later `Get` through the transport, the service and a backend.
use tiny_cache.Base.{
  ℕ, zero, suc, ℤ, pos, negsuc, ◌+◌, ◌*◌, ◌≤◌, ◌≡◌, refl, ap, ◌∙◌, Text, Bytes, Option, none, some,
  [], true, false, leb, le→leb, if◌then◌else◌,
}
use tiny_cache.Errors.{Result, ok}
use tiny_cache.Domain.{validate_value}
use tiny_cache.Results.{CacheSetStatus}
use tiny_cache.StoreModels.{Env, new_entry, normalize_ttl}
use tiny_cache.Service
use tiny_cache.Service.{storage_key, ttl_of_seconds}
use tiny_cache.Service.Keys.{storage_key-IsKey}
use tiny_cache.Grpc.Proto.{CacheItem, CacheValue}
use tiny_cache.Grpc.Lifecycle.{World, namespace_from_context}
use tiny_cache.Grpc.Servicer
use tiny_cache.Grpc.Servicer.{answer, respond_set, respond_value, unspecified}
use tiny_cache.Grpc.Answers.{called, handle-seen, handle-app, respond_set-app}
use tiny_cache.Ports.{CacheStorePort}
use tiny_cache.Backends.{BackendView, IsBackend}
use tiny_cache.StoreModels.Live.{live, value_of, live-new_entry}
use tiny_cache.Grpc.Contracts.{service_app}

-- what is read back at the time `now` of a value that was written at the time `written` with a TTL
-- of `ttl` seconds: a TTL that is not positive never ends
abbrev pub read_back : Env → ℤ → Bytes → ℕ → ℕ → Option Bytes
read_back env (pos zero) value written now = some value
read_back env (pos (suc n)) value written now =
    if leb (written + suc n * env.second) now then none else some value
read_back env (negsuc n) value written now = some value

normalized-read_back :
    (env : Env) (ttl : ℤ) (value : Bytes) (written now : ℕ)
    → elim (normalize_ttl (ttl_of_seconds ttl)) [
      | none ↦ some value
      | some t ↦ if leb (written + t * env.second) now then none else some value
    ]
      ≡ read_back env ttl value written now
normalized-read_back env (pos zero) value written now = refl
normalized-read_back env (pos (suc n)) value written now = refl
normalized-read_back env (negsuc n) value written now = refl

-- the message that a `Get` answers for what the store returns
abbrev pub value_message : Option Bytes → CacheValue
value_message none = record { found = false; value = [] }
value_message (some value) = record { found = true; value = value }

respond_value-message :
    {S : Type 0} (found : Option Bytes) (w : World S)
    → (respond_value found w).0 ≡ value_message found
respond_value-message none w = refl
respond_value-message (some value) w = refl

respond_value-context :
    {S : Type 0} (found : Option Bytes) (w : World S)
    → (respond_value found w).1.context ≡ w.context
respond_value-context none w = refl
respond_value-context (some value) w = refl

module _ {S : Type 0} (env : Env) (port : CacheStorePort S) (b : BackendView S)
    (backend : IsBackend env port b) (request : CacheItem) (namespace : Option Text) (stored : Text)
    (key_accepted : storage_key request.key namespace ≡ ok stored) where
  abbrev set_call : Option Text → S → Result CacheSetStatus × S
  set_call = Service.set port request.key request.value request.ttl

  set-app :
      (w : World S)
      → namespace_from_context w.context ≡ ok namespace
      → (Servicer.set (service_app port) request w).1.app
        ≡ (port.set stored request.value (ttl_of_seconds request.ttl) w.app).1
  unfolding Servicer.set Service.set validate_value
  set-app w p =
      (handle-app unspecified respond_set (λ _. set_call) w respond_set-app).1
      ∙ rw (p, called) (rw key_accepted refl)

  -- A `Get` that is answered sets no code.
  pub get-value :
      (v : World S) (found : Option Bytes)
      → namespace_from_context v.context ≡ ok namespace
      → (port.get stored v.app).0 ≡ ok found
      → ((Servicer.get (service_app port) (record { key = request.key }) v).0 ≡ value_message found)
        × ((Servicer.get (service_app port) (record { key = request.key }) v).1.context ≡ v.context)
  unfolding Servicer.get Service.get
  get-value v found p q =
      let empty : CacheValue = record { found = false; value = [] } in
      let call : Option Text → S → Result (Option Bytes) × S = Service.get port request.key in
      let (state, w', context, app, e) = handle-seen empty respond_value (λ _. call) v in
      let returned : (called call v).0 ≡ ok found = rw (p, called) (rw key_accepted q) in
      let reply = ap (λ r. answer empty respond_value state (r, w')) returned in
      (
        ap (λ r. r.0) e ∙ ap (λ r. r.0) reply ∙ respond_value-message found w',
        ap (λ r. r.1) e ∙ ap (λ r. r.1.context) reply ∙ respond_value-context found w' ∙ context,
      )

  -- what a later `get` finds of what a `Set` stored
  pub found_later :
      (w v : World S)
      → b.Holds w.app
      → b.Holds v.app
      → env.getsizeof request.value ≤ b.max_value_bytes w.app
      → namespace_from_context w.context ≡ ok namespace
      → b.entry v.app stored ≡ b.entry (Servicer.set (service_app port) request w).1.app stored
      → (port.get stored v.app).0
        ≡ ok (
            read_back env request.ttl request.value
              (env.clock (b.reads w.app))
              (env.clock (b.reads v.app)))
  found_later w v holds later small p same =
      let accepted = storage_key-IsKey request.key namespace stored key_accepted in
      let ttl = ttl_of_seconds request.ttl in
      let now = env.clock (b.reads v.app) in
      let (_, written, _, _) = backend.set stored request.value ttl w.app accepted holds in
      let entry : b.entry v.app stored
          ≡ some (new_entry env request.value ttl (env.clock (b.reads w.app))) =
        same
        ∙ ap (λ (s : S). b.entry s stored) (set-app w p)
        ∙ (rw (le→leb _ _ small) at written) in
      (backend.get stored v.app accepted later).0
      ∙ ap (λ e. ok (value_of (live env now e))) entry
      ∙ ap ok (live-new_entry env request.value ttl (env.clock (b.reads w.app)) now)
      ∙ ap ok (normalized-read_back env request.ttl request.value (env.clock (b.reads w.app)) now)

  -- What a `Set` of a small enough value stores under an accepted key in any backend that keeps
  -- the promises of the port, a later `Get` of the same key in the same namespace finds, as long as
  -- the store still holds the entry and, if the request gave a positive TTL, fewer seconds than that
  -- have passed; after that it finds nothing.
  pub get-set_messages :
      (w v : World S)
      → b.Holds w.app
      → b.Holds v.app
      → env.getsizeof request.value ≤ b.max_value_bytes w.app
      → namespace_from_context w.context ≡ ok namespace
      → namespace_from_context v.context ≡ ok namespace
      → b.entry v.app stored ≡ b.entry (Servicer.set (service_app port) request w).1.app stored
      → (Servicer.get (service_app port) (record { key = request.key }) v).0
        ≡ value_message (
            read_back env request.ttl request.value
              (env.clock (b.reads w.app))
              (env.clock (b.reads v.app)))
  get-set_messages w v holds later small p q same =
      (get-value v _ q (found_later w v holds later small p same)).0
