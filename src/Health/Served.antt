-- ===== src/Health/Served.antt =====
-- A request over HTTP, from the middleware to the status.
use tiny_cache.Base.{ℕ, ◌≡◌, Text, Bool, true, false, if◌then◌else◌, Option, none, some}
use tiny_cache.Errors.{Result, ok, raise, other_exception}
use tiny_cache.Results.{CacheStatsSnapshot}
use tiny_cache.Health.Metrics.{Floats}
use tiny_cache.Health.{
  Now, HttpWorld, Response, Route, live, root, dispatch, request_id_for, request_id_middleware,
}

-- the routes that ask the application for its statistics
abbrev pub reads_stats : Route → Bool
reads_stats live = false
reads_stats root = false
reads_stats _ = true

module _ (f : Floats) {S : Type 0} (stats : S → Result CacheStatsSnapshot × S) (now : Now f)
    (grpc_port : ℕ) where
  -- what aiohttp calls within the middleware: it raises if the path has no route (`none`)
  abbrev pub routed : Option Route → HttpWorld S → Result (Response f) × HttpWorld S
  routed none w = (raise other_exception, w)
  routed (some route) w =
      let (response, w') = dispatch f stats now grpc_port route w in (ok response, w')

  abbrev pub served :
      Option Route → Option Text → HttpWorld S → Result (Response f × Text) × HttpWorld S
  served route header = request_id_middleware header (routed route)

  -- the status that a route answers with
  abbrev pub expected_status : Route → S → ℕ
  expected_status route s =
      if reads_stats route then elim (stats s).0 [ ok _ ↦ 200 | raise _ ↦ 503 ] else 200

  -- what the handler sees
  abbrev entered : Option Text → HttpWorld S → HttpWorld S
  entered header w = record w { request_id_var = request_id_for header w.fresh_id }

  abbrev pub IsServed :
      Option Route → Option Text → HttpWorld S → Result (Response f × Text) × HttpWorld S → Type 0
  IsServed none header w r = (r.0 ≡ raise other_exception) × (r.1 ≡ w)
  IsServed (some route) header w r =
      (response : Response f) × (r.0 ≡ ok (response, request_id_for header w.fresh_id))
      × (response.status ≡ expected_status route w.app)
      × (r.1.request_id_var ≡ w.request_id_var)
      × (r.1.app ≡ (if reads_stats route then (stats w.app).1 else w.app))
