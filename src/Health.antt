-- ===== src/Health.antt =====
-- tiny_cache/transport/http/health_app.py: the endpoints over HTTP, over any provider of statistics
-- with the state `S`. Logging is left out; aiohttp, which finds the route, is outside.
pub mod Metrics
pub mod Served
use tiny_cache.Base.{ℕ, ◌*◌, Text, codes, ◌++◌, Option, none, some, List, [], ◌∷◌}
use tiny_cache.Errors.{Result, ok, raise}
use tiny_cache.Results.{CacheStatsSnapshot}
use tiny_cache.Health.Metrics.{Floats, metrics_lines, joined}

abbrev pub bytes_per_megabyte : ℕ
bytes_per_megabyte = 1024 * 1024

-- the seconds that the process has run, and `time.time()`
pub record Now (f : Floats) : Type 0 where
  pub uptime : f.Float
  pub timestamp : f.Float

module _ (f : Floats) where
  pub record HealthPayload : Type 0 where
    pub health_status : Text
    pub uptime_seconds : f.Float
    pub cache_size : ℕ
    pub cache_hits : ℕ
    pub cache_misses : ℕ
    pub active_requests : ℕ
    pub timestamp : f.Float

  pub record AlivePayload : Type 0 where
    pub alive_status : Text
    pub uptime_seconds : f.Float
    pub timestamp : f.Float

  pub record StatsPayload : Type 0 where
    pub size : ℕ
    pub hits : ℕ
    pub misses : ℕ
    pub evictions : ℕ
    pub lru_evictions : ℕ
    pub expired_removals : ℕ
    pub rejected_oversize : ℕ
    pub rejected_capacity : ℕ
    pub hit_rate : ℕ × ℕ
    pub memory_usage_bytes : ℕ
    pub memory_usage_mb : f.Float
    pub max_memory_bytes : ℕ
    pub max_memory_mb : f.Float
    pub max_value_bytes : ℕ
    pub max_items : ℕ
    pub uptime_seconds : f.Float
    pub active_requests : ℕ
    pub timestamp : f.Float

  -- what a response holds: JSON, or text for Prometheus
  pub data Body : Type 0 where
    health_body : HealthPayload → Body
    alive_body : AlivePayload → Body
    stats_body : StatsPayload → Body
    -- {"status": "error", "message": SERVICE_UNAVAILABLE_MESSAGE}
    service_unavailable : Body
    metrics_text : Text → Body
    root_body : Text → List Text → ℕ → Body

  pub record Response : Type 0 where
    pub status : ℕ
    pub body : Body

  abbrev pub service_unavailable_response : Response
  service_unavailable_response = record { status = 503; body = service_unavailable }

  unfoldable pub megabytes : ℕ → f.Float
  megabytes value_bytes = f.round_two (f.ratio value_bytes bytes_per_megabyte)

  unfoldable pub stats_payload : CacheStatsSnapshot → ℕ → Now f → StatsPayload
  stats_payload stats active_requests now = record {
    size = stats.size;
    hits = stats.hits;
    misses = stats.misses;
    evictions = stats.evictions;
    lru_evictions = stats.lru_evictions;
    expired_removals = stats.expired_removals;
    rejected_oversize = stats.rejected_oversize;
    rejected_capacity = stats.rejected_capacity;
    hit_rate = stats.hit_rate;
    memory_usage_bytes = stats.memory_usage_bytes;
    memory_usage_mb = megabytes stats.memory_usage_bytes;
    max_memory_bytes = stats.max_memory_bytes;
    max_memory_mb = megabytes stats.max_memory_bytes;
    max_value_bytes = stats.max_value_bytes;
    max_items = stats.max_items;
    uptime_seconds = f.round_two now.uptime;
    active_requests = active_requests;
    timestamp = now.timestamp;
  }

-- What a request over HTTP works on, beside the application's state: the counter of the gRPC
-- requests in flight, the context variable of the request id, and the id that `uuid.uuid4` would
-- give next.
pub record HttpWorld (S : Type 0) : Type 0 where
  pub app : S
  pub active_requests : ℕ
  pub request_id_var : Text
  pub fresh_id : Text

module _ (f : Floats) {S : Type 0} (stats : S → Result CacheStatsSnapshot × S) (now : Now f) where
  -- A handler that reads the statistics, with the `except` clause that answers `failure`.
  abbrev pub with_stats :
      (CacheStatsSnapshot → Response f) → Response f → HttpWorld S → Response f × HttpWorld S
  with_stats respond failure w =
      let (result, app) = stats w.app in
      (elim result [ ok snapshot ↦ respond snapshot | raise _ ↦ failure ], record w { app = app })

  unfoldable pub health_check : HttpWorld S → Response f × HttpWorld S
  health_check w =
      with_stats
        (λ snapshot. record {
          status = 200;
          body = health_body (record {
            health_status = codes "healthy";
            uptime_seconds = f.round_two now.uptime;
            cache_size = snapshot.size;
            cache_hits = snapshot.hits;
            cache_misses = snapshot.misses;
            active_requests = w.active_requests;
            timestamp = now.timestamp;
          });
        })
        (service_unavailable_response f) w

  unfoldable pub readiness_check : HttpWorld S → Response f × HttpWorld S
  readiness_check = health_check

  -- nothing in the `try` raises
  unfoldable pub liveness_check : HttpWorld S → Response f × HttpWorld S
  liveness_check w = (
    record {
      status = 200;
      body = alive_body (record {
        alive_status = codes "alive";
        uptime_seconds = f.round_two now.uptime;
        timestamp = now.timestamp;
      });
    },
    w,
  )

  unfoldable pub metrics : HttpWorld S → Response f × HttpWorld S
  metrics w =
      with_stats
        (λ snapshot. record {
          status = 200;
          body = metrics_text (joined (metrics_lines f snapshot w.active_requests now.uptime));
        })
        (record { status = 503; body = metrics_text [] }) w

  unfoldable pub stats_endpoint : HttpWorld S → Response f × HttpWorld S
  stats_endpoint w =
      with_stats
        (λ snapshot. record {
          status = 200;
          body = stats_body (stats_payload f snapshot w.active_requests now);
        })
        (service_unavailable_response f) w

  abbrev pub endpoints : List Text
  endpoints =
      codes "/health" ∷ codes "/ready" ∷ codes "/live" ∷ codes "/metrics" ∷ codes "/stats" ∷ []

  unfoldable pub root_handler : ℕ → HttpWorld S → Response f × HttpWorld S
  root_handler grpc_port w =
      (record { status = 200; body = root_body (codes "tiny-cache") endpoints grpc_port }, w)

-- the routes of `create_health_app`
pub data Route : Type 0 where
  health ready live metrics_route stats_route root : Route

module _ (f : Floats) {S : Type 0} (stats : S → Result CacheStatsSnapshot × S) (now : Now f)
    (grpc_port : ℕ) where
  unfoldable pub dispatch : Route → HttpWorld S → Response f × HttpWorld S
  dispatch health = health_check f stats now
  dispatch ready = readiness_check f stats now
  dispatch live = liveness_check f stats now
  dispatch metrics_route = metrics f stats now
  dispatch stats_route = stats_endpoint f stats now
  dispatch root = root_handler f stats now grpc_port

-- `request.headers.get("x-request-id") or uuid.uuid4().hex`
abbrev pub request_id_for : Option Text → Text → Text
request_id_for none fresh_id = fresh_id
request_id_for (some []) fresh_id = fresh_id
request_id_for (some (c ∷ id)) fresh_id = c ∷ id

-- `request_id_middleware` around a handler: the response with its header `x-request-id`; the
-- exception of a handler that raises, such as `HTTPNotFound`, is left as it is
unfoldable pub request_id_middleware :
    {S R : Type 0}
    → Option Text
    → (HttpWorld S → Result R × HttpWorld S)
    → HttpWorld S
    → Result (R × Text) × HttpWorld S
request_id_middleware header handler w =
    let request_id = request_id_for header w.fresh_id in
    let (response, w') = handler (record w { request_id_var = request_id }) in
    (
      elim response [ ok r ↦ ok (r, request_id) | raise e ↦ raise e ],
      record w' { request_id_var = w.request_id_var },
    )
