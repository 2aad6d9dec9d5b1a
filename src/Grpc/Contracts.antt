-- ===== src/Grpc/Contracts.antt =====
-- tiny_cache/transport/grpc/contracts.py: the application, as the transport sees it, with the state
-- `S`; and the part of a gRPC context that a handler reads and writes.
use tiny_cache.Base.{Text, Bytes, ℤ, Option, Bool, List}
use tiny_cache.Errors.{Result}
use tiny_cache.Results.{CacheSetStatus, CacheConditionalSetStatus, CacheStatsSnapshot}
use tiny_cache.Ports.{CacheStorePort}
use tiny_cache.Service

pub record CacheApp (S : Type 0) : Type 0 where
  pub get : Text → Option Text → S → Result (Option Bytes) × S
  pub set : Text → Bytes → ℤ → Option Text → S → Result CacheSetStatus × S
  pub set_if_absent : Text → Bytes → ℤ → Option Text → S → Result CacheConditionalSetStatus × S
  pub compare_and_set :
      Text → Bytes → Bytes → ℤ → Option Text → S → Result CacheConditionalSetStatus × S
  pub delete : Text → Option Text → S → Result Bool × S
  pub stats : S → Result CacheStatsSnapshot × S

-- `CacheApplicationService(store)`
abbrev pub service_app : {S : Type 0} → CacheStorePort S → CacheApp S
service_app store = record {
  get = Service.get store;
  set = Service.set store;
  set_if_absent = Service.set_if_absent store;
  compare_and_set = Service.compare_and_set store;
  delete = Service.delete store;
  stats = Service.stats store;
}

-- the codes of `grpc.StatusCode` that the handlers set
pub data StatusCode : Type 0 where
  invalid_argument resource_exhausted internal : StatusCode

-- What the client sent beside the message. Reading the metadata may raise.
pub record RpcContext : Type 0 where
  pub invocation_metadata : Result (List (Text × Text))
  pub code : Option StatusCode
  pub details : Option Text
