-- ===== src/Ports.antt =====
-- tiny_cache/application/ports.py: `CacheStorePort`, what the application needs of a backend with
-- the state `S`. A call may raise.
use tiny_cache.Base.{Text, Bytes, ℤ, Option, Bool}
use tiny_cache.Errors.{Result}
use tiny_cache.Results.{CacheSetStatus, CacheConditionalSetStatus, CacheStatsSnapshot}

pub record CacheStorePort (S : Type 0) : Type 0 where
  pub get : Text → S → Result (Option Bytes) × S
  pub set : Text → Bytes → Option ℤ → S → Result CacheSetStatus × S
  pub set_if_absent : Text → Bytes → Option ℤ → S → Result CacheConditionalSetStatus × S
  pub compare_and_set : Text → Bytes → Bytes → Option ℤ → S → Result CacheConditionalSetStatus × S
  pub delete : Text → S → Result Bool × S
  pub stats : S → Result CacheStatsSnapshot × S
