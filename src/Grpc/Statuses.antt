-- ===== src/Grpc/Statuses.antt =====
-- The tables of statuses: the application's results, their failures, and what the client sees.
use tiny_cache.Base.{◌≡◌, refl, Bool, true, false, Option, none, some}
use tiny_cache.Results.{
  CacheSetStatus, CacheConditionalSetStatus, cache_write_failure_from_set_status,
  cache_write_failure_from_conditional_status, conditional_status_from_set_status,
  conditional_status_from_failure,
}
use tiny_cache.Grpc.Proto.{ConditionalCacheStatus}
use tiny_cache.Grpc.Mapping.{map_set_status, map_conditional_status, set_failure_mapping}

abbrev pub is_unspecified : ConditionalCacheStatus → Bool
is_unspecified ConditionalCacheStatus.conditional_cache_status_unspecified = true
is_unspecified _ = false

abbrev pub is_some {ℓ} : {A : Type ℓ} → Option A → Bool
is_some none = false
is_some (some _) = true

-- A plain and a conditional write that fail in the same way are answered with the same error, and
-- a plain write that succeeds counts as stored.
pub set_conditional_agree :
    (status : CacheSetStatus)
    → ((map_conditional_status (conditional_status_from_set_status status)).error
        ≡ (map_set_status status).error)
      × (cache_write_failure_from_conditional_status (conditional_status_from_set_status status)
          ≡ cache_write_failure_from_set_status status)
unfolding map_conditional_status conditional_status_from_set_status map_set_status
    cache_write_failure_from_conditional_status cache_write_failure_from_set_status
    conditional_status_from_failure
set_conditional_agree CacheSetStatus.ok_status = (refl, refl)
set_conditional_agree CacheSetStatus.value_too_large = (refl, refl)
set_conditional_agree CacheSetStatus.capacity_exhausted = (refl, refl)

-- A conditional write is answered with an error exactly if its status is a failure, the error of
-- that failure; and the status sent is unspecified exactly then.
pub conditional_error :
    (status : CacheConditionalSetStatus)
    → ((map_conditional_status status).error
        ≡ (set_failure_mapping (cache_write_failure_from_conditional_status status)).error)
      × (is_unspecified (map_conditional_status status).proto_status
          ≡ is_some (map_conditional_status status).error)
unfolding map_conditional_status cache_write_failure_from_conditional_status
conditional_error CacheConditionalSetStatus.stored = (refl, refl)
conditional_error CacheConditionalSetStatus.exists = (refl, refl)
conditional_error CacheConditionalSetStatus.not_found = (refl, refl)
conditional_error CacheConditionalSetStatus.mismatch = (refl, refl)
conditional_error CacheConditionalSetStatus.value_too_large = (refl, refl)
conditional_error CacheConditionalSetStatus.capacity_exhausted = (refl, refl)
