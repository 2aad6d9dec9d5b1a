-- ===== src/Results.antt =====
-- tiny_cache/application/results.py: the outcomes of a write and the statistics.
use tiny_cache.Base.{ℕ, Option, none, some}

pub data CacheWriteFailure : Type 0 where
  value_too_large capacity_exhausted : CacheWriteFailure

pub data CacheSetStatus : Type 0 where
  ok_status value_too_large capacity_exhausted : CacheSetStatus

pub data CacheConditionalSetStatus : Type 0 where
  stored exists not_found mismatch value_too_large capacity_exhausted : CacheConditionalSetStatus

-- `hit_rate` is the quotient of `hits` by `hits + misses`, or 0 if there were none: its numerator
-- and denominator stand for the float.
pub record CacheStatsSnapshot : Type 0 where
  pub size : ℕ
  pub hits : ℕ
  pub misses : ℕ
  pub evictions : ℕ
  pub lru_evictions : ℕ
  pub expired_removals : ℕ
  pub rejected_oversize : ℕ
  pub rejected_capacity : ℕ
  pub hit_rate : ℕ × ℕ
  pub memory_usage_bytes : ℕ
  pub max_memory_bytes : ℕ
  pub max_value_bytes : ℕ
  pub max_items : ℕ

unfoldable pub cache_write_failure_from_set_status : CacheSetStatus → Option CacheWriteFailure
cache_write_failure_from_set_status CacheSetStatus.ok_status = none
cache_write_failure_from_set_status CacheSetStatus.value_too_large =
    some CacheWriteFailure.value_too_large
cache_write_failure_from_set_status CacheSetStatus.capacity_exhausted =
    some CacheWriteFailure.capacity_exhausted

unfoldable pub cache_write_failure_from_conditional_status :
    CacheConditionalSetStatus → Option CacheWriteFailure
cache_write_failure_from_conditional_status CacheConditionalSetStatus.value_too_large =
    some CacheWriteFailure.value_too_large
cache_write_failure_from_conditional_status CacheConditionalSetStatus.capacity_exhausted =
    some CacheWriteFailure.capacity_exhausted
cache_write_failure_from_conditional_status _ = none

unfoldable pub conditional_status_from_failure : CacheWriteFailure → CacheConditionalSetStatus
conditional_status_from_failure CacheWriteFailure.value_too_large =
    CacheConditionalSetStatus.value_too_large
conditional_status_from_failure CacheWriteFailure.capacity_exhausted =
    CacheConditionalSetStatus.capacity_exhausted

unfoldable pub conditional_status_from_set_status : CacheSetStatus → CacheConditionalSetStatus
unfolding cache_write_failure_from_set_status conditional_status_from_failure
conditional_status_from_set_status status = elim (cache_write_failure_from_set_status status) [
  | none ↦ CacheConditionalSetStatus.stored
  | some failure ↦ conditional_status_from_failure failure
]
