-- ===== src/Grpc/Mapping.antt =====
-- tiny_cache/transport/grpc/status_mapping.py and response_mapping.py.
use tiny_cache.Base.{Text, codes, Option, none, some}
use tiny_cache.Results.{
  CacheWriteFailure, CacheSetStatus, CacheConditionalSetStatus, CacheStatsSnapshot,
  cache_write_failure_from_set_status,
}
use tiny_cache.Grpc.Proto.{CacheStats, new_cache_stats, ConditionalCacheStatus}

abbrev pub value_too_large_message : Text
value_too_large_message = codes "Value exceeds maximum allowed cache entry size"

abbrev pub capacity_exhausted_message : Text
capacity_exhausted_message = codes "Cache capacity exhausted and cannot accommodate new entry"

pub record SetStatusMapping : Type 0 where
  pub log_result : Text
  pub error : Option Text

pub record ConditionalStatusMapping : Type 0 where
  pub log_result : Text
  pub proto_status : ConditionalCacheStatus
  pub error : Option Text

-- the cases of `failure` in `map_set_status`
abbrev pub set_failure_mapping : Option CacheWriteFailure → SetStatusMapping
set_failure_mapping none = record { log_result = codes "OK"; error = none }
set_failure_mapping (some CacheWriteFailure.value_too_large) = record {
  log_result = codes "VALUE_TOO_LARGE";
  error = some value_too_large_message;
}
set_failure_mapping (some CacheWriteFailure.capacity_exhausted) = record {
  log_result = codes "CAPACITY_EXHAUSTED";
  error = some capacity_exhausted_message;
}

unfoldable pub map_set_status : CacheSetStatus → SetStatusMapping
unfolding cache_write_failure_from_set_status
map_set_status set_status = set_failure_mapping (cache_write_failure_from_set_status set_status)

abbrev pub refusal : Text → Text → ConditionalStatusMapping
refusal log_result message = record {
  log_result = log_result;
  proto_status = ConditionalCacheStatus.conditional_cache_status_unspecified;
  error = some message;
}

-- The last two cases are those of `cache_write_failure_from_conditional_status`.
unfoldable pub map_conditional_status : CacheConditionalSetStatus → ConditionalStatusMapping
map_conditional_status CacheConditionalSetStatus.stored = record {
  log_result = codes "STORED";
  proto_status = ConditionalCacheStatus.stored;
  error = none;
}
map_conditional_status CacheConditionalSetStatus.exists = record {
  log_result = codes "EXISTS";
  proto_status = ConditionalCacheStatus.exists;
  error = none;
}
map_conditional_status CacheConditionalSetStatus.not_found = record {
  log_result = codes "NOT_FOUND";
  proto_status = ConditionalCacheStatus.not_found;
  error = none;
}
map_conditional_status CacheConditionalSetStatus.mismatch = record {
  log_result = codes "MISMATCH";
  proto_status = ConditionalCacheStatus.mismatch;
  error = none;
}
map_conditional_status CacheConditionalSetStatus.value_too_large =
    refusal (codes "VALUE_TOO_LARGE") value_too_large_message
map_conditional_status CacheConditionalSetStatus.capacity_exhausted =
    refusal (codes "CAPACITY_EXHAUSTED") capacity_exhausted_message

-- `none` where protobuf raises `ValueError`, for a number that its field does not hold
unfoldable pub cache_stats_response : CacheStatsSnapshot → Option CacheStats
cache_stats_response stats = new_cache_stats (record {
  size = stats.size;
  hits = stats.hits;
  misses = stats.misses;
  evictions = stats.evictions;
  hit_rate = stats.hit_rate;
  memory_usage_bytes = stats.memory_usage_bytes;
  max_memory_bytes = stats.max_memory_bytes;
  max_items = stats.max_items;
  max_value_bytes = stats.max_value_bytes;
  lru_evictions = stats.lru_evictions;
  expired_removals = stats.expired_removals;
  rejected_oversize = stats.rejected_oversize;
  rejected_capacity = stats.rejected_capacity;
})
