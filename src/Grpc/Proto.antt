-- ===== src/Grpc/Proto.antt =====
-- cache.proto: the messages of the service, with the names of the generated `cache_pb2`. The fields
-- are those of a message that was made or received, whose numbers are in range; making a message
-- checks them (`new_cache_item`, `new_compare_and_set_request`, `new_cache_stats`).
use tiny_cache.Base.{
  ℕ, Text, Bytes, ℤ, pos, negsuc, Bool, ltb, ◌&&◌, Option, none, some, List, if◌then◌else◌,
}

pub data CacheStatus : Type 0 where
  cache_status_unspecified ok error : CacheStatus

pub data ConditionalCacheStatus : Type 0 where
  conditional_cache_status_unspecified stored exists not_found mismatch : ConditionalCacheStatus

pub record CacheKey : Type 0 where
  pub key : Text

pub record MultiCacheKeyRequest : Type 0 where
  pub keys : List Text

-- `ttl` is an `int32`
pub record CacheItem : Type 0 where
  pub key : Text
  pub value : Bytes
  pub ttl : ℤ

-- `ttl` is an `int32`
pub record CompareAndSetRequest : Type 0 where
  pub key : Text
  pub expected_value : Bytes
  pub value : Bytes
  pub ttl : ℤ

-- the range of `int32`, whose bound is 2 ^ 31
abbrev pub is_int32 : ℤ → Bool
is_int32 (pos n) = ltb n 2147483648
is_int32 (negsuc n) = ltb n 2147483648

-- the range of `int32` and of `int64` from zero on, with the bounds 2 ^ 31 and 2 ^ 63
abbrev pub fits_int32 : ℕ → Bool
fits_int32 n = ltb n 2147483648

abbrev pub fits_int64 : ℕ → Bool
fits_int64 n = ltb n 9223372036854775808

-- `CacheItem(key=..., value=..., ttl=...)`; `none` where protobuf raises `ValueError`
unfoldable pub new_cache_item : Text → Bytes → ℤ → Option CacheItem
new_cache_item key value ttl =
    if is_int32 ttl then some (record { key = key; value = value; ttl = ttl }) else none

-- `CompareAndSetRequest(...)`, likewise
unfoldable pub new_compare_and_set_request : Text → Bytes → Bytes → ℤ → Option CompareAndSetRequest
new_compare_and_set_request key expected_value value ttl =
    if is_int32 ttl
    then some (record { key = key; expected_value = expected_value; value = value; ttl = ttl })
    else none

pub record MultiCacheItemRequest : Type 0 where
  pub items : List CacheItem

pub record CacheValue : Type 0 where
  pub found : Bool
  pub value : Bytes

pub record CacheLookup : Type 0 where
  pub key : Text
  pub found : Bool
  pub value : Bytes
  pub error : Text

pub record MultiCacheValueResponse : Type 0 where
  pub items : List CacheLookup

pub record CacheResponse : Type 0 where
  pub status : CacheStatus

pub record ConditionalCacheResponse : Type 0 where
  pub status : ConditionalCacheStatus

pub record CacheOperationResult : Type 0 where
  pub key : Text
  pub status : CacheStatus
  pub error : Text

pub record MultiCacheResponse : Type 0 where
  pub items : List CacheOperationResult

-- `hit_rate` as in `CacheStatsSnapshot`; the bytes are `int64`, the other numbers `int32`
pub record CacheStats : Type 0 where
  pub size : ℕ
  pub hits : ℕ
  pub misses : ℕ
  pub evictions : ℕ
  pub hit_rate : ℕ × ℕ
  pub memory_usage_bytes : ℕ
  pub max_memory_bytes : ℕ
  pub max_items : ℕ
  pub max_value_bytes : ℕ
  pub lru_evictions : ℕ
  pub expired_removals : ℕ
  pub rejected_oversize : ℕ
  pub rejected_capacity : ℕ

abbrev pub are_int32 : CacheStats → Bool
are_int32 m =
    fits_int32 m.size
    && (fits_int32 m.hits
        && (fits_int32 m.misses
            && (fits_int32 m.evictions
                && (fits_int32 m.max_items
                    && (fits_int32 m.lru_evictions
                        && (fits_int32 m.expired_removals
                            && (fits_int32 m.rejected_oversize
                                && fits_int32 m.rejected_capacity)))))))

abbrev pub are_int64 : CacheStats → Bool
are_int64 m =
    fits_int64 m.memory_usage_bytes
    && (fits_int64 m.max_memory_bytes && fits_int64 m.max_value_bytes)

-- `CacheStats(...)` with these fields, likewise
unfoldable pub new_cache_stats : CacheStats → Option CacheStats
new_cache_stats fields = if are_int32 fields && are_int64 fields then some fields else none
