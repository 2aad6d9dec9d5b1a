-- ===== src/Tests/Fixtures.antt =====
-- A clock of ten ticks a second that advances by one tick a call, and a store of two entries.
use tiny_cache.Base.{◌+◌, ◌≡◌, refl, Text, Text-discrete, codes, none, some, [], ◌∷◌, length, arith}
use tiny_cache.Errors.{ok}
use tiny_cache.Dict.{lookup}
use tiny_cache.Domain.{validate_key}
use tiny_cache.StoreModels.{Env, IsMonotonic, CacheEntry}
use tiny_cache.MemoryStore.State.{CacheStore}
use tiny_cache.MemoryStore.Invariant.{IsValid}

abbrev pub env : Env
env = record { clock = λ n. n; second = 10; getsizeof = λ v. 33 + length v }

pub env-IsMonotonic : IsMonotonic env
env-IsMonotonic = record { ticks = omega arith; later = λ m n h. h }

abbrev pub a_key : Text
a_key = codes "a"

abbrev pub b_key : Text
b_key = codes "b"

abbrev pub c_key : Text
c_key = codes "c"

abbrev pub a_entry : CacheEntry
a_entry = record { value = codes "1"; ttl = none; created_at = 0; size_bytes = 34 }

abbrev pub b_entry : CacheEntry
b_entry = record { value = codes "22"; ttl = some 1; created_at = 1; size_bytes = 35 }

-- At its next reading of the clock, 20 ticks, the entry of "b" has expired.
abbrev pub store : CacheStore
store = record {
  max_items = 2;
  max_memory_bytes = 100;
  max_value_bytes = 40;
  cleanup_interval = 10;
  store = (a_key, a_entry) ∷ (b_key, b_entry) ∷ [];
  current_memory_bytes = 69;
  hits = 3;
  misses = 1;
  evictions = 0;
  lru_evictions = 0;
  expired_removals = 0;
  rejected_oversize = 0;
  rejected_capacity = 0;
  reads = 20;
}

pub store-IsValid : IsValid env store
unfolding lookup Text-discrete
store-IsValid = (
  record {
    distinct = (refl, (refl, tt));
    counted = refl;
    within_memory = omega arith;
    within_items = omega arith;
    measured = (
      record { measured = refl; small = omega arith },
      (record { measured = refl; small = omega arith }, tt),
    );
  },
  record { items = omega arith; value-le-memory = omega arith; agreed = refl; never_full = refl },
)

pub a_key-IsKey : validate_key a_key ≡ ok tt
unfolding validate_key
a_key-IsKey = refl

pub b_key-IsKey : validate_key b_key ≡ ok tt
unfolding validate_key
b_key-IsKey = refl

pub c_key-IsKey : validate_key c_key ≡ ok tt
unfolding validate_key
c_key-IsKey = refl
