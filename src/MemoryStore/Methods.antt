-- ===== src/MemoryStore/Methods.antt =====
-- The methods of `CacheStore`. A method takes the store and returns its result beside the new
-- store. It holds the lock from its first access to its last, so its body is one step.
use tiny_cache.Base.{
  ℕ, ◌+◌, Text, Text-discrete, Bytes, Bool, true, false, ite, Option, none, some, ℤ, [], length,
  ltb, if◌then◌else◌,
}
use tiny_cache.Errors.{Result, ok, raise, ◌>>◌}
use tiny_cache.Dict.{lookup, remove, move_to_end}
use tiny_cache.Domain.{validate_key, validate_value}
use tiny_cache.Results.{
  CacheSetStatus, CacheConditionalSetStatus, CacheStatsSnapshot, conditional_status_from_set_status,
}
use tiny_cache.StoreModels.{Env}
use tiny_cache.MemoryStore.State.{CacheStore, remove_entry, remove_expired_entry}
use tiny_cache.MemoryStore.Expiry.{is_expired, remove_expired_entries}
use tiny_cache.MemoryStore.Writing.{store_value}

-- A method that validates its arguments and then works under the lock.
abbrev pub locked :
    {A : Type 0}
    → Result (Unit {0})
    → (CacheStore → A × CacheStore)
    → CacheStore
    → Result A × CacheStore
locked (ok _) body s = let (a, s') = body s in (ok a, s')
locked (raise e) body s = (raise e, s)

unfoldable pub get_entry : Env → Text → CacheStore → Option Bytes × CacheStore
get_entry env key s = elim (lookup key s.store) [
  | none ↦ (none, record s { misses = s.misses + 1 })
  | some entry ↦
      let (expired, s') = is_expired env entry s in
      if expired
      then (none, remove_expired_entry key (record s' { misses = s'.misses + 1 }))
      else (some entry.value, record s' { store = move_to_end key s'.store; hits = s'.hits + 1 })
]

unfoldable pub get : Env → Text → CacheStore → Result (Option Bytes) × CacheStore
get env key = locked (validate_key key) (get_entry env key)

-- `self.store.pop(key, None)`, then the write
unfoldable pub set_entry : Env → Text → Bytes → Option ℤ → CacheStore → CacheSetStatus × CacheStore
set_entry env key value ttl s =
    store_value env key value ttl (lookup key s.store) (record s { store = remove key s.store })

unfoldable pub set : Env → Text → Bytes → Option ℤ → CacheStore → Result CacheSetStatus × CacheStore
set env key value ttl =
    locked (validate_key key >> validate_value value) (set_entry env key value ttl)

abbrev pub conditionally : CacheSetStatus × CacheStore → CacheConditionalSetStatus × CacheStore
conditionally (status, s) = (conditional_status_from_set_status status, s)

unfoldable pub add_entry :
    Env → Text → Bytes → Option ℤ → CacheStore → CacheConditionalSetStatus × CacheStore
add_entry env key value ttl s = elim (lookup key s.store) [
  | none ↦ conditionally (store_value env key value ttl none s)
  | some existing_entry ↦
      let (expired, s') = is_expired env existing_entry s in
      if expired
      then conditionally (store_value env key value ttl none (remove_expired_entry key s'))
      else (CacheConditionalSetStatus.exists, s')
]

unfoldable pub set_if_absent :
    Env → Text → Bytes → Option ℤ → CacheStore → Result CacheConditionalSetStatus × CacheStore
set_if_absent env key value ttl =
    locked (validate_key key >> validate_value value) (add_entry env key value ttl)

unfoldable pub exchange_entry :
    Env → Text → Bytes → Bytes → Option ℤ → CacheStore → CacheConditionalSetStatus × CacheStore
exchange_entry env key expected_value value ttl s = elim (lookup key s.store) [
  | none ↦ (CacheConditionalSetStatus.not_found, s)
  | some existing_entry ↦
      let (expired, s') = is_expired env existing_entry s in
      if expired
      then (CacheConditionalSetStatus.not_found, remove_expired_entry key s')
      else ite (Text-discrete existing_entry.value expected_value)
          (conditionally (
            store_value env key value ttl (some existing_entry)
              (record s' { store = remove key s'.store })))
          (CacheConditionalSetStatus.mismatch, s')
]

unfoldable pub compare_and_set :
    Env
    → Text
    → Bytes
    → Bytes
    → Option ℤ
    → CacheStore
    → Result CacheConditionalSetStatus × CacheStore
compare_and_set env key expected_value value ttl =
    locked (validate_key key >> validate_value expected_value >> validate_value value)
      (exchange_entry env key expected_value value ttl)

unfoldable pub delete_entry : Text → CacheStore → Bool × CacheStore
delete_entry key s = elim (lookup key s.store) [
  | none ↦ (false, s)
  | some _ ↦ (true, remove_entry key s)
]

unfoldable pub delete : Text → CacheStore → Result Bool × CacheStore
delete key = locked (validate_key key) (delete_entry key)

abbrev pub hit_rate : ℕ → ℕ → ℕ × ℕ
hit_rate hits total = if ltb 0 total then (hits, total) else (0, 1)

unfoldable pub snapshot : CacheStore → CacheStatsSnapshot
snapshot s = record {
  size = length s.store;
  hits = s.hits;
  misses = s.misses;
  evictions = s.evictions;
  lru_evictions = s.lru_evictions;
  expired_removals = s.expired_removals;
  rejected_oversize = s.rejected_oversize;
  rejected_capacity = s.rejected_capacity;
  hit_rate = hit_rate s.hits (s.hits + s.misses);
  memory_usage_bytes = s.current_memory_bytes;
  max_memory_bytes = s.max_memory_bytes;
  max_value_bytes = s.max_value_bytes;
  max_items = s.max_items;
}

unfoldable pub stats : Env → CacheStore → CacheStatsSnapshot × CacheStore
stats env s = let s' = remove_expired_entries env s in (snapshot s', s')

unfoldable pub clear : CacheStore → CacheStore
clear s = record s {
  store = [];
  current_memory_bytes = 0;
  hits = 0;
  misses = 0;
  evictions = 0;
  lru_evictions = 0;
  expired_removals = 0;
  rejected_oversize = 0;
  rejected_capacity = 0;
}
