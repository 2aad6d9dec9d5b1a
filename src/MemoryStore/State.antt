-- ===== src/MemoryStore/State.antt =====
-- The state of `CacheStore` in tiny_cache/infrastructure/memory_store.py, its constructor, and the
-- removal of an entry. `reads` counts the calls of the clock so far.
use tiny_cache.Base.{ℕ, ◌+◌, ◌-◌, Text, Bool, true, false, none, some, Option, ℤ, [], ◌∷◌}
use tiny_cache.Errors.{Result, ok, ◌>>=◌}
use tiny_cache.Dict.{Dict, lookup, remove}
use tiny_cache.StoreModels.{CacheEntry, CacheStoreLimits, resolve}

pub record CacheStore : Type 0 where
  pub max_items : ℕ
  pub max_memory_bytes : ℕ
  pub max_value_bytes : ℕ
  pub cleanup_interval : ℕ
  pub store : Dict CacheEntry
  pub current_memory_bytes : ℕ
  pub hits : ℕ
  pub misses : ℕ
  pub evictions : ℕ
  pub lru_evictions : ℕ
  pub expired_removals : ℕ
  pub rejected_oversize : ℕ
  pub rejected_capacity : ℕ
  pub reads : ℕ

unfoldable pub new_store : CacheStoreLimits → CacheStore
new_store limits = record {
  max_items = limits.max_items;
  max_memory_bytes = limits.max_memory_bytes;
  max_value_bytes = limits.max_value_bytes;
  cleanup_interval = limits.cleanup_interval;
  store = [];
  current_memory_bytes = 0;
  hits = 0;
  misses = 0;
  evictions = 0;
  lru_evictions = 0;
  expired_removals = 0;
  rejected_oversize = 0;
  rejected_capacity = 0;
  reads = 0;
}

-- `CacheStore(max_items, max_memory_mb, cleanup_interval, max_value_bytes)`
unfoldable pub init : Option ℤ → Option ℤ → Option ℤ → Option ℤ → Result CacheStore
init max_items max_memory_mb cleanup_interval max_value_bytes = do
  limits ← resolve max_items max_memory_mb cleanup_interval max_value_bytes
  ok (new_store limits)

-- `_remove_entry`; the counter never falls below the entry's size (`IsConsistent`).
unfoldable pub remove_entry : Text → CacheStore → CacheStore
remove_entry key s = elim (lookup key s.store) [
  | none ↦ s
  | some entry ↦ record s {
    store = remove key s.store;
    current_memory_bytes = s.current_memory_bytes - entry.size_bytes;
  }
]

unfoldable pub remove_expired_entry : Text → CacheStore → CacheStore
remove_expired_entry key s = elim (lookup key s.store) [
  | none ↦ s
  | some _ ↦
      let removed = remove_entry key s in
      record removed { expired_removals = removed.expired_removals + 1 }
]

-- `_evict_lru`: the first key of the dict is the least recently used.
unfoldable pub evict_lru : CacheStore → Bool × CacheStore
evict_lru s = elim s.store [
  | [] ↦ (false, s)
  | (lru_key, _) ∷ _ ↦
      let removed = remove_entry lru_key s in
      (
        true,
        record removed {
          evictions = removed.evictions + 1;
          lru_evictions = removed.lru_evictions + 1;
        },
      )
]
