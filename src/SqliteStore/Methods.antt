-- ===== src/SqliteStore/Methods.antt =====
-- The methods of `SqliteCacheStore`, each one step under the lock.
use tiny_cache.Base.{
  ℕ, ◌+◌, Text, Text-discrete, Bytes, Bool, ite, Option, none, some, ℤ, [], ◌∷◌, if◌then◌else◌,
}
use tiny_cache.Errors.{Result, ok, raise, ◌>>◌}
use tiny_cache.Dict.{Dict, lookup}
use tiny_cache.Domain.{validate_key, validate_value}
use tiny_cache.Results.{
  CacheSetStatus, CacheConditionalSetStatus, CacheStatsSnapshot, conditional_status_from_set_status,
}
use tiny_cache.StoreModels.{Env}
use tiny_cache.MemoryStore.Methods.{hit_rate}
use tiny_cache.SqliteStore.State.{
  SqliteStore, Database, Row, row_to_entry, remove_row, remove_expired_row,
}
use tiny_cache.SqliteStore.Expiry.{is_expired, remove_expired_rows}
use tiny_cache.SqliteStore.Writing.{store_value}

-- A method that validates its arguments and then works under the lock.
abbrev pub locked :
    {A : Type 0}
    → Result (Unit {0})
    → (SqliteStore → A × SqliteStore)
    → SqliteStore
    → Result A × SqliteStore
locked (ok _) body s = let (a, s') = body s in (ok a, s')
locked (raise e) body s = (raise e, s)

-- `UPDATE cache_entries SET last_accessed = ? WHERE key = ?`
unfoldable pub touch : Text → ℕ → Dict Row → Dict Row
touch key now [] = []
touch key now ((j, row) ∷ rows) =
    (j, ite (Text-discrete j key) (record row { last_accessed = now }) row) ∷ touch key now rows

abbrev pub conditionally : CacheSetStatus × SqliteStore → CacheConditionalSetStatus × SqliteStore
conditionally (status, s) = (conditional_status_from_set_status status, s)

module _ (env : Env) (db : Database) where
  unfoldable pub get_row : Text → SqliteStore → Option Bytes × SqliteStore
  get_row key s = elim (lookup key s.rows) [
    | none ↦ (none, record s { misses = s.misses + 1 })
    | some row ↦
        let (expired, s') = is_expired env (row_to_entry env row) s in
        if expired
        then (none, (remove_expired_row key (record s' { misses = s'.misses + 1 })).1)
        else (
          some (row_to_entry env row).value,
          record s' {
            rows = touch key (env.clock s'.reads) s'.rows;
            hits = s'.hits + 1;
            reads = s'.reads + 1;
          },
        )
  ]

  unfoldable pub get : Text → SqliteStore → Result (Option Bytes) × SqliteStore
  get key = locked (validate_key key) (get_row key)

  unfoldable pub set_row : Text → Bytes → Option ℤ → SqliteStore → CacheSetStatus × SqliteStore
  set_row key value ttl s = store_value env db key value ttl (lookup key s.rows) s

  unfoldable pub set : Text → Bytes → Option ℤ → SqliteStore → Result CacheSetStatus × SqliteStore
  set key value ttl = locked (validate_key key >> validate_value value) (set_row key value ttl)

  unfoldable pub add_row :
      Text → Bytes → Option ℤ → SqliteStore → CacheConditionalSetStatus × SqliteStore
  add_row key value ttl s = elim (lookup key s.rows) [
    | none ↦ conditionally (store_value env db key value ttl none s)
    | some row ↦
        let (expired, s') = is_expired env (row_to_entry env row) s in
        if expired
        then conditionally (store_value env db key value ttl none (remove_expired_row key s').1)
        else (CacheConditionalSetStatus.exists, s')
  ]

  unfoldable pub set_if_absent :
      Text → Bytes → Option ℤ → SqliteStore → Result CacheConditionalSetStatus × SqliteStore
  set_if_absent key value ttl =
      locked (validate_key key >> validate_value value) (add_row key value ttl)

  unfoldable pub exchange_row :
      Text → Bytes → Bytes → Option ℤ → SqliteStore → CacheConditionalSetStatus × SqliteStore
  exchange_row key expected_value value ttl s = elim (lookup key s.rows) [
    | none ↦ (CacheConditionalSetStatus.not_found, s)
    | some row ↦
        let (expired, s') = is_expired env (row_to_entry env row) s in
        if expired
        then (CacheConditionalSetStatus.not_found, (remove_expired_row key s').1)
        else ite (Text-discrete (row_to_entry env row).value expected_value)
            (conditionally (store_value env db key value ttl (some row) s'))
            (CacheConditionalSetStatus.mismatch, s')
  ]

  unfoldable pub compare_and_set :
      Text → Bytes → Bytes → Option ℤ → SqliteStore → Result CacheConditionalSetStatus × SqliteStore
  compare_and_set key expected_value value ttl =
      locked (validate_key key >> validate_value expected_value >> validate_value value)
        (exchange_row key expected_value value ttl)

unfoldable pub delete : Text → SqliteStore → Result Bool × SqliteStore
delete key = locked (validate_key key) (remove_row key)

unfoldable pub snapshot : SqliteStore → CacheStatsSnapshot
snapshot s = record {
  size = s.entry_count;
  hits = s.hits;
  misses = s.misses;
  evictions = s.evictions;
  lru_evictions = s.lru_evictions;
  expired_removals = s.expired_removals;
  rejected_oversize = s.rejected_oversize;
  rejected_capacity = s.rejected_capacity;
  hit_rate = hit_rate s.hits (s.hits + s.misses);
  memory_usage_bytes = s.current_memory_bytes;
  max_memory_bytes = s.max_memory_bytes;
  max_value_bytes = s.max_value_bytes;
  max_items = s.max_items;
}

unfoldable pub stats : Env → SqliteStore → CacheStatsSnapshot × SqliteStore
stats env s = let s' = remove_expired_rows env s in (snapshot s', s')

unfoldable pub clear : SqliteStore → SqliteStore
clear s = record s {
  rows = [];
  current_memory_bytes = 0;
  entry_count = 0;
  hits = 0;
  misses = 0;
  evictions = 0;
  lru_evictions = 0;
  expired_removals = 0;
  rejected_oversize = 0;
  rejected_capacity = 0;
}
