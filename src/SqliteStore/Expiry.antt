-- ===== src/SqliteStore/Expiry.antt =====
-- Expired rows of `SqliteCacheStore`: the test, and the removals.
use tiny_cache.Base.{◌+◌, Text, Bool, false, none, some, [], ◌∷◌, if◌then◌else◌}
use tiny_cache.Dict.{Dict, lookup}
use tiny_cache.StoreModels.{Env, CacheEntry, has_expired}
use tiny_cache.SqliteStore.State.{SqliteStore, Row, row_to_entry, remove_expired_row}

-- `_is_expired`, which calls the clock only for an entry with a TTL
unfoldable pub is_expired : Env → CacheEntry → SqliteStore → Bool × SqliteStore
is_expired env entry s = elim entry.ttl [
  | none ↦ (false, s)
  | some _ ↦ (has_expired env (env.clock s.reads) entry, record s { reads = s.reads + 1 })
]

-- the loop of `_remove_expired_entries_locked` over the rows that it fetched
unfoldable pub remove_rows_if_expired : Env → Dict Row → SqliteStore → SqliteStore
remove_rows_if_expired env [] s = s
remove_rows_if_expired env ((key, row) ∷ rows) s =
    let (expired, s') = is_expired env (row_to_entry env row) s in
    remove_rows_if_expired env rows (if expired then (remove_expired_row key s').1 else s')

unfoldable pub remove_expired_rows : Env → SqliteStore → SqliteStore
remove_expired_rows env s = remove_rows_if_expired env s.rows s

-- `_remove_if_expired`, the cleaner's step under the lock
unfoldable pub remove_if_expired : Env → Text → SqliteStore → SqliteStore
remove_if_expired env key s = elim (lookup key s.rows) [
  | none ↦ s
  | some row ↦
      let (expired, s') = is_expired env (row_to_entry env row) s in
      if expired then (remove_expired_row key s').1 else s'
]
