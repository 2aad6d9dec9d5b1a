-- ===== src/SqliteStore/Writing.antt =====
-- `_store_value_locked` of `SqliteCacheStore`.
use tiny_cache.Base.{
  suc, ◌+◌, Text, Bytes, Bool, true, false, ℕ, Option, none, some, ℤ, length, ltb, leb,
  if◌then◌else◌,
}
use tiny_cache.Results.{CacheSetStatus}
use tiny_cache.StoreModels.{Env, CacheEntry, new_entry}
use tiny_cache.SqliteStore.State.{SqliteStore, Database, Row, insert_row, restore_row, remove_row}
use tiny_cache.SqliteStore.Eviction.{evict_while, evict_to_fit}

abbrev pub remove_old : Text → Option Row → SqliteStore → SqliteStore
remove_old key none s = s
remove_old key (some _) s = (remove_row key s).1

abbrev pub restore_old : Text → Option Row → SqliteStore → SqliteStore
restore_old key none s = s
restore_old key (some row) s = restore_row key row s

-- `if self.current_memory_bytes + entry.size_bytes > self.max_memory_bytes`
unfoldable pub free_memory : Database → ℕ → SqliteStore → Bool × SqliteStore
free_memory db size_bytes s =
    if ltb s.max_memory_bytes (s.current_memory_bytes + size_bytes)
    then evict_to_fit db size_bytes s
    else (true, s)

abbrev pub has_no_item_room : SqliteStore → Bool
has_no_item_room s = leb s.max_items s.entry_count

-- `while self.entry_count >= self.max_items`, for a new key only
unfoldable pub make_item_room : Database → Option Row → SqliteStore → Bool × SqliteStore
make_item_room db none s = evict_while db (suc (length s.rows)) has_no_item_room s
make_item_room db (some _) s = (true, s)

abbrev pub reject_capacity : SqliteStore → CacheSetStatus × SqliteStore
reject_capacity s =
    (CacheSetStatus.capacity_exhausted, record s { rejected_capacity = s.rejected_capacity + 1 })

module _ (env : Env) (db : Database) (key : Text) where
  -- what follows the loop over the number of rows
  unfoldable pub place : CacheEntry → Bool × SqliteStore → CacheSetStatus × SqliteStore
  place entry (true, s) = (CacheSetStatus.ok_status, insert_row env key entry s)
  place entry (false, s) = reject_capacity s

  -- what follows the test of the memory
  unfoldable pub admit_freed :
      CacheEntry → Option Row → Bool × SqliteStore → CacheSetStatus × SqliteStore
  admit_freed entry old_row (true, s) = place entry (make_item_room db old_row s)
  admit_freed entry old_row (false, s) = reject_capacity (restore_old key old_row s)

  unfoldable pub store_value :
      Bytes → Option ℤ → Option Row → SqliteStore → CacheSetStatus × SqliteStore
  store_value value ttl old_row s =
      let removed = remove_old key old_row s in
      let entry = new_entry env value ttl (env.clock removed.reads) in
      let s' = record removed { reads = removed.reads + 1 } in
      if ltb s'.max_value_bytes entry.size_bytes
      then (
        CacheSetStatus.value_too_large,
        (let restored = restore_old key old_row s' in
            record restored { rejected_oversize = restored.rejected_oversize + 1 }),
      )
      else admit_freed entry old_row (free_memory db entry.size_bytes s')
