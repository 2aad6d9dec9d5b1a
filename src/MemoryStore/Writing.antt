-- ===== src/MemoryStore/Writing.antt =====
-- `_store_value_locked` of `CacheStore`.
use tiny_cache.Base.{
  suc, ◌+◌, ◌-◌, Text, Bytes, Bool, true, false, ℕ, Option, none, some, ℤ, length, ltb, leb,
  if◌then◌else◌,
}
use tiny_cache.Dict.{put, move_to_end}
use tiny_cache.Results.{CacheSetStatus}
use tiny_cache.StoreModels.{Env, CacheEntry, new_entry}
use tiny_cache.MemoryStore.State.{CacheStore}
use tiny_cache.MemoryStore.Eviction.{evict_while, evict_to_fit}

-- the entry popped by the caller goes back, to the end of the dict
unfoldable pub restore : Text → Option CacheEntry → CacheStore → CacheStore
restore key none s = s
restore key (some old_entry) s = record s {
  store = put key old_entry s.store;
  current_memory_bytes = s.current_memory_bytes + old_entry.size_bytes;
}

abbrev pub has_no_item_room : CacheStore → Bool
has_no_item_room s = leb s.max_items (length s.store)

-- `while len(self.store) >= self.max_items`, for a new key only
unfoldable pub make_item_room : Option CacheEntry → CacheStore → Bool × CacheStore
make_item_room none s = evict_while (suc (length s.store)) has_no_item_room s
make_item_room (some _) s = (true, s)

-- the last four lines of `_store_value_locked`
unfoldable pub insert_entry : Text → CacheEntry → CacheStore → CacheStore
insert_entry key entry s = record s {
  store = move_to_end key (put key entry s.store);
  current_memory_bytes = s.current_memory_bytes + entry.size_bytes;
}

-- the two ways in which a write is refused once the entry is known to be small enough
unfoldable pub reject_capacity : CacheStore → CacheSetStatus × CacheStore
reject_capacity s =
    (CacheSetStatus.capacity_exhausted, record s { rejected_capacity = s.rejected_capacity + 1 })

-- `if self.current_memory_bytes + entry.size_bytes > self.max_memory_bytes`
unfoldable pub free_memory : ℕ → CacheStore → Bool × CacheStore
free_memory size_bytes s =
    if ltb s.max_memory_bytes (s.current_memory_bytes + size_bytes)
    then evict_to_fit size_bytes s
    else (true, s)

-- what follows the loop over the number of items
unfoldable pub place : Text → CacheEntry → Bool × CacheStore → CacheSetStatus × CacheStore
place key entry (true, s) = (CacheSetStatus.ok_status, insert_entry key entry s)
place key entry (false, s) = reject_capacity s

-- what follows the test of the memory
unfoldable pub admit_freed :
    Text → CacheEntry → Option CacheEntry → Bool × CacheStore → CacheSetStatus × CacheStore
admit_freed key entry old_entry (true, s) = place key entry (make_item_room old_entry s)
admit_freed key entry old_entry (false, s) = reject_capacity (restore key old_entry s)

unfoldable pub admit :
    Text → CacheEntry → Option CacheEntry → CacheStore → CacheSetStatus × CacheStore
admit key entry old_entry s = admit_freed key entry old_entry (free_memory entry.size_bytes s)

abbrev pub forget_old : Option CacheEntry → CacheStore → CacheStore
forget_old none s = s
forget_old (some old_entry) s = record s {
  current_memory_bytes = s.current_memory_bytes - old_entry.size_bytes;
}

-- `_store_value_locked`
unfoldable pub store_value :
    Env → Text → Bytes → Option ℤ → Option CacheEntry → CacheStore → CacheSetStatus × CacheStore
store_value env key value ttl old_entry s =
    let entry = new_entry env value ttl (env.clock s.reads) in
    let s' = record (forget_old old_entry s) { reads = s.reads + 1 } in
    if ltb s'.max_value_bytes entry.size_bytes
    then (
      CacheSetStatus.value_too_large,
      (let restored = restore key old_entry s' in
          record restored { rejected_oversize = restored.rejected_oversize + 1 }),
    )
    else admit key entry old_entry s'
