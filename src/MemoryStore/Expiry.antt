-- ===== src/MemoryStore/Expiry.antt =====
-- Expired entries of `CacheStore`: the test, and the removal of all of them.
use tiny_cache.Base.{◌+◌, Text, Bool, false, none, some, List, [], ◌∷◌, if◌then◌else◌}
use tiny_cache.Dict.{Dict, lookup}
use tiny_cache.StoreModels.{Env, CacheEntry, has_expired}
use tiny_cache.MemoryStore.State.{CacheStore, remove_expired_entry}

-- `_is_expired`, which calls the clock only for an entry with a TTL
unfoldable pub is_expired : Env → CacheEntry → CacheStore → Bool × CacheStore
is_expired env entry s = elim entry.ttl [
  | none ↦ (false, s)
  | some _ ↦ (has_expired env (env.clock s.reads) entry, record s { reads = s.reads + 1 })
]

-- the comprehension of `_remove_expired_entries_locked`, one clock call for each TTL
unfoldable pub expired_keys : Env → Dict CacheEntry → CacheStore → List Text × CacheStore
expired_keys env [] s = ([], s)
expired_keys env ((key, entry) ∷ items) s =
    let (expired, s') = is_expired env entry s in
    let (keys, s'') = expired_keys env items s' in (if expired then key ∷ keys else keys, s'')

unfoldable pub remove_all_expired : List Text → CacheStore → CacheStore
remove_all_expired [] s = s
remove_all_expired (key ∷ keys) s = remove_all_expired keys (remove_expired_entry key s)

unfoldable pub remove_expired_entries : Env → CacheStore → CacheStore
remove_expired_entries env s =
    let (keys, s') = expired_keys env s.store s in remove_all_expired keys s'

-- `_remove_if_expired`, the cleaner's step under the lock
unfoldable pub remove_if_expired : Env → Text → CacheStore → CacheStore
remove_if_expired env key s = elim (lookup key s.store) [
  | none ↦ s
  | some entry ↦
      let (expired, s') = is_expired env entry s in
      if expired then remove_expired_entry key s' else s'
]

-- `for key in expired_keys: self._remove_if_expired(key)`
unfoldable pub remove_each_if_expired : Env → List Text → CacheStore → CacheStore
remove_each_if_expired env [] s = s
remove_each_if_expired env (key ∷ keys) s =
    remove_each_if_expired env keys (remove_if_expired env key s)

-- One round of `ExpiredEntryCleaner.run` that no other thread interrupts: the expired keys of a
-- snapshot, then their removal.
unfoldable pub clean : Env → CacheStore → CacheStore
clean env s = let (keys, s') = expired_keys env s.store s in remove_each_if_expired env keys s'
