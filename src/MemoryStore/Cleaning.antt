-- ===== src/MemoryStore/Cleaning.antt =====
-- The cleaner's step under the lock, in whatever state other threads have left.
use tiny_cache.Base.{◌≡◌, Text, Text-discrete, ite}
use tiny_cache.Dict.{lookup}
use tiny_cache.StoreModels.{Env}
use tiny_cache.MemoryStore.State.{CacheStore}
use tiny_cache.MemoryStore.Expiry.{remove_if_expired}
use tiny_cache.MemoryStore.Checked.{view_now, lookup-checked}
use tiny_cache.MemoryStore.Preserved.{remove_if_expired-checked}

-- In any state, so also after other threads have written since the cleaner took its snapshot, the
-- cleaner's removal of a key keeps its entry if the entry is live and drops it if it has expired,
-- and touches no other entry.
pub remove_if_expired-view :
    (env : Env) (key : Text) (s : CacheStore) (j : Text)
    → lookup j (remove_if_expired env key s).store
      ≡ ite (Text-discrete key j) (view_now env s key) (lookup j s.store)
remove_if_expired-view env key s j =
    rw (remove_if_expired-checked env key s) (lookup-checked env key s j)
