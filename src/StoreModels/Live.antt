-- ===== src/StoreModels/Live.antt =====
-- What a client may read of an entry at a time.
use tiny_cache.Base.{ℕ, ◌+◌, ◌*◌, leb, arith, ◌≡◌, Bytes, ℤ, Option, none, some, if◌then◌else◌}
use tiny_cache.StoreModels.{Env, CacheEntry, new_entry, has_expired, normalize_ttl}

-- the entry, unless it has expired
abbrev pub live : Env → ℕ → Option CacheEntry → Option CacheEntry
live env now none = none
live env now (some entry) = if has_expired env now entry then none else some entry

abbrev pub value_of : Option CacheEntry → Option Bytes
value_of none = none
value_of (some entry) = some entry.value

-- An entry is read until its TTL has passed.
pub live-new_entry :
    (env : Env) (value : Bytes) (ttl : Option ℤ) (created now : ℕ)
    → value_of (live env now (some (new_entry env value ttl created))) ≡ elim (normalize_ttl ttl) [
      | none ↦ some value
      | some t ↦ if leb (created + t * env.second) now then none else some value
    ]
unfolding has_expired new_entry
live-new_entry env value ttl created now = ground arith
