-- ===== src/MemoryStore/Eviction.antt =====
-- The eviction loops of `CacheStore`.
use tiny_cache.Base.{ℕ, zero, suc, ◌+◌, Bool, true, false, ◌&&◌, not, length, ltb, leb}
use tiny_cache.Domain.{is_empty}
use tiny_cache.MemoryStore.State.{CacheStore, evict_lru}

-- `while test: if not self._evict_lru(): return`; the result tells whether the loop ended by its
-- test. An eviction takes one entry off, so one round more than there are entries is enough fuel.
unfoldable pub evict_while : ℕ → (CacheStore → Bool) → CacheStore → Bool × CacheStore
evict_while zero test s = (false, s)
evict_while (suc fuel) test s = elim (test s) [
  | false ↦ (true, s)
  | true ↦
      let (evicted, s') = evict_lru s in
      elim evicted [ false ↦ (false, s') | true ↦ evict_while fuel test s' ]
]

-- Too little memory is free, and there is something to evict.
abbrev pub is_over_memory : ℕ → CacheStore → Bool
is_over_memory required_bytes s =
    ltb s.max_memory_bytes (s.current_memory_bytes + required_bytes) && not (is_empty s.store)

unfoldable pub evict_to_fit : ℕ → CacheStore → Bool × CacheStore
evict_to_fit required_bytes s =
    let (ended, s') = evict_while (suc (length s.store)) (is_over_memory required_bytes) s in
    (ended && leb (s'.current_memory_bytes + required_bytes) s'.max_memory_bytes, s')
