-- ===== src/SqliteStore/Eviction.antt =====
-- Evictions of `SqliteCacheStore`.
use tiny_cache.Base.{ℕ, zero, suc, ◌+◌, Bool, true, false, ◌&&◌, none, some, length, ltb, leb}
use tiny_cache.SqliteStore.State.{SqliteStore, Database, remove_row}

-- `_evict_lru_locked`
unfoldable pub evict_lru : Database → SqliteStore → Bool × SqliteStore
evict_lru db s = elim (db.oldest s.rows) [
  | none ↦ (false, s)
  | some key ↦
      let (removed, s') = remove_row key s in
      elim removed [
        | false ↦ (false, s')
        | true ↦
            (true, record s' { evictions = s'.evictions + 1; lru_evictions = s'.lru_evictions + 1 })
      ]
]

-- `while test: if not self._evict_lru_locked(): return`; the result tells whether the loop ended by
-- its test. An eviction takes one row off, so one round more than there are rows is enough fuel.
unfoldable pub evict_while : Database → ℕ → (SqliteStore → Bool) → SqliteStore → Bool × SqliteStore
evict_while db zero test s = (false, s)
evict_while db (suc fuel) test s = elim (test s) [
  | false ↦ (true, s)
  | true ↦
      let (evicted, s') = evict_lru db s in
      elim evicted [ false ↦ (false, s') | true ↦ evict_while db fuel test s' ]
]

-- the test of the loop in `_evict_to_fit_locked`
abbrev pub is_over_memory : ℕ → SqliteStore → Bool
is_over_memory required_bytes s =
    ltb s.max_memory_bytes (s.current_memory_bytes + required_bytes) && ltb 0 s.entry_count

unfoldable pub evict_to_fit : Database → ℕ → SqliteStore → Bool × SqliteStore
evict_to_fit db required_bytes s =
    let (ended, s') = evict_while db (suc (length s.rows)) (is_over_memory required_bytes) s in
    (ended && leb (s'.current_memory_bytes + required_bytes) s'.max_memory_bytes, s')
