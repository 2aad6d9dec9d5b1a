-- ===== src/SqliteStore/State.antt =====
-- The state of `SqliteCacheStore`: the rows of `cache_entries` by their key, and the counters that
-- the process keeps beside them. Each statement is a function of the rows, and succeeds.
use tiny_cache.Base.{
  ℕ, ◌+◌, ◌-◌, ◌≤◌, ◌≡◌, Text, Bytes, ℤ, pos, Bool, true, false, Option, none, some, [], ◌∷◌, ◌++◌,
  length,
}
use tiny_cache.Errors.{Result, ok, ◌>>=◌}
use tiny_cache.Dict.{Dict, lookup, remove, Distinct}
use tiny_cache.StoreModels.{Env, CacheEntry, CacheStoreLimits, new_entry, resolve}

-- a row of the table, beside its key
pub record Row : Type 0 where
  pub value : Bytes
  pub ttl : Option ℕ
  pub created_at : ℕ
  pub last_accessed : ℕ
  pub size_bytes : ℕ

-- What SQL leaves open: which of the rows that were accessed earliest
-- `SELECT key … ORDER BY last_accessed ASC LIMIT 1` returns.
pub record Database : Type 0 where
  pub oldest : Dict Row → Option Text

-- Every row was accessed at the given time or later.
abbrev pub AccessedSince : ℕ → Dict Row → Type 0
AccessedSince time [] = Unit
AccessedSince time ((_, row) ∷ rows) = (time ≤ row.last_accessed) × AccessedSince time rows

-- What SQL promises of that statement, on a table whose primary key is `key`.
pub record IsOrdered (db : Database) : Type 0 where
  pub empty : db.oldest [] ≡ none
  pub first :
      (x : Text × Row) (rows : Dict Row)
      → Distinct (x ∷ rows)
      → (key : Text) × (row : Row) × (db.oldest (x ∷ rows) ≡ some key)
        × (lookup key (x ∷ rows) ≡ some row)
        × AccessedSince row.last_accessed (x ∷ rows)

pub record SqliteStore : Type 0 where
  pub max_items : ℕ
  pub max_memory_bytes : ℕ
  pub max_value_bytes : ℕ
  pub cleanup_interval : ℕ
  pub rows : Dict Row
  pub current_memory_bytes : ℕ
  pub entry_count : ℕ
  pub hits : ℕ
  pub misses : ℕ
  pub evictions : ℕ
  pub lru_evictions : ℕ
  pub expired_removals : ℕ
  pub rejected_oversize : ℕ
  pub rejected_capacity : ℕ
  pub reads : ℕ

-- `SELECT COALESCE(SUM(size_bytes), 0)`
abbrev pub sum_sizes : Dict Row → ℕ
sum_sizes [] = 0
sum_sizes ((_, row) ∷ rows) = row.size_bytes + sum_sizes rows

-- a store on a table that may already hold rows
unfoldable pub open_store : CacheStoreLimits → Dict Row → SqliteStore
open_store limits rows = record {
  max_items = limits.max_items;
  max_memory_bytes = limits.max_memory_bytes;
  max_value_bytes = limits.max_value_bytes;
  cleanup_interval = limits.cleanup_interval;
  rows = rows;
  current_memory_bytes = sum_sizes rows;
  entry_count = length rows;
  hits = 0;
  misses = 0;
  evictions = 0;
  lru_evictions = 0;
  expired_removals = 0;
  rejected_oversize = 0;
  rejected_capacity = 0;
  reads = 0;
}

unfoldable pub init_sqlite :
    Option ℤ → Option ℤ → Option ℤ → Option ℤ → Dict Row → Result SqliteStore
init_sqlite max_items max_memory_mb cleanup_interval max_value_bytes rows = do
  limits ← resolve max_items max_memory_mb cleanup_interval max_value_bytes
  ok (open_store limits rows)

-- the column `ttl`, as `CacheEntry` takes it
abbrev pub ttl_column : Option ℕ → Option ℤ
ttl_column none = none
ttl_column (some n) = some (pos n)

unfoldable pub row_to_entry : Env → Row → CacheEntry
row_to_entry env row = new_entry env row.value (ttl_column row.ttl) row.created_at

-- `INSERT OR REPLACE`
unfoldable pub insert_or_replace : Text → Row → Dict Row → Dict Row
insert_or_replace key row rows = remove key rows ++ (key, row) ∷ []

-- `_insert_row_locked`, which reads the clock for `last_accessed`
unfoldable pub insert_row : Env → Text → CacheEntry → SqliteStore → SqliteStore
insert_row env key entry s =
    let row : Row = record {
      value = entry.value;
      ttl = entry.ttl;
      created_at = entry.created_at;
      last_accessed = env.clock s.reads;
      size_bytes = entry.size_bytes;
    } in
    record s {
      rows = insert_or_replace key row s.rows;
      current_memory_bytes = s.current_memory_bytes + entry.size_bytes;
      entry_count = s.entry_count + 1;
      reads = s.reads + 1;
    }

-- `_restore_row_locked`
unfoldable pub restore_row : Text → Row → SqliteStore → SqliteStore
restore_row key row s = record s {
  rows = insert_or_replace key row s.rows;
  current_memory_bytes = s.current_memory_bytes + row.size_bytes;
  entry_count = s.entry_count + 1;
}

-- `_remove_entry_locked`; the counters never fall below what the row counts for (`IsConsistent`).
unfoldable pub remove_row : Text → SqliteStore → Bool × SqliteStore
remove_row key s = elim (lookup key s.rows) [
  | none ↦ (false, s)
  | some row ↦ (
    true,
    record s {
      rows = remove key s.rows;
      current_memory_bytes = s.current_memory_bytes - row.size_bytes;
      entry_count = s.entry_count - 1;
    },
  )
]

-- `_remove_expired_entry_locked`
unfoldable pub remove_expired_row : Text → SqliteStore → Bool × SqliteStore
remove_expired_row key s =
    let (removed, s') = remove_row key s in
    elim removed [
      | false ↦ (false, s')
      | true ↦ (true, record s' { expired_removals = s'.expired_removals + 1 })
    ]
