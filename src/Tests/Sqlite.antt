-- ===== src/Tests/Sqlite.antt =====
-- Tests of the SQLite backend.
use tiny_cache.Base.{
  ℕ, ◌≤◌, ◌≡◌, ◌≢◌, refl, ap, Text, Text-discrete, Bytes, codes, pos, none, some, List, [], ◌∷◌,
  true, ite, leb, length, if◌then◌else◌, arith,
}
use tiny_cache.Errors.{ok}
use tiny_cache.Dict.{Dict, lookup, remove, Distinct}
use tiny_cache.Domain.{validate_key, validate_value}
use tiny_cache.Results.{CacheSetStatus, conditional_status_from_set_status}
use tiny_cache.StoreModels.{Env, new_entry, has_expired, resolve, at_least_one}
use tiny_cache.StoreModels.Live.{value_of}
use tiny_cache.SqliteStore.State.{
  SqliteStore, Row, init_sqlite, open_store, row_to_entry, insert_row, insert_or_replace,
  restore_row, remove_row, remove_expired_row,
}
use tiny_cache.SqliteStore.Eviction.{evict_lru, evict_while, evict_to_fit}
use tiny_cache.SqliteStore.Expiry.{
  is_expired, remove_rows_if_expired, remove_expired_rows, remove_if_expired,
}
use tiny_cache.SqliteStore.Writing.{
  has_no_item_room, free_memory, make_item_room, place, admit_freed, store_value,
}
use tiny_cache.SqliteStore.Methods
use tiny_cache.SqliteStore.Methods.{get_row, set_row, add_row, exchange_row, touch, snapshot}
use tiny_cache.SqliteStore.Evicted.{Evicting, evict_while-Evicting}
use tiny_cache.SqliteStore.Checked.{entry_of, live_row}
use tiny_cache.SqliteStore.Contract.{IsSound, Evicted, set-inserted, set-oldest, set-restored}
use tiny_cache.SqliteStore.Reads.{get-live, get-set_elsewhere}
use tiny_cache.SqliteStore.Preserved.{IsBounded}
use tiny_cache.SqliteStore.Runs.{Op, step, run, run-init-IsBounded}
use tiny_cache.SqliteStore.Port.{sqlite_port}
use tiny_cache.Backends.{IsBackend}
use tiny_cache.Backends.Sqlite.{sqlite_view, sqlite-IsBackend}
use tiny_cache.Tests.Fixtures.{env, a_key, b_key, c_key, a_key-IsKey, b_key-IsKey, c_key-IsKey}
use tiny_cache.Tests.Database.{db, db-IsOrdered}

sqlite : Unit {0}
unfolding Text-discrete lookup remove validate_key validate_value conditional_status_from_set_status
    new_entry has_expired resolve at_least_one init_sqlite open_store row_to_entry insert_row
    insert_or_replace restore_row remove_row remove_expired_row evict_lru evict_while evict_to_fit
    is_expired remove_rows_if_expired remove_expired_rows remove_if_expired free_memory
    make_item_room place admit_freed store_value get_row set_row add_row exchange_row touch snapshot
    Methods.get Methods.set Methods.set_if_absent Methods.compare_and_set Methods.delete
    Methods.stats Methods.clear run step
sqlite = tt

abbrev a_row : Row
a_row = record { value = codes "1"; ttl = none; created_at = 0; last_accessed = 5; size_bytes = 34 }

abbrev b_row : Row
b_row = record {
  value = codes "22";
  ttl = some 1;
  created_at = 1;
  last_accessed = 3;
  size_bytes = 35;
}

abbrev rows : Dict Row
rows = (a_key, a_row) ∷ (b_key, b_row) ∷ []

rows-Distinct : Distinct rows
unfolding lookup Text-discrete
rows-Distinct = (refl, (refl, tt))

-- The table was filled by an earlier process; at the next reading of the clock "b" has expired.
abbrev store : SqliteStore
store = record {
  max_items = 2;
  max_memory_bytes = 100;
  max_value_bytes = 40;
  cleanup_interval = 10;
  rows = rows;
  current_memory_bytes = 69;
  entry_count = 2;
  hits = 0;
  misses = 0;
  evictions = 0;
  lru_evictions = 0;
  expired_removals = 0;
  rejected_oversize = 0;
  rejected_capacity = 0;
  reads = 20;
}

store-IsSound : IsSound store
store-IsSound = record {
  consistent = record { distinct = rows-Distinct; counted = refl; entries = refl };
  items = omega arith;
  value-le-memory = omega arith;
}

-- The row that was accessed earliest makes room.
set_evicts :
    ((Methods.set env db c_key (codes "x") none store).0 ≡ ok CacheSetStatus.ok_status)
    × (lookup b_key (Methods.set env db c_key (codes "x") none store).1.rows ≡ none)
    × (lookup a_key (Methods.set env db c_key (codes "x") none store).1.rows ≡ some a_row)
    × ((Methods.set env db c_key (codes "x") none store).1.lru_evictions ≡ 1)
unfolding sqlite
set_evicts = (refl, refl, refl, refl)

get_expired :
    ((Methods.get env db b_key store).0 ≡ ok none)
    × ((Methods.get env db b_key store).1.current_memory_bytes ≡ 34)
unfolding sqlite
get_expired = (refl, refl)

get-live_example :
    ((Methods.get env db a_key store).0 ≡ ok (value_of (live_row env store a_key)))
    × ((Methods.get env db a_key store).1.hits
        ≡ elim (live_row env store a_key) [ none ↦ 0 | some _ ↦ 1 ])
    × ((Methods.get env db a_key store).1.misses
        ≡ elim (live_row env store a_key) [ none ↦ 1 | some _ ↦ 0 ])
    × ((j : Text)
        → entry_of env (lookup j (Methods.get env db a_key store).1.rows)
          ≡ ite
              (Text-discrete a_key j)
              (live_row env store a_key)
              (entry_of env (lookup j store.rows)))
get-live_example = get-live env db a_key store a_key-IsKey

set-inserted_example :
    (u : SqliteStore) × (Methods.set env db c_key (codes "x") none store
      ≡ (ok CacheSetStatus.ok_status, insert_row env c_key (new_entry env (codes "x") none 20) u))
    × Evicted env db db-IsOrdered c_key (codes "x") none store store-IsSound u
set-inserted_example =
    set-inserted env db db-IsOrdered c_key (codes "x") none store c_key-IsKey store-IsSound
      (omega arith)

abbrev first_code : Text → ℕ
first_code [] = 0
first_code (c ∷ text) = c

c_key-not_b : c_key ≢ b_key
c_key-not_b h = absurd (omega (arith, ap first_code h))

c_key-not_a : c_key ≢ a_key
c_key-not_a h = absurd (omega (arith, ap first_code h))

b_found : lookup b_key rows ≡ some b_row
unfolding sqlite
b_found = refl

b_gone : lookup b_key (Methods.set env db c_key (codes "x") none store).1.rows ≡ none
unfolding sqlite
b_gone = refl

a_kept : lookup a_key (Methods.set env db c_key (codes "x") none store).1.rows ≡ some a_row
unfolding sqlite
a_kept = refl

set-oldest_example : 3 ≤ 5
set-oldest_example =
    set-oldest env db db-IsOrdered c_key (codes "x") none store c_key-IsKey store-IsSound b_key
      a_key b_row a_row (omega arith) c_key-not_b c_key-not_a b_found b_gone a_kept

abbrev large : Bytes
large = codes "0123456789"

set-restored_example :
    ((Methods.set env db b_key large none store).0 ≡ ok CacheSetStatus.value_too_large)
    × ((j : Text)
        → lookup j (Methods.set env db b_key large none store).1.rows ≡ lookup j store.rows)
    × ((Methods.set env db b_key large none store).1.current_memory_bytes ≡ 69)
    × ((Methods.set env db b_key large none store).1.entry_count ≡ 2)
    × ((Methods.set env db b_key large none store).1.rejected_oversize ≡ 1)
set-restored_example =
    set-restored env db db-IsOrdered b_key large none store b_key-IsKey store-IsSound (omega arith)

-- The entry is read by a process whose clock has started again and ticks more slowly.
abbrev restarted : Env
restarted = record { clock = λ n. n; second = 1; getsizeof = env.getsizeof }

abbrev reopened : SqliteStore
reopened = record store {
  rows = (Methods.set env db c_key (codes "x") (some (pos 3)) store).1.rows;
  reads = 0;
}

get-set_elsewhere_example :
    (Methods.get restarted db c_key reopened).0 ≡ ok (if leb 23 0 then none else some (codes "x"))
get-set_elsewhere_example =
    get-set_elsewhere env db db-IsOrdered c_key (codes "x") (some (pos 3)) store c_key-IsKey
      store-IsSound restarted db reopened (omega arith) refl

-- One item and one megabyte at most, on a table that already holds two rows.
abbrev opened : SqliteStore
opened = record store {
  max_items = 1;
  max_memory_bytes = 1048576;
  max_value_bytes = 1048576;
  reads = 0;
}

opened-init : init_sqlite (some (pos 1)) (some (pos 1)) none none rows ≡ ok opened
unfolding sqlite
opened-init = refl

abbrev ops : List Op
ops =
    Op.set c_key (codes "3") none
    ∷ Op.get a_key
    ∷ Op.cleaner_reads_clock
    ∷ Op.set_if_absent b_key (codes "2") (some (pos 1))
    ∷ Op.cleaner_removes b_key
    ∷ Op.compare_and_set a_key (codes "1") (codes "4") none
    ∷ Op.stats
    ∷ Op.delete c_key
    ∷ []

run-init-IsBounded_example : IsBounded 1048576 2 (run env db ops opened)
run-init-IsBounded_example =
    run-init-IsBounded env db db-IsOrdered (some (pos 1)) (some (pos 1)) none none rows ops
      opened-init rows-Distinct (omega arith) (omega arith) (omega arith) (omega arith)

sqlite-IsBackend_example : IsBackend env (sqlite_port env db) (sqlite_view env)
sqlite-IsBackend_example = sqlite-IsBackend env db db-IsOrdered

evict_while-Evicting_example :
    (n : ℕ) × (u : SqliteStore) × (evict_while db 3 has_no_item_room store ≡ (true, u))
    × Evicting db has_no_item_room n store u
evict_while-Evicting_example =
    evict_while-Evicting db db-IsOrdered 3 has_no_item_room store store-IsSound.consistent
      (λ u c same p. ground (arith, c.entries, ap length p)) (omega arith)
