-- ===== src/Tests/Backend.antt =====
-- Tests of the in-memory backend.
use tiny_cache.Base.{
  true, false, ℕ, ◌+◌, ◌*◌, ◌≡◌, refl, Text, Text-discrete, codes, pos, none, some, List, [], ◌∷◌,
  Bytes, ite, leb, if◌then◌else◌, arith,
}
use tiny_cache.Errors.{ok}
use tiny_cache.Dict.{lookup, remove, put, move_to_end}
use tiny_cache.Domain.{validate_key, validate_value}
use tiny_cache.Results.{
  CacheSetStatus, CacheConditionalSetStatus, conditional_status_from_set_status,
}
use tiny_cache.StoreModels.{new_entry, has_expired, resolve, at_least_one}
use tiny_cache.MemoryStore.State.{
  CacheStore, init, new_store, remove_entry, remove_expired_entry, evict_lru,
}
use tiny_cache.MemoryStore.Eviction.{evict_while, evict_to_fit}
use tiny_cache.MemoryStore.Expiry.{
  is_expired, expired_keys, remove_all_expired, remove_expired_entries, remove_if_expired, clean,
}
use tiny_cache.MemoryStore.Writing.{
  restore, make_item_room, insert_entry, reject_capacity, free_memory, place, admit_freed, admit,
  store_value,
}
use tiny_cache.MemoryStore.Methods
use tiny_cache.MemoryStore.Methods.{
  get_entry, set_entry, add_entry, exchange_entry, delete_entry, snapshot,
}
use tiny_cache.MemoryStore.Room.{MakesRoom}
use tiny_cache.MemoryStore.Written.{without, written, refused}
use tiny_cache.MemoryStore.Invariant.{IsValid}
use tiny_cache.MemoryStore.Checked.{view, view_now, value_of, checked}
use tiny_cache.MemoryStore.Runs.{Op, run, step, run-init-IsValid}
use tiny_cache.MemoryStore.Contract.{get-view, set-written, set-refused, get-set}
use tiny_cache.MemoryStore.Conditional.{written_status, set_if_absent_lem, compare_and_set_lem}
use tiny_cache.MemoryStore.Reports.{Within, stats_purges}
use tiny_cache.MemoryStore.Deletion.{delete_lem}
use tiny_cache.MemoryStore.Round.{clean_lem}
use tiny_cache.MemoryStore.Cleaning.{remove_if_expired-view}
use tiny_cache.Tests.Fixtures.{
  env, env-IsMonotonic, a_key, b_key, c_key, a_key-IsKey, b_key-IsKey, c_key-IsKey, store,
  store-IsValid,
}

-- what a test computes with
unfoldable pub program : Unit {0}
unfolding Text-discrete lookup remove put move_to_end validate_key validate_value
    conditional_status_from_set_status new_entry has_expired resolve at_least_one init new_store
    remove_entry remove_expired_entry evict_lru evict_while evict_to_fit is_expired expired_keys
    remove_all_expired remove_expired_entries remove_if_expired restore make_item_room insert_entry
    reject_capacity free_memory place admit_freed admit store_value get_entry set_entry add_entry
    exchange_entry delete_entry snapshot Methods.get Methods.set Methods.set_if_absent
    Methods.compare_and_set Methods.delete Methods.stats Methods.clear run step
program = tt

-- A hit moves the key to the end, a miss on an expired entry drops it.
get_hit :
    ((Methods.get env a_key store).0 ≡ ok (some (codes "1")))
    × ((Methods.get env a_key store).1.hits ≡ 4)
unfolding program
get_hit = (refl, refl)

get_expired :
    ((Methods.get env b_key store).0 ≡ ok none)
    × ((Methods.get env b_key store).1.current_memory_bytes ≡ 34)
unfolding program
get_expired = (refl, refl)

-- A third key evicts the least recently used one.
set_evicts :
    ((Methods.set env c_key (codes "x") none store).0 ≡ ok CacheSetStatus.ok_status)
    × (lookup a_key (Methods.set env c_key (codes "x") none store).1.store ≡ none)
    × ((Methods.set env c_key (codes "x") none store).1.lru_evictions ≡ 1)
unfolding program
set_evicts = (refl, refl, refl)

stats_size : (Methods.stats env store).0.size ≡ 1
unfolding program
stats_size = refl

-- Two items and one megabyte at most.
abbrev start : CacheStore
start = record store {
  max_memory_bytes = 1048576;
  max_value_bytes = 1048576;
  store = [];
  current_memory_bytes = 0;
  hits = 0;
  misses = 0;
  reads = 0;
}

start-init : init (some (pos 2)) (some (pos 1)) none none ≡ ok start
unfolding program
start-init = refl

abbrev ops : List Op
ops =
    Op.set a_key (codes "1") none
    ∷ Op.set_if_absent b_key (codes "2") (some (pos 1))
    ∷ Op.get a_key
    ∷ Op.cleaner_reads_clock
    ∷ Op.set c_key (codes "3") none
    ∷ Op.cleaner_removes b_key
    ∷ Op.compare_and_set a_key (codes "1") (codes "4") none
    ∷ Op.stats
    ∷ Op.delete c_key
    ∷ []

run-init-IsValid_example : IsValid env (run env ops start)
run-init-IsValid_example =
    run-init-IsValid env (some (pos 2)) (some (pos 1)) none none ops start-init

get-view_example :
    ((Methods.get env b_key store).0 ≡ ok (value_of (view_now env store b_key)))
    × ((Methods.get env b_key store).1.hits
        ≡ elim (view_now env store b_key) [ none ↦ 3 | some _ ↦ 3 + 1 ])
    × ((Methods.get env b_key store).1.misses
        ≡ elim (view_now env store b_key) [ none ↦ 1 + 1 | some _ ↦ 1 ])
    × ((j : Text)
        → lookup j (Methods.get env b_key store).1.store
          ≡ ite (Text-discrete b_key j) (view_now env store b_key) (lookup j store.store))
get-view_example = get-view env b_key store b_key-IsKey

set-written_example :
    (n : ℕ) × (Methods.set env c_key (codes "x") none store
      ≡ (ok CacheSetStatus.ok_status, written env c_key (codes "x") none n store))
    × MakesRoom (without c_key store) 34 n
set-written_example =
    set-written env c_key (codes "x") none store c_key-IsKey store-IsValid (omega arith)

abbrev long : Bytes
long = codes "12345678"

set-refused_example :
    (Methods.set env a_key long none store
      ≡ (ok CacheSetStatus.value_too_large, refused a_key store))
    × ((j : Text) → lookup j (refused a_key store).store ≡ lookup j store.store)
set-refused_example = set-refused env a_key long none store a_key-IsKey store-IsValid (omega arith)

-- read back at once, with a TTL of one second
get-set_example :
    (Methods.get env c_key (Methods.set env c_key (codes "x") (some (pos 1)) store).1).0
    ≡ ok (
        if leb
          (20 + 1 * 10)
          (env.clock (Methods.set env c_key (codes "x") (some (pos 1)) store).1.reads)
        then none
        else some (codes "x"))
get-set_example =
    get-set env c_key (codes "x") (some (pos 1)) store c_key-IsKey store-IsValid (omega arith)
      (Methods.set env c_key (codes "x") (some (pos 1)) store).1 refl

set_if_absent_lem_example :
    ((Methods.set_if_absent env b_key (codes "x") none store).0
      ≡ ok (elim (view_now env store b_key) [
        | none ↦ written_status env (codes "x") store
        | some _ ↦ CacheConditionalSetStatus.exists
      ]))
    × ((Methods.set_if_absent env b_key (codes "x") none store).1
        ≡ elim (view_now env store b_key) [
          | none ↦ (Methods.set env b_key (codes "x") none (checked env b_key store)).1
          | some _ ↦ checked env b_key store
        ])
    × ((j : Text)
        → lookup j (checked env b_key store).store
          ≡ ite (Text-discrete b_key j) (view_now env store b_key) (lookup j store.store))
set_if_absent_lem_example =
    set_if_absent_lem env b_key (codes "x") none store b_key-IsKey store-IsValid

compare_and_set_lem_example :
    ((Methods.compare_and_set env a_key (codes "1") (codes "x") none store).0
      ≡ ok (elim (view_now env store a_key) [
        | none ↦ CacheConditionalSetStatus.not_found
        | some entry ↦
            ite
              (Text-discrete entry.value (codes "1"))
              (written_status env (codes "x") store)
              CacheConditionalSetStatus.mismatch
      ]))
    × ((Methods.compare_and_set env a_key (codes "1") (codes "x") none store).1
        ≡ elim (view_now env store a_key) [
          | none ↦ checked env a_key store
          | some entry ↦
              ite
                (Text-discrete entry.value (codes "1"))
                (Methods.set env a_key (codes "x") none (checked env a_key store)).1
                (checked env a_key store)
        ])
    × ((j : Text)
        → lookup j (checked env a_key store).store
          ≡ ite (Text-discrete a_key j) (view_now env store a_key) (lookup j store.store))
compare_and_set_lem_example =
    compare_and_set_lem env a_key (codes "x") none store a_key-IsKey store-IsValid (codes "1")

stats_purges_example :
    ((j : Text) → Within (lookup j (Methods.stats env store).1.store) (view_now env store j))
    × ((j : Text)
        → Within
            (view env (env.clock (Methods.stats env store).1.reads) store.store j)
            (lookup j (Methods.stats env store).1.store))
    × ((Methods.stats env store).0.size + (Methods.stats env store).0.expired_removals ≡ 2 + 0)
stats_purges_example = stats_purges env env-IsMonotonic store store-IsValid.0.distinct

remove_if_expired-view_example :
    lookup b_key (remove_if_expired env b_key store).store
    ≡ ite (Text-discrete b_key b_key) (view_now env store b_key) (lookup b_key store.store)
remove_if_expired-view_example = remove_if_expired-view env b_key store b_key

delete_lem_example :
    ((Methods.delete b_key store).0
      ≡ ok (elim (lookup b_key store.store) [ none ↦ false | some _ ↦ true ]))
    × ((j : Text)
        → lookup j (Methods.delete b_key store).1.store
          ≡ ite (Text-discrete b_key j) none (lookup j store.store))
    × ((Methods.delete b_key store).1.hits ≡ 3)
    × ((Methods.delete b_key store).1.misses ≡ 1)
    × ((Methods.delete b_key store).1.expired_removals ≡ 0)
delete_lem_example = delete_lem b_key store b_key-IsKey

clean_lem_example :
    ((j : Text) → Within (lookup j (clean env store).store) (view_now env store j))
    × ((j : Text)
        → Within
            (view env (env.clock (clean env store).reads) store.store j)
            (lookup j (clean env store).store))
clean_lem_example = clean_lem env env-IsMonotonic store store-IsValid.0.distinct
