-- ===== src/MemoryStore/Runs.antt =====
-- Runs of the in-memory backend: any sequence of calls, and of the cleaner's steps between them.
use tiny_cache.Base.{◌+◌, ◌≡◌, refl, subst, Text, Bytes, ℤ, Option, List, [], ◌∷◌}
use tiny_cache.Errors.{ok, chain_returned}
use tiny_cache.StoreModels.{Env, resolve, resolve-AreUsable}
use tiny_cache.MemoryStore.State.{CacheStore, init, new_store}
use tiny_cache.MemoryStore.Expiry.{remove_if_expired}
use tiny_cache.MemoryStore.Methods
use tiny_cache.MemoryStore.Methods.{
  locked, get_entry, set_entry, add_entry, exchange_entry, delete_entry, conditionally,
}
use tiny_cache.MemoryStore.Invariant.{IsValid}
use tiny_cache.MemoryStore.Preserved.{
  locked-IsValid, set_entry-IsValid, get-IsValid, add-IsValid, exchange-IsValid, delete-IsValid,
  stats-IsValid, remove_if_expired-checked, empty-Holds, clear-IsValid,
}
use tiny_cache.MemoryStore.Checked.{checked-IsValid}

-- The calls of a client, and the steps that the cleaner takes at any time: to read the clock for
-- an entry of its snapshot, and to remove a key under the lock.
pub data Op : Type 0 where
  get : Text → Op
  set : Text → Bytes → Option ℤ → Op
  set_if_absent : Text → Bytes → Option ℤ → Op
  compare_and_set : Text → Bytes → Bytes → Option ℤ → Op
  delete : Text → Op
  stats : Op
  clear : Op
  cleaner_reads_clock : Op
  cleaner_removes : Text → Op

unfoldable pub step : Env → Op → CacheStore → CacheStore
step env (Op.get key) s = (Methods.get env key s).1
step env (Op.set key value ttl) s = (Methods.set env key value ttl s).1
step env (Op.set_if_absent key value ttl) s = (Methods.set_if_absent env key value ttl s).1
step env (Op.compare_and_set key expected value ttl) s =
    (Methods.compare_and_set env key expected value ttl s).1
step env (Op.delete key) s = (Methods.delete key s).1
step env Op.stats s = (Methods.stats env s).1
step env Op.clear s = Methods.clear s
step env Op.cleaner_reads_clock s = record s { reads = s.reads + 1 }
step env (Op.cleaner_removes key) s = remove_if_expired env key s

unfoldable pub run : Env → List Op → CacheStore → CacheStore
run env [] s = s
run env (op ∷ ops) s = run env ops (step env op s)

module _ (env : Env) where
  pub step-IsValid : (op : Op) (s : CacheStore) → IsValid env s → IsValid env (step env op s)
  unfolding step Methods.get Methods.set Methods.set_if_absent Methods.compare_and_set
      Methods.delete
  step-IsValid (Op.get key) s v =
      locked-IsValid env _ (get_entry env key) s v (get-IsValid env key s v)
  step-IsValid (Op.set key value ttl) s v =
      locked-IsValid env _ (set_entry env key value ttl) s v
        (set_entry-IsValid env key value ttl s v)
  step-IsValid (Op.set_if_absent key value ttl) s v =
      locked-IsValid env _ (add_entry env key value ttl) s v (add-IsValid env key value ttl s v)
  step-IsValid (Op.compare_and_set key expected value ttl) s v =
      locked-IsValid env _ (exchange_entry env key expected value ttl) s v
        (exchange-IsValid env key expected value ttl s v)
  step-IsValid (Op.delete key) s v =
      locked-IsValid env _ (delete_entry key) s v (delete-IsValid env key s v)
  step-IsValid Op.stats s v = stats-IsValid env s v
  step-IsValid Op.clear s v = clear-IsValid env s v
  step-IsValid Op.cleaner_reads_clock s v = v
  step-IsValid (Op.cleaner_removes key) s v =
      rw (remove_if_expired-checked env key s) (checked-IsValid env key s v)

  run-IsValid : (ops : List Op) (s : CacheStore) → IsValid env s → IsValid env (run env ops s)
  unfolding run
  run-IsValid [] s v = v
  run-IsValid (op ∷ ops) s v = run-IsValid ops (step env op s) (step-IsValid op s v)

  init-IsValid :
      (max_items max_memory_mb cleanup_interval max_value_bytes : Option ℤ) {s : CacheStore}
      → init max_items max_memory_mb cleanup_interval max_value_bytes ≡ ok s
      → IsValid env s
  unfolding init
  init-IsValid a b c d {s} h =
      let (limits, resolved, e) = chain_returned (resolve a b c d) _ h in
      let usable = resolve-AreUsable a b c d resolved in
      let same : new_store limits ≡ s = cc in
      subst (IsValid env) same (
        unfold new_store in
        (
          empty-Holds env limits.max_items limits.max_memory_bytes limits.max_value_bytes,
          record {
            items = usable.items;
            value-le-memory = usable.value-le-memory;
            agreed = refl;
            never_full = refl;
          },
        ))

  -- A store that its constructor accepts is valid after any sequence of calls and of cleaner steps:
  -- its keys are distinct, its byte counter is the sum of the sizes of its entries, both limits
  -- hold, every entry is measured by `sys.getsizeof` and no larger than `max_value_bytes`, the two
  -- eviction counters agree, and no write has been rejected for want of capacity.
  pub run-init-IsValid :
      (max_items max_memory_mb cleanup_interval max_value_bytes : Option ℤ) {s : CacheStore}
      (ops : List Op)
      → init max_items max_memory_mb cleanup_interval max_value_bytes ≡ ok s
      → IsValid env (run env ops s)
  run-init-IsValid a b c d {s} ops h = run-IsValid ops s (init-IsValid a b c d h)
