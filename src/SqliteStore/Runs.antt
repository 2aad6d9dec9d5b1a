-- ===== src/SqliteStore/Runs.antt =====
-- Runs of the SQLite backend: any sequence of calls, and of the cleaner's steps between them.
use tiny_cache.Base.{
  ℕ, ◌+◌, ◌≤◌, ◌≡◌, refl, sym, subst, Text, Bytes, ℤ, Bool-cases, Option, inl, inr, if◌then◌else◌,
  List, [], ◌∷◌, length, arith,
}
use tiny_cache.Errors.{Result, ok, raise, chain_returned}
use tiny_cache.Dict.{Dict, Distinct}
use tiny_cache.StoreModels.{Env, CacheStoreLimits, resolve, resolve-AreUsable}
use tiny_cache.SqliteStore.State.{
  SqliteStore, Row, Database, IsOrdered, row_to_entry, sum_sizes, init_sqlite, open_store,
  remove_row, remove_expired_row,
}
use tiny_cache.SqliteStore.Expiry.{
  is_expired, remove_if_expired, remove_rows_if_expired, remove_expired_rows,
}
use tiny_cache.SqliteStore.Methods
use tiny_cache.SqliteStore.Methods.{locked, get_row, set_row, add_row, exchange_row}
use tiny_cache.SqliteStore.Checked.{is_expired-IsConsistent, remove_expired_row-IsConsistent}
use tiny_cache.SqliteStore.Contract.{IsSound}
use tiny_cache.SqliteStore.Preserved.{
  IsBounded, IsSound-IsBounded, Shrinks-IsBounded, get_row-IsBounded, set_row-IsBounded,
  add_row-IsBounded, exchange_row-IsBounded, remove_row-IsBounded, checked-IsBounded,
}

-- The calls of a client, and the steps that the cleaner takes at any time: to read the clock for
-- a row of its snapshot, and to remove a key under the lock.
pub data Op : Type 0 where
  get : Text → Op
  set : Text → Bytes → Option ℤ → Op
  set_if_absent : Text → Bytes → Option ℤ → Op
  compare_and_set : Text → Bytes → Bytes → Option ℤ → Op
  delete : Text → Op
  stats : Op
  clear : Op
  cleaner_reads_clock : Op
  cleaner_removes : Text → Op

module _ (env : Env) (db : Database) where
  unfoldable pub step : Op → SqliteStore → SqliteStore
  step (Op.get key) s = (Methods.get env db key s).1
  step (Op.set key value ttl) s = (Methods.set env db key value ttl s).1
  step (Op.set_if_absent key value ttl) s = (Methods.set_if_absent env db key value ttl s).1
  step (Op.compare_and_set key expected value ttl) s =
      (Methods.compare_and_set env db key expected value ttl s).1
  step (Op.delete key) s = (Methods.delete key s).1
  step Op.stats s = (Methods.stats env s).1
  step Op.clear s = Methods.clear s
  step Op.cleaner_reads_clock s = record s { reads = s.reads + 1 }
  step (Op.cleaner_removes key) s = remove_if_expired env key s

  unfoldable pub run : List Op → SqliteStore → SqliteStore
  run [] s = s
  run (op ∷ ops) s = run ops (step op s)

locked-IsBounded :
    {A : Type 0} {m n : ℕ} (checks : Result (Unit {0})) (body : SqliteStore → A × SqliteStore)
    (s : SqliteStore)
    → IsBounded m n s
    → IsBounded m n (body s).1
    → IsBounded m n (locked checks body s).1
locked-IsBounded (ok _) body s b after = after
locked-IsBounded (raise e) body s b after = b

module _ (env : Env) {m n : ℕ} where
  expired-IsBounded :
      (key : Text) (row : Row) (s : SqliteStore)
      → IsBounded m n s
      → IsBounded m n (
          let (expired, s') = is_expired env (row_to_entry env row) s in
          if expired then (remove_expired_row key s').1 else s')
  unfolding is_expired remove_expired_row remove_row
  expired-IsBounded key row s b =
      let entry = row_to_entry env row in
      let c = is_expired-IsConsistent env s entry b.sound.consistent in
      let s' = (is_expired env entry s).1 in
      elim (Bool-cases (is_expired env entry s).0) [
        | inl p ↦ rw p (
            Shrinks-IsBounded
              (record {
                items = ground arith;
                memory = ground arith;
                value = ground arith;
                less = ground arith;
                fewer = ground arith;
              })
              (remove_expired_row-IsConsistent key s' c) b)
        | inr p ↦ rw p (
            Shrinks-IsBounded
              (record {
                items = ground arith;
                memory = ground arith;
                value = ground arith;
                less = ground arith;
                fewer = ground arith;
              })
              c b)
      ]

  purge-IsBounded :
      (rows : Dict Row) (s : SqliteStore)
      → IsBounded m n s
      → IsBounded m n (remove_rows_if_expired env rows s)
  unfolding remove_rows_if_expired
  purge-IsBounded [] s b = b
  purge-IsBounded ((key, row) ∷ rows) s b = purge-IsBounded rows _ (expired-IsBounded key row s b)

module _ (env : Env) (db : Database) (order : IsOrdered db) {m n : ℕ} where
  step-IsBounded : (op : Op) (s : SqliteStore) → IsBounded m n s → IsBounded m n (step env db op s)
  unfolding step Methods.get Methods.set Methods.set_if_absent Methods.compare_and_set
      Methods.delete Methods.stats Methods.clear remove_expired_rows
  step-IsBounded (Op.get key) s b =
      locked-IsBounded _ (get_row env db key) s b (get_row-IsBounded env db key s b)
  step-IsBounded (Op.set key value ttl) s b =
      locked-IsBounded _ (set_row env db key value ttl) s b
        (set_row-IsBounded env db order key value ttl s b)
  step-IsBounded (Op.set_if_absent key value ttl) s b =
      locked-IsBounded _ (add_row env db key value ttl) s b
        (add_row-IsBounded env db order key value ttl s b)
  step-IsBounded (Op.compare_and_set key expected value ttl) s b =
      locked-IsBounded _ (exchange_row env db key expected value ttl) s b
        (exchange_row-IsBounded env db order key value ttl expected s b)
  step-IsBounded (Op.delete key) s b =
      locked-IsBounded _ (remove_row key) s b (remove_row-IsBounded key s b)
  step-IsBounded Op.stats s b = purge-IsBounded env s.rows s b
  step-IsBounded Op.clear s b =
      Shrinks-IsBounded
        (record {
          items = refl;
          memory = refl;
          value = refl;
          less = omega arith;
          fewer = omega arith;
        })
        (record { distinct = tt; counted = refl; entries = refl }) b
  step-IsBounded Op.cleaner_reads_clock s b =
      let c = b.sound.consistent in
      Shrinks-IsBounded
        (record {
          items = refl;
          memory = refl;
          value = refl;
          less = omega arith;
          fewer = omega arith;
        })
        (record { distinct = c.distinct; counted = c.counted; entries = c.entries }) b
  step-IsBounded (Op.cleaner_removes key) s b = checked-IsBounded env key s b

  run-IsBounded :
      (ops : List Op) (s : SqliteStore) → IsBounded m n s → IsBounded m n (run env db ops s)
  unfolding run
  run-IsBounded [] s b = b
  run-IsBounded (op ∷ ops) s b = run-IsBounded ops (step env db op s) (step-IsBounded op s b)

  open_store-IsBounded :
      (limits : CacheStoreLimits) (rows : Dict Row)
      → IsSound (open_store limits rows)
      → limits.max_memory_bytes ≤ m
      → limits.max_items ≤ n
      → sum_sizes rows ≤ m
      → length rows ≤ n
      → IsBounded m n (open_store limits rows)
  unfolding open_store
  open_store-IsBounded limits rows sound a b c d = record {
    sound = sound;
    memory_limit = a;
    items_limit = b;
    memory = c;
    entries = d;
  }

  -- A store that its constructor accepts, on a table that an earlier process may have filled: after
  -- any sequence of calls and of cleaner steps the byte counter is the sum of the sizes of the
  -- rows and the row counter is their number, no key has two rows, and the table holds no more
  -- bytes and no more rows than the limits allow or than it had at the start.
  pub run-init-IsBounded :
      (max_items max_memory_mb cleanup_interval max_value_bytes : Option ℤ) (rows : Dict Row)
      {s : SqliteStore} (ops : List Op)
      → init_sqlite max_items max_memory_mb cleanup_interval max_value_bytes rows ≡ ok s
      → Distinct rows
      → s.max_memory_bytes ≤ m
      → s.max_items ≤ n
      → sum_sizes rows ≤ m
      → length rows ≤ n
      → IsBounded m n (run env db ops s)
  unfolding init_sqlite open_store
  run-init-IsBounded a b c d rows {s} ops h distinct memory items sum count =
      let (limits, resolved, e) = chain_returned (resolve a b c d) _ h in
      let usable = resolve-AreUsable a b c d resolved in
      let same : open_store limits rows ≡ s = cc in
      let sound : IsSound (open_store limits rows) = record {
        consistent = record { distinct = distinct; counted = refl; entries = refl };
        items = usable.items;
        value-le-memory = usable.value-le-memory;
      } in
      let first =
        open_store-IsBounded limits rows sound (rw (sym same) at memory) (rw (sym same) at items)
          sum count in
      run-IsBounded ops s (subst (IsBounded m n) same first)

pub step-IsSound :
    (env : Env) (db : Database)
    → IsOrdered db
    → (op : Op) (s : SqliteStore) → IsSound s
    → IsSound (step env db op s)
step-IsSound env db order op s sound =
    (step-IsBounded env db order op s (IsSound-IsBounded s sound)).sound
