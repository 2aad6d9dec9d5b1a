-- ===== src/Settings/Factory.antt =====
-- tiny_cache/infrastructure/store_factory.py: the store that is made from the settings.
use tiny_cache.Base.{
  ℕ, zero, suc, ◌*◌, ◌≤◌, ◌<◌, ◌≡◌, ◌⊎◌, refl, ap, subst, sym, ◌∙◌, Text-discrete, codes, ℤ, pos,
  pos_part, min, some, inl, inr, ite, arith,
}
use tiny_cache.Errors.{Result, ok, raise, ◌>>=◌, Message}
use tiny_cache.Dict.{Dict}
use tiny_cache.StoreModels.{CacheStoreLimits, resolve, at_least_one}
use tiny_cache.MemoryStore.State.{CacheStore, init, new_store}
use tiny_cache.SqliteStore.State.{SqliteStore, Row, init_sqlite, open_store}
use tiny_cache.Settings.{Environ, Settings, loaded, load_settings}
use tiny_cache.Settings.Loaded.{IsAdmissible, IsSettled, load_settings-IsSettled}

-- `opened` is what opening the database at `sqlite_path` gives, once the limits are accepted: the rows
-- of its table, or an exception.
unfoldable pub create_cache_store : Settings → Result (Dict Row) → Result (CacheStore ⊎ SqliteStore)
create_cache_store settings opened =
    ite (Text-discrete settings.backend (codes "sqlite"))
      (do
        _ ←
            resolve (some settings.max_items) (some settings.max_memory_mb)
              (some settings.cleanup_interval) (some settings.max_value_bytes)
        rows ← opened
        store ←
            init_sqlite (some settings.max_items) (some settings.max_memory_mb)
              (some settings.cleanup_interval) (some settings.max_value_bytes) rows
        ok (inr store))
      (do
        store ←
            init (some settings.max_items) (some settings.max_memory_mb)
              (some settings.cleanup_interval) (some settings.max_value_bytes)
        ok (inl store))

-- the limits as the settings write them
abbrev pub settings_limits : Settings → CacheStoreLimits
settings_limits settings = record {
  max_items = pos_part settings.max_items;
  max_memory_bytes = pos_part settings.max_memory_mb * 1024 * 1024;
  max_value_bytes = pos_part settings.max_value_bytes;
  cleanup_interval = pos_part settings.cleanup_interval;
}

at_least_one-pos :
    (n default : ℕ) (message : ℤ → Message)
    → 0 < n
    → at_least_one (some (pos n)) default message ≡ ok n
unfolding at_least_one
at_least_one-pos zero default message h = absurd (omega arith)
at_least_one-pos (suc n) default message h = refl

resolve-pos :
    (i m c v : ℕ)
    → 0 < i
    → 0 < m
    → 0 < c
    → 0 < v
    → v ≤ m * 1024 * 1024
    → resolve (some (pos i)) (some (pos m)) (some (pos c)) (some (pos v))
      ≡ ok (record {
        max_items = i;
        max_memory_bytes = m * 1024 * 1024;
        max_value_bytes = v;
        cleanup_interval = c;
      })
unfolding resolve
resolve-pos i m c v hi hm hc hv fits =
    let same : min v (m * 1024 * 1024) ≡ v = omega arith in
    rw (at_least_one-pos i _ _ hi) (
      rw (at_least_one-pos m _ _ hm)
        (rw (at_least_one-pos c _ _ hc) (rw (at_least_one-pos v _ _ hv) (rw same refl))))

resolve-settings :
    (s : Settings)
    → IsAdmissible s
    → resolve
        (some s.max_items)
        (some s.max_memory_mb)
        (some s.cleanup_interval)
        (some s.max_value_bytes)
      ≡ ok (settings_limits s)
resolve-settings s a =
    let (i, e_items, hi) = a.items in
    let (m, e_memory, hm) = a.memory in
    let (c, e_interval, hc) = a.interval in
    let (k, e_memory', upto) = a.value in
    let (v, e_value, hv, fits) = upto in
    let same : m ≡ k = ap pos_part (sym e_memory ∙ e_memory') in
    rw e_items (
      rw e_memory
        (rw e_interval (rw e_value (resolve-pos i m c v hi hm hc hv (omega (arith, fits, same))))))

-- the store as the settings describe it, if the database can be opened
abbrev pub store_of : Settings → Result (Dict Row) → Result (CacheStore ⊎ SqliteStore)
store_of settings opened =
    ite (Text-discrete settings.backend (codes "sqlite"))
      (elim opened [
        | ok rows ↦ ok (inr (open_store (settings_limits settings) rows))
        | raise e ↦ raise e
      ])
      (ok (inl (new_store (settings_limits settings))))

-- From settings that were loaded a store is always made if the database can be opened, of the
-- backend that they name, and with the limits that they give: no limit is refused, and the largest
-- value is not cut down to the memory.
pub create_cache_store-limits :
    (environ : Environ) (opened : Result (Dict Row)) {s : Settings}
    → load_settings environ ≡ loaded s
    → create_cache_store s opened ≡ store_of s opened
unfolding create_cache_store init init_sqlite
create_cache_store-limits environ (ok rows) {s} h =
    let admissible = subst IsSettled h (load_settings-IsSettled environ) in
    rw (resolve-settings s admissible, create_cache_store) refl
create_cache_store-limits environ (raise e) {s} h =
    let admissible = subst IsSettled h (load_settings-IsSettled environ) in
    rw (resolve-settings s admissible, create_cache_store) refl
