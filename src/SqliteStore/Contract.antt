-- ===== src/SqliteStore/Contract.antt =====
-- What a client of the SQLite backend can rely on, call by call.
use tiny_cache.Base.{
  ◌+◌, ◌≤◌, ◌<◌, ◌≡◌, ◌≢◌, ◌⊎◌, refl, ap, ◌∙◌, sym, Text, Bytes, ℤ, Option, none, some,
  Option-cases, inl, inr, dec_le, arith,
}
use tiny_cache.Errors.{ok}
use tiny_cache.Dict.{lookup}
use tiny_cache.Domain.{validate_key, validate_value}
use tiny_cache.Results.{CacheSetStatus}
use tiny_cache.StoreModels.{Env, new_entry}
use tiny_cache.SqliteStore.State.{SqliteStore, Row, Database, IsOrdered, insert_row}
use tiny_cache.SqliteStore.Methods.{set, set_row}
use tiny_cache.SqliteStore.Consistent.{IsConsistent}
use tiny_cache.SqliteStore.Evicted.{Evicting-kept, Evicting-oldest, Evicting-IsConsistent}
use tiny_cache.SqliteStore.Written.{
  Evictions, started, lookup-started_self, lookup-started_ne, started-IsConsistent,
  store_value-written, store_value-refused, refused, written-within, refused-counters,
}
use tiny_cache.SqliteStore.Checked.{entry_of}
use tiny_cache.SqliteStore.Rows.{
  lookup-insert_row_self, lookup-insert_row_ne, lookup-restore_old, entry_of-row,
}

-- The counters agree with the table, and the limits can be worked with. A table that an earlier
-- process filled may exceed them.
pub record IsSound (s : SqliteStore) : Type 0 where
  pub consistent : IsConsistent s
  pub items : 0 < s.max_items
  pub value-le-memory : s.max_value_bytes ≤ s.max_memory_bytes

module _ (env : Env) (db : Database) (order : IsOrdered db) (key : Text) (value : Bytes)
    (ttl : Option ℤ) (s : SqliteStore) (sound : IsSound s) where
  abbrev pub Evicted : SqliteStore → Type 0
  Evicted u = Evictions env db order key value ttl (lookup key s.rows) s refl sound.consistent u

  pub set_row-written :
      env.getsizeof value ≤ s.max_value_bytes
      → (u : SqliteStore) × (set_row env db key value ttl s ≡ (
        CacheSetStatus.ok_status,
        insert_row env key (new_entry env value ttl (env.clock s.reads)) u,
      ))
        × Evicted u
  unfolding set_row
  set_row-written small =
      store_value-written env db order key value ttl (lookup key s.rows) s refl sound.consistent
        small sound.value-le-memory sound.items

  pub set_row-refused :
      s.max_value_bytes < env.getsizeof value
      → set_row env db key value ttl s ≡ (
        CacheSetStatus.value_too_large,
        refused env db order key value ttl (lookup key s.rows) s refl sound.consistent,
      )
  unfolding set_row
  set_row-refused large =
      store_value-refused env db order key value ttl (lookup key s.rows) s refl sound.consistent
        large

  -- an eviction adds no row
  kept-started :
      (u : SqliteStore) (j : Text) (row : Row)
      → Evicted u
      → lookup j u.rows ≡ some row
      → lookup j
          (started env db order key value ttl (lookup key s.rows) s refl sound.consistent).rows
        ≡ some row
  kept-started u j row e found = Evicting-kept j row e.memory (Evicting-kept j row e.items found)

  pub lookup-set_row_self :
      (there : Env)
      → env.getsizeof value ≤ s.max_value_bytes
      → entry_of there (lookup key (set_row env db key value ttl s).1.rows)
        ≡ some (new_entry there value ttl (env.clock s.reads))
  lookup-set_row_self there small =
      let (u, e, _) = set_row-written small in
      let entry = new_entry env value ttl (env.clock s.reads) in
      let (row, found, p, q, r) = lookup-insert_row_self env key entry u in
      ap (λ x. entry_of there (lookup key x.1.rows)) e
      ∙ ap (entry_of there) found
      ∙ ap some (entry_of-row env there value ttl (env.clock s.reads) row p q r)

  pub lookup-refused :
      (j : Text)
      → lookup j
          (refused env db order key value ttl (lookup key s.rows) s refl sound.consistent).rows
        ≡ lookup j s.rows
  lookup-refused j =
      lookup-restore_old key (lookup key s.rows) s
        (started env db order key value ttl (lookup key s.rows) s refl sound.consistent) j refl
        (lookup-started_self env db order key value ttl (lookup key s.rows) s refl sound.consistent)
        (lookup-started_ne env db order key value ttl (lookup key s.rows) s refl sound.consistent)

  -- The rows that a write leaves alone either stay as they are or are evicted.
  pub lookup-set_row_ne :
      (j : Text)
      → key ≢ j
      → (lookup j (set_row env db key value ttl s).1.rows ≡ lookup j s.rows)
        ⊎ (lookup j (set_row env db key value ttl s).1.rows ≡ none)
  lookup-set_row_ne j h = elim (dec_le (env.getsizeof value) s.max_value_bytes) [
    | yes small ↦
        let (u, e, evicted) = set_row-written small in
        let entry = new_entry env value ttl (env.clock s.reads) in
        let after = ap (λ x. lookup j x.1.rows) e ∙ lookup-insert_row_ne env key entry u j h in
        elim (Option-cases (lookup j u.rows)) [
          | inl gone ↦ inr (after ∙ gone)
          | inr (row, kept) ↦ inl (
              after
              ∙ kept
              ∙ sym (
                  sym (
                    lookup-started_ne env db order key value ttl (lookup key s.rows) s refl
                      sound.consistent j h)
                  ∙ kept-started u j row evicted kept))
        ]
    | no large ↦
        inl (ap (λ x. lookup j x.1.rows) (set_row-refused (omega arith)) ∙ lookup-refused j)
  ]

module _ (env : Env) (db : Database) (order : IsOrdered db) (key : Text) (value : Bytes)
    (ttl : Option ℤ) (s : SqliteStore) (accepted : validate_key key ≡ ok tt)
    (sound : IsSound s) where
  pub set_accepted : (set env db key value ttl s).1.rows ≡ (set_row env db key value ttl s).1.rows
  unfolding set validate_value
  set_accepted = rw (accepted, set) refl

  -- `set` of an accepted key and a value that is small enough always succeeds, however full the
  -- table is: it ends its two eviction loops, each of which evicts only while its limit is exceeded,
  -- and inserts the row in what they leave.
  pub set-inserted :
      env.getsizeof value ≤ s.max_value_bytes
      → (u : SqliteStore) × (set env db key value ttl s ≡ (
        ok CacheSetStatus.ok_status,
        insert_row env key (new_entry env value ttl (env.clock s.reads)) u,
      ))
        × Evicted env db order key value ttl s sound u
  unfolding set validate_value
  set-inserted small =
      let (u, e, evicted) = set_row-written env db order key value ttl s sound small in
      (u, rw (accepted, set) (ap (λ r. (ok r.0, r.1)) e), evicted)

  -- After it the table is within the limit on memory, and has no more rows than the limit, or for
  -- a key that it had, than before: also if an earlier process had filled it beyond the limits.
  pub set-within :
      env.getsizeof value ≤ s.max_value_bytes
      → ((set env db key value ttl s).1.current_memory_bytes ≤ s.max_memory_bytes)
        × ((set env db key value ttl s).1.entry_count
            ≤ elim (lookup key s.rows) [ none ↦ s.max_items | some _ ↦ s.entry_count ])
  set-within small =
      let (u, e, evicted) = set-inserted small in
      let limit = sound.value-le-memory in
      let (memory, count) =
        written-within env db order key value ttl (lookup key s.rows) s refl sound.consistent u
          (omega arith) evicted in
      (rw e memory, rw e count)

  -- What it evicts was accessed no later than what it keeps.
  pub set-oldest :
      (i j : Text) (gone kept : Row)
      → env.getsizeof value ≤ s.max_value_bytes
      → key ≢ i
      → key ≢ j
      → lookup i s.rows ≡ some gone
      → lookup i (set env db key value ttl s).1.rows ≡ none
      → lookup j (set env db key value ttl s).1.rows ≡ some kept
      → gone.last_accessed ≤ kept.last_accessed
  set-oldest i j gone kept small not_i not_j there absent stays =
      let (u, e, evicted) = set-inserted small in
      let entry = new_entry env value ttl (env.clock s.reads) in
      let old = lookup key s.rows in
      let first = started-IsConsistent env db order key value ttl old s refl sound.consistent in
      let second = Evicting-IsConsistent evicted.memory first in
      let start_i =
        lookup-started_ne env db order key value ttl old s refl sound.consistent i not_i in
      let after_i = ap (λ x. lookup i x.1.rows) e ∙ lookup-insert_row_ne env key entry u i not_i in
      let after_j = ap (λ x. lookup j x.1.rows) e ∙ lookup-insert_row_ne env key entry u j not_j in
      let kept_j : lookup j u.rows ≡ some kept = sym after_j ∙ stays in
      let gone_i : lookup i u.rows ≡ none = sym after_i ∙ absent in
      elim (Option-cases (lookup i evicted.freed.rows)) [
        | inl early ↦
            Evicting-oldest i j gone kept order evicted.memory first (start_i ∙ there) early
              (Evicting-kept j kept evicted.items kept_j)
        | inr (row, late) ↦
            let same : some row ≡ some gone =
              sym (Evicting-kept i row evicted.memory late) ∙ start_i ∙ there in
            Evicting-oldest i j gone kept order evicted.items second (late ∙ same) gone_i kept_j
      ]

  -- `set` of a larger value is refused, and puts the old row back as it was, with the time of its
  -- last access: every key has the row that it had, the byte and row counters are what they were,
  -- and the refusal is counted.
  pub set-restored :
      s.max_value_bytes < env.getsizeof value
      → ((set env db key value ttl s).0 ≡ ok CacheSetStatus.value_too_large)
        × ((j : Text) → lookup j (set env db key value ttl s).1.rows ≡ lookup j s.rows)
        × ((set env db key value ttl s).1.current_memory_bytes ≡ s.current_memory_bytes)
        × ((set env db key value ttl s).1.entry_count ≡ s.entry_count)
        × ((set env db key value ttl s).1.rejected_oversize ≡ s.rejected_oversize + 1)
  unfolding set validate_value
  set-restored large =
      let e = set_row-refused env db order key value ttl s sound large in
      let (memory, count, rejections) =
        refused-counters env db order key value ttl (lookup key s.rows) s refl sound.consistent in
      rw (accepted, set)
        (rw e (refl, lookup-refused env db order key value ttl s sound, memory, count, rejections))

  -- The rows that a `set` does not write either stay as they are or are evicted.
  pub lookup-set_ne :
      (j : Text)
      → key ≢ j
      → (lookup j (set env db key value ttl s).1.rows ≡ lookup j s.rows)
        ⊎ (lookup j (set env db key value ttl s).1.rows ≡ none)
  lookup-set_ne j h = rw set_accepted (lookup-set_row_ne env db order key value ttl s sound j h)
