-- ===== src/SqliteStore/Checked.antt =====
-- The check for expiry with which most methods begin, and the methods in terms of it.
use tiny_cache.Base.{
  ◌+◌, ◌≡◌, ◌≢◌, Text, Text-discrete, Bytes, ℤ, Bool-cases, ite, Option, none, some, Option-cases,
  inl, inr, arith,
}
use tiny_cache.Dict.{lookup}
use tiny_cache.Dict.Laws.{lookup-remove_self, lookup-remove_ne}
use tiny_cache.Results.{CacheConditionalSetStatus}
use tiny_cache.StoreModels.{Env, CacheEntry, has_expired}
use tiny_cache.StoreModels.Live.{live}
use tiny_cache.SqliteStore.State.{
  SqliteStore, Row, Database, row_to_entry, remove_row, remove_expired_row,
}
use tiny_cache.SqliteStore.Expiry.{is_expired, remove_if_expired}
use tiny_cache.SqliteStore.Writing.{store_value}
use tiny_cache.SqliteStore.Methods.{get_row, add_row, exchange_row, set_row, touch, conditionally}
use tiny_cache.SqliteStore.Consistent.{IsConsistent, remove_row-IsConsistent}

-- the entry that the store holds under a key
abbrev pub entry_of : Env → Option Row → Option CacheEntry
entry_of env none = none
entry_of env (some row) = some (row_to_entry env row)

abbrev pub live_row : Env → SqliteStore → Text → Option CacheEntry
live_row env s key = live env (env.clock s.reads) (entry_of env (lookup key s.rows))

module _ (env : Env) (s : SqliteStore) where
  is_expired-frame :
      (entry : CacheEntry)
      → ((is_expired env entry s).0 ≡ has_expired env (env.clock s.reads) entry)
        × ((is_expired env entry s).1.rows ≡ s.rows)
        × ((is_expired env entry s).1.max_value_bytes ≡ s.max_value_bytes)
  unfolding is_expired has_expired
  is_expired-frame entry = ground arith

  pub is_expired-IsConsistent :
      (entry : CacheEntry) → IsConsistent s → IsConsistent (is_expired env entry s).1
  unfolding is_expired
  is_expired-IsConsistent entry c = elim (Option-cases entry.ttl) [
    | inl p ↦ rw (p, is_expired) c
    | inr (t, p) ↦
        rw (p, is_expired)
          (record { distinct = c.distinct; counted = c.counted; entries = c.entries })
  ]

pub remove_expired_row-IsConsistent :
    (key : Text) (s : SqliteStore) → IsConsistent s → IsConsistent (remove_expired_row key s).1
unfolding remove_expired_row
remove_expired_row-IsConsistent key s c =
    let r = remove_row-IsConsistent key s c in
    elim (Bool-cases (remove_row key s).0) [
      | inl p ↦
          rw (p, remove_expired_row)
            (record { distinct = r.distinct; counted = r.counted; entries = r.entries })
      | inr p ↦ rw (p, remove_expired_row) r
    ]

module _ (env : Env) (key : Text) (s : SqliteStore) where
  abbrev pub checked : SqliteStore
  checked = remove_if_expired env key s

  pub checked-IsConsistent : IsConsistent s → IsConsistent checked
  unfolding remove_if_expired
  checked-IsConsistent c = elim (Option-cases (lookup key s.rows)) [
    | inl absent ↦ rw (absent, remove_if_expired) c
    | inr (row, found) ↦
        let c' = is_expired-IsConsistent env s (row_to_entry env row) c in
        let s' = (is_expired env (row_to_entry env row) s).1 in
        elim (Bool-cases (is_expired env (row_to_entry env row) s).0) [
          | inl p ↦ rw (found, remove_if_expired) (rw p (remove_expired_row-IsConsistent key s' c'))
          | inr p ↦ rw (found, remove_if_expired) (rw p c')
        ]
  ]

  pub checked-gone : live_row env s key ≡ none → lookup key checked.rows ≡ none
  unfolding remove_if_expired remove_expired_row remove_row is_expired has_expired
  checked-gone dead = elim (Option-cases (lookup key s.rows)) [
    | inl absent ↦ rw (absent, remove_if_expired) absent
    | inr (row, found) ↦ ground (arith, found, dead, lookup-remove_self key s.rows)
  ]

  pub checked-stays :
      (e : CacheEntry)
      → live_row env s key ≡ some e
      → (row : Row) × (lookup key s.rows ≡ some row)
        × (row_to_entry env row ≡ e)
        × (checked.rows ≡ s.rows)
  unfolding remove_if_expired is_expired has_expired
  checked-stays e alive = elim (Option-cases (lookup key s.rows)) [
    | inl absent ↦ absurd (ground (arith, absent, alive))
    | inr (row, found) ↦ (row, found, ground (arith, found, alive), ground (arith, found, alive))
  ]

  pub lookup-checked_ne : (j : Text) → key ≢ j → lookup j checked.rows ≡ lookup j s.rows
  unfolding remove_if_expired remove_expired_row remove_row is_expired
  lookup-checked_ne j h = ground (arith, lookup-remove_ne key j s.rows h)

  pub checked-frame :
      (checked.max_value_bytes ≡ s.max_value_bytes)
      × (checked.max_memory_bytes ≡ s.max_memory_bytes)
      × (checked.max_items ≡ s.max_items)
      × (checked.hits ≡ s.hits)
      × (checked.misses ≡ s.misses)
  unfolding remove_if_expired remove_expired_row remove_row is_expired
  checked-frame = ground arith

  -- `get`: a miss purges an expired row, a hit records the access.
  pub get_row-checked :
      (db : Database)
      → get_row env db key s ≡ elim (live_row env s key) [
        | none ↦ (none, record checked { misses = s.misses + 1 })
        | some entry ↦ (
          some entry.value,
          record checked {
            rows = touch key (env.clock checked.reads) checked.rows;
            hits = s.hits + 1;
            reads = checked.reads + 1;
          },
        )
      ]
  unfolding remove_if_expired get_row remove_expired_row remove_row is_expired has_expired
  get_row-checked db = ground arith

  -- `set_if_absent` writes exactly if no live entry is there.
  pub add_row-checked :
      (db : Database) (value : Bytes) (ttl : Option ℤ)
      → add_row env db key value ttl s ≡ elim (live_row env s key) [
        | none ↦ conditionally (store_value env db key value ttl none checked)
        | some _ ↦ (CacheConditionalSetStatus.exists, checked)
      ]
  unfolding remove_if_expired add_row is_expired has_expired
  add_row-checked db value ttl = ground arith

  pub exchange_row-checked :
      (db : Database) (expected value : Bytes) (ttl : Option ℤ)
      → exchange_row env db key expected value ttl s ≡ elim (live_row env s key) [
        | none ↦ (CacheConditionalSetStatus.not_found, checked)
        | some entry ↦
            ite
              (Text-discrete entry.value expected)
              (conditionally (set_row env db key value ttl checked))
              (CacheConditionalSetStatus.mismatch, checked)
      ]
  unfolding remove_if_expired exchange_row set_row is_expired has_expired
  exchange_row-checked db expected value ttl = elim (Option-cases (lookup key s.rows)) [
    | inl absent ↦ ground (arith, absent)
    | inr (row, found) ↦ ground (arith, found)
  ]
