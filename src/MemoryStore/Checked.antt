-- ===== src/MemoryStore/Checked.antt =====
-- The check for expiry with which most methods begin, and the methods in terms of it.
use tiny_cache.Base.{
  ◌+◌, ◌≡◌, ◌≢◌, refl, ap, sym, ◌∙◌, if_pos, if_neg, ℕ, Text, Text-discrete, Bytes, ℤ, Bool-cases,
  ite, Option, none, some, Option-cases, inl, inr, if◌then◌else◌, arith,
}
use tiny_cache.Dict.{Dict, lookup, move_to_end}
use tiny_cache.Dict.Laws.{remove_absent, lookup-remove_self, lookup-remove_ne}
use tiny_cache.Results.{CacheConditionalSetStatus}
use tiny_cache.StoreModels.{Env, CacheEntry, has_expired}
use tiny_cache.MemoryStore.State.{CacheStore, remove_entry, remove_expired_entry}
use tiny_cache.MemoryStore.Expiry.{is_expired}
use tiny_cache.MemoryStore.Writing.{store_value}
use tiny_cache.MemoryStore.Methods.{get_entry, set_entry, add_entry, exchange_entry, conditionally}
use tiny_cache.MemoryStore.Invariant.{IsValid, remove_entry-IsValid}

-- What a client may read under a key at a time: the entry, unless it has expired.
unfoldable pub view : Env → ℕ → Dict CacheEntry → Text → Option CacheEntry
view env now d key = elim (lookup key d) [
  | none ↦ none
  | some entry ↦ if has_expired env now entry then none else some entry
]

abbrev pub view_now : Env → CacheStore → Text → Option CacheEntry
view_now env s key = view env (env.clock s.reads) s.store key

abbrev pub value_of : Option CacheEntry → Option Bytes
value_of none = none
value_of (some entry) = some entry.value

-- The store after the check: an expired entry is gone and counted, and the clock may have been
-- read.
unfoldable pub checked : Env → Text → CacheStore → CacheStore
checked env key s = elim (lookup key s.store) [
  | none ↦ s
  | some entry ↦
      let (expired, s') = is_expired env entry s in
      if expired then remove_expired_entry key s' else s'
]

module _ (env : Env) (key : Text) (s : CacheStore) where
  pub remove_expired_entry-IsValid : IsValid env s → IsValid env (remove_expired_entry key s)
  unfolding remove_expired_entry
  remove_expired_entry-IsValid v = elim (Option-cases (lookup key s.store)) [
    | inl absent ↦ rw (absent, remove_expired_entry) v
    | inr (e, found) ↦ rw (found, remove_expired_entry) (remove_entry-IsValid env key s v)
  ]

  pub is_expired-IsValid :
      (entry : CacheEntry) → IsValid env s → IsValid env (is_expired env entry s).1
  unfolding is_expired
  is_expired-IsValid entry v = elim (Option-cases entry.ttl) [
    | inl p ↦ rw (p, is_expired) v
    | inr (t, p) ↦ rw (p, is_expired) v
  ]

  pub lookup-remove_expired_entry_self : lookup key (remove_expired_entry key s).store ≡ none
  unfolding remove_expired_entry remove_entry
  lookup-remove_expired_entry_self = ground (arith, lookup-remove_self key s.store)

  pub lookup-remove_expired_entry_ne :
      (j : Text) → key ≢ j → lookup j (remove_expired_entry key s).store ≡ lookup j s.store
  unfolding remove_expired_entry remove_entry
  lookup-remove_expired_entry_ne j h = ground (arith, lookup-remove_ne key j s.store h)

module _ (env : Env) (key : Text) (s : CacheStore) where
  pub checked-IsValid : IsValid env s → IsValid env (checked env key s)
  unfolding checked
  checked-IsValid v = elim (Option-cases (lookup key s.store)) [
    | inl absent ↦ rw (absent, checked) v
    | inr (e, found) ↦
        let v' = is_expired-IsValid env key s e v in
        elim (Bool-cases (is_expired env e s).0) [
          | inl p ↦
              rw (found, checked)
                (rw p (remove_expired_entry-IsValid env key (is_expired env e s).1 v'))
          | inr p ↦ rw (found, checked) (rw p v')
        ]
  ]

  is_expired-has_expired :
      (e : CacheEntry) → (is_expired env e s).0 ≡ has_expired env (env.clock s.reads) e
  unfolding is_expired has_expired
  is_expired-has_expired e = ground arith

  store-is_expired : (e : CacheEntry) → (is_expired env e s).1.store ≡ s.store
  unfolding is_expired
  store-is_expired e = ground arith

  -- After the check the dict holds the key exactly if its entry is live.
  pub lookup-checked_self : lookup key (checked env key s).store ≡ view_now env s key
  unfolding checked view
  lookup-checked_self = elim (Option-cases (lookup key s.store)) [
    | inl absent ↦ rw (absent, checked, view) absent
    | inr (e, found) ↦ ground (
      arith,
      found,
      is_expired-has_expired e,
      store-is_expired e,
      lookup-remove_expired_entry_self env key (is_expired env e s).1,
    )
  ]

  pub lookup-checked_ne :
      (j : Text) → key ≢ j → lookup j (checked env key s).store ≡ lookup j s.store
  unfolding checked
  lookup-checked_ne j h = elim (Option-cases (lookup key s.store)) [
    | inl absent ↦ rw (absent, checked) refl
    | inr (e, found) ↦ ground (
      arith,
      found,
      store-is_expired e,
      lookup-remove_expired_entry_ne env key (is_expired env e s).1 j h,
    )
  ]

  -- The check drops the entry of its key if it has expired, and changes nothing else.
  pub lookup-checked :
      (j : Text)
      → lookup j (checked env key s).store
        ≡ ite (Text-discrete key j) (view_now env s key) (lookup j s.store)
  lookup-checked j = elim (Text-discrete key j) [
    | yes same ↦
        rw (if_pos (Text-discrete key j) same (view_now env s key) (lookup j s.store))
          (ap (λ i. lookup i (checked env key s).store) (sym same) ∙ lookup-checked_self)
    | no other ↦
        rw (if_neg (Text-discrete key j) other (view_now env s key) (lookup j s.store))
          (lookup-checked_ne j other)
  ]

  pub lookup-checked_found :
      {found : Option CacheEntry}
      → view_now env s key ≡ found
      → (j : Text)
      → lookup j (checked env key s).store ≡ ite (Text-discrete key j) found (lookup j s.store)
  lookup-checked_found h j =
      lookup-checked j ∙ ap (λ v. ite (Text-discrete key j) v (lookup j s.store)) h

  pub view-live : (e : CacheEntry) → view_now env s key ≡ some e → lookup key s.store ≡ some e
  unfolding view
  view-live e live = ground arith

  -- The check touches no limit, and no counter but that of expired entries.
  pub checked_frame :
      ((checked env key s).hits ≡ s.hits)
      × ((checked env key s).misses ≡ s.misses)
      × ((checked env key s).max_value_bytes ≡ s.max_value_bytes)
  unfolding checked is_expired remove_expired_entry remove_entry
  checked_frame = ground arith

  -- `get`: a miss purges an expired entry, a hit makes the entry the most recently used.
  pub get_entry-checked : get_entry env key s ≡ elim (view_now env s key) [
    | none ↦ (none, record (checked env key s) { misses = s.misses + 1 })
    | some entry ↦ (
      some entry.value,
      record (checked env key s) {
        store = move_to_end key (checked env key s).store;
        hits = s.hits + 1;
      },
    )
  ]
  unfolding checked view get_entry is_expired has_expired remove_expired_entry remove_entry
  get_entry-checked = ground arith

  store_value-set_entry :
      (value : Bytes) (ttl : Option ℤ) (s' : CacheStore)
      → lookup key s'.store ≡ none
      → store_value env key value ttl none s' ≡ set_entry env key value ttl s'
  unfolding set_entry
  store_value-set_entry value ttl s' absent = rw (absent, remove_absent key s'.store absent)

  -- `set_if_absent` writes exactly if no live entry is there.
  pub add_entry-checked :
      (value : Bytes) (ttl : Option ℤ)
      → add_entry env key value ttl s ≡ elim (view_now env s key) [
        | none ↦ conditionally (set_entry env key value ttl (checked env key s))
        | some _ ↦ (CacheConditionalSetStatus.exists, checked env key s)
      ]
  unfolding checked view add_entry
  add_entry-checked value ttl = elim (Option-cases (lookup key s.store)) [
    | inl absent ↦
        rw (absent, add_entry, view)
          (rw (absent, checked) (ap conditionally (store_value-set_entry value ttl s absent)))
    | inr (e, found) ↦ ground (
      arith,
      found,
      is_expired-has_expired e,
      store_value-set_entry value ttl (remove_expired_entry key (is_expired env e s).1)
          (lookup-remove_expired_entry_self env key (is_expired env e s).1),
    )
  ]

  pub exchange_entry-checked :
      (expected value : Bytes) (ttl : Option ℤ)
      → exchange_entry env key expected value ttl s ≡ elim (view_now env s key) [
        | none ↦ (CacheConditionalSetStatus.not_found, checked env key s)
        | some entry ↦
            ite
              (Text-discrete entry.value expected)
              (conditionally (set_entry env key value ttl (checked env key s)))
              (CacheConditionalSetStatus.mismatch, checked env key s)
      ]
  unfolding checked view exchange_entry set_entry
  exchange_entry-checked expected value ttl = elim (Option-cases (lookup key s.store)) [
    | inl absent ↦ rw (absent, exchange_entry, view) (rw (absent, checked))
    | inr (e, found) ↦ ground (arith, found, is_expired-has_expired e, store-is_expired e)
  ]
