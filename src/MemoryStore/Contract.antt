-- ===== src/MemoryStore/Contract.antt =====
-- What a client of the in-memory backend can rely on, call by call.
use tiny_cache.Base.{
  ◌+◌, ◌*◌, ◌≤◌, ◌<◌, ◌≡◌, ◌≢◌, refl, ap, ◌∙◌, sym, ℕ, Text, Text-discrete, ite, Bytes, ℤ, Option,
  none, some, Option-cases, inl, inr, ◌⊎◌, if◌then◌else◌, leb, dec_le, drop, arith,
}
use tiny_cache.Errors.{ok}
use tiny_cache.Dict.{lookup, remove}
use tiny_cache.Dict.Laws.{
  lookup-move_to_end, lookup-snoc_self, lookup-snoc_ne, lookup-remove_ne, lookup-drop-some,
  remove-Distinct, lookup-drop-none, lookup-remove_self,
}
use tiny_cache.Domain.{validate_key, validate_value}
use tiny_cache.Results.{CacheSetStatus}
use tiny_cache.StoreModels.{Env, new_entry, normalize_ttl, has_expired}
use tiny_cache.MemoryStore.State.{CacheStore}
use tiny_cache.MemoryStore.Methods.{get, set}
use tiny_cache.MemoryStore.Room.{MakesRoom}
use tiny_cache.MemoryStore.Written.{without, written, refused, set_entry-written, set_entry-refused}
use tiny_cache.MemoryStore.Invariant.{IsValid, IsValid-IsConsistent}
use tiny_cache.MemoryStore.Checked.{
  view, view_now, value_of, checked, lookup-checked_found, get_entry-checked, checked_frame,
}

module _ (env : Env) (key : Text) (s : CacheStore) (accepted : validate_key key ≡ ok tt) where
  -- `get` returns the value of the live entry, and nothing if there is none; it counts one hit or
  -- one miss accordingly, drops the entry if it has expired, and changes no other entry.
  pub get-view :
      ((get env key s).0 ≡ ok (value_of (view_now env s key)))
      × ((get env key s).1.hits ≡ elim (view_now env s key) [ none ↦ s.hits | some _ ↦ s.hits + 1 ])
      × ((get env key s).1.misses
          ≡ elim (view_now env s key) [ none ↦ s.misses + 1 | some _ ↦ s.misses ])
      × ((j : Text)
          → lookup j (get env key s).1.store
            ≡ ite (Text-discrete key j) (view_now env s key) (lookup j s.store))
  unfolding get
  get-view = elim (Option-cases (view_now env s key)) [
    | inl miss ↦
        rw (accepted, get)
          (rw (get_entry-checked env key s) (
            rw miss (refl, (checked_frame env key s).0, refl, lookup-checked_found env key s miss)))
    | inr (e, hit) ↦
        rw (accepted, get)
          (rw (get_entry-checked env key s) (
            rw hit (
              refl,
              refl,
              (checked_frame env key s).1,
              λ j.
                  lookup-move_to_end key j (checked env key s).store
                  ∙ lookup-checked_found env key s hit j,
            )))
  ]

lookup-written_ne :
    (env : Env) (key : Text) (value : Bytes) (ttl : Option ℤ) (s : CacheStore) (n : ℕ) (j : Text)
    → IsValid env s
    → key ≢ j
    → (lookup j (written env key value ttl n s).store ≡ lookup j s.store)
      ⊎ (lookup j (written env key value ttl n s).store ≡ none)
unfolding written
lookup-written_ne env key value ttl s n j valid h =
    let d = drop n (remove key s.store) in
    let last = lookup-snoc_ne key j (new_entry env value ttl (env.clock s.reads)) d h in
    elim (Option-cases (lookup j d)) [
      | inl gone ↦ inr (last ∙ gone)
      | inr (e, kept) ↦ inl (
          last
          ∙ kept
          ∙ sym (
              sym (lookup-remove_ne key j s.store h)
              ∙ lookup-drop-some j n (remove key s.store) e
                  (remove-Distinct key s.store valid.0.distinct) kept))
    ]

module _ (env : Env) (key : Text) (value : Bytes) (ttl : Option ℤ) (s : CacheStore)
    (accepted : validate_key key ≡ ok tt) (valid : IsValid env s) where
  -- On a valid store, `set` of an accepted key and a value that is small enough always succeeds.
  -- It evicts the least number of entries that makes room, the least recently used first, and
  -- stores the new entry as the most recently used: the whole state after the call.
  pub set-written :
      env.getsizeof value ≤ s.max_value_bytes
      → (n : ℕ) × (set env key value ttl s
          ≡ (ok CacheSetStatus.ok_status, written env key value ttl n s))
        × MakesRoom (without key s) (env.getsizeof value) n
  unfolding set validate_value
  set-written small =
      let (n, e, room) =
        set_entry-written env key value ttl s (IsValid-IsConsistent env s valid)
          valid.0.within_items valid.1.items valid.1.value-le-memory small in
      (n, rw (accepted, set) (ap (λ r. (ok r.0, r.1)) e), room)

  -- `set` of a larger value is refused, and changes no entry: it only counts the refusal and
  -- makes an entry that the key has the most recently used.
  pub set-refused :
      s.max_value_bytes < env.getsizeof value
      → (set env key value ttl s ≡ (ok CacheSetStatus.value_too_large, refused key s))
        × ((j : Text) → lookup j (refused key s).store ≡ lookup j s.store)
  unfolding set validate_value refused
  set-refused large = (
    rw (accepted, set)
        (ap (λ r. (ok r.0, r.1))
          (set_entry-refused env key value ttl s (IsValid-IsConsistent env s valid) large)),
    λ j. lookup-move_to_end key j s.store,
  )

  pub stored-set :
      env.getsizeof value ≤ s.max_value_bytes
      → lookup key (set env key value ttl s).1.store
        ≡ some (new_entry env value ttl (env.clock s.reads))
  unfolding written
  stored-set small =
      let (n, e, room) = set-written small in
      let d = drop n (remove key s.store) in
      ap (λ r. lookup key r.1.store) e
      ∙ lookup-snoc_self key (new_entry env value ttl (env.clock s.reads)) d
          (lookup-drop-none key n (remove key s.store) (lookup-remove_self key s.store))

  value_of-view :
      (later : CacheStore)
      → lookup key later.store ≡ some (new_entry env value ttl (env.clock s.reads))
      → value_of (view_now env later key) ≡ elim (normalize_ttl ttl) [
        | none ↦ some value
        | some t ↦
            if leb (env.clock s.reads + t * env.second) (env.clock later.reads)
            then none
            else some value
      ]
  unfolding view has_expired new_entry
  value_of-view later found = rw (found, view) (ground arith)

  -- What was set is read back until it expires: in any later state that still holds the entry, a
  -- `get` returns the value if the TTL was absent or not positive, and otherwise exactly while
  -- fewer than `ttl` seconds have passed since the `set` read the clock.
  pub get-set :
      env.getsizeof value ≤ s.max_value_bytes
      → (later : CacheStore) → lookup key later.store ≡ lookup key (set env key value ttl s).1.store
      → (get env key later).0
        ≡ ok (elim (normalize_ttl ttl) [
          | none ↦ some value
          | some t ↦
              if leb (env.clock s.reads + t * env.second) (env.clock later.reads)
              then none
              else some value
        ])
  unfolding view has_expired new_entry
  get-set small later same =
      let found = same ∙ stored-set small in
      let got = (get-view env key later accepted).0 in got ∙ ap ok (value_of-view later found)

  -- The keys that a `set` does not write either keep their entry or lose it to an eviction.
  pub lookup-set_ne :
      (j : Text)
      → key ≢ j
      → (lookup j (set env key value ttl s).1.store ≡ lookup j s.store)
        ⊎ (lookup j (set env key value ttl s).1.store ≡ none)
  lookup-set_ne j h = elim (dec_le (env.getsizeof value) s.max_value_bytes) [
    | yes small ↦
        let (n, e, room) = set-written small in
        rw e (lookup-written_ne env key value ttl s n j valid h)
    | no large ↦
        let (e, same) = set-refused (omega arith) in inl (ap (λ r. lookup j r.1.store) e ∙ same j)
  ]
