-- ===== src/MemoryStore/Written.antt =====
-- A write, in closed form: what it evicts, what it stores, and when it is refused.
use tiny_cache.Base.{
  ℕ, ◌+◌, ◌≤◌, ◌<◌, ◌≡◌, ◌≢◌, refl, ap, ◌∙◌, Text, Bytes, ℤ, Option, none, Option-cases, inl, inr,
  [], ◌∷◌, ◌++◌, length, drop, length-drop, dec_lt, arith, le→ltb-false, lt→ltb,
}
use tiny_cache.Dict.{lookup, remove, move_to_end}
use tiny_cache.Dict.Laws.{
  lookup-remove_self, remove_absent, put_absent, move_to_end-put, remove-Distinct, lookup-drop-none,
  length-remove,
}
use tiny_cache.Results.{CacheSetStatus}
use tiny_cache.StoreModels.{Env, CacheEntry, new_entry}
use tiny_cache.MemoryStore.State.{CacheStore}
use tiny_cache.MemoryStore.Writing.{
  forget_old, admit, admit_freed, place, insert_entry, restore, store_value,
}
use tiny_cache.MemoryStore.Methods.{set_entry}
use tiny_cache.MemoryStore.Sizes.{total, total-drop_mono, total-remove}
use tiny_cache.MemoryStore.Evicted.{IsConsistent, evicted}
use tiny_cache.MemoryStore.Room.{MakesRoom, free_memory-evicted, item_room_after}

admit_lem :
    (key : Text) (entry : CacheEntry) (old_entry : Option CacheEntry) (s : CacheStore)
    → IsConsistent s
    → 0 < s.max_items
    → entry.size_bytes ≤ s.max_memory_bytes
    → (old_entry ≢ none → length s.store < s.max_items)
    → (n : ℕ) × (admit key entry old_entry s
        ≡ (CacheSetStatus.ok_status, insert_entry key entry (evicted n s)))
      × MakesRoom s entry.size_bytes n
unfolding admit admit_freed place
admit_lem key entry old_entry s c items size old =
    let (n, run, enough, fits, needed) = free_memory-evicted entry.size_bytes s c size in
    let (k, run', enough', room, needed') = item_room_after s old_entry n c items enough old in
    (
      n + k,
      rw run (rw run' refl),
      record {
        enough = enough';
        room = record {
          memory = omega (arith, total-drop_mono n (n + k) s.store (omega arith));
          items = omega (arith, length-drop (n + k) s.store);
        };
        needed = λ m l r. elim (dec_lt m n) [
          | yes p ↦ omega (arith, needed m p, r.memory)
          | no p ↦ omega (arith, needed' m (omega arith) l, r.items, length-drop m s.store)
        ];
      },
    )

-- The store as a write finds it, with the entry of its key gone.
abbrev pub without : Text → CacheStore → CacheStore
without key s = record s {
  store = remove key s.store;
  current_memory_bytes = total (remove key s.store);
}

-- The store after a write that evicted `n` entries: the new entry is the most recently used.
unfoldable pub written : Env → Text → Bytes → Option ℤ → ℕ → CacheStore → CacheStore
written env key value ttl n s = record s {
  store = drop n (remove key s.store) ++ (key, new_entry env value ttl (env.clock s.reads)) ∷ [];
  current_memory_bytes = total (drop n (remove key s.store)) + env.getsizeof value;
  evictions = s.evictions + n;
  lru_evictions = s.lru_evictions + n;
  reads = s.reads + 1;
}

-- The store after a write of a value that is too large: an entry that the key had is kept, and
-- becomes the most recently used.
unfoldable pub refused : Text → CacheStore → CacheStore
refused key s = record s {
  store = move_to_end key s.store;
  rejected_oversize = s.rejected_oversize + 1;
  reads = s.reads + 1;
}

-- The clock is read before anything is evicted.
abbrev started : Text → CacheStore → CacheStore
started key s = record (without key s) { reads = s.reads + 1 }

module _ (key : Text) (s : CacheStore) where
  forget_old-without :
      IsConsistent s
      → forget_old (lookup key s.store) (record s { store = remove key s.store }) ≡ without key s
  forget_old-without c = elim (Option-cases (lookup key s.store)) [
    | inl absent ↦ rw absent (ground (arith, remove_absent key s.store absent))
    | inr (e, found) ↦ rw found (ground (arith, total-remove key s.store e c.distinct found))
  ]

  started-IsConsistent : IsConsistent s → IsConsistent (started key s)
  started-IsConsistent c = record {
    distinct = remove-Distinct key s.store c.distinct;
    counted = refl;
  }

  started-MakesRoom :
      (size n : ℕ) → MakesRoom (started key s) size n → MakesRoom (without key s) size n
  started-MakesRoom size n r = record {
    enough = r.enough;
    room = record { memory = r.room.memory; items = r.room.items };
    needed = λ m l h. r.needed m l (record { memory = h.memory; items = h.items });
  }

  restore-refused :
      IsConsistent s
      → (let restored = restore key (lookup key s.store) (started key s) in
          record restored { rejected_oversize = restored.rejected_oversize + 1 })
        ≡ refused key s
  unfolding refused restore move_to_end
  restore-refused c = elim (Option-cases (lookup key s.store)) [
    | inl absent ↦ rw absent (ground (arith, remove_absent key s.store absent))
    | inr (e, found) ↦ rw found (
        ground (
          arith,
          total-remove key s.store e c.distinct found,
          put_absent key e (remove key s.store) (lookup-remove_self key s.store),
        ))
  ]

  length-without :
      IsConsistent s
      → lookup key s.store ≢ none
      → length s.store ≤ s.max_items
      → length (remove key s.store) < s.max_items
  length-without c found bound = elim (Option-cases (lookup key s.store)) [
    | inl absent ↦ absurd (found absent)
    | inr (e, p) ↦ omega (arith, length-remove key s.store e c.distinct p)
  ]

module _ (env : Env) (key : Text) (value : Bytes) (ttl : Option ℤ) (s : CacheStore) where
  abbrev stored_entry : CacheEntry
  stored_entry = new_entry env value ttl (env.clock s.reads)

  insert_entry-written :
      (n : ℕ)
      → insert_entry key stored_entry (evicted n (started key s)) ≡ written env key value ttl n s
  unfolding insert_entry evicted written new_entry
  insert_entry-written n = rw (
      move_to_end-put key stored_entry (drop n (remove key s.store))
        (lookup-drop-none key n (remove key s.store) (lookup-remove_self key s.store)))

  set_entry-admit :
      IsConsistent s
      → env.getsizeof value ≤ s.max_value_bytes
      → set_entry env key value ttl s ≡ admit key stored_entry (lookup key s.store) (started key s)
  unfolding set_entry store_value new_entry
  set_entry-admit c small =
      rw (forget_old-without key s c)
        (rw (le→ltb-false s.max_value_bytes (env.getsizeof value) small))

  pub set_entry-written :
      IsConsistent s
      → length s.store ≤ s.max_items
      → 0 < s.max_items
      → s.max_value_bytes ≤ s.max_memory_bytes
      → env.getsizeof value ≤ s.max_value_bytes
      → (n : ℕ) × (set_entry env key value ttl s
          ≡ (CacheSetStatus.ok_status, written env key value ttl n s))
        × MakesRoom (without key s) (env.getsizeof value) n
  unfolding new_entry
  set_entry-written c bound items limit small =
      let (n, run, room) =
        admit_lem key stored_entry (lookup key s.store) (started key s)
          (started-IsConsistent key s c) items (omega arith)
          (λ found. length-without key s c found bound) in
      (
        n,
        set_entry-admit c small
            ∙ run
            ∙ ap (λ u. (CacheSetStatus.ok_status, u)) (insert_entry-written n),
        started-MakesRoom key s (env.getsizeof value) n room,
      )

  pub set_entry-refused :
      IsConsistent s
      → s.max_value_bytes < env.getsizeof value
      → set_entry env key value ttl s ≡ (CacheSetStatus.value_too_large, refused key s)
  unfolding set_entry store_value new_entry
  set_entry-refused c large = rw (forget_old-without key s c) (
      rw (lt→ltb s.max_value_bytes (env.getsizeof value) large)
        (ap (λ u. (CacheSetStatus.value_too_large, u)) (restore-refused key s c)))
