-- ===== src/MemoryStore/Invariant.antt =====
-- The invariant of the in-memory backend.
use tiny_cache.Base.{
  ℕ, ◌≤◌, ◌<◌, ◌≡◌, refl, Text, Bytes, ℤ, Option, Option-cases, inl, inr, [], ◌∷◌, length, drop,
  length-append, arith,
}
use tiny_cache.Dict.{Dict, lookup, remove, move_to_end, Distinct}
use tiny_cache.Dict.Laws.{
  lookup-remove_self, remove-Distinct, drop-Distinct, snoc-Distinct, lookup-drop-none,
  length-remove, length-remove-le,
}
use tiny_cache.StoreModels.{Env, CacheEntry, new_entry}
use tiny_cache.MemoryStore.State.{CacheStore, remove_entry}
use tiny_cache.MemoryStore.Sizes.{
  total, Every, total-append, total-remove, remove-Every, drop-Every, snoc-Every, lookup-Every,
}
use tiny_cache.MemoryStore.Evicted.{IsConsistent}
use tiny_cache.MemoryStore.Room.{MakesRoom}
use tiny_cache.MemoryStore.Written.{without, written, refused}

-- The size on record is the size of the value, and no larger than the limit.
pub record IsMeasured (env : Env) (limit : ℕ) (entry : CacheEntry) : Type 0 where
  pub measured : entry.size_bytes ≡ env.getsizeof entry.value
  pub small : entry.size_bytes ≤ limit

-- The facts about a store's dict and its byte counter.
pub record Holds (env : Env) (max_items max_memory max_value : ℕ) (d : Dict CacheEntry) (bytes : ℕ)
    : Type 0 where
  pub distinct : Distinct d
  pub counted : bytes ≡ total d
  pub within_memory : bytes ≤ max_memory
  pub within_items : length d ≤ max_items
  pub measured : Every (IsMeasured env max_value) d

-- The limits can be worked with, the counters of evictions agree, and no write was ever refused
-- for want of room.
pub record IsSteady (max_items max_memory max_value evictions lru_evictions rejected : ℕ)
    : Type 0 where
  pub items : 0 < max_items
  pub value-le-memory : max_value ≤ max_memory
  pub agreed : evictions ≡ lru_evictions
  pub never_full : rejected ≡ 0

abbrev pub HoldsIn : Env → CacheStore → Type 0
HoldsIn env s =
    Holds env s.max_items s.max_memory_bytes s.max_value_bytes s.store s.current_memory_bytes

abbrev pub IsSteadyIn : CacheStore → Type 0
IsSteadyIn s =
    IsSteady s.max_items s.max_memory_bytes s.max_value_bytes s.evictions s.lru_evictions
      s.rejected_capacity

-- The invariant of a store: it does not speak of the other counters.
abbrev pub IsValid : Env → CacheStore → Type 0
IsValid env s = HoldsIn env s × IsSteadyIn s

pub IsValid-IsConsistent : (env : Env) (s : CacheStore) → IsValid env s → IsConsistent s
IsValid-IsConsistent env s (h, _) = record { distinct = h.distinct; counted = h.counted }

module _ (env : Env) (key : Text) (s : CacheStore) where
  pub remove_entry-IsValid : IsValid env s → IsValid env (remove_entry key s)
  unfolding remove_entry
  remove_entry-IsValid (h, st) = elim (Option-cases (lookup key s.store)) [
    | inl absent ↦ rw (absent, remove_entry) (h, st)
    | inr (e, found) ↦
        let weight = total-remove key s.store e h.distinct found in
        rw (found, remove_entry)
          (
            record {
              distinct = remove-Distinct key s.store h.distinct;
              counted = omega (arith, h.counted, weight);
              within_memory = omega (arith, h.within_memory);
              within_items = omega (arith, h.within_items, length-remove-le key s.store);
              measured = remove-Every (IsMeasured env s.max_value_bytes) key s.store h.measured;
            },
            st,
          )
  ]

  -- The dict with the key moved to the end.
  pub move_to_end-Holds :
      HoldsIn env s
      → Holds env s.max_items s.max_memory_bytes s.max_value_bytes
          (move_to_end key s.store)
          s.current_memory_bytes
  unfolding move_to_end
  move_to_end-Holds h = elim (Option-cases (lookup key s.store)) [
    | inl absent ↦ rw (absent, move_to_end) h
    | inr (e, found) ↦
        let d = remove key s.store in
        let gone = lookup-remove_self key s.store in
        rw (found, move_to_end)
          (record {
            distinct = snoc-Distinct key e d gone (remove-Distinct key s.store h.distinct);
            counted = omega (
              arith,
              h.counted,
              total-append d ((key, e) ∷ []),
              total-remove key s.store e h.distinct found,
            );
            within_memory = h.within_memory;
            within_items = omega (
              arith,
              h.within_items,
              length-append d ((key, e) ∷ []),
              length-remove key s.store e h.distinct found,
            );
            measured =
                snoc-Every (IsMeasured env s.max_value_bytes) key e d
                  (remove-Every (IsMeasured env s.max_value_bytes) key s.store h.measured)
                  (lookup-Every (IsMeasured env s.max_value_bytes) key s.store e h.measured found);
          })
  ]

  pub refused-IsValid : IsValid env s → IsValid env (refused key s)
  unfolding refused
  refused-IsValid (h, st) = (move_to_end-Holds h, st)

  pub written-IsValid :
      (value : Bytes) (ttl : Option ℤ) (n : ℕ)
      → IsValid env s
      → env.getsizeof value ≤ s.max_value_bytes
      → MakesRoom (without key s) (env.getsizeof value) n
      → IsValid env (written env key value ttl n s)
  unfolding written new_entry
  written-IsValid value ttl n (h, st) small r =
      let d = drop n (remove key s.store) in
      let entry = new_entry env value ttl (env.clock s.reads) in
      let gone = lookup-remove_self key s.store in
      (
        record {
          distinct =
              snoc-Distinct key entry d (lookup-drop-none key n (remove key s.store) gone)
                (drop-Distinct n (remove key s.store) (remove-Distinct key s.store h.distinct));
          counted = omega (arith, total-append d ((key, entry) ∷ []));
          within_memory = r.room.memory;
          within_items = omega (arith, r.room.items, length-append d ((key, entry) ∷ []));
          measured =
              snoc-Every (IsMeasured env s.max_value_bytes) key entry d
                (drop-Every (IsMeasured env s.max_value_bytes) n (remove key s.store)
                  (remove-Every (IsMeasured env s.max_value_bytes) key s.store h.measured))
                (record { measured = refl; small = small });
        },
        record {
          items = st.items;
          value-le-memory = st.value-le-memory;
          agreed = omega (arith, st.agreed);
          never_full = st.never_full;
        },
      )
