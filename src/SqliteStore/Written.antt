-- ===== src/SqliteStore/Written.antt =====
-- A write: what it evicts, what it stores, and when it is refused.
use tiny_cache.Base.{
  ℕ, suc, ◌+◌, ◌≤◌, ◌<◌, ◌≡◌, ◌≢◌, refl, ap, subst, ◌∙◌, Text, Bytes, ℤ, Bool, true, false,
  Bool-cases, Option, none, some, Option-cases, List-cases, inl, inr, [], length, ltb, arith,
  le→leb, le→ltb-false, lt→ltb, leb-false→lt,
}
use tiny_cache.Dict.{lookup}
use tiny_cache.Dict.Laws.{lookup-remove_self, lookup-remove_ne, length-remove}
use tiny_cache.Results.{CacheSetStatus}
use tiny_cache.StoreModels.{Env, CacheEntry, new_entry}
use tiny_cache.SqliteStore.State.{
  SqliteStore, Row, Database, IsOrdered, sum_sizes, insert_row, restore_row, remove_row,
}
use tiny_cache.SqliteStore.Eviction.{evict_to_fit, is_over_memory}
use tiny_cache.SqliteStore.Writing.{
  remove_old, restore_old, free_memory, has_no_item_room, make_item_room, place, admit_freed,
  store_value,
}
use tiny_cache.SqliteStore.Consistent.{
  IsConsistent, remove_row-removed, remove_row-IsConsistent, restore_row-IsConsistent,
  insert_row-IsConsistent, sum_sizes-remove,
}
use tiny_cache.SqliteStore.Evicted.{
  Evicting, stops, evict_while-Evicting, Evicting-ended, Evicting-IsConsistent, Evicting-SameFrame,
  Evicting-le, Evicting-kept,
}

-- the test of the loop over the number of rows, which a write over an old row skips
abbrev pub lacks_items : Option Row → SqliteStore → Bool
lacks_items none s = has_no_item_room s
lacks_items (some _) s = false

module _ (db : Database) (order : IsOrdered db) where
  no_rows_over :
      (size : ℕ) (u : SqliteStore) → IsConsistent u → u.rows ≡ [] → is_over_memory size u ≡ false
  no_rows_over size u c p = ground (arith, c.entries, ap length p)

  pub fits_after :
      (size : ℕ) (u : SqliteStore)
      → IsConsistent u
      → size ≤ u.max_memory_bytes
      → is_over_memory size u ≡ false
      → u.current_memory_bytes + size ≤ u.max_memory_bytes
  fits_after size u c small ended = elim (List-cases u.rows) [
    | inl p ↦ omega (arith, c.counted, ap sum_sizes p)
    | inr (x, rows, p) ↦ ground (arith, c.entries, ap length p)
  ]

  pub free_memory-Evicting :
      (size : ℕ) (s : SqliteStore)
      → IsConsistent s
      → size ≤ s.max_memory_bytes
      → (n : ℕ) × (u : SqliteStore) × (free_memory db size s ≡ (true, u))
        × Evicting db (is_over_memory size) n s u
  unfolding free_memory evict_to_fit
  free_memory-Evicting size s c small =
      elim (Bool-cases (ltb s.max_memory_bytes (s.current_memory_bytes + size))) [
        | inl over ↦
            let (n, u, run, evicting) =
              evict_while-Evicting db order (suc (length s.rows)) (is_over_memory size) s c
                (λ u cu _ p. no_rows_over size u cu p) (omega arith) in
            let frame = Evicting-SameFrame evicting in
            let fits =
              fits_after size u (Evicting-IsConsistent evicting c) (omega (arith, frame.memory))
                (Evicting-ended evicting) in
            (n, u, rw (over, free_memory) (cc (run, le→leb _ _ fits)), evicting)
        | inr room ↦ (0, s, rw (room, free_memory) refl, stops (ground arith))
      ]

  pub make_item_room-Evicting :
      (old_row : Option Row) (s : SqliteStore)
      → IsConsistent s
      → 0 < s.max_items
      → (n : ℕ) × (u : SqliteStore) × (make_item_room db old_row s ≡ (true, u))
        × Evicting db (lacks_items old_row) n s u
  unfolding make_item_room
  make_item_room-Evicting none s c items =
      evict_while-Evicting db order (suc (length s.rows)) has_no_item_room s c
        (λ u cu same p. ground (arith, cu.entries, ap length p)) (omega arith)
  make_item_room-Evicting (some row) s c items = (0, s, refl, stops refl)

restore_old-IsConsistent :
    (key : Text) (old_row : Option Row) (s : SqliteStore)
    → lookup key s.rows ≡ none
    → IsConsistent s
    → IsConsistent (restore_old key old_row s)
restore_old-IsConsistent key none s absent c = c
restore_old-IsConsistent key (some row) s absent c = restore_row-IsConsistent key s row absent c

module _ (env : Env) (db : Database) (order : IsOrdered db) (key : Text) (value : Bytes)
    (ttl : Option ℤ) (old_row : Option Row) (s : SqliteStore) (old : lookup key s.rows ≡ old_row)
    (c : IsConsistent s) where
  abbrev pub started : SqliteStore
  started = record (remove_old key old_row s) { reads = s.reads + 1 }

  abbrev pub stored_entry : CacheEntry
  stored_entry = new_entry env value ttl (env.clock s.reads)

  reads-remove_old : (remove_old key old_row s).reads ≡ s.reads
  unfolding remove_row
  reads-remove_old = ground arith

  remove_old-IsConsistent : IsConsistent (remove_old key old_row s)
  remove_old-IsConsistent = elim (Option-cases old_row) [
    | inl p ↦ rw (p, remove_old) c
    | inr (row, p) ↦ rw (p, remove_old) (remove_row-IsConsistent key s c)
  ]

  pub started-IsConsistent : IsConsistent started
  started-IsConsistent =
      let r = remove_old-IsConsistent in
      record { distinct = r.distinct; counted = r.counted; entries = r.entries }

  pub started-frame :
      (started.max_items ≡ s.max_items)
      × (started.max_memory_bytes ≡ s.max_memory_bytes)
      × (started.max_value_bytes ≡ s.max_value_bytes)
  unfolding remove_row
  started-frame = ground arith

  -- an old row leaves room for the new one
  pub started-entry_count :
      started.entry_count + 1 ≤ elim old_row [ none ↦ s.entry_count + 1 | some _ ↦ s.entry_count ]
  started-entry_count = elim (Option-cases old_row) [
    | inl p ↦ rw (p, remove_old) (omega arith)
    | inr (row, p) ↦
        rw (p, remove_old)
          (rw (remove_row-removed key s row (old ∙ p))
            (omega (arith, c.entries, length-remove key s.rows row c.distinct (old ∙ p))))
  ]

  pub lookup-started_self : lookup key started.rows ≡ none
  unfolding remove_row
  lookup-started_self = elim (Option-cases old_row) [
    | inl p ↦ rw (p, remove_old) (old ∙ p)
    | inr (row, p) ↦ rw (p, remove_old) (rw (old ∙ p, remove_row) (lookup-remove_self key s.rows))
  ]

  pub lookup-started_ne : (j : Text) → key ≢ j → lookup j started.rows ≡ lookup j s.rows
  unfolding remove_row
  lookup-started_ne j h = elim (Option-cases old_row) [
    | inl p ↦ rw (p, remove_old) refl
    | inr (row, p) ↦ rw (p, remove_old) (rw (old ∙ p, remove_row) (lookup-remove_ne key j s.rows h))
  ]

  -- The two loops of a write: first for the memory, then, for a new key, for the number of rows.
  pub record Evictions (u : SqliteStore) : Type 0 where
    pub for_memory : ℕ
    pub for_items : ℕ
    pub freed : SqliteStore
    pub memory : Evicting db (is_over_memory (env.getsizeof value)) for_memory started freed
    pub items : Evicting db (lacks_items old_row) for_items freed u

  admit_freed-written :
      env.getsizeof value ≤ s.max_memory_bytes
      → 0 < s.max_items
      → (u : SqliteStore) × (admit_freed env db key stored_entry old_row
            (free_memory db (env.getsizeof value) started)
          ≡ (CacheSetStatus.ok_status, insert_row env key stored_entry u))
        × Evictions u
  unfolding admit_freed place
  admit_freed-written small items =
      let (same_items, same_memory, _) = started-frame in
      let (m, freed, run, memory) =
        free_memory-Evicting db order (env.getsizeof value) started started-IsConsistent
          (omega (arith, same_memory)) in
      let frame = Evicting-SameFrame memory in
      let (k, u, run', rest) =
        make_item_room-Evicting db order old_row freed
          (Evicting-IsConsistent memory started-IsConsistent)
          (omega (arith, frame.items, same_items)) in
      (
        u,
        rw run (rw run' refl),
        record { for_memory = m; for_items = k; freed = freed; memory = memory; items = rest },
      )

  pub store_value-written :
      env.getsizeof value ≤ s.max_value_bytes
      → s.max_value_bytes ≤ s.max_memory_bytes
      → 0 < s.max_items
      → (u : SqliteStore) × (store_value env db key value ttl old_row s
          ≡ (CacheSetStatus.ok_status, insert_row env key stored_entry u))
        × Evictions u
  unfolding store_value new_entry
  store_value-written small limit items =
      let (u, run, evictions) = admit_freed-written (omega arith) items in
      let (_, _, same_value) = started-frame in
      (
        u,
        rw reads-remove_old (
            rw
              (le→ltb-false started.max_value_bytes (env.getsizeof value)
                (omega (arith, same_value)))
              run),
        evictions,
      )

  -- no eviction brings the key back
  absent : (u : SqliteStore) → Evictions u → lookup key u.rows ≡ none
  absent u e = elim (Option-cases (lookup key u.rows)) [
    | inl p ↦ p
    | inr (row, kept) ↦ absurd (
        cc (
          lookup-started_self,
          Evicting-kept key row e.memory (Evicting-kept key row e.items kept),
        ))
  ]

  -- A write that is refused puts the old row back, with the time at which it was last accessed.
  abbrev pub refused : SqliteStore
  refused =
      let restored = restore_old key old_row started in
      record restored { rejected_oversize = restored.rejected_oversize + 1 }

  pub refused-counters :
      (refused.current_memory_bytes ≡ s.current_memory_bytes)
      × (refused.entry_count ≡ s.entry_count)
      × (refused.rejected_oversize ≡ s.rejected_oversize + 1)
  unfolding restore_row remove_row
  refused-counters = elim (Option-cases old_row) [
    | inl p ↦ rw p (refl, refl, refl)
    | inr (row, p) ↦
        let less = sum_sizes-remove key s.rows row c.distinct (old ∙ p) in
        let fewer = length-remove key s.rows row c.distinct (old ∙ p) in
        ground (arith, old ∙ p, p, less, fewer, c.counted, c.entries)
  ]

  pub refused-IsConsistent : IsConsistent refused
  refused-IsConsistent =
      let r =
        restore_old-IsConsistent key old_row started lookup-started_self started-IsConsistent in
      record { distinct = r.distinct; counted = r.counted; entries = r.entries }

  pub store_value-refused :
      s.max_value_bytes < env.getsizeof value
      → store_value env db key value ttl old_row s ≡ (CacheSetStatus.value_too_large, refused)
  unfolding store_value new_entry
  store_value-refused large =
      let (_, _, same_value) = started-frame in
      rw reads-remove_old
        (rw (lt→ltb started.max_value_bytes (env.getsizeof value) (omega (arith, same_value))) refl)

  -- A write leaves the table within the limit on memory, and for a new key within the limit on
  -- rows, even if it exceeded them; over an old row it adds none.
  pub written-within :
      (u : SqliteStore)
      → env.getsizeof value ≤ s.max_memory_bytes
      → Evictions u
      → ((insert_row env key stored_entry u).current_memory_bytes ≤ s.max_memory_bytes)
        × ((insert_row env key stored_entry u).entry_count
            ≤ elim old_row [ none ↦ s.max_items | some _ ↦ s.entry_count ])
  unfolding insert_row new_entry
  written-within u small e =
      let (same_items, same_memory, _) = started-frame in
      let freed_frame = Evicting-SameFrame e.memory in
      let frame = Evicting-SameFrame e.items in
      let (less, fewer) = Evicting-le e.items in
      let (less', fewer') = Evicting-le e.memory in
      let fits =
        fits_after db order (env.getsizeof value) e.freed
          (Evicting-IsConsistent e.memory started-IsConsistent)
          (omega (arith, freed_frame.memory, same_memory)) (Evicting-ended e.memory) in
      (
        omega (arith, fits, less, freed_frame.memory, same_memory),
        elim (Option-cases old_row) [
          | inl p ↦
              let room : has_no_item_room u ≡ false =
                rw (p, lacks_items) at (Evicting-ended e.items) in
              rw p
                (omega (arith, leb-false→lt _ _ room, frame.items, freed_frame.items, same_items))
          | inr (row, p) ↦
              let before =
                subst
                  (λ (o : Option Row).
                    started.entry_count + 1
                    ≤ elim o [ none ↦ s.entry_count + 1 | some _ ↦ s.entry_count ])
                  p started-entry_count in
              rw p (omega (arith, fewer, fewer', before))
        ],
      )

  pub inserted-IsConsistent :
      (u : SqliteStore) → Evictions u → IsConsistent (insert_row env key stored_entry u)
  inserted-IsConsistent u e =
      let before = Evicting-IsConsistent e.memory started-IsConsistent in
      insert_row-IsConsistent key u env stored_entry (absent u e)
        (Evicting-IsConsistent e.items before)
