-- ===== src/SqliteStore/Evicted.antt =====
-- What the eviction loops do: each turn takes off a row that was accessed earliest.
use tiny_cache.Base.{
  ℕ, zero, suc, ◌+◌, ◌≤◌, ◌<◌, ◌≡◌, refl, ap, sym, ◌∙◌, subst, Text, Text-discrete, Bool, true,
  false, Bool-cases, none, some, inl, inr, List-cases, [], ◌∷◌, length, arith,
}
use tiny_cache.Dict.{Dict, lookup, Distinct}
use tiny_cache.Dict.Laws.{lookup-remove_self, lookup-remove_ne, length-remove}
use tiny_cache.SqliteStore.State.{SqliteStore, Row, Database, IsOrdered, AccessedSince, remove_row}
use tiny_cache.SqliteStore.Eviction.{evict_lru, evict_while}
use tiny_cache.SqliteStore.Consistent.{IsConsistent, removed, removed-IsConsistent}

-- the store after the eviction of a row
abbrev pub dropped : Text → Row → SqliteStore → SqliteStore
dropped key row s = record (removed key row s) {
  evictions = s.evictions + 1;
  lru_evictions = s.lru_evictions + 1;
}

-- A run of an eviction loop: it goes on exactly while its test holds.
pub data Evicting (db : Database) (test : SqliteStore → Bool)
    : ℕ → SqliteStore → SqliteStore → Type 0 where
  stops : {s : SqliteStore} → test s ≡ false → Evicting db test 0 s s
  evicts :
      {n : ℕ} {s u : SqliteStore} (key : Text) (row : Row)
      → test s ≡ true
      → db.oldest s.rows ≡ some key
      → lookup key s.rows ≡ some row
      → Evicting db test n (dropped key row s) u
      → Evicting db test (suc n) s u

module _ (db : Database) where
  pub evict_lru-dropped :
      (s : SqliteStore) (key : Text) (row : Row)
      → db.oldest s.rows ≡ some key
      → lookup key s.rows ≡ some row
      → evict_lru db s ≡ (true, dropped key row s)
  unfolding evict_lru remove_row
  evict_lru-dropped s key row first found = ground (arith, first, found)

  evict_while_step :
      (fuel : ℕ) (test : SqliteStore → Bool) (s s' : SqliteStore)
      → test s ≡ true
      → evict_lru db s ≡ (true, s')
      → evict_while db (suc fuel) test s ≡ evict_while db fuel test s'
  unfolding evict_while
  evict_while_step fuel test s s' more step =
      rw (more, evict_while)
        (rw (ap (λ r. r.0) step, evict_while) (ap (λ r. evict_while db fuel test r.1) step))

  -- An eviction loop ends by its test, never because the table is empty or the fuel is used up: on a
  -- consistent table, with a test that is false once no row is left, and with more fuel than there
  -- are rows. Each turn evicts a row that was accessed earliest, while the test holds.
  pub evict_while-Evicting :
      IsOrdered db
      → (fuel : ℕ) (test : SqliteStore → Bool) (s : SqliteStore) → IsConsistent s
      → ((u : SqliteStore)
          → IsConsistent u
          → u.max_items ≡ s.max_items
          → u.rows ≡ []
          → test u ≡ false)
      → length s.rows < fuel
      → (n : ℕ) × (u : SqliteStore) × (evict_while db fuel test s ≡ (true, u))
        × Evicting db test n s u
  unfolding evict_while
  evict_while-Evicting order zero test s c e l = absurd (omega arith)
  evict_while-Evicting order (suc fuel) test s c e l = elim (Bool-cases (test s)) [
    | inl more ↦ elim (List-cases s.rows) [
      | inl none_left ↦ absurd (cc (e s c refl none_left))
      | inr (x, rows, p) ↦
          let (key, row, first, found, since) = order.first x rows (rw p at c.distinct) in
          let first' : db.oldest s.rows ≡ some key = rw p first in
          let found' : lookup key s.rows ≡ some row = rw p found in
          let s' = dropped key row s in
          let c' = removed-IsConsistent key s row found' c in
          let (n, u, run, evicting) =
            evict_while-Evicting order fuel test s'
              (record { distinct = c'.distinct; counted = c'.counted; entries = c'.entries }) e
              (omega (arith, length-remove key s.rows row c.distinct found')) in
          (
            suc n,
            u,
            evict_while_step fuel test s s' more (evict_lru-dropped s key row first' found') ∙ run,
            evicts key row more first' found' evicting,
          )
    ]
    | inr done ↦ (0, s, rw (done, evict_while) refl, stops done)
  ]

-- Two stores with the same limits, and the same clock.
pub record SameFrame (s u : SqliteStore) : Type 0 where
  pub items : u.max_items ≡ s.max_items
  pub memory : u.max_memory_bytes ≡ s.max_memory_bytes
  pub value : u.max_value_bytes ≡ s.max_value_bytes
  pub reads : u.reads ≡ s.reads
  pub hits : u.hits ≡ s.hits
  pub misses : u.misses ≡ s.misses
  pub expired : u.expired_removals ≡ s.expired_removals
  pub rejected : u.rejected_capacity ≡ s.rejected_capacity

AccessedSince-lookup :
    (time : ℕ) (rows : Dict Row) (j : Text) (row : Row)
    → AccessedSince time rows
    → lookup j rows ≡ some row
    → time ≤ row.last_accessed
unfolding lookup
AccessedSince-lookup time [] j row h found = cc
AccessedSince-lookup time ((i, first) ∷ rows) j row h found = elim (Text-discrete i j) [
  | yes p ↦ let same : first ≡ row = ground arith in subst (λ r. time ≤ r.last_accessed) same h.0
  | no p ↦ AccessedSince-lookup time rows j row h.1 (ground arith)
]

oldest-first :
    {db : Database} (rows : Dict Row) (key : Text) (row : Row)
    → IsOrdered db
    → db.oldest rows ≡ some key
    → lookup key rows ≡ some row
    → Distinct rows
    → AccessedSince row.last_accessed rows
unfolding lookup
oldest-first [] key row order first found d = cc
oldest-first (x ∷ rows) key row order first found d =
    let (k, r, first', found', since) = order.first x rows d in
    let same_key : k ≡ key = cc (first, first') in
    let same : r ≡ row = cc (found, found', same_key) in
    subst (λ (r : Row). AccessedSince r.last_accessed (x ∷ rows)) same since

module _ {db : Database} {test : SqliteStore → Bool} where
  pub Evicting-ended : {n : ℕ} {s u : SqliteStore} → Evicting db test n s u → test u ≡ false
  Evicting-ended (stops h) = h
  Evicting-ended (evicts key row more first found run) = Evicting-ended run

  pub Evicting-IsConsistent :
      {n : ℕ} {s u : SqliteStore} → Evicting db test n s u → IsConsistent s → IsConsistent u
  Evicting-IsConsistent (stops h) c = c
  Evicting-IsConsistent {s = s} (evicts key row more first found run) c =
      let c' = removed-IsConsistent key s row found c in
      Evicting-IsConsistent run
        (record { distinct = c'.distinct; counted = c'.counted; entries = c'.entries })

  pub Evicting-SameFrame : {n : ℕ} {s u : SqliteStore} → Evicting db test n s u → SameFrame s u
  Evicting-SameFrame (stops h) = record {
    items = refl;
    memory = refl;
    value = refl;
    reads = refl;
    hits = refl;
    misses = refl;
    expired = refl;
    rejected = refl;
  }
  Evicting-SameFrame (evicts key row more first found run) =
      let f = Evicting-SameFrame run in
      record {
        items = f.items;
        memory = f.memory;
        value = f.value;
        reads = f.reads;
        hits = f.hits;
        misses = f.misses;
        expired = f.expired;
        rejected = f.rejected;
      }

  pub Evicting-le :
      {n : ℕ} {s u : SqliteStore}
      → Evicting db test n s u
      → (u.current_memory_bytes ≤ s.current_memory_bytes) × (u.entry_count ≤ s.entry_count)
  Evicting-le (stops h) = (omega arith, omega arith)
  Evicting-le (evicts key row more first found run) =
      let (memory, count) = Evicting-le run in (omega (arith, memory), omega (arith, count))

  -- An eviction adds no row and changes none.
  pub Evicting-kept :
      {n : ℕ} {s u : SqliteStore} (j : Text) (row : Row)
      → Evicting db test n s u
      → lookup j u.rows ≡ some row
      → lookup j s.rows ≡ some row
  Evicting-kept j row (stops h) kept = kept
  Evicting-kept {s = s} j row (evicts key old more first found run) kept =
      let before = Evicting-kept j row run kept in
      elim (Text-discrete key j) [
        | yes p ↦ absurd (cc (before, p, lookup-remove_self key s.rows))
        | no p ↦ sym (lookup-remove_ne key j s.rows p) ∙ before
      ]

  -- The rows that are evicted were accessed no later than the rows that are kept.
  pub Evicting-oldest :
      {n : ℕ} {s u : SqliteStore} (i j : Text) (gone kept : Row)
      → IsOrdered db
      → Evicting db test n s u
      → IsConsistent s
      → lookup i s.rows ≡ some gone
      → lookup i u.rows ≡ none
      → lookup j u.rows ≡ some kept
      → gone.last_accessed ≤ kept.last_accessed
  Evicting-oldest i j gone kept order (stops h) c there absent stays = cc
  Evicting-oldest {s = s} i j gone kept order (evicts key row more first found run) c there absent
        stays =
      elim (Text-discrete key i) [
        | yes p ↦
            let row_gone : row ≡ gone = cc (found, there, p) in
            subst (λ (r : Row). r.last_accessed ≤ kept.last_accessed) row_gone
              (AccessedSince-lookup row.last_accessed s.rows j kept
                (oldest-first s.rows key row order first found c.distinct)
                (Evicting-kept j kept (evicts key row more first found run) stays))
        | no p ↦
            let c' = removed-IsConsistent key s row found c in
            Evicting-oldest i j gone kept order run
              (record { distinct = c'.distinct; counted = c'.counted; entries = c'.entries })
              (lookup-remove_ne key i s.rows p ∙ there) absent stays
      ]
