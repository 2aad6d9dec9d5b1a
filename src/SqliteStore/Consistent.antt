-- ===== src/SqliteStore/Consistent.antt =====
-- The counters that the process keeps agree with the table.
use tiny_cache.Base.{
  ◌+◌, ◌-◌, ◌≡◌, refl, Text, true, none, some, Option-cases, inl, inr, [], ◌∷◌, ◌++◌, length,
  length-append, arith,
}
use tiny_cache.Dict.{Dict, lookup, remove, Distinct}
use tiny_cache.Dict.Laws.{remove_absent, remove-Distinct, snoc-Distinct, length-remove}
use tiny_cache.StoreModels.{Env, CacheEntry}
use tiny_cache.SqliteStore.State.{
  SqliteStore, Row, sum_sizes, remove_row, insert_row, insert_or_replace, restore_row,
}

pub record IsConsistent (s : SqliteStore) : Type 0 where
  pub distinct : Distinct s.rows
  pub counted : s.current_memory_bytes ≡ sum_sizes s.rows
  pub entries : s.entry_count ≡ length s.rows

pub sum_sizes-remove :
    (k : Text) (rows : Dict Row) (row : Row)
    → Distinct rows
    → lookup k rows ≡ some row
    → sum_sizes (remove k rows) + row.size_bytes ≡ sum_sizes rows
unfolding lookup remove
sum_sizes-remove k [] row g h = cc
sum_sizes-remove k ((i, f) ∷ rows) row g h =
    ground (arith, sum_sizes-remove k rows row g.1, remove_absent k rows)

pub sum_sizes-append : (d f : Dict Row) → sum_sizes (d ++ f) ≡ sum_sizes d + sum_sizes f
sum_sizes-append [] f = omega arith
sum_sizes-append ((i, row) ∷ d) f = omega (arith, sum_sizes-append d f)

-- the store without a row that it has
abbrev pub removed : Text → Row → SqliteStore → SqliteStore
removed key row s = record s {
  rows = remove key s.rows;
  current_memory_bytes = s.current_memory_bytes - row.size_bytes;
  entry_count = s.entry_count - 1;
}

module _ (key : Text) (s : SqliteStore) where
  pub remove_row-removed :
      (row : Row) → lookup key s.rows ≡ some row → remove_row key s ≡ (true, removed key row s)
  unfolding remove_row
  remove_row-removed row found = rw (found, remove_row) refl

  pub removed-IsConsistent :
      (row : Row) → lookup key s.rows ≡ some row → IsConsistent s → IsConsistent (removed key row s)
  removed-IsConsistent row found c = record {
    distinct = remove-Distinct key s.rows c.distinct;
    counted = omega (arith, c.counted, sum_sizes-remove key s.rows row c.distinct found);
    entries = omega (arith, c.entries, length-remove key s.rows row c.distinct found);
  }

  pub remove_row-IsConsistent : IsConsistent s → IsConsistent (remove_row key s).1
  unfolding remove_row
  remove_row-IsConsistent c = elim (Option-cases (lookup key s.rows)) [
    | inl absent ↦ rw (absent, remove_row) c
    | inr (row, found) ↦ rw (found, remove_row) (removed-IsConsistent row found c)
  ]

  pub insert_row-IsConsistent :
      (env : Env) (entry : CacheEntry)
      → lookup key s.rows ≡ none
      → IsConsistent s
      → IsConsistent (insert_row env key entry s)
  unfolding insert_row insert_or_replace
  insert_row-IsConsistent env entry absent c = rw (remove_absent key s.rows absent) (record {
    distinct = snoc-Distinct key _ s.rows absent c.distinct;
    counted = omega (arith, c.counted, sum_sizes-append s.rows (_ ∷ []));
    entries = omega (arith, c.entries, length-append s.rows (_ ∷ []));
  })

  pub restore_row-IsConsistent :
      (row : Row) → lookup key s.rows ≡ none → IsConsistent s → IsConsistent (restore_row key row s)
  unfolding restore_row insert_or_replace
  restore_row-IsConsistent row absent c = rw (remove_absent key s.rows absent) (record {
    distinct = snoc-Distinct key row s.rows absent c.distinct;
    counted = omega (arith, c.counted, sum_sizes-append s.rows ((key, row) ∷ []));
    entries = omega (arith, c.entries, length-append s.rows ((key, row) ∷ []));
  })
