-- ===== src/SqliteStore/Rows.antt =====
-- What the statements of the SQLite backend leave in the table, key by key.
use tiny_cache.Base.{
  ℕ, suc, ◌≡◌, ◌≢◌, refl, ◌∙◌, Text, Text-discrete, Bytes, ℤ, pos, negsuc, zero, Option, none, some,
}
use tiny_cache.Dict.{lookup, remove}
use tiny_cache.Dict.Laws.{lookup-remove_self, lookup-remove_ne, lookup-snoc_self, lookup-snoc_ne}
use tiny_cache.StoreModels.{Env, CacheEntry, new_entry, normalize_ttl}
use tiny_cache.SqliteStore.State.{
  SqliteStore, Row, insert_row, insert_or_replace, restore_row, row_to_entry, ttl_column,
}
use tiny_cache.SqliteStore.Writing.{restore_old}

pub lookup-insert_row_self :
    (env : Env) (key : Text) (entry : CacheEntry) (s : SqliteStore)
    → (row : Row) × (lookup key (insert_row env key entry s).rows ≡ some row)
      × (row.value ≡ entry.value)
      × (row.ttl ≡ entry.ttl)
      × (row.created_at ≡ entry.created_at)
unfolding insert_row insert_or_replace
lookup-insert_row_self env key entry s = (
  _,
  lookup-snoc_self key _ (remove key s.rows) (lookup-remove_self key s.rows),
  refl,
  refl,
  refl,
)

pub lookup-insert_row_ne :
    (env : Env) (key : Text) (entry : CacheEntry) (s : SqliteStore) (j : Text)
    → key ≢ j
    → lookup j (insert_row env key entry s).rows ≡ lookup j s.rows
unfolding insert_row insert_or_replace
lookup-insert_row_ne env key entry s j h =
    lookup-snoc_ne key j _ (remove key s.rows) h ∙ lookup-remove_ne key j s.rows h

pub lookup-restore_old :
    (key : Text) (old_row : Option Row) (s t : SqliteStore) (j : Text)
    → lookup key s.rows ≡ old_row
    → lookup key t.rows ≡ none
    → ((i : Text) → key ≢ i → lookup i t.rows ≡ lookup i s.rows)
    → lookup j (restore_old key old_row t).rows ≡ lookup j s.rows
unfolding restore_row insert_or_replace
lookup-restore_old key none s t j old gone same = elim (Text-discrete key j) [
  | yes p ↦ cc (old, gone, p)
  | no p ↦ same j p
]
lookup-restore_old key (some row) s t j old gone same = elim (Text-discrete key j) [
  | yes p ↦
      let back = lookup-snoc_self key row (remove key t.rows) (lookup-remove_self key t.rows) in
      cc (old, back, p)
  | no p ↦
      lookup-snoc_ne key j row (remove key t.rows) p ∙ lookup-remove_ne key j t.rows p ∙ same j p
]

pub normalize_ttl-column :
    (ttl : Option ℤ) → normalize_ttl (ttl_column (normalize_ttl ttl)) ≡ normalize_ttl ttl
normalize_ttl-column none = refl
normalize_ttl-column (some (pos zero)) = refl
normalize_ttl-column (some (pos (suc n))) = refl
normalize_ttl-column (some (negsuc n)) = refl

-- What a process reads back from a row is the entry that was written to it.
pub entry_of-row :
    (env there : Env) (value : Bytes) (ttl : Option ℤ) (now : ℕ) (row : Row)
    → row.value ≡ (new_entry env value ttl now).value
    → row.ttl ≡ (new_entry env value ttl now).ttl
    → row.created_at ≡ (new_entry env value ttl now).created_at
    → row_to_entry there row ≡ new_entry there value ttl now
unfolding row_to_entry new_entry
entry_of-row env there value ttl now row p q r =
    rw p (rw q (rw r (rw (normalize_ttl-column ttl) refl)))
