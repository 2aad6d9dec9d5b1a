-- ===== src/MemoryStore/Deletion.antt =====
-- What a client of the in-memory backend can rely on: `delete`.
use tiny_cache.Base.{
  ◌≡◌, refl, ap, ◌∙◌, sym, Text, Text-discrete, true, false, none, some, Option-cases, inl, inr,
  ite, if_pos, if_neg,
}
use tiny_cache.Errors.{ok}
use tiny_cache.Dict.{Dict, lookup}
use tiny_cache.Dict.Laws.{lookup-remove}
use tiny_cache.Domain.{validate_key}
use tiny_cache.StoreModels.{CacheEntry}
use tiny_cache.MemoryStore.State.{CacheStore, remove_entry}
use tiny_cache.MemoryStore.Methods.{delete, delete_entry}

module _ (key : Text) (d : Dict CacheEntry) (j : Text) where
  lookup_absent : lookup key d ≡ none → lookup j d ≡ ite (Text-discrete key j) none (lookup j d)
  lookup_absent absent = elim (Text-discrete key j) [
    | yes same ↦
        rw (if_pos (Text-discrete key j) same none (lookup j d))
          (ap (λ i. lookup i d) (sym same) ∙ absent)
    | no other ↦ rw (if_neg (Text-discrete key j) other none (lookup j d)) refl
  ]

-- `delete` of an accepted key answers whether the key had an entry, expired or not; it drops that
-- entry and no other, and counts neither a hit nor a miss nor an expired removal.
pub delete_lem :
    (key : Text) (s : CacheStore)
    → validate_key key ≡ ok tt
    → ((delete key s).0 ≡ ok (elim (lookup key s.store) [ none ↦ false | some _ ↦ true ]))
      × ((j : Text)
          → lookup j (delete key s).1.store ≡ ite (Text-discrete key j) none (lookup j s.store))
      × ((delete key s).1.hits ≡ s.hits)
      × ((delete key s).1.misses ≡ s.misses)
      × ((delete key s).1.expired_removals ≡ s.expired_removals)
unfolding delete delete_entry remove_entry
delete_lem key s accepted = elim (Option-cases (lookup key s.store)) [
  | inl absent ↦
      rw (accepted, delete)
        (rw (absent, delete_entry)
          (refl, λ j. lookup_absent key s.store j absent, refl, refl, refl))
  | inr (e, found) ↦
      rw (accepted, delete)
        (rw (found, delete_entry)
          (rw (found, remove_entry) (refl, λ j. lookup-remove key j s.store, refl, refl, refl)))
]
