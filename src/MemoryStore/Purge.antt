-- ===== src/MemoryStore/Purge.antt =====
-- What `stats` and a round of the cleaner remove: entries that have expired, and no live one.
use tiny_cache.Base.{
  ◌≤◌, ◌≡◌, refl, ◌∙◌, ℕ, Text, Text-discrete, Bool, true, false, ite, if◌then◌else◌, none, some,
  List, [], ◌∷◌, arith,
}
use tiny_cache.Dict.{Dict, lookup, Distinct}
use tiny_cache.Dict.Laws.{lookup-remove}
use tiny_cache.StoreModels.{Env, IsMonotonic, CacheEntry, has_expired}
use tiny_cache.MemoryStore.State.{CacheStore, remove_entry, remove_expired_entry}
use tiny_cache.MemoryStore.Expiry.{is_expired, expired_keys, remove_all_expired}

-- `j in keys`
unfoldable pub has : Text → List Text → Bool
has j [] = false
has j (k ∷ keys) = ite (Text-discrete k j) true (has j keys)

pub has_expired_later :
    {env : Env} (m n : ℕ) (e : CacheEntry)
    → IsMonotonic env
    → m ≤ n
    → has_expired env (env.clock m) e ≡ true
    → has_expired env (env.clock n) e ≡ true
unfolding has_expired
has_expired_later m n e mono h p = ground (arith, mono.later m n h)

module _ (env : Env) where
  pub reads-is_expired-le :
      (e : CacheEntry) (s : CacheStore) → s.reads ≤ (is_expired env e s).1.reads
  unfolding is_expired
  reads-is_expired-le e s = ground arith

  pub is_expired-has_expired :
      (e : CacheEntry) (s : CacheStore)
      → (is_expired env e s).0 ≡ has_expired env (env.clock s.reads) e
  unfolding is_expired has_expired
  is_expired-has_expired e s = ground arith

  -- Testing for expiry reads the clock and changes nothing else that is counted here.
  is_expired_frame :
      (e : CacheEntry) (s : CacheStore)
      → ((is_expired env e s).1.store ≡ s.store)
        × ((is_expired env e s).1.expired_removals ≡ s.expired_removals)
  unfolding is_expired
  is_expired_frame e s = ground arith

  pub expired_keys_frame :
      (items : Dict CacheEntry) (s : CacheStore)
      → ((expired_keys env items s).1.store ≡ s.store)
        × ((expired_keys env items s).1.expired_removals ≡ s.expired_removals)
        × (s.reads ≤ (expired_keys env items s).1.reads)
  unfolding expired_keys
  expired_keys_frame [] s = (refl, refl, omega arith)
  expired_keys_frame ((k, e) ∷ items) s =
      let s' = (is_expired env e s).1 in
      let (store, removals, reads) = expired_keys_frame items s' in
      let (store', removals') = is_expired_frame e s in
      (store ∙ store', removals ∙ removals', omega (arith, reads-is_expired-le e s))

  keys-of-items :
      (items : Dict CacheEntry) (s : CacheStore) (j : Text)
      → lookup j items ≡ none
      → has j (expired_keys env items s).0 ≡ false
  unfolding expired_keys has lookup
  keys-of-items [] s j h = refl
  keys-of-items ((k, e) ∷ items) s j h =
      ground (arith, keys-of-items items (is_expired env e s).1 j)

  -- An entry whose key was picked has expired by the end of the scan.
  pub picked_expired :
      IsMonotonic env
      → (items : Dict CacheEntry) (s : CacheStore) (j : Text) (e : CacheEntry) → Distinct items
      → lookup j items ≡ some e
      → has j (expired_keys env items s).0 ≡ true
      → has_expired env (env.clock (expired_keys env items s).1.reads) e ≡ true
  unfolding expired_keys has lookup
  picked_expired mono [] s j e d found h = cc
  picked_expired mono ((k, f) ∷ items) s j e d found h =
      let s' = (is_expired env f s).1 in
      let last = (expired_keys env items s').1.reads in
      let (_, _, reads) = expired_keys_frame items s' in
      let until : s.reads ≤ last = omega (arith, reads-is_expired-le f s) in
      ground (
        arith,
        is_expired-has_expired f s,
        has_expired_later s.reads last f mono until,
        keys-of-items items s' j,
        picked_expired mono items s' j e d.1,
      )

  -- An entry whose key was not picked had not expired when the scan began.
  pub passed_live :
      IsMonotonic env
      → (items : Dict CacheEntry) (s : CacheStore) (j : Text) (e : CacheEntry)
      → lookup j items ≡ some e
      → has j (expired_keys env items s).0 ≡ false
      → has_expired env (env.clock s.reads) e ≡ false
  unfolding expired_keys has lookup
  passed_live mono [] s j e found h = cc
  passed_live mono ((k, f) ∷ items) s j e found h =
      let s' = (is_expired env f s).1 in
      ground (
        arith,
        is_expired-has_expired f s,
        has_expired_later s.reads s'.reads e mono (reads-is_expired-le f s),
        passed_live mono items s' j e,
      )

lookup-remove_expired_entry :
    (k j : Text) (s : CacheStore)
    → lookup j (remove_expired_entry k s).store ≡ ite (Text-discrete k j) none (lookup j s.store)
unfolding remove_expired_entry remove_entry
lookup-remove_expired_entry k j s = ground (arith, lookup-remove k j s.store)

pub lookup-remove_all_expired :
    (keys : List Text) (j : Text) (s : CacheStore)
    → lookup j (remove_all_expired keys s).store ≡ (if has j keys then none else lookup j s.store)
unfolding remove_all_expired has
lookup-remove_all_expired [] j s = refl
lookup-remove_all_expired (k ∷ keys) j s = ground (
  arith,
  lookup-remove_all_expired keys j (remove_expired_entry k s),
  lookup-remove_expired_entry k j s,
)
