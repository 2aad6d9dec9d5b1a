-- ===== src/MemoryStore/Reports.antt =====
-- `stats`: what it purges first, and what it then reports.
use tiny_cache.Base.{
  ◌+◌, ◌≡◌, refl, ap, ap₂, subst, sym, ◌∙◌, Text, Bool-cases, false, if◌then◌else◌, Option, none,
  some, Option-cases, inl, inr, List, [], ◌∷◌, length, arith,
}
use tiny_cache.Dict.{Dict, lookup, Distinct}
use tiny_cache.Dict.Laws.{length-remove, remove-Distinct}
use tiny_cache.StoreModels.{Env, IsMonotonic, CacheEntry, has_expired}
use tiny_cache.MemoryStore.State.{CacheStore, remove_entry, remove_expired_entry}
use tiny_cache.MemoryStore.Expiry.{expired_keys, remove_all_expired, remove_expired_entries}
use tiny_cache.MemoryStore.Methods.{snapshot, stats}
use tiny_cache.MemoryStore.Checked.{view, view_now}
use tiny_cache.MemoryStore.Purge.{
  has, expired_keys_frame, picked_expired, passed_live, lookup-remove_all_expired,
}

-- The second holds what the first holds, if the first holds anything.
abbrev pub Within : Option CacheEntry → Option CacheEntry → Type 0
Within none y = Unit
Within (some e) y = y ≡ some e

remove_expired_entry_frame :
    (k : Text) (s : CacheStore)
    → Distinct s.store
    → Distinct (remove_expired_entry k s).store
      × (length (remove_expired_entry k s).store + (remove_expired_entry k s).expired_removals
          ≡ length s.store + s.expired_removals)
      × ((remove_expired_entry k s).reads ≡ s.reads)
unfolding remove_expired_entry remove_entry
remove_expired_entry_frame k s d = elim (Option-cases (lookup k s.store)) [
  | inl absent ↦ rw (absent, remove_expired_entry) (d, refl, refl)
  | inr (e, found) ↦
      rw (found, remove_expired_entry)
        (rw (found, remove_entry)
          (remove-Distinct k s.store d, omega (arith, length-remove k s.store e d found), refl))
]

remove_all_expired_frame :
    (keys : List Text) (s : CacheStore)
    → Distinct s.store
    → (length (remove_all_expired keys s).store + (remove_all_expired keys s).expired_removals
        ≡ length s.store + s.expired_removals)
      × ((remove_all_expired keys s).reads ≡ s.reads)
unfolding remove_all_expired
remove_all_expired_frame [] s d = (refl, refl)
remove_all_expired_frame (k ∷ keys) s d =
    let (d', count, reads) = remove_expired_entry_frame k s d in
    let (count', reads') = remove_all_expired_frame keys (remove_expired_entry k s) d' in
    (count' ∙ count, reads' ∙ reads)

module _ (env : Env) (s : CacheStore) where
  abbrev picked : List Text
  picked = (expired_keys env s.store s).0

  abbrev scanned : CacheStore
  scanned = (expired_keys env s.store s).1

  lookup-purged :
      (j : Text)
      → lookup j (remove_expired_entries env s).store
        ≡ (if has j picked then none else lookup j s.store)
  unfolding remove_expired_entries
  lookup-purged j =
      lookup-remove_all_expired picked j scanned
      ∙ ap (λ (d : Dict CacheEntry). if has j picked then none else lookup j d)
          (expired_keys_frame env s.store s).0

  purged_frame :
      Distinct s.store
      → (length (remove_expired_entries env s).store
            + (remove_expired_entries env s).expired_removals
          ≡ length s.store + s.expired_removals)
        × ((remove_expired_entries env s).reads ≡ scanned.reads)
  unfolding remove_expired_entries
  purged_frame d =
      let (store, removals, _) = expired_keys_frame env s.store s in
      let (count, reads) = remove_all_expired_frame picked scanned (subst Distinct (sym store) d) in
      (count ∙ ap₂ (λ (x : Dict CacheEntry) y. length x + y) store removals, reads)

module _ (env : Env) (mono : IsMonotonic env) (s : CacheStore) (distinct : Distinct s.store) where
  kept_entry :
      (j : Text) (e : CacheEntry)
      → lookup j (remove_expired_entries env s).store ≡ some e
      → (lookup j s.store ≡ some e) × (has_expired env (env.clock s.reads) e ≡ false)
  kept_entry j e kept = elim (Bool-cases (has j (picked env s))) [
    | inl gone ↦ absurd (ground (arith, lookup-purged env s j))
    | inr stays ↦
        let there : lookup j s.store ≡ some e = ground (arith, lookup-purged env s j) in
        (there, passed_live env mono s.store s j e there stays)
  ]

  live_entry :
      (j : Text) (e : CacheEntry)
      → lookup j s.store ≡ some e
      → has_expired env (env.clock (remove_expired_entries env s).reads) e ≡ false
      → lookup j (remove_expired_entries env s).store ≡ some e
  live_entry j e there live = elim (Bool-cases (has j (picked env s))) [
    | inl gone ↦ absurd (
        ground (
          arith,
          picked_expired env mono s.store s j e distinct there gone,
          ap (λ n. has_expired env (env.clock n) e) (purged_frame env s distinct).1,
        ))
    | inr stays ↦ ground (arith, lookup-purged env s j)
  ]

  kept-Within : (j : Text) → Within (lookup j (stats env s).1.store) (view_now env s j)
  unfolding stats view
  kept-Within j = elim (Option-cases (lookup j (remove_expired_entries env s).store)) [
    | inl gone ↦ rw gone tt
    | inr (e, kept) ↦
        let (there, live) = kept_entry j e kept in rw kept (rw (there, view) (rw live refl))
  ]

  live-Within :
      (j : Text)
      → Within
          (view env (env.clock (stats env s).1.reads) s.store j)
          (lookup j (stats env s).1.store)
  unfolding stats view
  live-Within j = elim (Option-cases (lookup j s.store)) [
    | inl absent ↦ rw (absent, view) tt
    | inr (e, there) ↦
        elim (Bool-cases (has_expired env (env.clock (remove_expired_entries env s).reads) e)) [
          | inl late ↦ rw (there, view) (rw late tt)
          | inr live ↦ rw (there, view) (rw live (live_entry j e there live))
        ]
  ]

  -- Under a monotonic clock the entries that `stats` leaves are among those that were live when it
  -- was called, and those of them that are still live when it returns are among the ones it
  -- leaves; what the reported size loses, the reported count of expired removals gains.
  pub stats_purges :
      ((j : Text) → Within (lookup j (stats env s).1.store) (view_now env s j))
      × ((j : Text)
          → Within
              (view env (env.clock (stats env s).1.reads) s.store j)
              (lookup j (stats env s).1.store))
      × ((stats env s).0.size + (stats env s).0.expired_removals
          ≡ length s.store + s.expired_removals)
  unfolding stats snapshot
  stats_purges = (kept-Within, live-Within, (purged_frame env s distinct).0)
