-- ===== src/MemoryStore/Round.antt =====
-- One round of the cleaner that no other thread interrupts.
use tiny_cache.Base.{
  ◌≤◌, ◌≡◌, ◌≢◌, refl, ap, subst, ◌∙◌, Text, Text-discrete, Bool-cases, true, false, none, some,
  Option-cases, inl, inr, if_pos, if_neg, List, [], ◌∷◌, arith,
}
use tiny_cache.Dict.{Dict, lookup, Distinct}
use tiny_cache.StoreModels.{Env, IsMonotonic, CacheEntry, has_expired}
use tiny_cache.MemoryStore.State.{CacheStore, remove_entry, remove_expired_entry}
use tiny_cache.MemoryStore.Expiry.{
  is_expired, expired_keys, remove_if_expired, remove_each_if_expired, clean,
}
use tiny_cache.MemoryStore.Checked.{view, view_now}
use tiny_cache.MemoryStore.Cleaning.{remove_if_expired-view}
use tiny_cache.MemoryStore.Purge.{
  has, has_expired_later, expired_keys_frame, picked_expired, passed_live,
}
use tiny_cache.MemoryStore.Reports.{Within}

module _ (env : Env) where
  reads-remove_if_expired :
      (k : Text) (s : CacheStore) → s.reads ≤ (remove_if_expired env k s).reads
  unfolding remove_if_expired is_expired remove_expired_entry remove_entry
  reads-remove_if_expired k s = ground arith

  reads-remove_each :
      (keys : List Text) (s : CacheStore) → s.reads ≤ (remove_each_if_expired env keys s).reads
  unfolding remove_each_if_expired
  reads-remove_each [] s = omega arith
  reads-remove_each (k ∷ keys) s =
      let s' = remove_if_expired env k s in
      omega (arith, reads-remove_if_expired k s, reads-remove_each keys s')

  removed_self :
      (k : Text) (s : CacheStore) → lookup k (remove_if_expired env k s).store ≡ view_now env s k
  removed_self k s =
      remove_if_expired-view env k s k
      ∙ if_pos (Text-discrete k k) refl (view_now env s k) (lookup k s.store)

  removed_ne :
      (k j : Text) (s : CacheStore)
      → k ≢ j
      → lookup j (remove_if_expired env k s).store ≡ lookup j s.store
  removed_ne k j s h =
      remove_if_expired-view env k s j
      ∙ if_neg (Text-discrete k j) h (view_now env s k) (lookup j s.store)

  gone_stays :
      (keys : List Text) (s : CacheStore) (j : Text)
      → lookup j s.store ≡ none
      → lookup j (remove_each_if_expired env keys s).store ≡ none
  unfolding remove_each_if_expired view
  gone_stays [] s j h = h
  gone_stays (k ∷ keys) s j h = elim (Text-discrete k j) [
    | yes p ↦ gone_stays keys (remove_if_expired env k s) j (
        subst (λ i. lookup i (remove_if_expired env k s).store ≡ none) p
          (removed_self k s ∙ ground (arith, p, h)))
    | no p ↦ gone_stays keys (remove_if_expired env k s) j (removed_ne k j s p ∙ h)
  ]

  unpicked_stays :
      (keys : List Text) (s : CacheStore) (j : Text)
      → has j keys ≡ false
      → lookup j (remove_each_if_expired env keys s).store ≡ lookup j s.store
  unfolding remove_each_if_expired has
  unpicked_stays [] s j h = refl
  unpicked_stays (k ∷ keys) s j h = elim (Text-discrete k j) [
    | yes p ↦ absurd (ground (arith, p, h))
    | no p ↦
        unpicked_stays keys (remove_if_expired env k s) j (ground (arith, p, h))
        ∙ removed_ne k j s p
  ]

module _ (env : Env) (mono : IsMonotonic env) where
  expired_goes :
      (keys : List Text) (s : CacheStore) (j : Text) (e : CacheEntry)
      → has j keys ≡ true
      → lookup j s.store ≡ some e
      → has_expired env (env.clock s.reads) e ≡ true
      → lookup j (remove_each_if_expired env keys s).store ≡ none
  unfolding remove_each_if_expired has view
  expired_goes [] s j e picked found late = cc
  expired_goes (k ∷ keys) s j e picked found late =
      let s' = remove_if_expired env k s in
      elim (Text-discrete k j) [
        | yes p ↦ gone_stays env keys s' j (
            subst (λ i. lookup i s'.store ≡ none) p
              (removed_self env k s ∙ ground (arith, p, found, late)))
        | no p ↦
            expired_goes keys s' j e (ground (arith, p, picked)) (removed_ne env k j s p ∙ found)
              (has_expired_later s.reads s'.reads e mono (reads-remove_if_expired env k s) late)
      ]

  live_stays :
      (keys : List Text) (s : CacheStore) (j : Text) (e : CacheEntry)
      → lookup j s.store ≡ some e
      → has_expired env (env.clock (remove_each_if_expired env keys s).reads) e ≡ false
      → lookup j (remove_each_if_expired env keys s).store ≡ some e
  unfolding remove_each_if_expired view
  live_stays [] s j e found live = found
  live_stays (k ∷ keys) s j e found live =
      let s' = remove_if_expired env k s in
      let last = (remove_each_if_expired env keys s').reads in
      elim (Text-discrete k j) [
        | yes p ↦ elim (Bool-cases (has_expired env (env.clock s.reads) e)) [
          | inl late ↦ absurd (
              ground (
                arith,
                live,
                has_expired_later s.reads last e mono
                    (omega (arith, reads-remove_if_expired env k s, reads-remove_each env keys s'))
                    late,
              ))
          | inr early ↦
              live_stays keys s' j e
                (subst (λ i. lookup i s'.store ≡ some e) p
                  (removed_self env k s ∙ ground (arith, p, found, early)))
                live
        ]
        | no p ↦ live_stays keys s' j e (removed_ne env k j s p ∙ found) live
      ]

module _ (env : Env) (mono : IsMonotonic env) (s : CacheStore) (distinct : Distinct s.store) where
  abbrev picked : List Text
  picked = (expired_keys env s.store s).0

  abbrev scanned : CacheStore
  scanned = (expired_keys env s.store s).1

  store-scanned : scanned.store ≡ s.store
  store-scanned = (expired_keys_frame env s.store s).0

  lookup-scanned : (j : Text) → lookup j scanned.store ≡ lookup j s.store
  lookup-scanned j = ap (λ (d : Dict CacheEntry). lookup j d) store-scanned

  clean-kept : (j : Text) → Within (lookup j (clean env s).store) (view_now env s j)
  unfolding clean view
  clean-kept j = elim (Option-cases (lookup j s.store)) [
    | inl absent ↦ rw (gone_stays env picked scanned j (lookup-scanned j ∙ absent)) tt
    | inr (e, found) ↦ elim (Bool-cases (has j picked)) [
      | inl gone ↦
          rw
            (expired_goes env mono picked scanned j e gone (lookup-scanned j ∙ found)
              (picked_expired env mono s.store s j e distinct found gone))
            tt
      | inr stays ↦
          rw (unpicked_stays env picked scanned j stays ∙ lookup-scanned j ∙ found)
            (rw (found, view) (rw (passed_live env mono s.store s j e found stays) refl))
    ]
  ]

  clean-live :
      (j : Text)
      → Within (view env (env.clock (clean env s).reads) s.store j) (lookup j (clean env s).store)
  unfolding clean view
  clean-live j = elim (Option-cases (lookup j s.store)) [
    | inl absent ↦ rw (absent, view) tt
    | inr (e, found) ↦
        elim (Bool-cases
          (has_expired env (env.clock (remove_each_if_expired env picked scanned).reads) e)) [
            | inl late ↦ rw (found, view) (rw late tt)
            | inr live ↦
                rw (found, view)
                  (rw live (live_stays env mono picked scanned j e (lookup-scanned j ∙ found) live))
          ]
  ]

  -- Under a monotonic clock a round of the cleaner that nothing interrupts leaves only entries
  -- that were live when it began, and leaves all of them that are still live when it ends.
  pub clean_lem :
      ((j : Text) → Within (lookup j (clean env s).store) (view_now env s j))
      × ((j : Text)
          → Within
              (view env (env.clock (clean env s).reads) s.store j)
              (lookup j (clean env s).store))
  clean_lem = (clean-kept, clean-live)
