-- ===== src/SqliteStore/Conditional.antt =====
-- What a client of the SQLite backend can rely on: the conditional writes and `delete`.
use tiny_cache.Base.{
  ◌≡◌, refl, ap, ◌∙◌, Text, Text-discrete, Bytes, ℤ, true, false, Option, none, some, Option-cases,
  inl, inr, ite, if◌then◌else◌, leb, le→leb, lt→leb-false, dec_le, arith,
}
use tiny_cache.Errors.{Result, ok}
use tiny_cache.Dict.{lookup}
use tiny_cache.Dict.Laws.{lookup-remove}
use tiny_cache.Domain.{validate_key, validate_value}
use tiny_cache.Results.{CacheConditionalSetStatus, conditional_status_from_set_status}
use tiny_cache.StoreModels.{Env}
use tiny_cache.SqliteStore.State.{SqliteStore, Database, IsOrdered, remove_row}
use tiny_cache.SqliteStore.Methods.{
  set, set_row, set_if_absent, compare_and_set, delete, conditionally,
}
use tiny_cache.SqliteStore.Checked.{
  entry_of, live_row, checked, checked-gone, checked-frame, add_row-checked, exchange_row-checked,
}
use tiny_cache.SqliteStore.Contract.{IsSound, set_row-written, set_row-refused}
use tiny_cache.SqliteStore.Reads.{lookup-checked}
use tiny_cache.SqliteStore.Preserved.{set_row_same, checked-IsSound}

-- the status of a conditional write that has passed its test
abbrev pub written_status : Env → Bytes → SqliteStore → CacheConditionalSetStatus
written_status env value s =
    if leb (env.getsizeof value) s.max_value_bytes
    then CacheConditionalSetStatus.stored
    else CacheConditionalSetStatus.value_too_large

set_status :
    (env : Env) (db : Database)
    → IsOrdered db
    → (key : Text) (value : Bytes) (ttl : Option ℤ) (s : SqliteStore) → IsSound s
    → (conditionally (set_row env db key value ttl s)).0 ≡ written_status env value s
unfolding conditional_status_from_set_status
set_status env db order key value ttl s sound =
    elim (dec_le (env.getsizeof value) s.max_value_bytes) [
      | yes small ↦
          let (u, e, _) = set_row-written env db order key value ttl s sound small in
          rw (le→leb _ _ small) (ap (λ r. (conditionally r).0) e)
      | no large ↦ rw (lt→leb-false (env.getsizeof value) s.max_value_bytes (omega arith)) (
          ap (λ r. (conditionally r).0)
            (set_row-refused env db order key value ttl s sound (omega arith)))
    ]

module _ (env : Env) (db : Database) (order : IsOrdered db) (key : Text) (value : Bytes)
    (ttl : Option ℤ) (s : SqliteStore) (accepted : validate_key key ≡ ok tt)
    (sound : IsSound s) where
  after_check :
      (conditionally (set_row env db key value ttl (checked env key s))).0
      ≡ written_status env value s
  after_check =
      set_status env db order key value ttl (checked env key s) (checked-IsSound env key s sound)
      ∙ ap
          (λ m.
            if leb (env.getsizeof value) m
            then CacheConditionalSetStatus.stored
            else CacheConditionalSetStatus.value_too_large)
          (checked-frame env key s).0

  set_after_check :
      (conditionally (set_row env db key value ttl (checked env key s))).1
      ≡ (set env db key value ttl (checked env key s)).1
  unfolding set validate_value
  set_after_check = rw (accepted, set)

  -- On a sound store `set_if_absent` first deletes the row of the key if it has expired, and no
  -- other. It answers `exists` and stops there if the key has a live entry; otherwise it does what
  -- `set` does. It never answers that capacity is exhausted.
  pub set_if_absent-live :
      ((set_if_absent env db key value ttl s).0
        ≡ ok (elim (live_row env s key) [
          | none ↦ written_status env value s
          | some _ ↦ CacheConditionalSetStatus.exists
        ]))
      × ((set_if_absent env db key value ttl s).1 ≡ elim (live_row env s key) [
        | none ↦ (set env db key value ttl (checked env key s)).1
        | some _ ↦ checked env key s
      ])
      × ((j : Text)
          → entry_of env (lookup j (checked env key s).rows)
            ≡ ite (Text-discrete key j) (live_row env s key) (entry_of env (lookup j s.rows)))
  unfolding set_if_absent validate_value
  set_if_absent-live = elim (Option-cases (live_row env s key)) [
    | inl absent ↦
        rw (accepted, set_if_absent)
          (rw (add_row-checked env key s db value ttl) (
            rw absent (
              rw
                (set_row_same env db key value ttl (checked env key s)
                  (checked-gone env key s absent))
                (ap ok after_check, set_after_check, rw absent at (lookup-checked env key s)))))
    | inr (e, alive) ↦
        rw (accepted, set_if_absent)
          (rw (add_row-checked env key s db value ttl)
            (rw alive (refl, refl, rw alive at (lookup-checked env key s))))
  ]

  exchanged :
      {P : Type 0} (same : Dec P)
      → (let r =
            ite same
              (conditionally (set_row env db key value ttl (checked env key s)))
              (CacheConditionalSetStatus.mismatch, checked env key s) in
          (◌≡◌ {A = Result CacheConditionalSetStatus}
            (ok r.0)
            (ok (ite same (written_status env value s) CacheConditionalSetStatus.mismatch)))
          × (r.1 ≡ ite same (set env db key value ttl (checked env key s)).1 (checked env key s)))
  exchanged (yes p) = (ap ok after_check, set_after_check)
  exchanged (no p) = (refl, refl)

  -- On a sound store `compare_and_set` first deletes the row of the key if it has expired, and no
  -- other. It answers `not_found` and stops there if the key has no live entry, and `mismatch` if
  -- the live entry has another value; otherwise it does what `set` does. It never answers that
  -- capacity is exhausted.
  pub compare_and_set-live :
      (expected : Bytes)
      → ((compare_and_set env db key expected value ttl s).0
          ≡ ok (elim (live_row env s key) [
            | none ↦ CacheConditionalSetStatus.not_found
            | some entry ↦
                ite
                  (Text-discrete entry.value expected)
                  (written_status env value s)
                  CacheConditionalSetStatus.mismatch
          ]))
        × ((compare_and_set env db key expected value ttl s).1 ≡ elim (live_row env s key) [
          | none ↦ checked env key s
          | some entry ↦
              ite
                (Text-discrete entry.value expected)
                (set env db key value ttl (checked env key s)).1
                (checked env key s)
        ])
        × ((j : Text)
            → entry_of env (lookup j (checked env key s).rows)
              ≡ ite (Text-discrete key j) (live_row env s key) (entry_of env (lookup j s.rows)))
  unfolding compare_and_set validate_value
  compare_and_set-live expected = elim (Option-cases (live_row env s key)) [
    | inl absent ↦
        rw (accepted, compare_and_set)
          (rw (exchange_row-checked env key s db expected value ttl)
            (rw absent (refl, refl, rw absent at (lookup-checked env key s))))
    | inr (e, alive) ↦
        rw (accepted, compare_and_set)
          (rw (exchange_row-checked env key s db expected value ttl) (
            rw alive (
              let (answer, state) = exchanged (Text-discrete e.value expected) in
              (answer, state, rw alive at (lookup-checked env key s)))))
  ]

-- `delete` of an accepted key answers whether the key had a row, expired or not; it deletes that
-- row and no other, and counts neither a hit nor a miss nor an expired removal.
pub delete-row :
    (key : Text) (s : SqliteStore)
    → validate_key key ≡ ok tt
    → ((delete key s).0 ≡ ok (elim (lookup key s.rows) [ none ↦ false | some _ ↦ true ]))
      × ((j : Text)
          → lookup j (delete key s).1.rows ≡ ite (Text-discrete key j) none (lookup j s.rows))
      × ((delete key s).1.hits ≡ s.hits)
      × ((delete key s).1.misses ≡ s.misses)
      × ((delete key s).1.expired_removals ≡ s.expired_removals)
unfolding delete remove_row
delete-row key s accepted = elim (Option-cases (lookup key s.rows)) [
  | inl absent ↦
      rw (accepted, delete)
        (rw (absent, remove_row) (refl, λ j. ground (arith, absent), refl, refl, refl))
  | inr (row, found) ↦
      rw (accepted, delete)
        (rw (found, remove_row) (refl, λ j. lookup-remove key j s.rows, refl, refl, refl))
]
