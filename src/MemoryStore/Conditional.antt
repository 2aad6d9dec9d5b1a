-- ===== src/MemoryStore/Conditional.antt =====
-- What a client of the in-memory backend can rely on: the conditional writes.
use tiny_cache.Base.{
  ◌≡◌, refl, ap, ◌∙◌, Text, Text-discrete, Bytes, ℤ, Option, none, some, Option-cases, inl, inr,
  ite, if◌then◌else◌, leb, le→leb, lt→leb-false, dec_le, arith,
}
use tiny_cache.Errors.{Result, ok}
use tiny_cache.Dict.{lookup}
use tiny_cache.Domain.{validate_key, validate_value}
use tiny_cache.Results.{CacheConditionalSetStatus, conditional_status_from_set_status}
use tiny_cache.StoreModels.{Env, CacheEntry}
use tiny_cache.MemoryStore.State.{CacheStore}
use tiny_cache.MemoryStore.Methods.{set, set_entry, set_if_absent, compare_and_set, conditionally}
use tiny_cache.MemoryStore.Written.{set_entry-written, set_entry-refused}
use tiny_cache.MemoryStore.Invariant.{IsValid, IsValid-IsConsistent}
use tiny_cache.MemoryStore.Checked.{
  view_now, checked, checked-IsValid, lookup-checked_found, checked_frame, add_entry-checked,
  exchange_entry-checked,
}

-- the status of a conditional write that has passed its test
abbrev pub written_status : Env → Bytes → CacheStore → CacheConditionalSetStatus
written_status env value s =
    if leb (env.getsizeof value) s.max_value_bytes
    then CacheConditionalSetStatus.stored
    else CacheConditionalSetStatus.value_too_large

module _ (env : Env) (key : Text) (value : Bytes) (ttl : Option ℤ) (s : CacheStore)
    (accepted : validate_key key ≡ ok tt) (valid : IsValid env s) where
  pub set_status : (conditionally (set_entry env key value ttl s)).0 ≡ written_status env value s
  unfolding conditional_status_from_set_status
  set_status = elim (dec_le (env.getsizeof value) s.max_value_bytes) [
    | yes small ↦
        let (n, e, room) =
          set_entry-written env key value ttl s (IsValid-IsConsistent env s valid)
            valid.0.within_items valid.1.items valid.1.value-le-memory small in
        rw (le→leb _ _ small) (ap (λ r. (conditionally r).0) e)
    | no large ↦
        let e =
          set_entry-refused env key value ttl s (IsValid-IsConsistent env s valid) (omega arith) in
        rw (lt→leb-false (env.getsizeof value) s.max_value_bytes (omega arith))
          (ap (λ r. (conditionally r).0) e)
  ]

module _ (env : Env) (key : Text) (value : Bytes) (ttl : Option ℤ) (s : CacheStore)
    (accepted : validate_key key ≡ ok tt) (valid : IsValid env s) where
  after_check :
      (conditionally (set_entry env key value ttl (checked env key s))).0
      ≡ written_status env value s
  after_check =
      set_status env key value ttl (checked env key s) accepted (checked-IsValid env key s valid)
      ∙ ap
          (λ m.
            if leb (env.getsizeof value) m
            then CacheConditionalSetStatus.stored
            else CacheConditionalSetStatus.value_too_large)
          (checked_frame env key s).2

  set_after_check :
      (conditionally (set_entry env key value ttl (checked env key s))).1
      ≡ (set env key value ttl (checked env key s)).1
  unfolding set validate_value
  set_after_check = rw (accepted, set)

  -- On a valid store `set_if_absent` first drops the entry of the key if it has expired, and no
  -- other. It answers `exists` and stops there if the key has a live entry; otherwise it does what
  -- `set` does. It never answers that capacity is exhausted.
  pub set_if_absent_lem :
      ((set_if_absent env key value ttl s).0
        ≡ ok (elim (view_now env s key) [
          | none ↦ written_status env value s
          | some _ ↦ CacheConditionalSetStatus.exists
        ]))
      × ((set_if_absent env key value ttl s).1 ≡ elim (view_now env s key) [
        | none ↦ (set env key value ttl (checked env key s)).1
        | some _ ↦ checked env key s
      ])
      × ((j : Text)
          → lookup j (checked env key s).store
            ≡ ite (Text-discrete key j) (view_now env s key) (lookup j s.store))
  unfolding set_if_absent validate_value
  set_if_absent_lem = elim (Option-cases (view_now env s key)) [
    | inl absent ↦
        rw (accepted, set_if_absent)
          (rw (add_entry-checked env key s value ttl)
            (rw absent (ap ok after_check, set_after_check, lookup-checked_found env key s absent)))
    | inr (e, live) ↦
        rw (accepted, set_if_absent)
          (rw (add_entry-checked env key s value ttl)
            (rw live (refl, refl, lookup-checked_found env key s live)))
  ]

  exchanged :
      (expected : Bytes) (e : CacheEntry)
      → view_now env s key ≡ some e
      → (same : Dec (e.value ≡ expected))
      → (let r =
            ite same
              (conditionally (set_entry env key value ttl (checked env key s)))
              (CacheConditionalSetStatus.mismatch, checked env key s) in
          (◌≡◌ {A = Result CacheConditionalSetStatus}
            (ok r.0)
            (ok (ite same (written_status env value s) CacheConditionalSetStatus.mismatch)))
          × (r.1 ≡ ite same (set env key value ttl (checked env key s)).1 (checked env key s)))
  exchanged expected e live (yes p) = (ap ok after_check, set_after_check)
  exchanged expected e live (no p) = (refl, refl)

  -- On a valid store `compare_and_set` first drops the entry of the key if it has expired, and no
  -- other. It answers `not_found` and stops there if the key has no live entry, and `mismatch` if
  -- the live entry has another value; otherwise it does what `set` does. It never answers that
  -- capacity is exhausted.
  pub compare_and_set_lem :
      (expected : Bytes)
      → ((compare_and_set env key expected value ttl s).0
          ≡ ok (elim (view_now env s key) [
            | none ↦ CacheConditionalSetStatus.not_found
            | some entry ↦
                ite
                  (Text-discrete entry.value expected)
                  (written_status env value s)
                  CacheConditionalSetStatus.mismatch
          ]))
        × ((compare_and_set env key expected value ttl s).1 ≡ elim (view_now env s key) [
          | none ↦ checked env key s
          | some entry ↦
              ite
                (Text-discrete entry.value expected)
                (set env key value ttl (checked env key s)).1
                (checked env key s)
        ])
        × ((j : Text)
            → lookup j (checked env key s).store
              ≡ ite (Text-discrete key j) (view_now env s key) (lookup j s.store))
  unfolding compare_and_set validate_value
  compare_and_set_lem expected = elim (Option-cases (view_now env s key)) [
    | inl absent ↦
        rw (accepted, compare_and_set)
          (rw (exchange_entry-checked env key s expected value ttl)
            (rw absent (refl, refl, lookup-checked_found env key s absent)))
    | inr (e, live) ↦
        rw (accepted, compare_and_set)
          (rw (exchange_entry-checked env key s expected value ttl) (
            rw live (
              let (answer, state) = exchanged expected e live (Text-discrete e.value expected) in
              (answer, state, lookup-checked_found env key s live))))
  ]
