-- ===== src/MemoryStore/Preserved.antt =====
-- Each method of `CacheStore`, and each step of the cleaner, keeps a valid store valid.
use tiny_cache.Base.{
  ◌≡◌, refl, ℕ, Text, Text-discrete, Bytes, ℤ, Option, Option-cases, inl, inr, ite, if_pos, if_neg,
  List, [], ◌∷◌, dec_le, arith,
}
use tiny_cache.Errors.{Result, ok, raise}
use tiny_cache.Dict.{Dict, lookup}
use tiny_cache.Results.{CacheConditionalSetStatus}
use tiny_cache.StoreModels.{Env, CacheEntry}
use tiny_cache.MemoryStore.State.{CacheStore, remove_expired_entry}
use tiny_cache.MemoryStore.Expiry.{
  is_expired, expired_keys, remove_all_expired, remove_expired_entries, remove_if_expired,
}
use tiny_cache.MemoryStore.Methods
use tiny_cache.MemoryStore.Methods.{
  locked, get_entry, set_entry, add_entry, exchange_entry, delete_entry, conditionally,
}
use tiny_cache.MemoryStore.Written.{set_entry-written, set_entry-refused}
use tiny_cache.MemoryStore.Invariant.{
  Holds, IsValid, IsValid-IsConsistent, written-IsValid, refused-IsValid, move_to_end-Holds,
  remove_entry-IsValid,
}
use tiny_cache.MemoryStore.Checked.{
  view_now, checked, checked-IsValid, is_expired-IsValid, remove_expired_entry-IsValid,
  get_entry-checked, add_entry-checked, exchange_entry-checked,
}

module _ (env : Env) where
  pub locked-IsValid :
      {A : Type 0} (r : Result (Unit {0})) (body : CacheStore → A × CacheStore) (s : CacheStore)
      → IsValid env s
      → IsValid env (body s).1
      → IsValid env (locked r body s).1
  locked-IsValid (ok _) body s v h = h
  locked-IsValid (raise e) body s v h = v

  pub set_entry-IsValid :
      (key : Text) (value : Bytes) (ttl : Option ℤ) (s : CacheStore)
      → IsValid env s
      → IsValid env (set_entry env key value ttl s).1
  set_entry-IsValid key value ttl s v =
      let c = IsValid-IsConsistent env s v in
      elim (dec_le (env.getsizeof value) s.max_value_bytes) [
        | yes small ↦
            let (n, e, room) =
              set_entry-written env key value ttl s c v.0.within_items v.1.items v.1.value-le-memory
                small in
            rw e (written-IsValid env key s value ttl n v small room)
        | no large ↦
            rw (set_entry-refused env key value ttl s c (omega arith)) (refused-IsValid env key s v)
      ]

  pub get-IsValid :
      (key : Text) (s : CacheStore) → IsValid env s → IsValid env (get_entry env key s).1
  get-IsValid key s v = elim (Option-cases (view_now env s key)) [
    | inl miss ↦ rw (get_entry-checked env key s) (rw miss (checked-IsValid env key s v))
    | inr (e, hit) ↦ rw (get_entry-checked env key s) (
        rw hit (
          let w = checked-IsValid env key s v in
          (move_to_end-Holds env key (checked env key s) w.0, w.1)))
  ]

  pub add-IsValid :
      (key : Text) (value : Bytes) (ttl : Option ℤ) (s : CacheStore)
      → IsValid env s
      → IsValid env (add_entry env key value ttl s).1
  add-IsValid key value ttl s v = elim (Option-cases (view_now env s key)) [
    | inl absent ↦ rw (add_entry-checked env key s value ttl) (
        rw absent
          (set_entry-IsValid key value ttl (checked env key s) (checked-IsValid env key s v)))
    | inr (e, found) ↦
        rw (add_entry-checked env key s value ttl) (rw found (checked-IsValid env key s v))
  ]

  pub ite-IsValid :
      {P A : Type 0} (d : Dec P) (x y : A × CacheStore)
      → IsValid env x.1
      → IsValid env y.1
      → IsValid env (ite d x y).1
  ite-IsValid (yes p) x y v w = rw (if_pos (yes p) p x y) v
  ite-IsValid (no p) x y v w = rw (if_neg (no p) p x y) w

  pub exchange-IsValid :
      (key : Text) (expected value : Bytes) (ttl : Option ℤ) (s : CacheStore)
      → IsValid env s
      → IsValid env (exchange_entry env key expected value ttl s).1
  exchange-IsValid key expected value ttl s v =
      let w = checked-IsValid env key s v in
      elim (Option-cases (view_now env s key)) [
        | inl absent ↦ rw (exchange_entry-checked env key s expected value ttl) (rw absent w)
        | inr (e, found) ↦ rw (exchange_entry-checked env key s expected value ttl) (
            rw found (
              ite-IsValid (Text-discrete e.value expected)
                (conditionally (set_entry env key value ttl (checked env key s)))
                (CacheConditionalSetStatus.mismatch, checked env key s)
                (set_entry-IsValid key value ttl (checked env key s) w) w))
      ]

  pub delete-IsValid :
      (key : Text) (s : CacheStore) → IsValid env s → IsValid env (delete_entry key s).1
  unfolding delete_entry
  delete-IsValid key s v = elim (Option-cases (lookup key s.store)) [
    | inl absent ↦ rw (absent, delete_entry) v
    | inr (e, found) ↦ rw (found, delete_entry) (remove_entry-IsValid env key s v)
  ]

  pub expired_keys-IsValid :
      (items : Dict CacheEntry) (s : CacheStore)
      → IsValid env s
      → IsValid env (expired_keys env items s).1
  unfolding expired_keys
  expired_keys-IsValid [] s v = v
  expired_keys-IsValid ((key, e) ∷ items) s v =
      expired_keys-IsValid items (is_expired env e s).1 (is_expired-IsValid env key s e v)

  pub remove_all_expired-IsValid :
      (keys : List Text) (s : CacheStore) → IsValid env s → IsValid env (remove_all_expired keys s)
  unfolding remove_all_expired
  remove_all_expired-IsValid [] s v = v
  remove_all_expired-IsValid (key ∷ keys) s v =
      remove_all_expired-IsValid keys (remove_expired_entry key s)
        (remove_expired_entry-IsValid env key s v)

  pub stats-IsValid : (s : CacheStore) → IsValid env s → IsValid env (Methods.stats env s).1
  unfolding Methods.stats remove_expired_entries
  stats-IsValid s v =
      remove_all_expired-IsValid (expired_keys env s.store s).0 (expired_keys env s.store s).1
        (expired_keys-IsValid s.store s v)

  pub remove_if_expired-checked :
      (key : Text) (s : CacheStore) → remove_if_expired env key s ≡ checked env key s
  unfolding remove_if_expired checked
  remove_if_expired-checked key s = refl

  pub empty-Holds :
      (max_items max_memory max_value : ℕ) → Holds env max_items max_memory max_value [] 0
  empty-Holds i m v = record {
    distinct = tt;
    counted = refl;
    within_memory = omega arith;
    within_items = omega arith;
    measured = tt;
  }

  pub clear-IsValid : (s : CacheStore) → IsValid env s → IsValid env (Methods.clear s)
  unfolding Methods.clear
  clear-IsValid s (h, st) = (
    empty-Holds s.max_items s.max_memory_bytes s.max_value_bytes,
    record {
      items = st.items;
      value-le-memory = st.value-le-memory;
      agreed = refl;
      never_full = refl;
    },
  )
