-- ===== src/Backends.antt =====
-- What a backend promises to the application behind `CacheStorePort`
-- (tiny_cache/application/ports.py), whichever of the two stores it is.
pub mod Memory
pub mod Sqlite
use tiny_cache.Base.{
  ℕ, ◌≡◌, ◌≢◌, ◌⊎◌, Text, Text-discrete, Bytes, ℤ, Bool, true, false, ite, Option, none, some, leb,
  if◌then◌else◌,
}
use tiny_cache.Errors.{Result, ok}
use tiny_cache.Domain.{validate_key}
use tiny_cache.Results.{CacheSetStatus, CacheConditionalSetStatus}
use tiny_cache.StoreModels.{Env, CacheEntry, new_entry}
use tiny_cache.StoreModels.Live.{live, value_of}
use tiny_cache.Ports.{CacheStorePort}

-- the outcome of a `set` whose key is accepted
abbrev pub set_outcome : Env → Bytes → ℕ → Result CacheSetStatus
set_outcome env value max_value_bytes =
    if leb (env.getsizeof value) max_value_bytes
    then ok CacheSetStatus.ok_status
    else ok CacheSetStatus.value_too_large

-- the status of a conditional write that has passed its test
abbrev pub write_status : Env → Bytes → ℕ → CacheConditionalSetStatus
write_status env value max_value_bytes =
    if leb (env.getsizeof value) max_value_bytes
    then CacheConditionalSetStatus.stored
    else CacheConditionalSetStatus.value_too_large

abbrev pub has_entry : Option CacheEntry → Bool
has_entry none = false
has_entry (some _) = true

-- How the entries of a backend are read off its state, and the invariant that it relies on.
pub record BackendView (S : Type 0) : Type 1 where
  pub Holds : S → Type 0
  pub entry : S → Text → Option CacheEntry
  pub reads : S → ℕ
  pub max_value_bytes : S → ℕ

-- The operations in terms of the entries under the keys, for a call that finds the store in a state
-- that the invariant holds of, after `reads` calls of the clock.
pub record IsBackend {S : Type 0} (env : Env) (port : CacheStorePort S) (b : BackendView S)
    : Type 0 where
  pub get :
      (key : Text) (s : S)
      → validate_key key ≡ ok tt
      → b.Holds s
      → ((port.get key s).0 ≡ ok (value_of (live env (env.clock (b.reads s)) (b.entry s key))))
        × ((j : Text)
            → b.entry (port.get key s).1 j
              ≡ ite
                  (Text-discrete key j)
                  (live env (env.clock (b.reads s)) (b.entry s key))
                  (b.entry s j))
        × b.Holds (port.get key s).1
  pub set :
      (key : Text) (value : Bytes) (ttl : Option ℤ) (s : S)
      → validate_key key ≡ ok tt
      → b.Holds s
      → ((port.set key value ttl s).0 ≡ set_outcome env value (b.max_value_bytes s))
        × (b.entry (port.set key value ttl s).1 key ≡ (
            if leb (env.getsizeof value) (b.max_value_bytes s)
            then some (new_entry env value ttl (env.clock (b.reads s)))
            else b.entry s key))
        × ((j : Text)
            → key ≢ j
            → (b.entry (port.set key value ttl s).1 j ≡ b.entry s j)
              ⊎ (b.entry (port.set key value ttl s).1 j ≡ none))
        × b.Holds (port.set key value ttl s).1
  pub set_if_absent :
      (key : Text) (value : Bytes) (ttl : Option ℤ) (s : S)
      → validate_key key ≡ ok tt
      → b.Holds s
      → ((port.set_if_absent key value ttl s).0
          ≡ ok (elim (live env (env.clock (b.reads s)) (b.entry s key)) [
            | none ↦ write_status env value (b.max_value_bytes s)
            | some _ ↦ CacheConditionalSetStatus.exists
          ]))
        × b.Holds (port.set_if_absent key value ttl s).1
  pub compare_and_set :
      (key : Text) (expected value : Bytes) (ttl : Option ℤ) (s : S)
      → validate_key key ≡ ok tt
      → b.Holds s
      → ((port.compare_and_set key expected value ttl s).0
          ≡ ok (elim (live env (env.clock (b.reads s)) (b.entry s key)) [
            | none ↦ CacheConditionalSetStatus.not_found
            | some e ↦
                ite
                  (Text-discrete e.value expected)
                  (write_status env value (b.max_value_bytes s))
                  CacheConditionalSetStatus.mismatch
          ]))
        × b.Holds (port.compare_and_set key expected value ttl s).1
  pub delete :
      (key : Text) (s : S)
      → validate_key key ≡ ok tt
      → b.Holds s
      → ((port.delete key s).0 ≡ ok (has_entry (b.entry s key)))
        × ((j : Text)
            → b.entry (port.delete key s).1 j ≡ ite (Text-discrete key j) none (b.entry s j))
        × b.Holds (port.delete key s).1
  pub stats : (s : S) → b.Holds s → b.Holds (port.stats s).1
