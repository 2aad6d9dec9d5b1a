-- ===== src/Service.antt =====
-- tiny_cache/application/service.py: `CacheApplicationService`, over a store behind its port.
mod Names
pub mod Keys
pub mod Isolation
use tiny_cache.Base.{
  ◌-◌, Text, decimal, Bytes, ℤ, is_positive, Option, none, some, [], ◌∷◌, ◌++◌, Bool, length, ltb,
  if◌then◌else◌,
}
use tiny_cache.Errors.{
  Result, ok, raise, value_error, namespaced_key_too_long, raise_if, ◌>>=◌, ◌>>◌,
}
use tiny_cache.Domain.{validate_key, validate_namespace, validate_value, max_key_length}
use tiny_cache.Results.{CacheSetStatus, CacheConditionalSetStatus, CacheStatsSnapshot}
use tiny_cache.Ports.{CacheStorePort}

-- `f"{len(normalized_namespace)}:{normalized_namespace}:{key}"`
unfoldable pub namespaced : Text → Text → Text
namespaced namespace key = decimal (length namespace) ++ (b':' ∷ (namespace ++ (b':' ∷ key)))

-- the storage key for a namespace that has been normalized
unfoldable pub qualified_key : Text → Option Text → Result Text
qualified_key key none = ok key
qualified_key key (some namespace) =
    let storage_key = namespaced namespace key in
    (do
      raise_if (ltb max_key_length (length storage_key))
          (value_error (namespaced_key_too_long (length storage_key - length key)))
      ok storage_key)

unfoldable pub storage_key : Text → Option Text → Result Text
storage_key key namespace = do
  validate_key key
  normalized_namespace ← validate_namespace namespace
  qualified_key key normalized_namespace

-- `ttl_seconds if ttl_seconds > 0 else None`
abbrev pub ttl_of_seconds : ℤ → Option ℤ
ttl_of_seconds ttl_seconds = if is_positive ttl_seconds then some ttl_seconds else none

-- A call of the store with a key, if the key is accepted.
abbrev pub with_key : {S A : Type 0} → Result Text → (Text → S → Result A × S) → S → Result A × S
with_key (ok key) call s = call key s
with_key (raise e) call s = (raise e, s)

module _ {S : Type 0} (store : CacheStorePort S) where
  unfoldable pub get : Text → Option Text → S → Result (Option Bytes) × S
  get key namespace = with_key (storage_key key namespace) store.get

  unfoldable pub set : Text → Bytes → ℤ → Option Text → S → Result CacheSetStatus × S
  set key value ttl_seconds namespace =
      with_key (validate_value value >> storage_key key namespace)
        (λ k. store.set k value (ttl_of_seconds ttl_seconds))

  unfoldable pub set_if_absent :
      Text → Bytes → ℤ → Option Text → S → Result CacheConditionalSetStatus × S
  set_if_absent key value ttl_seconds namespace =
      with_key (validate_value value >> storage_key key namespace)
        (λ k. store.set_if_absent k value (ttl_of_seconds ttl_seconds))

  unfoldable pub compare_and_set :
      Text → Bytes → Bytes → ℤ → Option Text → S → Result CacheConditionalSetStatus × S
  compare_and_set key expected_value value ttl_seconds namespace =
      with_key (validate_value expected_value >> validate_value value >> storage_key key namespace)
        (λ k. store.compare_and_set k expected_value value (ttl_of_seconds ttl_seconds))

  unfoldable pub delete : Text → Option Text → S → Result Bool × S
  delete key namespace = with_key (storage_key key namespace) store.delete

  unfoldable pub stats : S → Result CacheStatsSnapshot × S
  stats = store.stats
