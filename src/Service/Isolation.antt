-- ===== src/Service/Isolation.antt =====
-- Namespaces over the in-memory backend: what one namespace can do to another, and to the shared
-- keyspace.
use tiny_cache.Base.{◌≡◌, ◌≢◌, ◌⊎◌, ap, ◌∙◌, sym, Text, Bytes, ℤ, none, some, inl, inr}
use tiny_cache.Errors.{ok}
use tiny_cache.Dict.{lookup}
use tiny_cache.Domain.{validate_key, validate_namespace, validate_value}
use tiny_cache.Ports.{CacheStorePort}
use tiny_cache.StoreModels.{Env}
use tiny_cache.MemoryStore.State.{CacheStore}
use tiny_cache.MemoryStore.Invariant.{IsValid}
use tiny_cache.MemoryStore.Contract.{lookup-set_ne}
use tiny_cache.MemoryStore.Port.{memory_port}
use tiny_cache.Service
use tiny_cache.Service.{storage_key, qualified_key, ttl_of_seconds}
use tiny_cache.Service.Keys.{storage_key-injective, storage_key-IsKey}

-- A `set` in one namespace does not change the entry of any key of another namespace, nor of
-- another key of its own; it can only evict it.
pub set_isolated :
    (env : Env) (s : CacheStore) (j k m n a b x y : Text) (value : Bytes) (ttl : ℤ)
    → IsValid env s
    → validate_namespace (some m) ≡ ok (some a)
    → validate_namespace (some n) ≡ ok (some b)
    → storage_key j (some m) ≡ ok x
    → storage_key k (some n) ≡ ok y
    → (a ≢ b) ⊎ (j ≢ k)
    → (let s' = (Service.set (memory_port env) j value ttl (some m) s).1 in
        (lookup y s'.store ≡ lookup y s.store) ⊎ (lookup y s'.store ≡ none))
unfolding Service.set validate_value
set_isolated env s j k m n a b x y value ttl valid hm hn e f apart = rw e (
    lookup-set_ne env x value (ttl_of_seconds ttl) s (storage_key-IsKey j (some m) x e) valid y
      (λ same. conflict (storage_key-injective j k m n a b hm hn e (f ∙ ap ok (sym same))) apart))
  where
    conflict : (a ≡ b) × (j ≡ k) → (a ≢ b) ⊎ (j ≢ k) → ⊥
    conflict (p, q) (inl h) = h p
    conflict (p, q) (inr h) = h q

storage_key_shared : (x : Text) → validate_key x ≡ ok tt → storage_key x none ≡ ok x
unfolding storage_key qualified_key validate_namespace
storage_key_shared x h = rw (h, storage_key)

-- The shared keyspace is not isolated: whatever the namespace and the key, a client without a
-- namespace that spells out the storage key reads, writes and deletes that very entry.
pub shared_key_collides :
    {S : Type 0} (store : CacheStorePort S) (s : S) (key namespace stored : Text) (value : Bytes)
    (ttl : ℤ)
    → storage_key key (some namespace) ≡ ok stored
    → (Service.get store stored none s ≡ Service.get store key (some namespace) s)
      × (Service.set store stored value ttl none s
          ≡ Service.set store key value ttl (some namespace) s)
      × (Service.delete store stored none s ≡ Service.delete store key (some namespace) s)
unfolding Service.get Service.set Service.delete validate_value
shared_key_collides store s key namespace stored value ttl e =
    let shared = storage_key_shared stored (storage_key-IsKey key (some namespace) stored e) in
    (rw (shared, e), rw (shared, e), rw (shared, e))
