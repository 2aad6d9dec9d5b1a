-- ===== src/Tests/Application.antt =====
-- Tests of the application service.
use tiny_cache.Base.{◌≡◌, ◌≢◌, ◌⊎◌, inl, refl, codes, decimal, digits, pos, none, some}
use tiny_cache.Errors.{ok, raise, value_error, namespace_characters}
use tiny_cache.Dict.{lookup}
use tiny_cache.Domain.{
  validate_key, validate_namespace, check_namespace, strip, lstrip, rstrip, keep_before, is_space,
  matches_namespace_pattern, all_name_characters, is_name_character, is_alphanumeric,
}
use tiny_cache.MemoryStore.Port.{memory_port}
use tiny_cache.Service
use tiny_cache.Service.{storage_key, qualified_key, namespaced}
use tiny_cache.Service.Keys.{storage_key-injective, storage_key-IsKey}
use tiny_cache.Service.Isolation.{set_isolated, shared_key_collides}
use tiny_cache.Tests.Fixtures.{env, store, store-IsValid}

program : Unit {0}
unfolding validate_key validate_namespace check_namespace strip lstrip rstrip keep_before is_space
    matches_namespace_pattern all_name_characters is_name_character is_alphanumeric storage_key
    qualified_key namespaced decimal digits
program = tt

namespace_stripped : validate_namespace (some (codes "  team-1\n")) ≡ ok (some (codes "team-1"))
unfolding program
namespace_stripped = refl

namespace_blank : validate_namespace (some (codes " \t ")) ≡ ok none
unfolding program
namespace_blank = refl

namespace_rejected :
    validate_namespace (some (codes "a:b")) ≡ raise (value_error namespace_characters)
unfolding program
namespace_rejected = refl

team : validate_namespace (some (codes "team")) ≡ ok (some (codes "team"))
unfolding program
team = refl

team_spaced : validate_namespace (some (codes " team ")) ≡ ok (some (codes "team"))
unfolding program
team_spaced = refl

other : validate_namespace (some (codes "other")) ≡ ok (some (codes "other"))
unfolding program
other = refl

team_key : storage_key (codes "k") (some (codes "team")) ≡ ok (codes "4:team:k")
unfolding program
team_key = refl

team_spaced_key : storage_key (codes "k") (some (codes " team ")) ≡ ok (codes "4:team:k")
unfolding program
team_spaced_key = refl

other_key : storage_key (codes "k") (some (codes "other")) ≡ ok (codes "5:other:k")
unfolding program
other_key = refl

storage_key-injective_example : (codes "team" ≡ codes "team") × (codes "k" ≡ codes "k")
storage_key-injective_example =
    storage_key-injective (codes "k") (codes "k") (codes "team") (codes " team ") (codes "team")
      (codes "team") team team_spaced team_key team_spaced_key

storage_key-IsKey_example : validate_key (codes "4:team:k") ≡ ok tt
storage_key-IsKey_example =
    storage_key-IsKey (codes "k") (some (codes "team")) (codes "4:team:k") team_key

names_differ : (codes "team" ≢ codes "other") ⊎ (codes "k" ≢ codes "k")
names_differ = inl (λ e. cc)

set_isolated_example :
    let s' =
      (Service.set
        (memory_port env)
        (codes "k")
        (codes "v")
        (pos 0)
        (some (codes "team"))
        store).1 in
    (lookup (codes "5:other:k") s'.store ≡ lookup (codes "5:other:k") store.store)
    ⊎ (lookup (codes "5:other:k") s'.store ≡ none)
set_isolated_example =
    set_isolated env store (codes "k") (codes "k") (codes "team") (codes "other") (codes "team")
      (codes "other") (codes "4:team:k") (codes "5:other:k") (codes "v") (pos 0) store-IsValid team
      other team_key other_key names_differ

shared_key_collides_example :
    (Service.get (memory_port env) (codes "4:team:k") none store
      ≡ Service.get (memory_port env) (codes "k") (some (codes "team")) store)
    × (Service.set (memory_port env) (codes "4:team:k") (codes "v") (pos 0) none store
        ≡ Service.set (memory_port env) (codes "k") (codes "v") (pos 0) (some (codes "team")) store)
    × (Service.delete (memory_port env) (codes "4:team:k") none store
        ≡ Service.delete (memory_port env) (codes "k") (some (codes "team")) store)
shared_key_collides_example =
    shared_key_collides (memory_port env) store (codes "k") (codes "team") (codes "4:team:k")
      (codes "v") (pos 0) team_key
