-- ===== src/Grpc/Metadata.antt =====
-- Which entry of the metadata gives the namespace.
use tiny_cache.Base.{◌≡◌, refl, Text, none, some, List, [], ◌∷◌, ◌++◌, arith}
use tiny_cache.Grpc.Lifecycle.{first_namespace}

-- The first non-empty value under the header's name wins, and what follows it is not read.
pub first_namespace-append :
    (before after : List (Text × Text))
    → first_namespace (before ++ after) ≡ elim (first_namespace before) [
      | none ↦ first_namespace after
      | some namespace ↦ some namespace
    ]
unfolding first_namespace
first_namespace-append [] after = refl
first_namespace-append ((key, value) ∷ before) after =
    ground (arith, first_namespace-append before after)
