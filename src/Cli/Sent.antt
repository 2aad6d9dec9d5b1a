-- ===== src/Cli/Sent.antt =====
-- What the server reads from the metadata that the client sends.
use tiny_cache.Base.{◌≡◌, refl, Text, Text-discrete, Option, none, some, [], ◌∷◌}
use tiny_cache.Grpc.Lifecycle.{first_namespace}
use tiny_cache.Grpc.RequestId.{get_request_id_from_metadata}
use tiny_cache.Cli.Run.{metadata}

-- A text that is given, unless it is empty.
abbrev pub given : Option Text → Option Text
given none = none
given (some []) = none
given (some (c ∷ text)) = some (c ∷ text)

pub first_namespace-metadata :
    (request_id : Text) (namespace : Option Text)
    → first_namespace (metadata request_id namespace) ≡ given namespace
unfolding metadata first_namespace Text-discrete
first_namespace-metadata request_id none = refl
first_namespace-metadata request_id (some []) = refl
first_namespace-metadata request_id (some (c ∷ name)) = refl

pub get_request_id-metadata :
    (request_id : Text) (namespace : Option Text)
    → get_request_id_from_metadata (metadata request_id namespace) ≡ given (some request_id)
unfolding metadata get_request_id_from_metadata Text-discrete
get_request_id-metadata [] none = refl
get_request_id-metadata [] (some []) = refl
get_request_id-metadata [] (some (c ∷ name)) = refl
get_request_id-metadata (d ∷ request_id) none = refl
get_request_id-metadata (d ∷ request_id) (some []) = refl
get_request_id-metadata (d ∷ request_id) (some (c ∷ name)) = refl

-- The server reads from the metadata that the client sends exactly the namespace and the request id
-- that the client was given, each of them unless it is empty.
pub metadata-read :
    (request_id : Text) (namespace : Option Text)
    → (first_namespace (metadata request_id namespace) ≡ given namespace)
      × (get_request_id_from_metadata (metadata request_id namespace) ≡ given (some request_id))
metadata-read request_id namespace =
    (first_namespace-metadata request_id namespace, get_request_id-metadata request_id namespace)
