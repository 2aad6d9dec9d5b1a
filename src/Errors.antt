-- ===== src/Errors.antt =====
-- The exceptions that the layers raise, and results of code that may raise one. A `ValueError`
-- carries the message that its `str(exc)` shows, as a value of `Message`.
use tiny_cache.Base.{
  ℕ, ℤ, ◌≡◌, ◌⊎◌, inl, inr, refl, Bool, true, false, Text, codes, ◌++◌, decimal, int_text,
}

pub data Message : Type 0 where
  key_empty key_too_long namespace_too_long namespace_characters : Message
  namespaced_key_too_long : ℕ → Message
  max_items_below_one max_memory_mb_below_one : ℤ → Message
  cleanup_interval_below_one max_value_bytes_below_one : ℤ → Message
  tls_paths_missing tls_client_ca_missing : Message

-- `str(exc)`
unfoldable pub message_text : Message → Text
message_text key_empty = codes "Key cannot be empty"
message_text key_too_long = codes "Key is too long (max 256)"
message_text namespace_too_long = codes "Namespace is too long (max 64)"
message_text namespace_characters =
    codes "Namespace must contain only letters, numbers, dots, dashes, or underscores"
message_text (namespaced_key_too_long added) =
    codes "Namespaced key is too long (max storage key length 256; namespace prefix adds "
    ++ decimal added
    ++ codes " characters)"
message_text (max_items_below_one n) = codes "max_items must be >= 1, got " ++ int_text n
message_text (max_memory_mb_below_one n) = codes "max_memory_mb must be >= 1, got " ++ int_text n
message_text (cleanup_interval_below_one n) =
    codes "cleanup_interval must be >= 1, got " ++ int_text n
message_text (max_value_bytes_below_one n) =
    codes "max_value_bytes must be >= 1, got " ++ int_text n
message_text tls_paths_missing =
    codes "CACHE_TLS_CERT_PATH and CACHE_TLS_KEY_PATH must be set when TLS is enabled"
message_text tls_client_ca_missing =
    codes "CACHE_TLS_CLIENT_CA_PATH must be set when client auth is required"

pub data Error : Type 0 where
  value_error : Message → Error
  -- any exception that is no `ValueError`
  other_exception : Error

pub data Result {ℓ} (A : Type ℓ) : Type ℓ where
  ok : A → Result A
  raise : Error → Result A

pub Result-cases {ℓ} :
    {A : Type ℓ} (r : Result A) → ((a : A) × (r ≡ ok a)) ⊎ ((e : Error) × (r ≡ raise e))
Result-cases (ok a) = inl (a, refl)
Result-cases (raise e) = inr (e, refl)

pub Error-cases : (e : Error) → ((m : Message) × (e ≡ value_error m)) ⊎ (e ≡ other_exception)
Error-cases (value_error m) = inl (m, refl)
Error-cases other_exception = inr refl

-- Statements one after the other: the first exception ends them.
infixl 5 ◌>>◌ ◌>>=◌
abbrev pub ◌>>=◌ {ℓ κ} :
    {Value : Type ℓ} {Next : Type κ} → Result Value → (Value → Result Next) → Result Next
ok value >>= next = next value
raise error >>= next = raise error

-- a statement whose value is not used
abbrev pub ◌>>◌ {ℓ} : {Next : Type ℓ} → Result (Unit {0}) → Result Next → Result Next
first >> rest = first >>= (λ _. rest)

-- `if test: raise error`
abbrev pub raise_if : Bool → Error → Result (Unit {0})
raise_if true error = raise error
raise_if false error = ok tt

-- A chain that returns has a first step that returns.
pub chain_returned {ℓ κ} :
    {Value : Type ℓ} {Next : Type κ} {result : Next} (first : Result Value)
    (next : Value → Result Next)
    → (first >>= next) ≡ ok result
    → (value : Value) × (first ≡ ok value) × (next value ≡ ok result)
chain_returned (ok value) next chained = (value, refl, chained)
chain_returned (raise error) next chained = cc
