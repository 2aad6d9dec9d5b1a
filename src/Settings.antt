-- ===== src/Settings.antt =====
-- tiny_cache/infrastructure/config.py: the settings that the process reads from its environment.
-- The children are about what it loads, the store that is made from it (store_factory.py), and the
-- port on which the server listens (tls.py).
pub mod Loaded
pub mod Factory
pub mod Tls
use tiny_cache.Base.{
  ◌≡◌, refl, ℕ, suc, ◌+◌, ◌-◌, ◌*◌, Text, Text-discrete, codes, ℤ, pos, negsuc, Bool, true, false,
  ◌&&◌, ◌||◌, not, ite, ltb, Option, none, some, List, [], ◌∷◌, if◌then◌else◌,
}
use tiny_cache.Domain.{strip}

-- What the program takes from outside: `os.getenv`, and Python's `int`, `str.upper` and `str.lower`
-- on a text, which follow the tables of Unicode. `int_of` is `none` where `int` raises `ValueError`.
pub record Environ : Type 0 where
  pub getenv : Text → Option Text
  pub int_of : Text → Option ℤ
  pub upper : Text → Text
  pub lower : Text → Text

-- the errors with which loading ends, each with the name of the variable
pub data SettingsError : Type 0 where
  not_an_integer : Text → Text → SettingsError
  below_minimum : Text → ℤ → ℤ → SettingsError
  above_maximum : Text → ℤ → ℤ → SettingsError
  not_a_choice : Text → List Text → Text → SettingsError
  not_a_boolean : Text → Text → SettingsError
  -- pydantic's `ValidationError`
  field_violated : SettingsError

pub data Loading {ℓ} (A : Type ℓ) : Type ℓ where
  loaded : A → Loading A
  rejected : SettingsError → Loading A

infixl 5 ◌>>=◌
abbrev pub ◌>>=◌ {ℓ κ} : {A : Type ℓ} {B : Type κ} → Loading A → (A → Loading B) → Loading B
loaded a >>= next = next a
rejected e >>= next = rejected e

-- A chain that loads has a first step that loads.
pub chain_loaded {ℓ κ} :
    {A : Type ℓ} {B : Type κ} {result : B} (first : Loading A) (next : A → Loading B)
    → (first >>= next) ≡ loaded result
    → (value : A) × (first ≡ loaded value) × (next value ≡ loaded result)
chain_loaded (loaded value) next h = (value, refl, h)
chain_loaded (rejected e) next h = cc

-- a < b
abbrev pub less : ℤ → ℤ → Bool
less (pos a) (pos b) = ltb a b
less (pos a) (negsuc b) = false
less (negsuc a) (pos b) = true
less (negsuc a) (negsuc b) = ltb b a

-- `if min_value is not None and value < min_value`
unfoldable pub check_minimum : Text → Option ℤ → ℤ → Loading (Unit {0})
check_minimum name none value = loaded tt
check_minimum name (some min_value) value =
    if less value min_value then rejected (below_minimum name min_value value) else loaded tt

-- `if max_value is not None and value > max_value`
unfoldable pub check_maximum : Text → Option ℤ → ℤ → Loading (Unit {0})
check_maximum name none value = loaded tt
check_maximum name (some max_value) value =
    if less max_value value then rejected (above_maximum name max_value value) else loaded tt

-- an element of a set of texts
abbrev pub among : List Text → Text → Bool
among [] value = false
among (x ∷ xs) value = ite (Text-discrete x value) true (among xs value)

module _ (environ : Environ) where
  -- the value before it is compared with its bounds
  unfoldable pub read_int : Text → ℤ → Loading ℤ
  read_int name default_value = elim (environ.getenv name) [
    | none ↦ loaded default_value
    | some raw_value ↦ elim (environ.int_of raw_value) [
      | none ↦ rejected (not_an_integer name raw_value)
      | some value ↦ loaded value
    ]
  ]

  unfoldable pub get_env_int : Text → ℤ → Option ℤ → Option ℤ → Loading ℤ
  get_env_int name default_value min_value max_value = do
    value ← read_int name default_value
    _ ← check_minimum name min_value value
    _ ← check_maximum name max_value value
    loaded value

  unfoldable pub get_env_choice : Text → Text → List Text → (Text → Text) → Loading Text
  get_env_choice name default_value allowed_values normalize =
      let value =
        normalize (elim (environ.getenv name) [
          | none ↦ default_value
          | some raw_value ↦ strip raw_value
        ]) in
      if not (among allowed_values value)
      then rejected (not_a_choice name allowed_values value)
      else loaded value

  unfoldable pub get_env_bool : Text → Bool → Loading Bool
  get_env_bool name default_value = elim (environ.getenv name) [
    | none ↦ loaded default_value
    | some raw_value ↦
        let normalized = environ.lower (strip raw_value) in
        if among (codes "1" ∷ codes "true" ∷ codes "yes" ∷ codes "y" ∷ codes "on" ∷ []) normalized
        then loaded true
        else if among (codes "0" ∷ codes "false" ∷ codes "no" ∷ codes "n" ∷ codes "off" ∷ [])
            normalized
        then loaded false
        else rejected (not_a_boolean name raw_value)
  ]

  -- `os.getenv(name, default)`
  abbrev pub getenv_or : Text → Text → Text
  getenv_or name default_value = elim (environ.getenv name) [
    | none ↦ default_value
    | some raw_value ↦ raw_value
  ]

pub record Settings : Type 0 where
  pub max_items : ℤ
  pub max_memory_mb : ℤ
  pub max_value_bytes : ℤ
  pub cleanup_interval : ℤ
  pub port : ℤ
  pub host : Text
  pub health_host : Text
  pub health_port : ℤ
  pub log_level : Text
  pub log_format : Text
  pub backend : Text
  pub sqlite_path : Text
  pub tls_enabled : Bool
  pub tls_cert_path : Option Text
  pub tls_key_path : Option Text
  pub tls_require_client_auth : Bool
  pub tls_client_ca_path : Option Text

-- `z * 1024 * 1024`
abbrev pub mebibytes : ℤ → ℤ
mebibytes (pos n) = pos (n * 1024 * 1024)
mebibytes (negsuc n) = negsuc (suc n * 1024 * 1024 - 1)

-- `Field(ge=1)`
abbrev pub is_at_least_one : ℤ → Bool
is_at_least_one z = not (less z (pos 1))

-- `Field(ge=1, le=65535)`
abbrev pub is_port : ℤ → Bool
is_port z = is_at_least_one z && not (less (pos 65535) z)

abbrev pub satisfies_fields : Settings → Bool
satisfies_fields s =
    is_at_least_one s.max_items
    && (is_at_least_one s.max_memory_mb
        && (is_at_least_one s.max_value_bytes
            && (is_at_least_one s.cleanup_interval && (is_port s.port && is_port s.health_port))))

-- `Settings(…)`, which raises for a value that its field does not allow
unfoldable pub new_settings : Settings → Loading Settings
new_settings s = if satisfies_fields s then loaded s else rejected field_violated

abbrev pub log_levels : List Text
log_levels = codes "DEBUG" ∷ codes "INFO" ∷ codes "WARNING" ∷ codes "ERROR" ∷ codes "CRITICAL" ∷ []

unfoldable pub load_settings : Environ → Loading Settings
load_settings environ = do
  max_memory_mb ← get_env_int environ (codes "CACHE_MAX_MEMORY_MB") (pos 100) (some (pos 1)) none
  let max_memory_bytes = mebibytes max_memory_mb
  max_items ← get_env_int environ (codes "CACHE_MAX_ITEMS") (pos 1000) (some (pos 1)) none
  max_value_bytes ←
      get_env_int environ (codes "CACHE_MAX_VALUE_BYTES") max_memory_bytes (some (pos 1))
        (some max_memory_bytes)
  cleanup_interval ←
      get_env_int environ (codes "CACHE_CLEANUP_INTERVAL") (pos 10) (some (pos 1)) none
  port ← get_env_int environ (codes "CACHE_PORT") (pos 50051) (some (pos 1)) (some (pos 65535))
  health_port ←
      get_env_int environ (codes "CACHE_HEALTH_PORT") (pos 8080) (some (pos 1)) (some (pos 65535))
  log_level ←
      get_env_choice environ (codes "CACHE_LOG_LEVEL") (codes "INFO") log_levels environ.upper
  log_format ←
      get_env_choice environ (codes "CACHE_LOG_FORMAT") (codes "text")
        (codes "text" ∷ codes "json" ∷ []) environ.lower
  backend ←
      get_env_choice environ (codes "CACHE_BACKEND") (codes "memory")
        (codes "memory" ∷ codes "sqlite" ∷ []) environ.lower
  tls_enabled ← get_env_bool environ (codes "CACHE_TLS_ENABLED") false
  tls_require_client_auth ← get_env_bool environ (codes "CACHE_TLS_REQUIRE_CLIENT_AUTH") false
  new_settings (record {
    max_items = max_items;
    max_memory_mb = max_memory_mb;
    max_value_bytes = max_value_bytes;
    cleanup_interval = cleanup_interval;
    port = port;
    host = getenv_or environ (codes "CACHE_HOST") (codes "[::]");
    health_host = getenv_or environ (codes "CACHE_HEALTH_HOST") (codes "0.0.0.0");
    health_port = health_port;
    log_level = log_level;
    log_format = log_format;
    backend = backend;
    sqlite_path = getenv_or environ (codes "CACHE_SQLITE_PATH") (codes "tiny-cache.sqlite3");
    tls_enabled = tls_enabled;
    tls_cert_path = environ.getenv (codes "CACHE_TLS_CERT_PATH");
    tls_key_path = environ.getenv (codes "CACHE_TLS_KEY_PATH");
    tls_require_client_auth = tls_require_client_auth;
    tls_client_ca_path = environ.getenv (codes "CACHE_TLS_CLIENT_CA_PATH");
  })
