-- ===== src/Tests/Outside.antt =====
-- Tests of the settings, the endpoints over HTTP, and the start and the end of the
-- server.
use tiny_cache.Base.{
  ℕ, ◌+◌, ◌-◌, ◌≡◌, refl, Text, Text-discrete, Bytes, ℤ, pos, codes, decimal, digits, int_text,
  Option, none, some, [], ◌∷◌, true, false, ite, ◌&&◌, leb, if◌then◌else◌,
}
use tiny_cache.Errors.{Result, ok, raise, other_exception, value_error, tls_paths_missing}
use tiny_cache.Domain.{strip, lstrip, rstrip, keep_before, is_space}
use tiny_cache.Results.{CacheStatsSnapshot}
use tiny_cache.MemoryStore.Port.{memory_port}
use tiny_cache.Backends.{IsBackend}
use tiny_cache.Backends.Memory.{memory_view, memory-IsBackend}
use tiny_cache.Settings.{
  Environ, Settings, loaded, rejected, not_an_integer, check_minimum, check_maximum, read_int,
  get_env_int, get_env_choice, get_env_bool, new_settings, load_settings,
}
use tiny_cache.Settings.Loaded.{IsSettled, load_settings-IsSettled}
use tiny_cache.Settings.Tls.{
  Listening, secure_port, add_grpc_listen_port, build_tls_server_credentials, read_client_ca,
  required_roots, IsGuarded, add_grpc_listen_port-IsGuarded,
}
use tiny_cache.Health.{Now, HttpWorld}
use tiny_cache.Health.Metrics.{Floats}
use tiny_cache.Server.{
  returns, raises, Outcomes, waits, signalled, begin_shutdown, not_stopping, finish_serving,
}
use tiny_cache.Server.Stopped.{all_calls, finish_serving-calls}
use tiny_cache.Server.Started.{start, IsStart, start-IsStart}
use tiny_cache.Tests.Fixtures.{env}

outer : Unit {0}
unfolding Text-discrete decimal digits int_text strip lstrip rstrip keep_before is_space
    check_minimum check_maximum read_int get_env_int get_env_choice get_env_bool new_settings
    load_settings add_grpc_listen_port build_tls_server_credentials read_client_ca required_roots
    start
outer = tt

-- one digit
abbrev digit_of : Text → Option ℤ
digit_of (c ∷ []) = if leb b'0' c && leb c b'9' then some (pos (c - b'0')) else none
digit_of _ = none

-- the variables that are set
abbrev environ : Environ
environ = record {
  getenv = λ name.
      ite (Text-discrete name (codes "CACHE_BACKEND")) (some (codes " sqlite "))
        (ite (Text-discrete name (codes "CACHE_MAX_MEMORY_MB")) (some (codes "2")) none);
  int_of = digit_of;
  upper = λ text. text;
  lower = λ text. text;
}

abbrev settings : Settings
settings = record {
  max_items = pos 1000;
  max_memory_mb = pos 2;
  max_value_bytes = pos 2097152;
  cleanup_interval = pos 10;
  port = pos 50051;
  host = codes "[::]";
  health_host = codes "0.0.0.0";
  health_port = pos 8080;
  log_level = codes "INFO";
  log_format = codes "text";
  backend = codes "sqlite";
  sqlite_path = codes "tiny-cache.sqlite3";
  tls_enabled = false;
  tls_cert_path = none;
  tls_key_path = none;
  tls_require_client_auth = false;
  tls_client_ca_path = none;
}

settings-loaded : load_settings environ ≡ loaded settings
unfolding outer
settings-loaded = refl

-- a memory that is no number
memory_rejected :
    load_settings (record environ { getenv = λ _. some (codes "x") })
    ≡ rejected (not_an_integer (codes "CACHE_MAX_MEMORY_MB") (codes "x"))
unfolding outer
memory_rejected = refl

load_settings-IsSettled_example : IsSettled (load_settings environ)
load_settings-IsSettled_example = load_settings-IsSettled environ

-- every file holds its path
abbrev files : Text → Result Bytes
files path = ok path

abbrev tls_settings : Settings
tls_settings = record settings {
  tls_enabled = true;
  tls_cert_path = some (codes "cert");
  tls_key_path = some (codes "key");
}

tls_rejected :
    add_grpc_listen_port files (codes "a:1") (record settings { tls_enabled = true })
    ≡ raise (value_error tls_paths_missing)
unfolding outer
tls_rejected = refl

abbrev tls_port : Listening
tls_port = secure_port (codes "a:1") (record {
  private_key = codes "key";
  certificate_chain = codes "cert";
  root_certificates = none;
  require_client_auth = false;
})

tls-listens : add_grpc_listen_port files (codes "a:1") tls_settings ≡ ok tls_port
unfolding outer
tls-listens = refl

add_grpc_listen_port-IsGuarded_example : IsGuarded files tls_settings tls_port
add_grpc_listen_port-IsGuarded_example =
    add_grpc_listen_port-IsGuarded files (codes "a:1") tls_settings tls-listens

start-IsStart_example :
    IsStart files (λ _. ok 0) settings (ok []) (start files (λ _. ok 0) settings (ok []))
start-IsStart_example = start-IsStart files (λ _. ok 0) environ (ok []) settings-loaded

memory-IsBackend_example : IsBackend env (memory_port env) (memory_view env)
memory-IsBackend_example = memory-IsBackend env

-- numbers as texts
abbrev floats : Floats
floats = record {
  Float = Text;
  ratio = λ m n. m ∷ n ∷ [];
  round_two = λ x. x;
  zero_float = [];
  float_text = λ x. x;
}

-- a provider that raises
abbrev failing : ℕ → Result CacheStatsSnapshot × ℕ
failing s = (raise other_exception, s + 1)

abbrev now : Now floats
now = record { uptime = codes "5.0"; timestamp = codes "7.0" }

abbrev http : HttpWorld ℕ
http = record { app = 0; active_requests = 1; request_id_var = codes "-"; fresh_id = codes "f00d" }

-- Two signals come; the health server raises while it is cleaned up.
abbrev outcomes : Outcomes
outcomes = record { grpc = returns; health = raises; store = returns }

finish_serving-calls_example :
    finish_serving outcomes (begin_shutdown (begin_shutdown not_stopping)) ≡ all_calls
finish_serving-calls_example = finish_serving-calls outcomes (signalled (signalled waits))
