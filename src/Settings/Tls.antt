-- ===== src/Settings/Tls.antt =====
-- tiny_cache/infrastructure/tls.py: how the server is told to listen. `grpc` is outside: what the
-- code calls of it is recorded as the value `Listening`.
use tiny_cache.Base.{
  subst, [], ◌≡◌, refl, Text, Bytes, Bool, Bool-cases, true, false, ◌||◌, Option, none, some, inl,
  inr, if◌then◌else◌, arith,
}
use tiny_cache.Errors.{
  Result, ok, raise, value_error, tls_paths_missing, tls_client_ca_missing, raise_if,
  chain_returned, ◌>>=◌, ◌>>◌,
}
use tiny_cache.Domain.{is_empty}
use tiny_cache.Settings.{Settings}

-- the arguments of `grpc.ssl_server_credentials`
pub record ServerCredentials : Type 0 where
  pub private_key : Bytes
  pub certificate_chain : Bytes
  pub root_certificates : Option Bytes
  pub require_client_auth : Bool

pub data Listening : Type 0 where
  insecure_port : Text → Listening
  secure_port : Text → ServerCredentials → Listening

-- `not path`
abbrev pub is_unset : Option Text → Bool
is_unset none = true
is_unset (some path) = is_empty path

abbrev pub path_of : Option Text → Text
path_of none = []
path_of (some path) = path

-- `read_bytes` is `Path(path).read_bytes()`, which may raise.
module _ (read_bytes : Text → Result Bytes) where
  unfoldable pub read_client_ca : Option Text → Result Bytes
  read_client_ca none = raise (value_error tls_client_ca_missing)
  read_client_ca (some client_ca_path) = read_bytes client_ca_path

  -- the certificates of `if require_client_auth`
  unfoldable pub required_roots : Option Text → Bool → Result (Option Bytes)
  required_roots client_ca_path false = ok none
  required_roots client_ca_path true = do
    root_certificates ← read_client_ca client_ca_path
    ok (some root_certificates)

  unfoldable pub build_tls_server_credentials :
      Text → Text → Option Text → Bool → Result ServerCredentials
  build_tls_server_credentials cert_path key_path client_ca_path require_client_auth = do
    certificate_chain ← read_bytes cert_path
    private_key ← read_bytes key_path
    root_certificates ← required_roots client_ca_path require_client_auth
    ok (record {
      private_key = private_key;
      certificate_chain = certificate_chain;
      root_certificates = root_certificates;
      require_client_auth = require_client_auth;
    })

  unfoldable pub add_grpc_listen_port : Text → Settings → Result Listening
  add_grpc_listen_port listen_addr settings =
      if settings.tls_enabled
      then (do
        raise_if (is_unset settings.tls_cert_path || is_unset settings.tls_key_path)
            (value_error tls_paths_missing)
        credentials ←
            build_tls_server_credentials (path_of settings.tls_cert_path)
              (path_of settings.tls_key_path) settings.tls_client_ca_path
              settings.tls_require_client_auth
        ok (secure_port listen_addr credentials))
      else ok (insecure_port listen_addr)

module _ (read_bytes : Text → Result Bytes) where
  -- the client's certificates, which are there exactly if they are required
  abbrev pub AreRoots : Settings → Option Bytes → Type 0
  AreRoots settings none = settings.tls_require_client_auth ≡ false
  AreRoots settings (some root_certificates) =
      (settings.tls_require_client_auth ≡ true)
      × (read_client_ca read_bytes settings.tls_client_ca_path ≡ ok root_certificates)

  -- a port that is as secure as the settings ask
  abbrev pub IsGuarded : Settings → Listening → Type 0
  IsGuarded settings (insecure_port addr) = settings.tls_enabled ≡ false
  IsGuarded settings (secure_port addr credentials) =
      (settings.tls_enabled ≡ true)
      × (read_bytes (path_of settings.tls_key_path) ≡ ok credentials.private_key)
      × (read_bytes (path_of settings.tls_cert_path) ≡ ok credentials.certificate_chain)
      × (credentials.require_client_auth ≡ settings.tls_require_client_auth)
      × AreRoots settings credentials.root_certificates

  required_roots-AreRoots :
      (settings : Settings) (required : Bool) (roots : Option Bytes)
      → settings.tls_require_client_auth ≡ required
      → required_roots read_bytes settings.tls_client_ca_path required ≡ ok roots
      → AreRoots settings roots
  unfolding required_roots
  required_roots-AreRoots settings false none p h = p
  required_roots-AreRoots settings false (some root) p h = cc
  required_roots-AreRoots settings true roots p h =
      let (root, e, same) =
        chain_returned (read_client_ca read_bytes settings.tls_client_ca_path) _ h in
      let done : some root ≡ roots = cc in subst (AreRoots settings) done (p, e)

  -- A server that listens does so as the settings ask: in plain text only if TLS is off; and
  -- otherwise with the key and the certificate of the two paths, and with the certificates of the
  -- client's authority exactly if clients must identify themselves. Whatever file cannot be read,
  -- it never falls back to less.
  pub add_grpc_listen_port-IsGuarded :
      (listen_addr : Text) (settings : Settings) {port : Listening}
      → add_grpc_listen_port read_bytes listen_addr settings ≡ ok port
      → IsGuarded settings port
  unfolding add_grpc_listen_port build_tls_server_credentials
  add_grpc_listen_port-IsGuarded listen_addr settings {port} h =
      elim (Bool-cases settings.tls_enabled) [
        | inr off ↦
            let plain : insecure_port listen_addr ≡ port = ground (arith, off, h) in
            subst (IsGuarded settings) plain off
        | inl on ↦
            let asked = rw (on, add_grpc_listen_port) at h in
            let unset = is_unset settings.tls_cert_path || is_unset settings.tls_key_path in
            let (_, _, h₀) =
              chain_returned (raise_if unset (value_error tls_paths_missing)) _ asked in
            let (credentials, built, same) =
              chain_returned
                (build_tls_server_credentials read_bytes (path_of settings.tls_cert_path)
                  (path_of settings.tls_key_path) settings.tls_client_ca_path
                  settings.tls_require_client_auth)
                _ h₀ in
            let (chain, e_chain, h₁) =
              chain_returned (read_bytes (path_of settings.tls_cert_path)) _ built in
            let (key, e_key, h₂) =
              chain_returned (read_bytes (path_of settings.tls_key_path)) _ h₁ in
            let (roots, e_roots, h₃) =
              chain_returned
                (required_roots read_bytes settings.tls_client_ca_path
                  settings.tls_require_client_auth)
                _ h₂ in
            let secure : secure_port listen_addr (record {
              private_key = key;
              certificate_chain = chain;
              root_certificates = roots;
              require_client_auth = settings.tls_require_client_auth;
            })
                ≡ port =
              cc in
            subst (IsGuarded settings) secure (
              on,
              e_key,
              e_chain,
              refl,
              required_roots-AreRoots settings settings.tls_require_client_auth roots refl e_roots,
            )
      ]
