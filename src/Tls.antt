-- ===== src/Tls.antt =====
-- src/tls.cpp: the identity that a TLS connection checks, the trusted roots, and the context that all share.
-- OpenSSL and Asio are parameters: PeerApi for a connection's handle, RootsApi for the loading of certificates.
pub mod PeerHost
pub mod Trust
pub mod Shared
pub mod Windows
mod Tests
use slick_net.Prelude.{
  ℕ, zero, suc, ◌+◌, ◌%◌, ◌^◌, ◌≤◌, ◌≡◌, Bool, true, false, not, ◌&&◌, ◌||◌, List, [], ◌∷◌, ◌++◌,
  Option, none, some, Bytes, codes, ◌==◌, if◌then◌else◌,
}

-- What the code relies on of a TLS handle. `expected` is the identity that a handshake demands of the peer's
-- certificate, and `server_name` the SNI that it sends.
pub record PeerApi : Type 1 where
  pub Handle : Type 0
  pub is_address : Bytes → Bool  -- make_address reads an IP literal
  pub set_ip : Bytes → Handle → Option Handle  -- X509_VERIFY_PARAM_set1_ip_asc
  pub forbid_partial : Handle → Handle  -- X509_VERIFY_PARAM_set_hostflags
  pub set_server_name : Bytes → Handle → Option Handle  -- SSL_set_tlsext_host_name
  pub set_host : Bytes → Handle → Option Handle  -- X509_VERIFY_PARAM_set1_host
  pub next_error : ℕ  -- ERR_get_error behind a call that failed
  pub expected : Handle → Option Bytes
  pub server_name : Handle → Option Bytes
  pub set_ip-expected : (b : Bytes) (h k : Handle) → set_ip b h ≡ some k → expected k ≡ some b
  pub set_ip-server_name :
      (b : Bytes) (h k : Handle) → set_ip b h ≡ some k → server_name k ≡ server_name h
  pub set_host-expected : (b : Bytes) (h k : Handle) → set_host b h ≡ some k → expected k ≡ some b
  pub set_host-server_name :
      (b : Bytes) (h k : Handle) → set_host b h ≡ some k → server_name k ≡ server_name h
  pub set_server_name-server_name :
      (b : Bytes) (h k : Handle) → set_server_name b h ≡ some k → server_name k ≡ some b

-- boost::system::error_code, where it is an error.
pub data TlsError : Type 0 where
  invalid_argument : TlsError
  ssl_error : ℕ → TlsError

-- last_ssl_error. The conversion to int keeps the low 32 bits.
pub last_ssl_error : ℕ → TlsError
last_ssl_error zero = invalid_argument
last_ssl_error (suc n) = ssl_error (suc n % 2 ^ 32)

module _ (api : PeerApi) where
  open api use {Handle, is_address, set_ip, forbid_partial, set_server_name, set_host, next_error}

  -- Calls that return 0 leave the handle as it is, and end in last_ssl_error.
  unfoldable pub ip_set : Handle → Option Handle → Handle × Option TlsError
  unfolding last_ssl_error
  ip_set h none = (h, some (last_ssl_error next_error))
  ip_set h (some k) = (k, none)

  unfoldable pub name_set : Bytes → Handle → Option Handle → Handle × Option TlsError
  unfolding ip_set
  name_set host h none = (h, some (last_ssl_error next_error))
  name_set host h (some k) = ip_set k (set_host host k)

  -- set_tls_peer_host: the handle behind it, and the error that it returns.
  unfoldable pub set_tls_peer_host : Bytes → Handle → Handle × Option TlsError
  unfolding ip_set name_set
  set_tls_peer_host [] h = (h, some invalid_argument)
  set_tls_peer_host (c ∷ cs) h =
      if is_address (c ∷ cs)
      then ip_set h (set_ip (c ∷ cs) h)
      else name_set (c ∷ cs) (forbid_partial h) (set_server_name (c ∷ cs) (forbid_partial h))

-- throw_tls_handshake_error: the text that stands before the error's own, for the result of the verification and
-- what X509_verify_cert_error_string says of it.
pub handshake_error : ℕ → Bytes → Bytes
handshake_error verify_result reason =
    if verify_result == 0
    then codes "TLS handshake failed"
    else codes "TLS handshake failed (" ++ (reason ++ codes ")")

-- What the code asks of OpenSSL, the environment and the files.
pub record RootsApi : Type 0 where
  pub file_env : Bool  -- SSL_CERT_FILE is set
  pub dir_env : Bool  -- SSL_CERT_DIR is set
  pub has_default_file : Bool  -- OpenSSL's default certificate file is a regular file
  pub loads : Bytes → Bool  -- load_verify_file succeeds

-- What a context trusts, in the order in which it was told to.
pub data Roots : Type 0 where
  default_paths : Roots
  bundle : Bytes → Roots

pub record Context : Type 0 where
  pub verifies_peer : Bool
  pub roots : List Roots

-- ca_bundles
abbrev pub ca_bundles : List Bytes
ca_bundles =
    codes "/etc/ssl/certs/ca-certificates.crt"
    ∷ codes "/etc/pki/tls/certs/ca-bundle.crt"
    ∷ codes "/etc/ssl/ca-bundle.pem"
    ∷ codes "/etc/pki/ca-trust/extracted/pem/tls-ca-bundle.pem"
    ∷ codes "/etc/ssl/cert.pem"
    ∷ []

-- The loop of load_platform_trust_roots.
pub load_first : (Bytes → Bool) → List Bytes → Context → Context
load_first loads [] ctx = ctx
load_first loads (path ∷ paths) ctx =
    let later = load_first loads paths ctx in
    if loads path then record ctx { roots = ctx.roots ++ bundle path ∷ [] } else later

-- load_platform_trust_roots, where the platform is not Windows.
pub load_platform_trust_roots : RootsApi → Context → Context
unfolding load_first
load_platform_trust_roots api ctx =
    if api.has_default_file then ctx else load_first api.loads ca_bundles ctx

-- make_tls_context. A failure of set_default_verify_paths is only logged.
pub make_tls_context : RootsApi → Context
unfolding load_platform_trust_roots
make_tls_context api =
    let ctx : Context = record { verifies_peer = true; roots = default_paths ∷ [] } in
    if not api.file_env && not api.dir_env then load_platform_trust_roots api ctx else ctx
