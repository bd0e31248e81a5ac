-- ===== src/Proxy.antt =====
-- src/server/proxy.rs: `GrpcWebProxy`, its constructor and the rewriting of a request.
pub mod Build
pub mod Forward
use grpc_web_server.Base.{
  ℕ, Str, text, Bool, true, false, ◌++◌, Option, none, some, List, Outcome, ok, err, panic,
  undefined, ◌>>=◌, ok_or, ◌==◌, if◌then◌else◌,
}
use grpc_web_server.External.{External}

pub record GrpcWebProxy (ext : External) : Type 0 where
  pub client : ext.Client
  pub authority : ext.Authority
  pub use_tls : Bool

-- `http::Request<TonicBody>`: `call` names only the URI of the parts; `rest` stands for the version
-- and the extensions.
pub record Request (ext : External) (Headers Rest Body : Type 0) : Type 0 where
  pub method : ext.Method
  pub uri : ext.Uri
  pub headers : Headers
  pub rest : Rest
  pub body : Body

abbrev pub scheme_of : Bool → Str
scheme_of use_tls = if use_tls then text "https" else text "http"

-- `Result::expect`
abbrev pub expect {ℓ} : {A : Type ℓ} → Outcome Str A → Outcome Str A
expect (ok a) = ok a
expect (err e) = panic
expect panic = panic
expect undefined = undefined

module _ (ext : External) where
  -- The certificates of the PEM file at a path: `File::open`, then `certs`.
  read_certs : Str → Outcome Str (List ext.Certificate)
  read_certs path = do pem ← ext.open_file path; ext.pem_certs pem

  -- The root store, and whether the upstream is reached over TLS.
  pub load_roots : Option Str → Outcome Str (ext.RootCertStore × Bool)
  unfolding read_certs
  load_roots none = ok (ext.empty_roots, false)
  load_roots (some path) = do
    parsed ← read_certs path
    let loaded = ext.add_parsable_certificates ext.empty_roots parsed
    if loaded.added == 0
        then err (text "no CA certs loaded from grpc_ca_cert")
        else ok (loaded.roots, true)

  -- The client configuration: with a certificate of its own only if both files are given.
  pub client_config : ext.RootCertStore → Option Str → Option Str → Outcome Str ext.ClientConfig
  unfolding read_certs
  client_config roots (some proxy_cert) (some proxy_key) = do
    certs ← read_certs proxy_cert
    pem ← ext.open_file proxy_key
    found ← ext.pem_private_key pem
    key ← ok_or found (text "Failed to read " ++ proxy_key)
    ext.with_client_auth_cert roots certs key
  client_config roots (some proxy_cert) none = ok (ext.with_no_client_auth roots)
  client_config roots none proxy_key = ok (ext.with_no_client_auth roots)

  -- `GrpcWebProxy::new`
  unfoldable pub new_proxy :
      Str → Option Str → Option Str → Option Str → Outcome Str (GrpcWebProxy ext)
  unfolding load_roots client_config
  new_proxy address ca_cert proxy_cert proxy_key = do
    authority ← ext.parse_authority address
    (roots, use_tls) ← load_roots ca_cert
    config ← client_config roots proxy_cert proxy_key
    ok (record { client = ext.http2_client config; authority = authority; use_tls = use_tls })

  -- `parts.uri.path_and_query().map(|pq| pq.as_str()).unwrap_or("/")`
  abbrev pub path_or_root : ext.Uri → Str
  path_or_root uri = elim (ext.path_and_query uri) [ none ↦ text "/" | some path ↦ path ]

module _ {ext : External} {Headers Rest Body : Type 0} where
  -- `Service::call`: the request that is handed to the client
  unfoldable pub call :
      GrpcWebProxy ext → Request ext Headers Rest Body → Outcome Str (Request ext Headers Rest Body)
  call proxy req = do
    upstream ← expect (
        ext.build_uri (scheme_of proxy.use_tls) (ext.authority_as_str proxy.authority)
          (path_or_root ext req.uri))
    ok (record req { uri = upstream })
