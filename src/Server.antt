-- ===== src/Server.antt =====
-- src/server/server.rs: `GrpcWebServer`, the assembly of its router and `start`.
pub mod Assembly
pub mod Transport
use grpc_web_server.Base.{
  ℕ, Str, text, Bool, true, false, ◌++◌, Option, none, some, List, [], ◌∷◌, Outcome, ok, err, panic,
  undefined, ◌>>=◌, ◌>>◌, if◌then◌else◌,
}
use grpc_web_server.External.{External}
use grpc_web_server.Paths.{join}
use grpc_web_server.Config.{CorsPolicy, GrpcWebServerOptions, validate}
use grpc_web_server.Proxy.{GrpcWebProxy, new_proxy}

-- The argument of `allow_origin`, `allow_methods` or `allow_headers`: `Any`, or a list.
pub data Allow (A : Type 0) : Type 0 where
  any : Allow A
  list : List A → Allow A

-- What the builder calls on `CorsLayer::new()` set.
pub record CorsSettings (ext : External) : Type 0 where
  pub origins : Allow ext.HeaderValue
  pub methods : Allow ext.Method
  pub headers : Allow ext.HeaderName
  pub exposed : List Str
  pub credentials : Bool

-- A service that is mounted in the router: the gRPC-Web layer over the proxy inside the error
-- handler, or `ServeDir` with `ServeFile` as its fallback.
pub data Endpoint (ext : External) : Type 0 where
  grpc_web : GrpcWebProxy ext → Endpoint ext
  static_files : (dir index : Str) → Endpoint ext

-- Which arm of `tokio::select!` completes: the server future with its result, or the shutdown.
pub data Race : Type 0 where
  server_exits : Outcome Str (Unit {0}) → Race
  shutdown_signal : Race

-- axum, axum-server, tower-http and tokio's network calls.
pub record Web (ext : External) : Type 1 where
  pub Router : Type 0
  pub new_router : Router
  pub nest_service : Router → Str → Endpoint ext → Router
  pub fallback_service : Router → Endpoint ext → Router
  -- `Router::layer` with a `CorsLayer`, which checks its settings and may panic
  pub layer_cors : Router → CorsSettings ext → Outcome Str Router
  pub layer_trace : Router → Router
  pub SocketAddr : Type 0
  pub parse_socket_addr : Str → Outcome Str SocketAddr
  pub RustlsConfig : Type 0
  pub from_pem_file : Str → Str → Outcome Str RustlsConfig
  pub Listener : Type 0
  pub bind : SocketAddr → Outcome Str Listener
  -- whether tracing records INFO: `info!` evaluates its arguments only then
  pub info_enabled : Bool
  pub local_addr : Listener → Outcome Str SocketAddr
  pub serve_rustls : SocketAddr → RustlsConfig → Router → Race
  pub serve : Listener → Router → Race

-- What `start` does before it returns, in order.
pub data Action (ext : External) (web : Web ext) : Type 0 where
  binds_https : web.SocketAddr → web.RustlsConfig → Action ext web
  binds_http : web.SocketAddr → Action ext web

-- `GrpcWebServer`
pub record GrpcWebServer (ext : External) (web : Web ext) : Type 0 where
  pub router : web.Router
  pub options : GrpcWebServerOptions ext

-- The loop of the error handler over `source()`, for the messages of the chain.
pub describe_chain : Str → List Str → Str
describe_chain out [] = out
describe_chain out (src ∷ sources) = describe_chain (out ++ (text " | caused by: " ++ src)) sources

-- The response of the error handler, and the line that it logs.
pub upstream_unavailable : Str → List Str → record { status : ℕ; body : Str; logged : Str }
unfolding describe_chain
upstream_unavailable error sources = record {
  status = 502;
  body = text "Plugin gRPC upstream unavailable";
  logged = describe_chain error sources;
}

-- The response headers that browsers may read.
abbrev pub exposed_headers : List Str
exposed_headers =
    text "grpc-accept-encoding"
    ∷ text "grpc-encoding"
    ∷ text "grpc-message"
    ∷ text "grpc-status"
    ∷ text "grpc-status-details-bin"
    ∷ text "content-type"
    ∷ text "set-cookie"
    ∷ []

-- `if any { Any } else { list.clone().unwrap_or_default() }`
abbrev pub allow : {A : Type 0} → Bool → Option (List A) → Allow A
allow true l = any
allow false none = list []
allow false (some l) = list l

abbrev pub cors_settings : {ext : External} → CorsPolicy ext → CorsSettings ext
cors_settings policy = record {
  origins = allow policy.allow_any_origin policy.allowed_origins;
  methods = allow policy.allow_any_method policy.allowed_methods;
  headers = allow policy.allow_any_header policy.allowed_headers;
  exposed = exposed_headers;
  credentials = policy.allow_credentials;
}

-- A result whose value only goes to the log.
abbrev pub map_ok {ℓ} : {A : Type ℓ} → Outcome Str A → Outcome Str (Unit {0})
map_ok (ok a) = ok tt
map_ok (err e) = err e
map_ok panic = panic
map_ok undefined = undefined

-- The `tokio::select!` of either branch, then `Ok(())`.
abbrev pub finish : Race → Outcome Str (Unit {0})
finish (server_exits result) = result
finish shutdown_signal = ok tt

module _ {ext : External} (web : Web ext) where
  pub add_proxy : GrpcWebServerOptions ext → web.Router → Outcome Str web.Router
  add_proxy o router = do
    proxy ← new_proxy ext o.grpc_address o.grpc_ca_cert o.grpc_proxy_cert o.grpc_proxy_key
    ok (web.nest_service router (text "/api") (grpc_web proxy))

  pub add_web : GrpcWebServerOptions ext → web.Router → web.Router
  add_web o router = elim o.static_dir [
    | none ↦ router
    | some dir ↦ web.fallback_service router (static_files dir (join dir (text "index.html")))
  ]

  pub add_cors : GrpcWebServerOptions ext → web.Router → Outcome Str web.Router
  add_cors o router = web.layer_cors router (cors_settings o.cors_policy)

  pub add_observability : web.Router → web.Router
  add_observability router = web.layer_trace router

  -- `GrpcWebServer::new`
  unfoldable pub new_server : GrpcWebServerOptions ext → Outcome Str (GrpcWebServer ext web)
  unfolding add_proxy add_web add_cors add_observability
  new_server o = do
    validate o
    proxied ← add_proxy o web.new_router
    guarded ← add_cors o (add_web o proxied)
    ok (record { router = add_observability guarded; options = o })

  start_https :
      GrpcWebServer ext web
      → web.SocketAddr
      → (cert key : Str) → Outcome Str (Unit {0}) × List (Action ext web)
  start_https server addr cert key = elim (web.from_pem_file cert key) [
    | ok config ↦
        (finish (web.serve_rustls addr config server.router), binds_https addr config ∷ [])
    | err e ↦ (err e, [])
    | panic ↦ (panic, [])
    | undefined ↦ (undefined, [])
  ]

  start_http :
      GrpcWebServer ext web → web.SocketAddr → Outcome Str (Unit {0}) × List (Action ext web)
  start_http server addr = (
    (do
      listener ← web.bind addr
      if web.info_enabled then map_ok (web.local_addr listener) else ok tt
      finish (web.serve listener server.router)),
    binds_http addr ∷ [],
  )

  -- The branch on `(http_cert, http_key)`.
  start_on :
      GrpcWebServer ext web
      → web.SocketAddr
      → Option Str
      → Option Str
      → Outcome Str (Unit {0}) × List (Action ext web)
  unfolding start_https start_http
  start_on server addr (some cert) (some key) = start_https server addr cert key
  start_on server addr (some cert) none = start_http server addr
  start_on server addr none key = start_http server addr

  -- `GrpcWebServer::start`
  unfoldable pub start : GrpcWebServer ext web → Outcome Str (Unit {0}) × List (Action ext web)
  unfolding start_on
  start server = elim (web.parse_socket_addr server.options.http_address) [
    | ok addr ↦ start_on server addr server.options.http_cert server.options.http_key
    | err e ↦ (err e, [])
    | panic ↦ (panic, [])
    | undefined ↦ (undefined, [])
  ]
