-- ===== src/Tests/Fixtures.antt =====
-- Small concrete versions of the crates, and options over them.
use grpc_web_server.Base.{
  Str, text, ◌≡◌, Bool, true, false, ◌&&◌, ◌||◌, none, some, List, [], ◌∷◌, length, Outcome, ok,
  err, panic, if◌then◌else◌, arith,
}
use grpc_web_server.External.{External}
use grpc_web_server.Config.{GrpcWebServerOptions, default_policy}
use grpc_web_server.Server.{Allow, any, list, CorsSettings, Web, shutdown_signal}
use grpc_web_server.Server.Assembly.{HasWildcard}

-- Every text parses but the empty one; the file at a path holds its own path.
abbrev pub parse : Str → Outcome Str Str
parse [] = err (text "empty")
parse (c ∷ s) = ok (c ∷ s)

abbrev pub crates : External
crates = record {
  HeaderValue = Str;
  Method = Str;
  HeaderName = Str;
  Authority = Str;
  Uri = Str × Str × Str;
  header_value_from_str = parse;
  method_from_bytes = parse;
  header_name_from_bytes = parse;
  parse_authority = parse;
  authority_as_str = λ a. a;
  path_and_query = λ uri. some uri.2;
  build_uri = λ scheme authority path. ok (scheme, authority, path);
  open_file = parse;
  Certificate = Str;
  PrivateKey = Str;
  RootCertStore = List Str;
  ClientConfig = List Str;
  pem_certs = λ pem. ok (pem ∷ []);
  pem_private_key = λ pem. ok (some pem);
  empty_roots = [];
  add_parsable_certificates = λ roots certs. record { roots = certs; added = length certs };
  with_client_auth_cert = λ roots certs key. ok (key ∷ roots);
  with_no_client_auth = λ roots. roots;
  Client = List Str;
  http2_client = λ config. config;
}

abbrev pub is_any : {A : Type 0} → Allow A → Bool
is_any any = true
is_any (list l) = false

abbrev pub has_wildcard : CorsSettings crates → Bool
has_wildcard s = is_any s.origins || (is_any s.methods || is_any s.headers)

-- A router is the list of what was added to it, the last first.
abbrev pub web : Web crates
web = record {
  Router = List Str;
  new_router = [];
  nest_service = λ router path e. path ∷ router;
  fallback_service = λ router e. text "fallback" ∷ router;
  layer_cors =
      λ router s. if s.credentials && has_wildcard s then panic else ok (text "cors" ∷ router);
  layer_trace = λ router. text "trace" ∷ router;
  SocketAddr = Str;
  parse_socket_addr = parse;
  RustlsConfig = Str × Str;
  from_pem_file = λ cert key. ok (cert, key);
  Listener = Str;
  bind = λ addr. ok addr;
  info_enabled = true;
  local_addr = λ listener. ok listener;
  serve_rustls = λ addr config router. shutdown_signal;
  serve = λ listener router. shutdown_signal;
}

-- The version of the CORS layer here panics as tower-http documents.
pub web_panics :
    (router : web.Router) (s : CorsSettings crates)
    → s.credentials ≡ true
    → HasWildcard s
    → web.layer_cors router s ≡ panic
web_panics router s sends wild = ground arith

abbrev pub plain : GrpcWebServerOptions crates
plain = record {
  http_address = text "127.0.0.1:80";
  grpc_address = text "127.0.0.1:50051";
  static_dir = some (text "web");
  grpc_ca_cert = none;
  grpc_proxy_key = none;
  grpc_proxy_cert = none;
  http_key = none;
  http_cert = none;
  cors_policy = default_policy;
}

abbrev pub mutual_tls : GrpcWebServerOptions crates
mutual_tls = record plain {
  grpc_proxy_key = some (text "key");
  grpc_proxy_cert = some (text "cert");
}

abbrev pub https : GrpcWebServerOptions crates
https = record plain { http_key = some (text "key"); http_cert = some (text "cert") }

-- Credentials with one origin, and every method and header.
abbrev pub credentialed : GrpcWebServerOptions crates
credentialed = record plain {
  cors_policy = record default_policy {
    allowed_origins = some (text "https://a.example" ∷ []);
    allow_any_origin = false;
    allow_credentials = true;
  };
}
