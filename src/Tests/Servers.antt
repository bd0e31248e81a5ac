-- ===== src/Tests/Servers.antt =====
-- Validation, assembly and start of servers.
use grpc_web_server.Base.{
  Str, text, ◌≡◌, refl, ◌↔◌, ◌⊎◌, inl, true, none, some, List, [], ◌∷◌, ok, err,
}
use grpc_web_server.Config.{GrpcWebServerOptions, validate}
use grpc_web_server.Config.Validation.{
  IsValid, validate_iff, first_broken, rules, validate-eq-first_broken,
}
use grpc_web_server.Proxy.{Request, new_proxy, call}
use grpc_web_server.Proxy.Forward.{HasPath}
use grpc_web_server.Server.{GrpcWebServer, binds_https, cors_settings, new_server, start}
use grpc_web_server.Server.Assembly.{
  IsAssembled, IsExplicit, HasWildcard, new_server-IsAssembled, mtls_without_ca,
  cors_settings-credentials,
}
use grpc_web_server.Server.Transport.{NeverPlain, IsServed, start_tls_only, start-returns_iff}
use grpc_web_server.Tests.Fixtures.{crates, web, plain, mutual_tls, https, credentialed}

-- What the runs below compute with.
serving : Unit {0}
unfolding new_server start new_proxy validate text
serving = tt

abbrev routes : List Str
routes = text "trace" ∷ text "cors" ∷ text "fallback" ∷ text "/api" ∷ []

abbrev server_of : GrpcWebServerOptions crates → GrpcWebServer crates web
server_of o = record { router = routes; options = o }

new_server-plain : new_server web plain ≡ ok (server_of plain)
unfolding serving
new_server-plain = refl

new_server-https : new_server web https ≡ ok (server_of https)
unfolding serving
new_server-https = refl

new_server-mutual_tls : new_server web mutual_tls ≡ ok (server_of mutual_tls)
unfolding serving
new_server-mutual_tls = refl

start-https :
    (start web (server_of https))
    ≡ (ok tt, binds_https (text "127.0.0.1:80") (text "cert", text "key") ∷ [])
unfolding serving
start-https = refl

validate_iff_example : (validate plain ≡ ok tt) ↔ IsValid plain
validate_iff_example = validate_iff plain

-- A client key without the other two files breaks the first rule.
abbrev key_only : GrpcWebServerOptions crates
key_only = record plain { grpc_proxy_key = some (text "key") }

validate-key_only : validate key_only ≡ err (text "grpc_ca_cert must be defined for gRPC mTLS")
unfolding validate
validate-key_only = refl

validate-eq-first_broken_example : validate key_only ≡ first_broken (rules key_only)
validate-eq-first_broken_example = validate-eq-first_broken key_only

new_server-IsAssembled_example : IsValid plain × IsAssembled web plain (server_of plain)
new_server-IsAssembled_example = new_server-IsAssembled web plain new_server-plain

mtls_without_ca_example :
    IsValid mutual_tls
    × ((assembled : IsAssembled web mutual_tls (server_of mutual_tls)) × ((req out : Request crates
            Str Str Str)
          → call assembled.proxy req ≡ ok out
          → (path : Str) × HasPath crates req.uri path
            × (crates.build_uri
                  (text "http")
                  (crates.authority_as_str assembled.proxy.authority)
                  path
                ≡ ok out.uri)))
mtls_without_ca_example =
    mtls_without_ca web {Headers = Str} {Rest = Str} {Body = Str} mutual_tls (text "key")
      (text "cert") refl refl refl new_server-mutual_tls

credentialed_policy : IsValid credentialed
unfolding validate
credentialed_policy = (validate_iff credentialed).0 refl

cors_settings-credentials_example :
    IsExplicit (cors_settings credentialed.cors_policy).origins
    × (HasWildcard (cors_settings credentialed.cors_policy) ↔ (
        (credentialed.cors_policy.allow_any_method ≡ true)
        ⊎ (credentialed.cors_policy.allow_any_header ≡ true)))
cors_settings-credentials_example =
    cors_settings-credentials credentialed.cors_policy credentialed_policy.cors refl

start_tls_only_example : NeverPlain (start web (server_of https)).1
start_tls_only_example = start_tls_only https new_server-https (inl refl)

start-returns_iff_example : ((start web (server_of plain)).0 ≡ ok tt) ↔ (
    (addr : web.SocketAddr) × (web.parse_socket_addr plain.http_address ≡ ok addr)
    × IsServed (server_of plain) addr none none)
start-returns_iff_example = start-returns_iff (server_of plain)
