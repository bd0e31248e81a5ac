-- ===== src/Tests/Proxies.antt =====
-- Proxies and forwarded requests.
use grpc_web_server.Base.{◌↔◌, ◌⊎◌, subst, Str, text, ◌≡◌, refl, true, some, [], ◌∷◌, ok, ok_inj}
use grpc_web_server.Paths.{is_absolute}
use grpc_web_server.Proxy.{GrpcWebProxy, Request, new_proxy, call}
use grpc_web_server.Proxy.Build.{IsBuilt, new_proxy-IsBuilt}
use grpc_web_server.Proxy.Forward.{IsForwarded, call-IsForwarded, call_idem}
use grpc_web_server.Tests.Fixtures.{crates}

abbrev secure : GrpcWebProxy crates
secure = record { client = text "key" ∷ text "ca" ∷ []; authority = text "up:1"; use_tls = true }

-- With a CA file and both client files.
new_proxy-secure :
    new_proxy crates (text "up:1") (some (text "ca")) (some (text "cert")) (some (text "key"))
    ≡ ok secure
unfolding new_proxy text
new_proxy-secure = refl

abbrev request : Request crates Str Str Str
request = record {
  method = text "POST";
  uri = (text "http", text "localhost", text "/pkg.Service/Method");
  headers = text "x-grpc-web: 1";
  rest = text "HTTP/1.1";
  body = text "frame";
}

abbrev upstream : Request crates Str Str Str
upstream = record request { uri = (text "https", text "up:1", text "/pkg.Service/Method") }

call-request : call secure request ≡ ok upstream
unfolding call
call-request = refl

new_proxy-IsBuilt_example :
    IsBuilt crates (text "up:1") (some (text "ca")) (some (text "cert")) (some (text "key")) secure
new_proxy-IsBuilt_example =
    new_proxy-IsBuilt crates (text "up:1") (some (text "ca")) (some (text "cert"))
      (some (text "key")) new_proxy-secure

call-IsForwarded_example : (call secure request ≡ ok upstream) ↔ IsForwarded secure request upstream
call-IsForwarded_example = call-IsForwarded secure request upstream

request_origin :
    (path : Str) → crates.path_and_query request.uri ≡ some path → is_absolute path ≡ true
unfolding text
request_origin path e =
    let here : text "/pkg.Service/Method" ≡ path = cc (e) in
    subst (λ p. is_absolute p ≡ true) here refl

crates-keeps :
    (scheme authority path : Str) (uri : crates.Uri)
    → is_absolute path ≡ true
    → (path ≡ text "/") ⊎ ((known : crates.Uri) × (crates.path_and_query known ≡ some path))
    → crates.build_uri scheme authority path ≡ ok uri
    → crates.path_and_query uri ≡ some path
crates-keeps scheme authority path uri origin known e = cc (ok_inj e)

call_idem_example : call secure upstream ≡ ok upstream
call_idem_example =
    call_idem {ext = crates} crates-keeps secure request upstream request_origin call-request
