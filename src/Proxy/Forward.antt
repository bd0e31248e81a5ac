-- ===== src/Proxy/Forward.antt =====
-- What `Service::call` of the proxy does to a request.
use grpc_web_server.Base.{
  Str, text, ◌↔◌, ◌⊎◌, ◌≡◌, refl, sym, ap, inl, inr, true, false, none, some, ok, arith, Bool-cases,
  Option-cases,
}
use grpc_web_server.Paths.{is_absolute}
use grpc_web_server.External.{External}
use grpc_web_server.Proxy.{GrpcWebProxy, Request, scheme_of, path_or_root, call}

-- The path and query of a URI, or "/" where it has none.
abbrev pub HasPath : (ext : External) → ext.Uri → Str → Type 0
HasPath ext uri path =
    (ext.path_and_query uri ≡ some path) ⊎ ((ext.path_and_query uri ≡ none) × (path ≡ text "/"))

path_or_root-HasPath : (ext : External) (uri : ext.Uri) → HasPath ext uri (path_or_root ext uri)
path_or_root-HasPath ext uri = elim (Option-cases (ext.path_and_query uri)) [
  | inl empty ↦ inr (empty, ground (arith, empty))
  | inr (path, there) ↦ inl (ground (arith, there))
]

path_or_root_unique :
    (ext : External) (uri : ext.Uri) (path : Str)
    → HasPath ext uri path
    → path_or_root ext uri ≡ path
path_or_root_unique ext uri path (inl there) = ground (arith, there)
path_or_root_unique ext uri path (inr (empty, root)) = ground (arith, empty, root)

module _ {ext : External} {Headers Rest Body : Type 0} where
  -- `out` is `req` sent to the upstream of `proxy`: the URI is built from "https" or "http", as TLS
  -- is on or off, the configured authority and the path and query of the request.
  pub record IsForwarded (proxy : GrpcWebProxy ext) (req out : Request ext Headers Rest Body)
      : Type 0 where
    pub path : Str
    pub routed : HasPath ext req.uri path
    pub secure :
        proxy.use_tls ≡ true
        → ext.build_uri (text "https") (ext.authority_as_str proxy.authority) path ≡ ok out.uri
    pub plain :
        proxy.use_tls ≡ false
        → ext.build_uri (text "http") (ext.authority_as_str proxy.authority) path ≡ ok out.uri
    pub method : out.method ≡ req.method
    pub headers : out.headers ≡ req.headers
    pub rest : out.rest ≡ req.rest
    pub body : out.body ≡ req.body

  -- A request is forwarded as `out` exactly if `out` keeps its method, headers, body and remaining
  -- parts, and has the URI that is built from "https" or "http", as TLS is on or off, the configured
  -- authority and the path and query of the request, or the path "/" where the request has none.
  pub call-IsForwarded :
      (proxy : GrpcWebProxy ext) (req out : Request ext Headers Rest Body)
      → (call proxy req ≡ ok out) ↔ IsForwarded proxy req out
  unfolding call
  call-IsForwarded proxy req out = (
    λ h. record {
      path = path_or_root ext req.uri;
      routed = path_or_root-HasPath ext req.uri;
      secure = λ on. ground (arith, h, on);
      plain = λ off. ground (arith, h, off);
      method = ground (arith, h);
      headers = ground (arith, h);
      rest = ground (arith, h);
      body = ground (arith, h);
    },
    λ f. elim (Bool-cases proxy.use_tls) [
      | inl on ↦ sent f (text "https") (f.secure on) (ap scheme_of on)
      | inr off ↦ sent f (text "http") (f.plain off) (ap scheme_of off)
    ],
  )
    where
      request_eq :
          out.method ≡ req.method
          → out.headers ≡ req.headers
          → out.rest ≡ req.rest
          → out.body ≡ req.body
          → out ≡ record req { uri = out.uri }
      request_eq m h r b i = record {
        method = m i;
        uri = out.uri;
        headers = h i;
        rest = r i;
        body = b i;
      }

      sent :
          (f : IsForwarded proxy req out) (scheme : Str)
          → ext.build_uri scheme (ext.authority_as_str proxy.authority) f.path ≡ ok out.uri
          → scheme_of proxy.use_tls ≡ scheme
          → call proxy req ≡ ok out
      sent f scheme built chosen =
          let path = path_or_root_unique ext req.uri f.path f.routed in
          rw (chosen, path, built) (ap ok (sym (request_eq f.method f.headers f.rest f.body)))

  -- If the URI builder keeps a path that starts with "/" and that some URI has, and so also "/" itself,
  -- then a request with such a path, or with none, that has been forwarded is forwarded again
  -- unchanged: nothing of the path is lost or added.
  pub call_idem :
      ((scheme authority path : Str) (uri : ext.Uri)
        → is_absolute path ≡ true
        → (path ≡ text "/") ⊎ ((known : ext.Uri) × (ext.path_and_query known ≡ some path))
        → ext.build_uri scheme authority path ≡ ok uri
        → ext.path_and_query uri ≡ some path)
      → (proxy : GrpcWebProxy ext) (req out : Request ext Headers Rest Body)
      → ((path : Str) → ext.path_and_query req.uri ≡ some path → is_absolute path ≡ true)
      → call proxy req ≡ ok out
      → call proxy out ≡ ok out
  unfolding text
  call_idem keeps proxy req out origin h =
      let f = (call-IsForwarded proxy req out).0 h in
      let starts : is_absolute f.path ≡ true = elim f.routed [
        | inl there ↦ origin f.path there
        | inr (empty, root) ↦ ap is_absolute root
      ] in
      let known : (f.path ≡ text "/") ⊎ ((u : ext.Uri) × (ext.path_and_query u ≡ some f.path)) =
        elim f.routed [ inl there ↦ inr (req.uri, there) | inr (empty, root) ↦ inl root ] in
      let kept : ext.path_and_query out.uri ≡ some f.path = elim (Bool-cases proxy.use_tls) [
        | inl on ↦ keeps _ _ f.path out.uri starts known (f.secure on)
        | inr off ↦ keeps _ _ f.path out.uri starts known (f.plain off)
      ] in
      (call-IsForwarded proxy out out).1 (record {
        path = f.path;
        routed = inl kept;
        secure = f.secure;
        plain = f.plain;
        method = refl;
        headers = refl;
        rest = refl;
        body = refl;
      })
