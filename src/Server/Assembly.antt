-- ===== src/Server/Assembly.antt =====
-- How `GrpcWebServer::new` assembles the router, and with which CORS settings.
use grpc_web_server.Base.{
  Str, text, ◌≡◌, refl, ◌⊎◌, inl, inr, ◌↔◌, true, false, List, [], ◌∷◌, ◌++◌, Option, none, some,
  ok, err, panic, arith, subst, sym, Bool, ap, is_some, ok_inj, >>=-eq-ok, append_assoc, append-nil,
  ◌∙◌,
}
use grpc_web_server.External.{External}
use grpc_web_server.Config.{CorsPolicy, GrpcWebServerOptions, validate}
use grpc_web_server.Config.Validation.{IsListed, IsUsable, IsValid, validate_iff, validate_total}
use grpc_web_server.Proxy.{GrpcWebProxy, Request, new_proxy, call}
use grpc_web_server.Paths.{join}
use grpc_web_server.Proxy.Build.{new_proxy-use_tls}
use grpc_web_server.Proxy.Forward.{HasPath, call-IsForwarded}
use grpc_web_server.Server.{
  Allow, any, list, CorsSettings, grpc_web, static_files, Web, GrpcWebServer, describe_chain, allow,
  cors_settings, add_proxy, add_web, add_cors, new_server,
}

-- A choice of the policy as the layer gets it: the wildcard, or else the list, which is there.
abbrev pub IsChosen : {A : Type 0} → Bool → Option (List A) → Allow A → Type 0
IsChosen {A} wildcard l choice =
    (wildcard ≡ true → choice ≡ any)
    × (wildcard ≡ false → (xs : List A) × (l ≡ some xs) × (choice ≡ list xs))

-- The settings of the layer for a policy.
pub record HasPolicy {ext : External} (p : CorsPolicy ext) (s : CorsSettings ext) : Type 0 where
  pub origins : IsChosen p.allow_any_origin p.allowed_origins s.origins
  pub methods : IsChosen p.allow_any_method p.allowed_methods s.methods
  pub headers : IsChosen p.allow_any_header p.allowed_headers s.headers
  pub credentials : s.credentials ≡ p.allow_credentials
  pub exposed :
      s.exposed
      ≡ text "grpc-accept-encoding"
        ∷ text "grpc-encoding"
        ∷ text "grpc-message"
        ∷ text "grpc-status"
        ∷ text "grpc-status-details-bin"
        ∷ text "content-type"
        ∷ text "set-cookie"
        ∷ []

allow-IsChosen :
    {A : Type 0} (wildcard : Bool) (l : Option (List A))
    → (wildcard ≡ false → IsListed l)
    → IsChosen wildcard l (allow wildcard l)
allow-IsChosen true l listed = (λ on. refl, λ off. cc (off))
allow-IsChosen false l listed =
    (λ on. cc (on), λ off. let (a, rest, e) = listed off in (a ∷ rest, e, ap (allow false) e))

cors_settings-HasPolicy :
    {ext : External} (p : CorsPolicy ext) → IsUsable p → HasPolicy p (cors_settings p)
cors_settings-HasPolicy p u = record {
  origins = allow-IsChosen p.allow_any_origin p.allowed_origins u.origins;
  methods = allow-IsChosen p.allow_any_method p.allowed_methods u.methods;
  headers = allow-IsChosen p.allow_any_header p.allowed_headers u.headers;
  credentials = refl;
  exposed = refl;
}

module _ {ext : External} (web : Web ext) where
  -- A router with the static files of a directory as its fallback, if one is given.
  abbrev pub HasStatic : Option Str → web.Router → web.Router → Type 0
  HasStatic none before after = after ≡ before
  HasStatic (some dir) before after =
      after ≡ web.fallback_service before (static_files dir (join dir (text "index.html")))

  -- A server whose router has the proxy of the options at "/api", then the static files if there are
  -- any, then the CORS layer of the policy, with tracing outermost.
  pub record IsAssembled (o : GrpcWebServerOptions ext) (server : GrpcWebServer ext web)
      : Type 0 where
    pub proxy : GrpcWebProxy ext
    pub settings : CorsSettings ext
    pub served : web.Router
    pub guarded : web.Router
    pub built :
        new_proxy ext o.grpc_address o.grpc_ca_cert o.grpc_proxy_cert o.grpc_proxy_key ≡ ok proxy
    pub static :
        HasStatic o.static_dir
          (web.nest_service web.new_router (text "/api") (grpc_web proxy))
          served
    pub policy : HasPolicy o.cors_policy settings
    pub layered : web.layer_cors served settings ≡ ok guarded
    pub router : server.router ≡ web.layer_trace guarded
    pub options : server.options ≡ o

  add_web-HasStatic :
      (o : GrpcWebServerOptions ext) (r : web.Router) → HasStatic o.static_dir r (add_web web o r)
  unfolding add_web
  add_web-HasStatic o r = chosen o.static_dir
    where
      chosen :
          (dir : Option Str)
          → HasStatic dir r (elim dir [
            | none ↦ r
            | some d ↦ web.fallback_service r (static_files d (join d (text "index.html")))
          ])
      chosen none = refl
      chosen (some d) = refl

  -- A server exists only for valid options; it keeps these options, and its router serves the proxy
  -- built from them at "/api" and the files of the static directory, if there is one, as the
  -- fallback, with index.html for what is not found; around it is the CORS layer with the policy's
  -- wildcards or else its lists, its credentials and the seven exposed headers, and tracing outermost.
  pub new_server-IsAssembled :
      (o : GrpcWebServerOptions ext) {server : GrpcWebServer ext web}
      → new_server web o ≡ ok server
      → IsValid o × IsAssembled o server
  unfolding new_server add_cors
  new_server-IsAssembled o h =
      let (_, accepted, h₁) = >>=-eq-ok (validate o) _ h in
      let (proxied, mounted, h₂) = >>=-eq-ok (add_proxy web o web.new_router) _ h₁ in
      let (proxy, built, nested) =
        >>=-eq-ok (new_proxy ext o.grpc_address o.grpc_ca_cert o.grpc_proxy_cert o.grpc_proxy_key) _
          mounted in
      let (guarded, layered, h₃) = >>=-eq-ok (add_cors web o (add_web web o proxied)) _ h₂ in
      let valid = (validate_iff o).0 accepted in
      (
        valid,
        subst (λ server. IsAssembled o server) (ok_inj h₃)
            (record {
              proxy = proxy;
              settings = cors_settings o.cors_policy;
              served = add_web web o proxied;
              guarded = guarded;
              built = built;
              static =
                  subst (λ r. HasStatic o.static_dir r (add_web web o proxied))
                    (sym (ok_inj nested)) (add_web-HasStatic o proxied);
              policy = cors_settings-HasPolicy o.cors_policy valid.cors;
              layered = layered;
              router = refl;
              options = refl;
            }),
      )

  -- Invalid options never yield a server: the constructor returns an error.
  pub new_server_invalid :
      (o : GrpcWebServerOptions ext) → ¬ IsValid o → (e : Str) × (new_server web o ≡ err e)
  unfolding new_server
  new_server_invalid o h = elim (validate_total o) [
    | inl valid ↦ absurd (h ((validate_iff o).0 valid))
    | inr (e, refused) ↦ (e, rw refused)
  ]

  -- A client certificate and its key without a CA file pass validation, and the proxy that the
  -- router of the server serves at "/api" forwards every request in plain text, to an "http" URI.
  pub mtls_without_ca :
      {Headers Rest Body : Type 0} (o : GrpcWebServerOptions ext) (key cert : Str)
      → o.grpc_proxy_key ≡ some key
      → o.grpc_proxy_cert ≡ some cert
      → o.grpc_ca_cert ≡ none
      → {server : GrpcWebServer ext web} → new_server web o ≡ ok server
      → IsValid o
        × ((assembled : IsAssembled o server) × ((req out : Request ext Headers Rest Body)
              → call assembled.proxy req ≡ ok out
              → (path : Str) × HasPath ext req.uri path
                × (ext.build_uri (text "http") (ext.authority_as_str assembled.proxy.authority) path
                    ≡ ok out.uri)))
  mtls_without_ca o key cert has_key has_cert no_ca h =
      let (valid, assembled) = new_server-IsAssembled o h in
      let plain =
        new_proxy-use_tls ext o.grpc_address o.grpc_ca_cert o.grpc_proxy_cert o.grpc_proxy_key
          assembled.built in
      let off : assembled.proxy.use_tls ≡ false = cc (plain, ap is_some no_ca) in
      (
        valid,
        (
          assembled,
          λ req out sent.
              let f = (call-IsForwarded assembled.proxy req out).0 sent in
              (f.path, f.routed, f.plain off),
        ),
      )

-- The list of an explicit choice as the layer gets it.
abbrev pub IsExplicit : {A : Type 0} → Allow A → Type 0
IsExplicit {A} choice = (a : A) × (l : List A) × (choice ≡ list (a ∷ l))

allow-IsExplicit :
    {A : Type 0} (wildcard : Bool) (l : Option (List A))
    → (wildcard ≡ false → IsListed l)
    → wildcard ≡ false
    → IsExplicit (allow wildcard l)
allow-IsExplicit wildcard l h off = let (a, rest, e) = h off in (a, rest, rw (off, e))

allow-eq-any_iff :
    {A : Type 0} (wildcard : Bool) (l : Option (List A))
    → (allow wildcard l ≡ any) ↔ (wildcard ≡ true)
allow-eq-any_iff true l = (λ _. refl, λ _. refl)
allow-eq-any_iff false l = (λ h. ground arith, λ h. cc)

-- A wildcard somewhere among the settings.
abbrev pub HasWildcard : {ext : External} → CorsSettings ext → Type 0
HasWildcard s = (s.origins ≡ any) ⊎ (s.methods ≡ any) ⊎ (s.headers ≡ any)

module _ {ext : External} (p : CorsPolicy ext) where
  -- For a policy that passes validation and sends credentials, the CORS layer gets an explicit,
  -- non-empty list of origins; and it gets a wildcard, for methods or headers, exactly if the policy
  -- allows any method or any header.
  pub cors_settings-credentials :
      IsUsable p
      → p.allow_credentials ≡ true
      → IsExplicit (cors_settings p).origins
        × (HasWildcard (cors_settings p)
            ↔ ((p.allow_any_method ≡ true) ⊎ (p.allow_any_header ≡ true)))
  cors_settings-credentials u sends =
      let off = u.guarded sends in
      (
        allow-IsExplicit p.allow_any_origin p.allowed_origins u.origins off,
        (λ w. open_choices off w, closed_choices),
      )
    where
      open_choices :
          p.allow_any_origin ≡ false
          → HasWildcard (cors_settings p)
          → (p.allow_any_method ≡ true) ⊎ (p.allow_any_header ≡ true)
      open_choices off (inl e) =
          cc (off, (allow-eq-any_iff p.allow_any_origin p.allowed_origins).0 e)
      open_choices off (inr (inl e)) =
          inl ((allow-eq-any_iff p.allow_any_method p.allowed_methods).0 e)
      open_choices off (inr (inr e)) =
          inr ((allow-eq-any_iff p.allow_any_header p.allowed_headers).0 e)

      closed_choices :
          (p.allow_any_method ≡ true) ⊎ (p.allow_any_header ≡ true) → HasWildcard (cors_settings p)
      closed_choices (inl e) =
          inr (inl ((allow-eq-any_iff p.allow_any_method p.allowed_methods).1 e))
      closed_choices (inr e) =
          inr (inr ((allow-eq-any_iff p.allow_any_header p.allowed_headers).1 e))

-- Suppose that, as tower-http documents, adding a CORS layer panics where credentials are combined
-- with a wildcard. Then options that pass validation, send credentials and allow any method or any
-- header make the constructor panic as soon as the proxy can be built; it returns no error.
pub new_server_wildcard_panic :
    {ext : External} (web : Web ext)
    → ((router : web.Router) (s : CorsSettings ext)
        → s.credentials ≡ true
        → HasWildcard s
        → web.layer_cors router s ≡ panic)
    → (o : GrpcWebServerOptions ext) (proxy : GrpcWebProxy ext) → IsValid o
    → o.cors_policy.allow_credentials ≡ true
    → (o.cors_policy.allow_any_method ≡ true) ⊎ (o.cors_policy.allow_any_header ≡ true)
    → new_proxy ext o.grpc_address o.grpc_ca_cert o.grpc_proxy_cert o.grpc_proxy_key ≡ ok proxy
    → new_server web o ≡ panic
unfolding new_server add_proxy add_cors
new_server_wildcard_panic web panics o proxy valid sends open_choice built =
    let wild = (cors_settings-credentials o.cors_policy valid.cors sends).1.1 open_choice in
    rw ((validate_iff o).1 valid, built)
      (rw (
        panics (add_web web o (web.nest_service web.new_router (text "/api") (grpc_web proxy)))
          (cors_settings o.cors_policy) sends wild))

-- The line that the error handler logs is the error's message followed by each cause, in order,
-- behind " | caused by: ".
abbrev pub causes : List Str → Str
causes [] = []
causes (src ∷ sources) = text " | caused by: " ++ (src ++ causes sources)

describe_chain-eq-causes :
    (error : Str) (sources : List Str) → describe_chain error sources ≡ error ++ causes sources
unfolding describe_chain
describe_chain-eq-causes error [] = sym (append-nil error)
describe_chain-eq-causes error (src ∷ sources) =
    describe_chain-eq-causes (error ++ (text " | caused by: " ++ src)) sources ∙ simp append_assoc
