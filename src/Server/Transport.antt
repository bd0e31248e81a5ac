-- ===== src/Server/Transport.antt =====
-- Which listener `GrpcWebServer::start` opens, and how it ends.
use grpc_web_server.Base.{
  ◌↔◌, Str, ◌≡◌, refl, ◌⊎◌, inl, inr, true, List, [], ◌∷◌, Option, none, some, ok, arith, ap,
  >>=-eq-ok, >>=-passes, ◌∙◌, Bool, false, if◌then◌else◌, Outcome, err, panic, undefined,
  Outcome-cases, is_some,
}
use grpc_web_server.External.{External}
use grpc_web_server.Config.{GrpcWebServerOptions}
use grpc_web_server.Server.{
  Race, finish, map_ok, server_exits, shutdown_signal, Web, GrpcWebServer, Action, binds_https,
  binds_http, new_server, start_https, start_http, start_on, start,
}
use grpc_web_server.Server.Assembly.{new_server-IsAssembled}

-- The two ways in which a started server may end well.
abbrev pub EndsWell : Race → Type 0
EndsWell r = (r ≡ server_exits (ok tt)) ⊎ (r ≡ shutdown_signal)

finish-EndsWell : (r : Race) → finish r ≡ ok tt → EndsWell r
finish-EndsWell (server_exits result) h = inl (ap server_exits h)
finish-EndsWell shutdown_signal h = inr refl

EndsWell-finish : (r : Race) → EndsWell r → finish r ≡ ok tt
EndsWell-finish r (inl e) = ap finish e
EndsWell-finish r (inr e) = ap finish e

-- The arguments of `info!` have been evaluated, if they were.
logged-ok_iff :
    {A : Type 0} (shown : Bool) (m : Outcome Str A)
    → ((if shown then map_ok m else ok tt) ≡ ok tt) ↔ (shown ≡ true → (local : A) × (m ≡ ok local))
logged-ok_iff false m = (λ e shown. cc (shown), λ h. refl)
logged-ok_iff true (ok a) = (λ e shown. (a, refl), λ h. refl)
logged-ok_iff true (err x) = (λ e. cc (e), λ h. let never = (h refl).1 in cc (never))
logged-ok_iff true panic = (λ e. cc (e), λ h. let never = (h refl).1 in cc (never))
logged-ok_iff true undefined = (λ e. cc (e), λ h. let never = (h refl).1 in cc (never))

module _ {ext : External} {web : Web ext} where
  -- No plain HTTP listener is opened.
  abbrev pub NeverPlain : List (Action ext web) → Type 0
  NeverPlain [] = Unit
  NeverPlain (binds_https addr config ∷ rest) = NeverPlain rest
  NeverPlain (binds_http addr ∷ rest) = ⊥

  start_https-NeverPlain :
      (server : GrpcWebServer ext web) (addr : web.SocketAddr) (cert key : Str)
      → NeverPlain (start_https web server addr cert key).1
  unfolding start_https
  start_https-NeverPlain server addr cert key = ground arith

  start_on-NeverPlain :
      (server : GrpcWebServer ext web) (addr : web.SocketAddr) (cert key : Option Str)
      → is_some cert ≡ true
      → is_some key ≡ true
      → NeverPlain (start_on web server addr cert key).1
  unfolding start_on
  start_on-NeverPlain server addr (some cert) (some key) c k =
      start_https-NeverPlain server addr cert key
  start_on-NeverPlain server addr none key c k = cc
  start_on-NeverPlain server addr (some cert) none c k = cc

  start-NeverPlain :
      (server : GrpcWebServer ext web)
      → is_some server.options.http_cert ≡ true
      → is_some server.options.http_key ≡ true
      → NeverPlain (start web server).1
  unfolding start
  start-NeverPlain server c k = ground (
    arith,
    λ (addr : web.SocketAddr).
        start_on-NeverPlain server addr server.options.http_cert server.options.http_key c k,
  )

  -- A server that was made from options with an HTTP key or an HTTP certificate never opens a plain
  -- HTTP listener, whether its start succeeds or fails.
  pub start_tls_only :
      (o : GrpcWebServerOptions ext) {server : GrpcWebServer ext web}
      → new_server web o ≡ ok server
      → (is_some o.http_key ≡ true) ⊎ (is_some o.http_cert ≡ true)
      → NeverPlain (start web server).1
  start_tls_only o {server} made given =
      let (valid, assembled) = new_server-IsAssembled web o made in
      let same = assembled.options in
      let both : (is_some o.http_cert ≡ true) × (is_some o.http_key ≡ true) =
        ground (arith, valid.http) in
      start-NeverPlain server (rw same both.0) (rw same both.1)

  -- What has to succeed for `start` to return `Ok`.
  abbrev pub IsServed : GrpcWebServer ext web → web.SocketAddr → Option Str → Option Str → Type 0
  IsServed server addr (some cert) (some key) =
      (config : web.RustlsConfig) × (web.from_pem_file cert key ≡ ok config)
      × EndsWell (web.serve_rustls addr config server.router)
  IsServed server addr (some cert) none =
      (listener : web.Listener) × (web.bind addr ≡ ok listener)
      × (web.info_enabled ≡ true → (local : web.SocketAddr) × (web.local_addr listener ≡ ok local))
      × EndsWell (web.serve listener server.router)
  IsServed server addr none key =
      (listener : web.Listener) × (web.bind addr ≡ ok listener)
      × (web.info_enabled ≡ true → (local : web.SocketAddr) × (web.local_addr listener ≡ ok local))
      × EndsWell (web.serve listener server.router)

  start_https-ok_iff :
      (server : GrpcWebServer ext web) (addr : web.SocketAddr) (cert key : Str)
      → ((start_https web server addr cert key).0 ≡ ok tt)
        ↔ IsServed server addr (some cert) (some key)
  unfolding start_https
  start_https-ok_iff server addr cert key = (
    λ h. elim (Outcome-cases (web.from_pem_file cert key)) [
      | inl (config, e) ↦ (config, e, finish-EndsWell _ (ground arith))
      | inr failed ↦ absurd (grind (arith, failed))
    ],
    λ (config, e, ends). ground (arith, e, ends),
  )

  start_http-ok :
      (server : GrpcWebServer ext web) (addr : web.SocketAddr)
      → (start_http web server addr).0 ≡ ok tt
      → IsServed server addr none none
  unfolding start_http
  start_http-ok server addr h =
      let (listener, bound, h₁) = >>=-eq-ok (web.bind addr) _ h in
      let (done, named, h₂) =
        >>=-eq-ok (if web.info_enabled then map_ok (web.local_addr listener) else ok tt) _ h₁ in
      (listener, bound, (logged-ok_iff web.info_enabled _).0 named, finish-EndsWell _ h₂)

  start_http-of_IsServed :
      (server : GrpcWebServer ext web) (addr : web.SocketAddr)
      → IsServed server addr none none
      → (start_http web server addr).0 ≡ ok tt
  unfolding start_http
  start_http-of_IsServed server addr (listener, bound, named, ends) =
      let logged = (logged-ok_iff web.info_enabled (web.local_addr listener)).1 named in
      >>=-passes _ bound ∙ >>=-passes _ logged ∙ EndsWell-finish _ ends

  start_on-ok_iff :
      (server : GrpcWebServer ext web) (addr : web.SocketAddr) (cert key : Option Str)
      → ((start_on web server addr cert key).0 ≡ ok tt) ↔ IsServed server addr cert key
  unfolding start_on
  start_on-ok_iff server addr (some cert) (some key) = start_https-ok_iff server addr cert key
  start_on-ok_iff server addr (some cert) none =
      (start_http-ok server addr, start_http-of_IsServed server addr)
  start_on-ok_iff server addr none key =
      (start_http-ok server addr, start_http-of_IsServed server addr)

  -- `start` returns `Ok` exactly if the address parses, the listener for the configured transport is
  -- set up (which asks a plain listener for its address where tracing records INFO), and then the server future returns `Ok` or the shutdown signal comes first.
  pub start-returns_iff :
      (server : GrpcWebServer ext web)
      → ((start web server).0 ≡ ok tt) ↔ (
          (addr : web.SocketAddr) × (web.parse_socket_addr server.options.http_address ≡ ok addr)
          × IsServed server addr server.options.http_cert server.options.http_key)
  unfolding start
  start-returns_iff server = (
    λ h. elim (Outcome-cases (web.parse_socket_addr server.options.http_address)) [
      | inl (addr, e) ↦ (addr, e, (start_on-ok_iff server addr _ _).0 (ground arith))
      | inr failed ↦ absurd (grind (arith, failed))
    ],
    λ (addr, e, served).
        let good = (start_on-ok_iff server addr _ _).1 served in ground (arith, e, good),
  )
