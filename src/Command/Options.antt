-- ===== src/Command/Options.antt =====
-- What the command line can ask for.
use grpc_web_server.Base.{
  Str, ◌≡◌, refl, ap, ◌↔◌, ◌⊎◌, true, is_some, Outcome, ok, err, panic, undefined, [],
}
use grpc_web_server.External.{External}
use grpc_web_server.Config.{GrpcWebServerOptions, validate}
use grpc_web_server.Config.Validation.{validate_iff}
use grpc_web_server.Server.{Web, GrpcWebServer, new_server}
use grpc_web_server.Server.Assembly.{new_server_invalid}
use grpc_web_server.Server.Transport.{NeverPlain, start_tls_only}
use grpc_web_server.Command.{Args, into_options, serve_made, main}

-- The options of a command line pass validation exactly if each key file comes with its certificate
-- file: its CORS policy is always accepted.
into_options-validate_iff :
    (ext : External) (args : Args)
    → (validate (into_options {ext = ext} args) ≡ ok tt) ↔ (
        (is_some args.grpc_proxy_key ≡ is_some args.grpc_proxy_cert)
        × (is_some args.http_key ≡ is_some args.http_cert))
unfolding into_options
into_options-validate_iff ext args = (
  λ e. let valid = (validate_iff (into_options {ext = ext} args)).0 e in (valid.grpc, valid.http),
  λ (grpc, http). (validate_iff (into_options {ext = ext} args)).1 (record {
    grpc = grpc;
    http = http;
    cors = record {
      guarded = λ e. cc (e);
      origins = λ e. cc (e);
      methods = λ e. cc (e);
      headers = λ e. cc (e);
    };
  }),
)

module _ {ext : External} (web : Web ext) where
  serve_made-NeverPlain :
      (o : GrpcWebServerOptions ext) (made : Outcome Str (GrpcWebServer ext web))
      → new_server web o ≡ made
      → (is_some o.http_key ≡ true) ⊎ (is_some o.http_cert ≡ true)
      → NeverPlain (serve_made web made).1
  unfolding serve_made
  serve_made-NeverPlain o (ok server) is_made given = start_tls_only o is_made given
  serve_made-NeverPlain o (err e) is_made given = tt
  serve_made-NeverPlain o panic is_made given = tt
  serve_made-NeverPlain o undefined is_made given = tt

  -- A command line with an HTTP key or an HTTP certificate never opens a plain HTTP listener,
  -- however the command ends.
  pub main_tls_only :
      (args : Args)
      → (is_some args.http_key ≡ true) ⊎ (is_some args.http_cert ≡ true)
      → NeverPlain (main web args).1
  unfolding main into_options
  main_tls_only args given = serve_made-NeverPlain (into_options args) _ refl given

  -- With one of the two HTTP files only, or one of the two upstream client files only, the command
  -- fails before it listens.
  main_refuses :
      (args : Args)
      → (¬ (
          (is_some args.grpc_proxy_key ≡ is_some args.grpc_proxy_cert)
          × (is_some args.http_key ≡ is_some args.http_cert)))
      → (e : Str) × (main web args ≡ (err e, []))
  unfolding main
  main_refuses args unpaired =
      let refused = new_server_invalid web (into_options args) (λ valid. unpaired (
        (into_options-validate_iff ext args).0
          ((validate_iff (into_options {ext = ext} args)).1 valid))) in
      (refused.0, ap (serve_made web) refused.1)
