-- ===== src/Command.antt =====
-- src/bin/grpc-web-server.rs: the server as a command.
--
-- The arguments are as clap has parsed them; `main` is what follows, with the tracing filter it sets
-- up. The shutdown future that it passes to the server never resolves.
pub mod Options
use grpc_web_server.Base.{Str, text, ◌++◌, Option, Outcome, ok, err, panic, undefined, List, []}
use grpc_web_server.External.{External}
use grpc_web_server.Config.{GrpcWebServerOptions, default_policy}
use grpc_web_server.Server.{Web, GrpcWebServer, Action, new_server, start}

pub data LogLevel : Type 0 where
  error warn info debug trace : LogLevel

-- `LogLevel::as_str`
pub as_str : LogLevel → Str
as_str error = text "error"
as_str warn = text "warn"
as_str info = text "info"
as_str debug = text "debug"
as_str trace = text "trace"

pub record Args : Type 0 where
  pub http_address : Str
  pub grpc_address : Str
  pub static_dir : Option Str
  pub log_level : LogLevel
  pub grpc_ca_cert : Option Str
  pub grpc_proxy_key : Option Str
  pub grpc_proxy_cert : Option Str
  pub http_key : Option Str
  pub http_cert : Option Str

-- `Into<GrpcWebServerOptions> for Args`
unfoldable pub into_options : {ext : External} → Args → GrpcWebServerOptions ext
into_options args = record {
  http_address = args.http_address;
  grpc_address = args.grpc_address;
  static_dir = args.static_dir;
  grpc_ca_cert = args.grpc_ca_cert;
  grpc_proxy_key = args.grpc_proxy_key;
  grpc_proxy_cert = args.grpc_proxy_cert;
  http_key = args.http_key;
  http_cert = args.http_cert;
  cors_policy = default_policy;
}

-- The filter that `main` sets tracing up with.
pub filter : LogLevel → Str
unfolding as_str
filter level = text "grpc_web_server=" ++ (as_str level ++ text ",tower_http=info")

module _ {ext : External} (web : Web ext) where
  -- `GrpcWebServer::new(args.into())?`, then `server.start(pending())`.
  pub serve_made :
      Outcome Str (GrpcWebServer ext web) → Outcome Str (Unit {0}) × List (Action ext web)
  serve_made (ok server) = start web server
  serve_made (err e) = (err e, [])
  serve_made panic = (panic, [])
  serve_made undefined = (undefined, [])

  -- `main` once tracing is set up: how it ends, and the listeners that it opened.
  unfoldable pub main : Args → Outcome Str (Unit {0}) × List (Action ext web)
  unfolding serve_made into_options
  main args = serve_made (new_server web (into_options args))
