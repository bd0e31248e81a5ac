-- ===== src/Tests/Commands.antt =====
-- The command line.
use grpc_web_server.Base.{text, refl, inl, none, some}
use grpc_web_server.Server.Transport.{NeverPlain}
use grpc_web_server.Command.{Args, info, main}
use grpc_web_server.Command.Options.{main_tls_only}
use grpc_web_server.Tests.Fixtures.{web}

abbrev secure_args : Args
secure_args = record {
  http_address = text "127.0.0.1:443";
  grpc_address = text "127.0.0.1:50051";
  static_dir = none;
  log_level = info;
  grpc_ca_cert = none;
  grpc_proxy_key = none;
  grpc_proxy_cert = none;
  http_key = some (text "key");
  http_cert = some (text "cert");
}

abbrev lone_key : Args
lone_key = record secure_args { http_cert = none }

main_tls_only_example : NeverPlain (main web secure_args).1
main_tls_only_example = main_tls_only web secure_args (inl refl)
