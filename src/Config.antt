-- ===== src/Config.antt =====
-- src/server/server.rs: `CorsPolicy`, `GrpcWebServerOptions` and `validate`.
pub mod Validation
use grpc_web_server.Base.{
  Str, text, Bool, true, false, ◌&&◌, not, xor, Option, none, some, List, Outcome, ok, err, ◌>>=◌,
  ◌>>◌, if◌then◌else◌, is_some, is_none, is_empty,
}
use grpc_web_server.External.{External}

pub record CorsPolicy (ext : External) : Type 0 where
  pub allowed_origins : Option (List ext.HeaderValue)
  pub allow_any_origin : Bool
  pub allowed_methods : Option (List ext.Method)
  pub allow_any_method : Bool
  pub allowed_headers : Option (List ext.HeaderName)
  pub allow_any_header : Bool
  pub allow_credentials : Bool

pub record GrpcWebServerOptions (ext : External) : Type 0 where
  pub http_address : Str
  pub grpc_address : Str
  pub static_dir : Option Str
  pub grpc_ca_cert : Option Str
  pub grpc_proxy_key : Option Str
  pub grpc_proxy_cert : Option Str
  pub http_key : Option Str
  pub http_cert : Option Str
  pub cors_policy : CorsPolicy ext

-- `list.as_ref().is_none_or(|list| list.is_empty())`
abbrev pub is_none_or_empty : {A : Type 0} → Option (List A) → Bool
is_none_or_empty none = true
is_none_or_empty (some l) = is_empty l

-- `if test { return Err(message.into()); }`
abbrev pub refuse_if : Bool → Str → Outcome Str (Unit {0})
refuse_if true message = err message
refuse_if false message = ok tt

module _ {ext : External} where
  -- `CorsPolicy::default`
  abbrev pub default_policy : CorsPolicy ext
  default_policy = record {
    allowed_origins = none;
    allow_any_origin = true;
    allowed_methods = none;
    allow_any_method = true;
    allowed_headers = none;
    allow_any_header = true;
    allow_credentials = false;
  }

  validate_grpc : GrpcWebServerOptions ext → Outcome Str (Unit {0})
  validate_grpc o =
      if xor (is_some o.grpc_proxy_key) (is_some o.grpc_proxy_cert)
      then (do
        refuse_if (is_none o.grpc_ca_cert) (text "grpc_ca_cert must be defined for gRPC mTLS")
        refuse_if (is_none o.grpc_proxy_key) (text "grpc_proxy_key must be defined for gRPC mTLS")
        refuse_if (is_none o.grpc_proxy_cert)
            (text "grpc_proxy_cert must be defined for gRPC mTLS"))
      else ok tt

  validate_http : GrpcWebServerOptions ext → Outcome Str (Unit {0})
  validate_http o =
      if xor (is_some o.http_key) (is_some o.http_cert)
      then (do
        refuse_if (is_none o.http_cert) (text "http_cert must be defined for HTTP TLS")
        refuse_if (is_none o.http_key) (text "http_key must be defined for mTLS"))
      else ok tt

  validate_cors : CorsPolicy ext → Outcome Str (Unit {0})
  validate_cors p = do
    refuse_if (p.allow_any_origin && p.allow_credentials)
        (text "allow_any_origin cannot be used with allow_credentials")
    refuse_if (not p.allow_any_origin && is_none_or_empty p.allowed_origins)
        (text "allowed_origins must be defined when allow_any_origin is false")
    refuse_if (not p.allow_any_method && is_none_or_empty p.allowed_methods)
        (text "allowed_methods must be defined when allow_any_method is false")
    refuse_if (not p.allow_any_header && is_none_or_empty p.allowed_headers)
        (text "allowed_headers must be defined when allow_any_header is false")

  unfoldable pub validate : GrpcWebServerOptions ext → Outcome Str (Unit {0})
  unfolding validate_grpc validate_http validate_cors
  validate o = do validate_grpc o; validate_http o; validate_cors o.cors_policy
