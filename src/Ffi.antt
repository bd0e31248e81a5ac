-- ===== src/Ffi.antt =====
-- src/server/ffi.rs: the options as C passes them, and their conversion.
--
-- A `const char *` and a `const char *const *` are addresses in the memory of the caller; null is 0.
pub mod Values
pub mod Conversion
pub mod Exports
pub mod Changes
pub mod Ownership
use grpc_web_server.Base.{
  ℕ, Str, text, Bool, ◌++◌, Option, none, some, List, Outcome, ok, ◌>>=◌, map_err, ◌==◌,
  if◌then◌else◌, is_empty, [],
}
use grpc_web_server.External.{External}
use grpc_web_server.Config.{CorsPolicy}
use grpc_web_server.Utils.{
  Memory, Problem, message, required_c_string, collect, collect_c_string_vector,
}

pub data LogLevel : Type 0 where
  error warn info debug trace : LogLevel

-- `LogLevel::as_str`
pub as_str : LogLevel → Str
as_str error = text "error"
as_str warn = text "warn"
as_str info = text "info"
as_str debug = text "debug"
as_str trace = text "trace"

pub record GrpcWebCorsOptions : Type 0 where
  pub allowed_origins : ℕ
  pub allowed_origins_count : ℕ
  pub allow_any_origin : Bool
  pub allowed_methods : ℕ
  pub allowed_methods_count : ℕ
  pub allow_any_method : Bool
  pub allowed_headers : ℕ
  pub allowed_headers_count : ℕ
  pub allow_any_header : Bool
  pub allow_credentials : Bool

pub record GrpcWebServerOptions : Type 0 where
  pub http_address : ℕ
  pub grpc_address : ℕ
  pub static_dir : ℕ
  pub grpc_ca_cert : ℕ
  pub grpc_proxy_key : ℕ
  pub grpc_proxy_cert : ℕ
  pub http_key : ℕ
  pub http_cert : ℕ
  pub log_level : LogLevel
  pub cors_options : GrpcWebCorsOptions

-- `parse(val).map_err(|err| format!("invalid CORS <kind> '{val}': {err}"))`
abbrev pub parse_value : {A : Type 0} → Str → (Str → Outcome Str A) → Str → Outcome Problem A
parse_value kind parse val =
    map_err (λ err. message (kind ++ (val ++ (text "': " ++ err)))) (parse val)

-- `if any { None } else if values.is_empty() { Some(Vec::new()) } else { Some(values) }`
abbrev pub unless_any : {A : Type 0} → Bool → List A → Option (List A)
unless_any any values = if any then none else if is_empty values then some [] else some values

-- `optional_string`
pub optional_string : Memory → ℕ → Outcome Problem (Option Str)
optional_string mem ptr =
    if ptr == 0 then ok none else (do s ← required_c_string mem ptr; ok (some s))

-- The values of one list of `GrpcWebCorsOptions`.
pub parse_list :
    {A : Type 0} → Memory → Str → (Str → Outcome Str A) → ℕ → ℕ → Outcome Problem (List A)
parse_list mem kind parse values count = do
  strings ← collect_c_string_vector mem values count
  collect (parse_value kind parse) strings

module _ {ext : External} (mem : Memory) where
  -- `TryInto<CorsPolicy> for GrpcWebCorsOptions`
  pub to_policy : GrpcWebCorsOptions → Outcome Problem (CorsPolicy ext)
  unfolding parse_list
  to_policy c = do
    origins ←
        parse_list mem (text "invalid CORS origin '") ext.header_value_from_str c.allowed_origins
          c.allowed_origins_count
    methods ←
        parse_list mem (text "invalid CORS method '") ext.method_from_bytes c.allowed_methods
          c.allowed_methods_count
    headers ←
        parse_list mem (text "invalid CORS header '") ext.header_name_from_bytes c.allowed_headers
          c.allowed_headers_count
    ok (record {
      allowed_origins = unless_any c.allow_any_origin origins;
      allow_any_origin = c.allow_any_origin;
      allowed_methods = unless_any c.allow_any_method methods;
      allow_any_method = c.allow_any_method;
      allowed_headers = unless_any c.allow_any_header headers;
      allow_any_header = c.allow_any_header;
      allow_credentials = c.allow_credentials;
    })

  -- `TryInto<server_impl::GrpcWebServerOptions> for GrpcWebServerOptions`
  unfoldable pub to_options :
      GrpcWebServerOptions → Outcome Problem (grpc_web_server.Config.GrpcWebServerOptions ext)
  unfolding optional_string to_policy
  to_options o = do
    http_address ← required_c_string mem o.http_address
    grpc_address ← required_c_string mem o.grpc_address
    static_dir ← optional_string mem o.static_dir
    grpc_ca_cert ← optional_string mem o.grpc_ca_cert
    grpc_proxy_key ← optional_string mem o.grpc_proxy_key
    grpc_proxy_cert ← optional_string mem o.grpc_proxy_cert
    http_key ← optional_string mem o.http_key
    http_cert ← optional_string mem o.http_cert
    cors_policy ← to_policy o.cors_options
    ok (record {
      http_address = http_address;
      grpc_address = grpc_address;
      static_dir = static_dir;
      grpc_ca_cert = grpc_ca_cert;
      grpc_proxy_key = grpc_proxy_key;
      grpc_proxy_cert = grpc_proxy_cert;
      http_key = http_key;
      http_cert = http_cert;
      cors_policy = cors_policy;
    })
