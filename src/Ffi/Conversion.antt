-- ===== src/Ffi/Conversion.antt =====
-- src/server/ffi.rs: what the conversion of C options yields.
use grpc_web_server.Base.{text, ◌≡◌, refl, sym, ◌∙◌, subst, ◌↔◌, ok, >>=-eq-ok, >>=-passes, ok_inj}
use grpc_web_server.External.{External}
use grpc_web_server.Config.{CorsPolicy}
use grpc_web_server.Utils.{Memory, required_c_string}
use grpc_web_server.Utils.Reads.{IsCString, required_c_string-ok_iff}
use grpc_web_server.Ffi.{
  GrpcWebCorsOptions, GrpcWebServerOptions, optional_string, parse_list, to_policy, to_options,
}
use grpc_web_server.Ffi.Values.{
  IsOptional, IsListSetting, optional_string-ok_iff, parse_list-IsListSetting,
  IsListSetting-parse_list,
}

module _ (mem : Memory) where
  -- The conversion of the CORS settings, setting by setting.
  pub record IsPolicy {ext : External} (c : GrpcWebCorsOptions) (policy : CorsPolicy ext)
      : Type 0 where
    pub origins :
        IsListSetting mem ext.header_value_from_str c.allowed_origins c.allowed_origins_count
          c.allow_any_origin policy.allowed_origins
    pub methods :
        IsListSetting mem ext.method_from_bytes c.allowed_methods c.allowed_methods_count
          c.allow_any_method policy.allowed_methods
    pub headers :
        IsListSetting mem ext.header_name_from_bytes c.allowed_headers c.allowed_headers_count
          c.allow_any_header policy.allowed_headers
    pub any_origin : policy.allow_any_origin ≡ c.allow_any_origin
    pub any_method : policy.allow_any_method ≡ c.allow_any_method
    pub any_header : policy.allow_any_header ≡ c.allow_any_header
    pub credentials : policy.allow_credentials ≡ c.allow_credentials

  -- The conversion of the options, field by field.
  pub record IsConverted {ext : External} (o : GrpcWebServerOptions)
      (options : grpc_web_server.Config.GrpcWebServerOptions ext) : Type 0 where
    pub http_address : IsCString mem o.http_address options.http_address
    pub grpc_address : IsCString mem o.grpc_address options.grpc_address
    pub static_dir : IsOptional mem o.static_dir options.static_dir
    pub grpc_ca_cert : IsOptional mem o.grpc_ca_cert options.grpc_ca_cert
    pub grpc_proxy_key : IsOptional mem o.grpc_proxy_key options.grpc_proxy_key
    pub grpc_proxy_cert : IsOptional mem o.grpc_proxy_cert options.grpc_proxy_cert
    pub http_key : IsOptional mem o.http_key options.http_key
    pub http_cert : IsOptional mem o.http_cert options.http_cert
    pub cors : IsPolicy o.cors_options options.cors_policy

  to_policy-IsPolicy :
      {ext : External} (c : GrpcWebCorsOptions) (policy : CorsPolicy ext)
      → to_policy mem c ≡ ok policy
      → IsPolicy c policy
  unfolding to_policy
  to_policy-IsPolicy {ext} c policy e =
      let (origins, first, e1) =
        >>=-eq-ok
          (parse_list mem (text "invalid CORS origin '") ext.header_value_from_str c.allowed_origins
            c.allowed_origins_count)
          _ e in
      let (methods, second, e2) =
        >>=-eq-ok
          (parse_list mem (text "invalid CORS method '") ext.method_from_bytes c.allowed_methods
            c.allowed_methods_count)
          _ e1 in
      let (headers, third, e3) =
        >>=-eq-ok
          (parse_list mem (text "invalid CORS header '") ext.header_name_from_bytes
            c.allowed_headers c.allowed_headers_count)
          _ e2 in
      subst (IsPolicy c) (ok_inj e3) (record {
        origins = parse_list-IsListSetting mem _ _ _ _ c.allow_any_origin origins first;
        methods = parse_list-IsListSetting mem _ _ _ _ c.allow_any_method methods second;
        headers = parse_list-IsListSetting mem _ _ _ _ c.allow_any_header headers third;
        any_origin = refl;
        any_method = refl;
        any_header = refl;
        credentials = refl;
      })

  IsPolicy-to_policy :
      {ext : External} (c : GrpcWebCorsOptions) (policy : CorsPolicy ext)
      → IsPolicy c policy
      → to_policy mem c ≡ ok policy
  unfolding to_policy
  IsPolicy-to_policy {ext} c policy p =
      let (origins, first, same1) =
        IsListSetting-parse_list mem (text "invalid CORS origin '") _ _ _ _ _ p.origins in
      let (methods, second, same2) =
        IsListSetting-parse_list mem (text "invalid CORS method '") _ _ _ _ _ p.methods in
      let (headers, third, same3) =
        IsListSetting-parse_list mem (text "invalid CORS header '") _ _ _ _ _ p.headers in
      >>=-passes _ first ∙ >>=-passes _ second ∙ >>=-passes _ third ∙ (λ i. ok (record {
        allowed_origins = same1 i;
        allow_any_origin = sym p.any_origin i;
        allowed_methods = same2 i;
        allow_any_method = sym p.any_method i;
        allowed_headers = same3 i;
        allow_any_header = sym p.any_header i;
        allow_credentials = sym p.credentials i;
      }))

  to_options-IsConverted :
      {ext : External} (o : GrpcWebServerOptions)
      (options : grpc_web_server.Config.GrpcWebServerOptions ext)
      → to_options mem o ≡ ok options
      → IsConverted o options
  unfolding to_options
  to_options-IsConverted o options e =
      let (a1, r1, e1) = >>=-eq-ok (required_c_string mem o.http_address) _ e in
      let (a2, r2, e2) = >>=-eq-ok (required_c_string mem o.grpc_address) _ e1 in
      let (a3, r3, e3) = >>=-eq-ok (optional_string mem o.static_dir) _ e2 in
      let (a4, r4, e4) = >>=-eq-ok (optional_string mem o.grpc_ca_cert) _ e3 in
      let (a5, r5, e5) = >>=-eq-ok (optional_string mem o.grpc_proxy_key) _ e4 in
      let (a6, r6, e6) = >>=-eq-ok (optional_string mem o.grpc_proxy_cert) _ e5 in
      let (a7, r7, e7) = >>=-eq-ok (optional_string mem o.http_key) _ e6 in
      let (a8, r8, e8) = >>=-eq-ok (optional_string mem o.http_cert) _ e7 in
      let (policy, r9, e9) = >>=-eq-ok (to_policy mem o.cors_options) _ e8 in
      subst (IsConverted o) (ok_inj e9) (record {
        http_address = (required_c_string-ok_iff mem o.http_address a1).0 r1;
        grpc_address = (required_c_string-ok_iff mem o.grpc_address a2).0 r2;
        static_dir = (optional_string-ok_iff mem o.static_dir a3).0 r3;
        grpc_ca_cert = (optional_string-ok_iff mem o.grpc_ca_cert a4).0 r4;
        grpc_proxy_key = (optional_string-ok_iff mem o.grpc_proxy_key a5).0 r5;
        grpc_proxy_cert = (optional_string-ok_iff mem o.grpc_proxy_cert a6).0 r6;
        http_key = (optional_string-ok_iff mem o.http_key a7).0 r7;
        http_cert = (optional_string-ok_iff mem o.http_cert a8).0 r8;
        cors = to_policy-IsPolicy o.cors_options policy r9;
      })

  -- The conversion yields given options exactly if memory holds the two addresses, each optional
  -- field is a null pointer or a string in memory, and each CORS list is in memory and parses; a list
  -- is kept exactly if its wildcard is off.
  pub to_options-ok_iff :
      {ext : External} (o : GrpcWebServerOptions)
      (options : grpc_web_server.Config.GrpcWebServerOptions ext)
      → (to_options mem o ≡ ok options) ↔ IsConverted o options
  unfolding to_options
  to_options-ok_iff o options = (
    to_options-IsConverted o options,
    λ c.
        >>=-passes _
          ((required_c_string-ok_iff mem o.http_address options.http_address).1 c.http_address)
        ∙ >>=-passes _
            ((required_c_string-ok_iff mem o.grpc_address options.grpc_address).1 c.grpc_address)
        ∙ >>=-passes _ ((optional_string-ok_iff mem o.static_dir options.static_dir).1 c.static_dir)
        ∙ >>=-passes _
            ((optional_string-ok_iff mem o.grpc_ca_cert options.grpc_ca_cert).1 c.grpc_ca_cert)
        ∙ >>=-passes _ (
            (optional_string-ok_iff mem o.grpc_proxy_key options.grpc_proxy_key).1 c.grpc_proxy_key)
        ∙ >>=-passes _ (
            (optional_string-ok_iff mem o.grpc_proxy_cert options.grpc_proxy_cert).1
              c.grpc_proxy_cert)
        ∙ >>=-passes _ ((optional_string-ok_iff mem o.http_key options.http_key).1 c.http_key)
        ∙ >>=-passes _ ((optional_string-ok_iff mem o.http_cert options.http_cert).1 c.http_cert)
        ∙ >>=-passes _ (IsPolicy-to_policy o.cors_options options.cors_policy c.cors),
  )
