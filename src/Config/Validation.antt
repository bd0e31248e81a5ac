-- ===== src/Config/Validation.antt =====
-- What `GrpcWebServerOptions::validate` accepts, and which error it returns.
use grpc_web_server.Base.{
  ◌⊎◌, inl, inr, refl, ◌>>◌, Str, text, Bool, Outcome, err, [], not, ◌&&◌, xor, is_none,
  if◌then◌else◌, ◌≡◌, ◌↔◌, true, false, Option, some, List, ◌∷◌, ok, arith, is_some, >>=-eq-ok,
}
use grpc_web_server.External.{External}
use grpc_web_server.Config.{
  is_none_or_empty, CorsPolicy, GrpcWebServerOptions, validate_grpc, validate_http, validate_cors,
  validate,
}

-- A list that stands for an explicit choice: given, with at least one entry.
abbrev pub IsListed : {A : Type 0} → Option (List A) → Type 0
IsListed {A} o = (a : A) × (l : List A) × (o ≡ some (a ∷ l))

pub record IsUsable {ext : External} (p : CorsPolicy ext) : Type 0 where
  pub guarded : p.allow_credentials ≡ true → p.allow_any_origin ≡ false
  pub origins : p.allow_any_origin ≡ false → IsListed p.allowed_origins
  pub methods : p.allow_any_method ≡ false → IsListed p.allowed_methods
  pub headers : p.allow_any_header ≡ false → IsListed p.allowed_headers

pub record IsValid {ext : External} (o : GrpcWebServerOptions ext) : Type 0 where
  pub grpc : is_some o.grpc_proxy_key ≡ is_some o.grpc_proxy_cert
  pub http : is_some o.http_key ≡ is_some o.http_cert
  pub cors : IsUsable o.cors_policy

module _ {ext : External} (o : GrpcWebServerOptions ext) where
  validate_grpc_iff :
      (validate_grpc o ≡ ok tt) ↔ (is_some o.grpc_proxy_key ≡ is_some o.grpc_proxy_cert)
  unfolding validate_grpc
  validate_grpc_iff = (λ h. ground arith, λ h. ground arith)

  validate_http_iff : (validate_http o ≡ ok tt) ↔ (is_some o.http_key ≡ is_some o.http_cert)
  unfolding validate_http
  validate_http_iff = (λ h. ground arith, λ h. ground arith)

module _ {ext : External} (p : CorsPolicy ext) where
  validate_cors_sound : validate_cors p ≡ ok tt → IsUsable p
  unfolding validate_cors
  validate_cors_sound h = record {
    guarded = λ e. ground arith;
    origins = λ e. ground arith;
    methods = λ e. ground arith;
    headers = λ e. ground arith;
  }

  validate_cors_complete : IsUsable p → validate_cors p ≡ ok tt
  unfolding validate_cors
  validate_cors_complete v = ground (arith, v.guarded, v.origins, v.methods, v.headers)

-- Validation succeeds exactly when the two upstream client files are given together or not at all,
-- so are the two HTTP TLS files, and the CORS policy neither combines credentials with the wildcard
-- origin nor leaves a list empty or absent whose wildcard is off.
pub validate_iff :
    {ext : External} (o : GrpcWebServerOptions ext) → (validate o ≡ ok tt) ↔ IsValid o
unfolding validate
validate_iff o = (sound, complete)
  where
    sound : validate o ≡ ok tt → IsValid o
    sound h =
        let (_, grpc, h') = >>=-eq-ok (validate_grpc o) _ h in
        let (_, http, h'') = >>=-eq-ok (validate_http o) _ h' in
        record {
          grpc = (validate_grpc_iff o).0 grpc;
          http = (validate_http_iff o).0 http;
          cors = validate_cors_sound o.cors_policy h'';
        }

    complete : IsValid o → validate o ≡ ok tt
    complete v =
        rw ((validate_grpc_iff o).1 v.grpc, (validate_http_iff o).1 v.http)
          (validate_cors_complete o.cors_policy v.cors)

-- The rules of the documentation as a flat table, in the order in which they are checked: whether a
-- rule is broken, and the message for it.
abbrev pub rules : {ext : External} → GrpcWebServerOptions ext → List (Bool × Str)
rules o =
    let p = o.cors_policy in
    let key = is_some o.grpc_proxy_key in
    let cert = is_some o.grpc_proxy_cert in
    (xor key cert && is_none o.grpc_ca_cert, text "grpc_ca_cert must be defined for gRPC mTLS")
    ∷ (not key && cert, text "grpc_proxy_key must be defined for gRPC mTLS")
    ∷ (key && not cert, text "grpc_proxy_cert must be defined for gRPC mTLS")
    ∷ (is_some o.http_key && is_none o.http_cert, text "http_cert must be defined for HTTP TLS")
    ∷ (is_none o.http_key && is_some o.http_cert, text "http_key must be defined for mTLS")
    ∷ (
      p.allow_any_origin && p.allow_credentials,
      text "allow_any_origin cannot be used with allow_credentials",
    )
    ∷ (
      not p.allow_any_origin && is_none_or_empty p.allowed_origins,
      text "allowed_origins must be defined when allow_any_origin is false",
    )
    ∷ (
      not p.allow_any_method && is_none_or_empty p.allowed_methods,
      text "allowed_methods must be defined when allow_any_method is false",
    )
    ∷ (
      not p.allow_any_header && is_none_or_empty p.allowed_headers,
      text "allowed_headers must be defined when allow_any_header is false",
    )
    ∷ []

abbrev pub first_broken : List (Bool × Str) → Outcome Str (Unit {0})
first_broken [] = ok tt
first_broken ((broken, message) ∷ rest) = if broken then err message else first_broken rest

grpc-rules :
    {ext : External} (o : GrpcWebServerOptions ext) (rest : Outcome Str (Unit {0}))
    → (validate_grpc o >> rest) ≡ (
        let key = is_some o.grpc_proxy_key in
        let cert = is_some o.grpc_proxy_cert in
        if xor key cert && is_none o.grpc_ca_cert
        then err (text "grpc_ca_cert must be defined for gRPC mTLS")
        else if not key && cert
        then err (text "grpc_proxy_key must be defined for gRPC mTLS")
        else if key && not cert
        then err (text "grpc_proxy_cert must be defined for gRPC mTLS")
        else rest)
unfolding validate_grpc
grpc-rules o rest = ground arith

-- Validation reports exactly the first broken rule of the table, and succeeds if none is broken;
-- it never panics.
pub validate-eq-first_broken :
    {ext : External} (o : GrpcWebServerOptions ext) → validate o ≡ first_broken (rules o)
unfolding validate
validate-eq-first_broken o = rw grpc-rules (ground arith)

first_broken_total :
    (table : List (Bool × Str))
    → (first_broken table ≡ ok tt) ⊎ ((e : Str) × (first_broken table ≡ err e))
first_broken_total [] = inl refl
first_broken_total ((true, message) ∷ rest) = inr (message, refl)
first_broken_total ((false, message) ∷ rest) = first_broken_total rest

pub validate_total :
    {ext : External} (o : GrpcWebServerOptions ext)
    → (validate o ≡ ok tt) ⊎ ((e : Str) × (validate o ≡ err e))
validate_total o = rw validate-eq-first_broken (first_broken_total (rules o))
