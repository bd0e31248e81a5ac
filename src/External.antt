-- ===== src/External.antt =====
-- The crates that the server calls and the repository does not hold (Cargo.toml): http, rustls,
-- rustls-pemfile, hyper-util. Their types are opaque; a fallible call ends in an `Outcome` whose
-- error is the message of the crate's error value. Reading a file is `File::open` with the read.
use grpc_web_server.Base.{Str, Outcome, Option, List, ℕ}

pub record External : Type 1 where
  -- http: header values, methods, header names, authorities and URIs
  pub HeaderValue : Type 0
  pub Method : Type 0
  pub HeaderName : Type 0
  pub Authority : Type 0
  pub Uri : Type 0
  pub header_value_from_str : Str → Outcome Str HeaderValue
  pub method_from_bytes : Str → Outcome Str Method
  pub header_name_from_bytes : Str → Outcome Str HeaderName
  pub parse_authority : Str → Outcome Str Authority
  pub authority_as_str : Authority → Str
  pub path_and_query : Uri → Option Str
  -- `Uri::builder()` with scheme, authority, path and query, then `build`
  pub build_uri : Str → Str → Str → Outcome Str Uri
  -- std::fs, for reading
  pub open_file : Str → Outcome Str Str
  -- rustls and rustls-pemfile
  pub Certificate : Type 0
  pub PrivateKey : Type 0
  pub RootCertStore : Type 0
  pub ClientConfig : Type 0
  pub pem_certs : Str → Outcome Str (List Certificate)
  pub pem_private_key : Str → Outcome Str (Option PrivateKey)
  pub empty_roots : RootCertStore
  -- the store with the certificates that parse, and how many of them it took
  pub add_parsable_certificates :
      RootCertStore → List Certificate → record { roots : RootCertStore; added : ℕ }
  pub with_client_auth_cert :
      RootCertStore → List Certificate → PrivateKey → Outcome Str ClientConfig
  pub with_no_client_auth : RootCertStore → ClientConfig
  -- hyper-util: the client over an HTTPS connector, and a request handed to it
  pub Client : Type 0
  pub http2_client : ClientConfig → Client
