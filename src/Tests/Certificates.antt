-- ===== src/Tests/Certificates.antt =====
-- Certificates and their files.
use grpc_web_server.Base.{
  true, false, arith, ℕ, Str, text, ◌≡◌, refl, none, List, [], ◌∷◌, ◌++◌, Outcome, ok,
}
use grpc_web_server.Paths.{is_absolute, join}
use grpc_web_server.Tls.Names.{is_plain, AreSeparate, append_inj_right}
use grpc_web_server.Tls.{Rcgen, Disk, issue, then_write, write_authority, write_leaf}
use grpc_web_server.Tls.{make}
use grpc_web_server.Generator.{generate}
use grpc_web_server.Generator.Output.{IsComplete, generate-IsComplete}

-- Names, keys and certificates are texts; a certificate is its subject, then its key, then its issuer.
abbrev pub signer : Rcgen
signer = record {
  DistinguishedName = Str;
  IsCa = Str;
  KeyUsagePurpose = Str;
  ExtendedKeyUsagePurpose = Str;
  Rest = List Str;
  KeyPair = Str;
  CertifiedIssuer = Str × Str;
  Certificate = Str;
  empty_name = [];
  push_common_name = λ name common. name ++ common;
  no_ca = text "leaf";
  ca_unconstrained = text "ca";
  key_cert_sign = text "keyCertSign";
  crl_sign = text "cRLSign";
  digital_signature = text "digitalSignature";
  key_encipherment = text "keyEncipherment";
  server_auth = text "serverAuth";
  client_auth = text "clientAuth";
  default_params = record {
    distinguished_name = [];
    is_ca = text "leaf";
    key_usages = [];
    extended_key_usages = [];
    rest = [];
  };
  params_new = λ names. ok (record {
    distinguished_name = [];
    is_ca = text "leaf";
    key_usages = [];
    extended_key_usages = [];
    rest = names;
  });
  self_signed = λ params key. ok (params.distinguished_name, key);
  signed_by = λ params key ca. ok (params.distinguished_name ++ (key ++ ca.0));
  issuer_pem = λ ca. ca.0;
  issuer_key = λ ca. ca.1;
  certificate_pem = λ cert. cert;
  serialize_pem = λ key. key;
}

abbrev root : signer.CertifiedIssuer
root = (text "root", text "root-key")

abbrev pub leaf : signer.Certificate × signer.KeyPair
leaf = (text "webkroot", text "k")

abbrev generated : Outcome Str signer.KeyPair
generated = ok (text "k")

issue-leaf :
    issue signer generated root (text "web") (text "localhost" ∷ []) (text "serverAuth") ≡ ok leaf
unfolding issue text
issue-leaf = refl

-- An empty disk on which every write succeeds.
abbrev pub disk : Disk
disk = record { locate = λ path. path; contents = λ file. none; faults = λ path. none }

relative : (a : Str) → is_plain a ≡ true → is_absolute (a ++ text ".pem") ≡ false
unfolding text
relative [] plain = refl
relative (c ∷ a) plain = ground (arith, plain)

pub disk-AreSeparate : AreSeparate disk (text "out")
unfolding text join
disk-AreSeparate a b plain plain' a≢b e =
    let left = relative a plain in
    let right = relative b plain' in
    let tails : a ++ text ".pem" ≡ b ++ text ".pem" = ground (arith, e, left, right) in
    a≢b (append_inj_right a b (text ".pem") tails)

abbrev pub key_number : ℕ → Outcome Str signer.KeyPair
key_number n = ok (n ∷ [])

-- The disk after a run of the generator on an empty one.
abbrev generated_disk : Disk
generated_disk = (generate signer key_number (ok tt) (text "out") disk).1

generate-out : generate signer key_number (ok tt) (text "out") disk ≡ (ok tt, generated_disk)
unfolding generate make issue write_authority write_leaf text join then_write
generate-out = refl

generate-IsComplete_example : IsComplete signer (text "out") key_number generated_disk
generate-IsComplete_example =
    generate-IsComplete signer (text "out") key_number (ok tt) disk generated_disk disk-AreSeparate
      generate-out
