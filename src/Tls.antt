-- ===== src/Tls.antt =====
-- src/tls/ca.rs and src/tls/leaf.rs: authorities, leaf certificates and their PEM files.
--
-- rcgen is a record of types and operations. `KeyPair::generate` has no input, so what it returned is an
-- argument. The disk says
-- to which file a path leads, whether the file exists yet or not (two paths may lead to one file), what
-- each file holds, which writes fail and what they leave behind.
pub mod Names
pub mod Files
pub mod Certificates
pub mod Prefixes
pub mod Exports
pub mod Pointers
pub mod Ownership
pub mod Answers
use grpc_web_server.Base.{
  ℕ, Str, text, Bool, false, true, ◌&&◌, ◌==◌, if◌then◌else◌, ◌++◌, Option, none, some, List, [],
  ◌∷◌, Outcome, ok, err, panic, undefined, ◌>>=◌,
}
use grpc_web_server.Paths.{join}

-- The fields of `CertificateParams` that the code assigns; `rest` stands for the others, the subject
-- alternative names among them.
pub record CertificateParams (Name CaKind Usage ExtendedUsage Rest : Type 0) : Type 0 where
  pub distinguished_name : Name
  pub is_ca : CaKind
  pub key_usages : List Usage
  pub extended_key_usages : List ExtendedUsage
  pub rest : Rest

pub record Rcgen : Type 1 where
  pub DistinguishedName : Type 0
  pub IsCa : Type 0
  pub KeyUsagePurpose : Type 0
  pub ExtendedKeyUsagePurpose : Type 0
  pub Rest : Type 0
  pub KeyPair : Type 0
  pub CertifiedIssuer : Type 0
  pub Certificate : Type 0
  pub empty_name : DistinguishedName
  -- `push` with `DnType::CommonName`
  pub push_common_name : DistinguishedName → Str → DistinguishedName
  -- `IsCa::NoCa`, `IsCa::Ca(BasicConstraints::Unconstrained)`, and the purposes by their names
  pub no_ca : IsCa
  pub ca_unconstrained : IsCa
  pub key_cert_sign : KeyUsagePurpose
  pub crl_sign : KeyUsagePurpose
  pub digital_signature : KeyUsagePurpose
  pub key_encipherment : KeyUsagePurpose
  pub server_auth : ExtendedKeyUsagePurpose
  pub client_auth : ExtendedKeyUsagePurpose
  pub default_params :
      CertificateParams DistinguishedName IsCa KeyUsagePurpose ExtendedKeyUsagePurpose Rest
  pub params_new :
      List Str
      → Outcome Str
          (CertificateParams DistinguishedName IsCa KeyUsagePurpose ExtendedKeyUsagePurpose Rest)
  pub self_signed :
      CertificateParams DistinguishedName IsCa KeyUsagePurpose ExtendedKeyUsagePurpose Rest
      → KeyPair
      → Outcome Str CertifiedIssuer
  pub signed_by :
      CertificateParams DistinguishedName IsCa KeyUsagePurpose ExtendedKeyUsagePurpose Rest
      → KeyPair
      → CertifiedIssuer
      → Outcome Str Certificate
  pub issuer_pem : CertifiedIssuer → Str
  pub issuer_key : CertifiedIssuer → KeyPair
  pub certificate_pem : Certificate → Str
  pub serialize_pem : KeyPair → Str

abbrev pub Params : Rcgen → Type 0
Params rcgen =
    CertificateParams rcgen.DistinguishedName rcgen.IsCa rcgen.KeyUsagePurpose
      rcgen.ExtendedKeyUsagePurpose rcgen.Rest

abbrev pub same : Str → Str → Bool
same [] [] = true
same [] (c ∷ t) = false
same (b ∷ s) [] = false
same (b ∷ s) (c ∷ t) = (b == c) && same s t

pub record Disk : Type 0 where
  pub locate : Str → Str
  pub contents : Str → Option Str
  pub faults : Str → Option record { message : Str; left : Option Str }

abbrev pub set_file : Disk → Str → Option Str → Disk
set_file d path bytes = record d {
  contents = λ other. if same other (d.locate path) then bytes else d.contents other;
}

-- `fs::write`
pub write_file : Str → Str → Disk → Outcome Str (Unit {0}) × Disk
write_file path bytes d = elim (d.faults path) [
  | none ↦ (ok tt, set_file d path (some bytes))
  | some fault ↦ (err fault.message, set_file d path fault.left)
]

-- `write(first)?; write(second)?; Ok(())`
unfoldable pub then_write :
    Outcome Str (Unit {0}) × Disk
    → (Disk → Outcome Str (Unit {0}) × Disk)
    → Outcome Str (Unit {0}) × Disk
then_write (ok done, d) next = next d
then_write (err e, d) next = (err e, d)
then_write (panic, d) next = (panic, d)
then_write (undefined, d) next = (undefined, d)

module _ (rcgen : Rcgen) where
  -- The parameters that `ca::make` signs.
  abbrev pub authority_params : Str → Params rcgen
  authority_params name = record rcgen.default_params {
    distinguished_name = rcgen.push_common_name rcgen.empty_name name;
    is_ca = rcgen.ca_unconstrained;
    key_usages = rcgen.key_cert_sign ∷ rcgen.crl_sign ∷ [];
  }

  -- `ca::make`
  unfoldable pub make : Outcome Str rcgen.KeyPair → Str → Outcome Str rcgen.CertifiedIssuer
  make generated name = do ca_key ← generated; rcgen.self_signed (authority_params name) ca_key

  -- `ca::write`
  unfoldable pub write_authority :
      Str → rcgen.CertifiedIssuer → Disk → Outcome Str (Unit {0}) × Disk
  unfolding write_file then_write
  write_authority dir ca d =
      then_write (write_file (join dir (text "ca.pem")) (rcgen.issuer_pem ca) d)
        (write_file (join dir (text "ca-key.pem")) (rcgen.serialize_pem (rcgen.issuer_key ca)))

  -- The parameters that `leaf::issue` signs, made from those with the subject alternative names.
  abbrev pub leaf_params : Params rcgen → Str → rcgen.ExtendedKeyUsagePurpose → Params rcgen
  leaf_params params name eku = record params {
    distinguished_name = rcgen.push_common_name rcgen.empty_name name;
    is_ca = rcgen.no_ca;
    key_usages = rcgen.digital_signature ∷ rcgen.key_encipherment ∷ [];
    extended_key_usages = eku ∷ [];
  }

  -- `leaf::issue`
  unfoldable pub issue :
      Outcome Str rcgen.KeyPair
      → rcgen.CertifiedIssuer
      → Str
      → List Str
      → rcgen.ExtendedKeyUsagePurpose
      → Outcome Str (rcgen.Certificate × rcgen.KeyPair)
  issue generated ca name subject_alt_names eku = do
    leaf_key ← generated
    params ← rcgen.params_new subject_alt_names
    cert ← rcgen.signed_by (leaf_params params name eku) leaf_key ca
    ok (cert, leaf_key)

  -- `leaf::write`
  unfoldable pub write_leaf :
      Str → Str → rcgen.Certificate × rcgen.KeyPair → Disk → Outcome Str (Unit {0}) × Disk
  unfolding write_file then_write
  write_leaf dir prefix leaf d =
      then_write (write_file (join dir (prefix ++ text ".pem")) (rcgen.certificate_pem leaf.0) d)
        (write_file (join dir (prefix ++ text "-key.pem")) (rcgen.serialize_pem leaf.1))
