-- ===== src/Tls/Certificates.antt =====
-- src/tls/ca.rs and src/tls/leaf.rs: which certificates are made.
use grpc_web_server.Base.{
  Str, ◌≡◌, refl, sym, ap, ◌∙◌, List, [], ◌∷◌, Outcome, ok, >>=-eq-ok, ok_inj,
}
use grpc_web_server.Tls.{Rcgen, Params, make, issue, leaf_params, authority_params}

module _ (rcgen : Rcgen) where
  -- A certificate that an authority has signed: for the key, with one purpose, with no right to sign
  -- others, and with the other parameters as they were made from the names asked for.
  pub record IsLeafOf (ca : rcgen.CertifiedIssuer) (name : Str) (names : List Str)
      (eku : rcgen.ExtendedKeyUsagePurpose) (cert : rcgen.Certificate) (key : rcgen.KeyPair)
      : Type 0 where
    pub asked : Params rcgen
    pub signed : Params rcgen
    pub from_names : rcgen.params_new names ≡ ok asked
    pub is_signed : rcgen.signed_by signed key ca ≡ ok cert
    pub name_only : signed.distinguished_name ≡ rcgen.push_common_name rcgen.empty_name name
    pub no_signing : signed.is_ca ≡ rcgen.no_ca
    pub usages : signed.key_usages ≡ rcgen.digital_signature ∷ rcgen.key_encipherment ∷ []
    pub one_purpose : signed.extended_key_usages ≡ eku ∷ []
    pub others_kept : signed.rest ≡ asked.rest

  -- Every leaf that is issued is signed by the authority for the key that was generated, as an
  -- end-entity certificate for the one purpose asked for.
  pub issue-IsLeafOf :
      (generated : Outcome Str rcgen.KeyPair) (ca : rcgen.CertifiedIssuer) (name : Str)
      (names : List Str) (eku : rcgen.ExtendedKeyUsagePurpose) (cert : rcgen.Certificate)
      (key : rcgen.KeyPair)
      → issue rcgen generated ca name names eku ≡ ok (cert, key)
      → (generated ≡ ok key) × IsLeafOf ca name names eku cert key
  unfolding issue
  issue-IsLeafOf generated ca name names eku cert key e =
      let (key', made, e1) = >>=-eq-ok generated _ e in
      let (asked, parsed, e2) = >>=-eq-ok (rcgen.params_new names) _ e1 in
      let (cert', signed, e3) =
        >>=-eq-ok (rcgen.signed_by (leaf_params rcgen asked name eku) key' ca) _ e2 in
      let key≡ : key' ≡ key = ap (λ (x : rcgen.Certificate × rcgen.KeyPair). x.1) (ok_inj e3) in
      let cert≡ : cert' ≡ cert = ap (λ (x : rcgen.Certificate × rcgen.KeyPair). x.0) (ok_inj e3) in
      (
        made ∙ ap ok key≡,
        record {
          asked = asked;
          signed = leaf_params rcgen asked name eku;
          from_names = parsed;
          is_signed =
              ap (λ k. rcgen.signed_by (leaf_params rcgen asked name eku) k ca) (sym key≡)
              ∙ signed
              ∙ ap ok cert≡;
          name_only = refl;
          no_signing = refl;
          usages = refl;
          one_purpose = refl;
          others_kept = refl;
        },
      )

  -- An authority that has signed itself with its key: a certificate that may sign others and lists
  -- of certificates revoked, with the one name, and with the other parameters as they are by default.
  pub record IsAuthority (name : Str) (ca : rcgen.CertifiedIssuer) (key : rcgen.KeyPair)
      : Type 0 where
    pub signed : Params rcgen
    pub is_signed : rcgen.self_signed signed key ≡ ok ca
    pub name_only : signed.distinguished_name ≡ rcgen.push_common_name rcgen.empty_name name
    pub signs : signed.is_ca ≡ rcgen.ca_unconstrained
    pub usages : signed.key_usages ≡ rcgen.key_cert_sign ∷ rcgen.crl_sign ∷ []
    pub no_purpose : signed.extended_key_usages ≡ rcgen.default_params.extended_key_usages
    pub others_kept : signed.rest ≡ rcgen.default_params.rest

  -- Every authority that is made has signed itself with the key that was generated.
  pub make-IsAuthority :
      (generated : Outcome Str rcgen.KeyPair) (name : Str) (ca : rcgen.CertifiedIssuer)
      → make rcgen generated name ≡ ok ca
      → (key : rcgen.KeyPair) × (generated ≡ ok key) × IsAuthority name ca key
  unfolding make
  make-IsAuthority generated name ca e =
      let (key, made, signed) = >>=-eq-ok generated _ e in
      (
        key,
        made,
        record {
          signed = authority_params rcgen name;
          is_signed = signed;
          name_only = refl;
          signs = refl;
          usages = refl;
          no_purpose = refl;
          others_kept = refl;
        },
      )
