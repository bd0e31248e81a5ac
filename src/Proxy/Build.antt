-- ===== src/Proxy/Build.antt =====
-- What `GrpcWebProxy::new` guarantees of the proxy that it returns.
use grpc_web_server.Base.{
  Str, ◌≡◌, refl, ◌≢◌, Bool, true, false, Option, none, some, ok, arith, ok_or, subst, ok_inj, List,
  is_some, >>=-eq-ok,
}
use grpc_web_server.External.{External}
use grpc_web_server.Proxy.{GrpcWebProxy, read_certs, load_roots, client_config, new_proxy}

module _ (ext : External) where
  -- Where the root store of a proxy comes from, given `ca_cert`: the store is empty and TLS is off,
  -- or the file holds certificates of which at least one was added and TLS is on.
  abbrev pub IsRoots : Option Str → ext.RootCertStore → Bool → Type 0
  IsRoots none roots use_tls = (roots ≡ ext.empty_roots) × (use_tls ≡ false)
  IsRoots (some path) roots use_tls =
      (pem : Str) × (certs : List ext.Certificate) × (ext.open_file path ≡ ok pem)
      × (ext.pem_certs pem ≡ ok certs)
      × ((ext.add_parsable_certificates ext.empty_roots certs).added ≢ 0)
      × (roots ≡ (ext.add_parsable_certificates ext.empty_roots certs).roots)
      × (use_tls ≡ true)

  -- Where the client configuration comes from: a certificate and a key read from the two files, or
  -- none where either file is not given.
  abbrev pub IsConfig : ext.RootCertStore → Option Str → Option Str → ext.ClientConfig → Type 0
  IsConfig roots (some cert) (some key) config =
      (cert_pem : Str) × (key_pem : Str) × (certs : List ext.Certificate)
      × (private_key : ext.PrivateKey) × (ext.open_file cert ≡ ok cert_pem)
      × (ext.pem_certs cert_pem ≡ ok certs)
      × (ext.open_file key ≡ ok key_pem)
      × (ext.pem_private_key key_pem ≡ ok (some private_key))
      × (ext.with_client_auth_cert roots certs private_key ≡ ok config)
  IsConfig roots (some cert) none config = config ≡ ext.with_no_client_auth roots
  IsConfig roots none key config = config ≡ ext.with_no_client_auth roots

  read_certs_inv :
      (path : Str) {certs : List ext.Certificate}
      → read_certs ext path ≡ ok certs
      → (pem : Str) × (ext.open_file path ≡ ok pem) × (ext.pem_certs pem ≡ ok certs)
  unfolding read_certs
  read_certs_inv path h = >>=-eq-ok (ext.open_file path) _ h

  load_roots-IsRoots :
      (ca : Option Str) {roots : ext.RootCertStore} {use_tls : Bool}
      → load_roots ext ca ≡ ok (roots, use_tls)
      → IsRoots ca roots use_tls
  unfolding load_roots
  load_roots-IsRoots none h = (ground arith, ground arith)
  load_roots-IsRoots (some path) h =
      let (certs, read, h') = >>=-eq-ok (read_certs ext path) _ h in
      let (pem, opened, parsed) = read_certs_inv path read in
      (pem, certs, opened, parsed, ground arith, ground arith, ground arith)

  client_config-IsConfig :
      (roots : ext.RootCertStore) (cert key : Option Str) {config : ext.ClientConfig}
      → client_config ext roots cert key ≡ ok config
      → IsConfig roots cert key config
  unfolding client_config
  client_config-IsConfig roots (some cert) (some key) h =
      let (certs, read, h₁) = >>=-eq-ok (read_certs ext cert) _ h in
      let (cert_pem, opened, parsed) = read_certs_inv cert read in
      let (key_pem, opened', h₂) = >>=-eq-ok (ext.open_file key) _ h₁ in
      let (found, scanned, h₃) = >>=-eq-ok (ext.pem_private_key key_pem) _ h₂ in
      let (private_key, present, h₄) = >>=-eq-ok (ok_or found _) _ h₃ in
      (cert_pem, key_pem, certs, private_key, opened, parsed, opened', ground arith, h₄)
  client_config-IsConfig roots (some cert) none h = ground arith
  client_config-IsConfig roots none key h = ground arith

  -- The parsed address is the authority. TLS is used exactly as a CA file is given, which then held
  -- at least one certificate that was added to the trusted roots. The client presents a certificate
  -- exactly when both client files are given, and they were accepted together with those roots.
  abbrev pub IsBuilt : Str → Option Str → Option Str → Option Str → GrpcWebProxy ext → Type 0
  IsBuilt address ca cert key proxy =
      (roots : ext.RootCertStore) × (config : ext.ClientConfig) × (ext.parse_authority address
        ≡ ok proxy.authority)
      × IsRoots ca roots proxy.use_tls
      × IsConfig roots cert key config
      × (proxy.client ≡ ext.http2_client config)

  -- Every proxy that the constructor returns is built from its address and files as documented: its
  -- authority is the parsed address, it uses TLS with the roots of the CA file if there is one, and
  -- presents the client certificate if both client files are given.
  pub new_proxy-IsBuilt :
      (address : Str) (ca cert key : Option Str) {proxy : GrpcWebProxy ext}
      → new_proxy ext address ca cert key ≡ ok proxy
      → IsBuilt address ca cert key proxy
  unfolding new_proxy
  new_proxy-IsBuilt address ca cert key h =
      let (authority, parsed, h₁) = >>=-eq-ok (ext.parse_authority address) _ h in
      let (loaded, read, h₂) = >>=-eq-ok (load_roots ext ca) _ h₁ in
      let (config, configured, h₃) = >>=-eq-ok (client_config ext loaded.0 cert key) _ h₂ in
      subst (λ proxy. IsBuilt address ca cert key proxy) (ok_inj h₃)
        (
          loaded.0,
          config,
          parsed,
          load_roots-IsRoots ca read,
          client_config-IsConfig loaded.0 cert key configured,
          refl,
        )

  -- Whatever client certificate is configured, the proxy uses TLS exactly if a CA file is given.
  pub new_proxy-use_tls :
      (address : Str) (ca cert key : Option Str) {proxy : GrpcWebProxy ext}
      → new_proxy ext address ca cert key ≡ ok proxy
      → proxy.use_tls ≡ is_some ca
  new_proxy-use_tls address none cert key h =
      let (_, _, _, roots, _, _) = new_proxy-IsBuilt address none cert key h in roots.1
  new_proxy-use_tls address (some path) cert key h =
      let (_, _, _, roots, _, _) = new_proxy-IsBuilt address (some path) cert key h in roots.6
