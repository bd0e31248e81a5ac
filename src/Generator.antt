-- ===== src/Generator.antt =====
-- src/bin/gen-certs.rs: the program that makes the certificates for development.
--
-- The arguments of `main` are what `create_dir_all` returned, the key pairs that are generated, in
-- order, and the directory.
pub mod Output
use grpc_web_server.Base.{ℕ, Str, text, Outcome, ok, err, panic, undefined, [], ◌∷◌}
use grpc_web_server.Tls.{Rcgen, Disk, then_write, make, issue, write_authority, write_leaf}

module _ (rcgen : Rcgen) where
  -- `let leaf = issue(..)?; write(out_dir, prefix, &leaf)?`
  pub write_issued :
      Str
      → Str
      → Outcome Str (rcgen.Certificate × rcgen.KeyPair)
      → Disk
      → Outcome Str (Unit {0}) × Disk
  write_issued dir prefix (ok leaf) d = write_leaf rcgen dir prefix leaf d
  write_issued dir prefix (err e) d = (err e, d)
  write_issued dir prefix panic d = (panic, d)
  write_issued dir prefix undefined d = (undefined, d)

  module _ (keys : ℕ → Outcome Str rcgen.KeyPair) where
    abbrev pub server_leaf : rcgen.CertifiedIssuer → Outcome Str (rcgen.Certificate × rcgen.KeyPair)
    server_leaf ca =
        issue rcgen (keys 1) ca (text "grpc-server")
          (text "grpc.local" ∷ text "127.0.0.1" ∷ text "localhost" ∷ []) rcgen.server_auth

    abbrev pub proxy_leaf : rcgen.CertifiedIssuer → Outcome Str (rcgen.Certificate × rcgen.KeyPair)
    proxy_leaf ca =
        issue rcgen (keys 2) ca (text "grpc-proxy") (text "proxy.local" ∷ []) rcgen.client_auth

    abbrev pub web_leaf : rcgen.CertifiedIssuer → Outcome Str (rcgen.Certificate × rcgen.KeyPair)
    web_leaf ca =
        issue rcgen (keys 3) ca (text "web-server")
          (text "web.local" ∷ text "localhost" ∷ text "127.0.0.1" ∷ []) rcgen.server_auth

    -- `main` from the authority on.
    pub write_all : Str → Outcome Str rcgen.CertifiedIssuer → Disk → Outcome Str (Unit {0}) × Disk
    unfolding write_issued
    write_all dir (ok ca) d = then_write (write_authority rcgen dir ca d) (λ d1.
        then_write (write_issued dir (text "server") (server_leaf ca) d1) (λ d2.
          then_write (write_issued dir (text "proxy") (proxy_leaf ca) d2)
            (write_issued dir (text "web") (web_leaf ca))))
    write_all dir (err e) d = (err e, d)
    write_all dir panic d = (panic, d)
    write_all dir undefined d = (undefined, d)

    -- `main`
    unfoldable pub generate : Outcome Str (Unit {0}) → Str → Disk → Outcome Str (Unit {0}) × Disk
    unfolding write_all
    generate created dir d =
        then_write (created, d) (write_all dir (make rcgen (keys 0) (text "grpc-web-dev-ca")))
