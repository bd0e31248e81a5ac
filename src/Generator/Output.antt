-- ===== src/Generator/Output.antt =====
-- What a successful run of src/bin/gen-certs.rs leaves on the disk.
use grpc_web_server.Base.{
  ℕ, Str, text, ◌≡◌, refl, ap, true, List, [], ◌∷◌, Outcome, ok, err, panic, undefined,
}
use grpc_web_server.Tls.{Rcgen, Disk, then_write, make}
use grpc_web_server.Tls.Names.{
  cert_file, key_file, is_plain, AreSeparate, AreSeparate-kept, ArePrefixes, prefixes_differ,
  pair_apart,
}
use grpc_web_server.Tls.Files.{HasPair, write_leaf-HasPair, write_authority-HasPair}
use grpc_web_server.Tls.Prefixes.{Holds, HasPair-Holds, Holds-kept}
use grpc_web_server.Tls.Certificates.{IsLeafOf, IsAuthority, issue-IsLeafOf, make-IsAuthority}
use grpc_web_server.Generator.{write_issued, write_all, generate}

then_write-eq-ok :
    (r : Outcome Str (Unit {0}) × Disk) (next : Disk → Outcome Str (Unit {0}) × Disk) {d' : Disk}
    → then_write r next ≡ (ok tt, d')
    → (d : Disk) × (r ≡ (ok tt, d)) × (next d ≡ (ok tt, d'))
unfolding then_write
then_write-eq-ok (ok tt, d) next e = (d, refl, e)
then_write-eq-ok (err x, d) next e = cc (e)
then_write-eq-ok (panic, d) next e = cc (e)
then_write-eq-ok (undefined, d) next e = cc (e)

-- What one prefix holds: the prefix, the certificate and the key.
abbrev pub Pair : Type 0
Pair = Str × Str × Str

abbrev pub AreHeld : Str → Disk → List Pair → Type 0
AreHeld dir d [] = Unit {0}
AreHeld dir d (pair ∷ pairs) = Holds d dir pair.0 pair.1 pair.2 × AreHeld dir d pairs

-- That a prefix shares no file with those of a list.
abbrev AreOthers : Str → List Pair → Type 0
AreOthers prefix [] = Unit {0}
AreOthers prefix (pair ∷ pairs) =
    (is_plain pair.0 ≡ true) × ArePrefixes pair.0 prefix × AreOthers prefix pairs

module _ (rcgen : Rcgen) (dir : Str) where
  write_issued-HasPair :
      (prefix : Str) (issued : Outcome Str (rcgen.Certificate × rcgen.KeyPair)) (d d' : Disk)
      → AreSeparate d dir
      → is_plain prefix ≡ true
      → write_issued rcgen dir prefix issued d ≡ (ok tt, d')
      → (leaf : rcgen.Certificate × rcgen.KeyPair) × (issued ≡ ok leaf)
        × HasPair d d'
            (cert_file dir prefix)
            (rcgen.certificate_pem leaf.0)
            (key_file dir prefix)
            (rcgen.serialize_pem leaf.1)
  unfolding write_issued
  write_issued-HasPair prefix (ok leaf) d d' apart plain e = (
    leaf,
    refl,
    write_leaf-HasPair rcgen dir prefix leaf d d' (pair_apart d dir apart prefix plain) e,
  )
  write_issued-HasPair prefix (err x) d d' apart plain e = cc (e)
  write_issued-HasPair prefix panic d d' apart plain e = cc (e)
  write_issued-HasPair prefix undefined d d' apart plain e = cc (e)

  -- A pair with another prefix leaves those of a list as they are.
  AreHeld-kept :
      (prefix cert key : Str) (pairs : List Pair) (d d' : Disk)
      → AreSeparate d dir
      → is_plain prefix ≡ true
      → AreOthers prefix pairs
      → HasPair d d' (cert_file dir prefix) cert (key_file dir prefix) key
      → AreHeld dir d pairs
      → AreHeld dir d' pairs
  AreHeld-kept prefix cert key [] d d' apart plain others new held = tt
  AreHeld-kept prefix cert key (pair ∷ pairs) d d' apart plain (local, other, others) new
        (here, held) =
      (
        Holds-kept d d' dir pair.0 prefix _ _ _ _ apart local plain other new here,
        AreHeld-kept prefix cert key pairs d d' apart plain others new held,
      )

  abbrev leaf_pair : Str → rcgen.Certificate × rcgen.KeyPair → Pair
  leaf_pair prefix leaf = (prefix, rcgen.certificate_pem leaf.0, rcgen.serialize_pem leaf.1)

  abbrev ca_pair : rcgen.CertifiedIssuer → Pair
  ca_pair ca = (text "ca", rcgen.issuer_pem ca, rcgen.serialize_pem (rcgen.issuer_key ca))

  module _ (keys : ℕ → Outcome Str rcgen.KeyPair) where
    -- What a complete run has made: an authority with the first key, and with the three keys after it
    -- three leaves, for their names and purposes; and the four pairs of files that hold them.
    pub record IsComplete (d : Disk) : Type 0 where
      pub ca : rcgen.CertifiedIssuer
      pub ca_key : rcgen.KeyPair
      pub server : rcgen.Certificate × rcgen.KeyPair
      pub proxy : rcgen.Certificate × rcgen.KeyPair
      pub web : rcgen.Certificate × rcgen.KeyPair
      pub own_keys :
          (keys 0 ≡ ok ca_key)
          × (keys 1 ≡ ok server.1)
          × (keys 2 ≡ ok proxy.1)
          × (keys 3 ≡ ok web.1)
      pub authority : IsAuthority rcgen (text "grpc-web-dev-ca") ca ca_key
      pub for_server :
          IsLeafOf rcgen ca
            (text "grpc-server")
            (text "grpc.local" ∷ text "127.0.0.1" ∷ text "localhost" ∷ [])
            rcgen.server_auth
            server.0
            server.1
      pub for_proxy :
          IsLeafOf rcgen ca
            (text "grpc-proxy")
            (text "proxy.local" ∷ [])
            rcgen.client_auth
            proxy.0
            proxy.1
      pub for_web :
          IsLeafOf rcgen ca
            (text "web-server")
            (text "web.local" ∷ text "localhost" ∷ text "127.0.0.1" ∷ [])
            rcgen.server_auth
            web.0
            web.1
      pub held : AreHeld dir d (
          leaf_pair (text "web") web
          ∷ leaf_pair (text "proxy") proxy
          ∷ leaf_pair (text "server") server
          ∷ ca_pair ca
          ∷ [])

    write_all-IsComplete :
        (made : Outcome Str rcgen.CertifiedIssuer) (d d' : Disk)
        → AreSeparate d dir
        → make rcgen (keys 0) (text "grpc-web-dev-ca") ≡ made
        → write_all rcgen keys dir made d ≡ (ok tt, d')
        → IsComplete d'
    unfolding write_all text
    write_all-IsComplete (err x) d d' apart is_made e = cc (e)
    write_all-IsComplete panic d d' apart is_made e = cc (e)
    write_all-IsComplete undefined d d' apart is_made e = cc (e)
    write_all-IsComplete (ok ca) d d' apart is_made e =
        let (d1, first, e1) = then_write-eq-ok _ _ e in
        let (d2, second, e2) = then_write-eq-ok _ _ e1 in
        let (d3, third, e3) = then_write-eq-ok _ _ e2 in
        let (ca_key, c_own, c_made) = make-IsAuthority rcgen (keys 0) _ ca is_made in
        let a =
          write_authority-HasPair rcgen dir ca d d1 (pair_apart d dir apart (text "ca") refl)
            first in
        let apart1 = AreSeparate-kept d d1 dir a.3 apart in
        let (server, s_made, s) = write_issued-HasPair (text "server") _ d1 d2 apart1 refl second in
        let apart2 = AreSeparate-kept d1 d2 dir s.3 apart1 in
        let (proxy, p_made, p) = write_issued-HasPair (text "proxy") _ d2 d3 apart2 refl third in
        let apart3 = AreSeparate-kept d2 d3 dir p.3 apart2 in
        let (web, w_made, w) = write_issued-HasPair (text "web") _ d3 d' apart3 refl e3 in
        let (s_own, s_leaf) = issue-IsLeafOf rcgen (keys 1) ca _ _ _ server.0 server.1 s_made in
        let (p_own, p_leaf) = issue-IsLeafOf rcgen (keys 2) ca _ _ _ proxy.0 proxy.1 p_made in
        let (w_own, w_leaf) = issue-IsLeafOf rcgen (keys 3) ca _ _ _ web.0 web.1 w_made in
        let held1 : AreHeld dir d1 (ca_pair ca ∷ []) =
          (HasPair-Holds d d1 dir (text "ca") _ _ a, tt) in
        let held2 : AreHeld dir d2 (leaf_pair (text "server") server ∷ ca_pair ca ∷ []) = (
          HasPair-Holds d1 d2 dir (text "server") _ _ s,
          AreHeld-kept (text "server") _ _ (ca_pair ca ∷ []) d1 d2 apart1 refl
              (refl, prefixes_differ _ _ refl refl refl, tt) s held1,
        ) in
        let held3 : AreHeld dir d3
            (leaf_pair (text "proxy") proxy ∷ leaf_pair (text "server") server ∷ ca_pair ca ∷ []) =
          (
            HasPair-Holds d2 d3 dir (text "proxy") _ _ p,
            AreHeld-kept (text "proxy") _ _ (leaf_pair (text "server") server ∷ ca_pair ca ∷ []) d2
                d3 apart2 refl
                (
                  refl,
                  prefixes_differ _ _ refl refl refl,
                  (refl, prefixes_differ _ _ refl refl refl, tt),
                )
                p held2,
          ) in
        record {
          ca = ca;
          ca_key = ca_key;
          server = server;
          proxy = proxy;
          web = web;
          own_keys = (c_own, s_own, p_own, w_own);
          authority = c_made;
          for_server = s_leaf;
          for_proxy = p_leaf;
          for_web = w_leaf;
          held = (
            HasPair-Holds d3 d' dir (text "web") _ _ w,
            AreHeld-kept (text "web") _ _
                (leaf_pair (text "proxy") proxy
                  ∷ leaf_pair (text "server") server
                  ∷ ca_pair ca
                  ∷ [])
                d3 d' apart3 refl
                (
                  refl,
                  prefixes_differ _ _ refl refl refl,
                  (
                    refl,
                    prefixes_differ _ _ refl refl refl,
                    (refl, prefixes_differ _ _ refl refl refl, tt),
                  ),
                )
                w held3,
          );
        }

    -- In a directory in which different names that end in ".pem" are different files, a run that
    -- succeeds has made an authority with the first key, and for the gRPC server, the proxy and the
    -- web server a leaf each with a key of its own, the names and the purpose that it needs; the
    -- eight files of the directory hold these certificates and their keys.
    pub generate-IsComplete :
        (created : Outcome Str (Unit {0})) (d d' : Disk)
        → AreSeparate d dir
        → generate rcgen keys created dir d ≡ (ok tt, d')
        → IsComplete d'
    unfolding generate
    generate-IsComplete created d d' apart e =
        let (d0, there, e0) = then_write-eq-ok (created, d) _ e in
        let same : d0 ≡ d = cc (there) in
        write_all-IsComplete _ d0 d'
          (AreSeparate-kept d d0 dir (ap (λ (x : Disk). x.locate) same) apart) refl e0
