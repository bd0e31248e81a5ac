-- ===== src/Tests/Issuing.antt =====
-- The C interface of the certificates, and leaves in one directory.
use grpc_web_server.Base.{
  update, ◌++◌, ◌∷◌, [], Str, text, ◌≡◌, refl, ◌↔◌, true, none, some, ok, inl, arith,
}
use grpc_web_server.Paths.{join}
use grpc_web_server.Utils.{required_c_string, collect_c_string_vector}
use grpc_web_server.Tls.{Disk, make, issue, write_leaf, then_write}
use grpc_web_server.Tls.Names.{cert_file, key_file, prefixes_differ}
use grpc_web_server.Tls.Files.{IsWritten}
use grpc_web_server.Tls.Prefixes.{HoldsLeaf, two_leaves_kept}
use grpc_web_server.Tls.Exports.{
  server_auth, Process, create_certificate_authority, issue_leaf_certificate,
  write_leaf_certificate,
}
use grpc_web_server.Tls.Ownership.{IsSound, creates_authority, run_call, run_call-IsSound}
use grpc_web_server.Tls.Answers.{
  IsIssued, CanWrite, issue_leaf_certificate-IsIssued, write_leaf_certificate-true_iff,
}
use grpc_web_server.Tests.Certificates.{signer, leaf, disk, key_number, disk-AreSeparate}
use grpc_web_server.Tests.Exports.{memory, up}

abbrev blank : Process signer
blank = record {
  authorities = λ a. none;
  leaves = λ a. none;
  allocations = 0;
  generated = 0;
  disk = disk;
}

blank-IsSound : IsSound blank
blank-IsSound = record {
  no_authority = λ a out. refl;
  no_leaf = λ a out. refl;
  apart = λ a. inl refl;
  signed = λ a l there. cc (there);
}

-- With an authority at address 1, and then a leaf at address 2.
abbrev first_authority : signer.CertifiedIssuer
first_authority = (up, 0 ∷ [])

abbrev with_authority : Process signer
with_authority = record blank {
  authorities = update (λ a. none) 1 (some first_authority);
  allocations = 1;
  generated = 1;
}

abbrev second_leaf : signer.Certificate × signer.KeyPair
second_leaf = (up ++ ((1 ∷ []) ++ up), 1 ∷ [])

abbrev with_leaf : Process signer
with_leaf = record with_authority {
  leaves = update (λ a. none) 2 (some second_leaf);
  allocations = 2;
  generated = 2;
}

first_call : run_call key_number (creates_authority memory 1) blank ≡ some with_authority
unfolding run_call create_certificate_authority make required_c_string
first_call = refl

with_authority-IsSound : IsSound with_authority
with_authority-IsSound =
    run_call-IsSound key_number (creates_authority memory 1) blank with_authority blank-IsSound
      first_call

issue_leaf_certificate-second :
    issue_leaf_certificate key_number memory 1 1 8 1 server_auth with_authority
    ≡ some (2, with_leaf)
unfolding issue_leaf_certificate issue required_c_string collect_c_string_vector
issue_leaf_certificate-second = refl

issue_leaf_certificate-IsIssued_example :
    IsIssued key_number memory 1 1 8 1 server_auth with_authority 2 with_leaf
issue_leaf_certificate-IsIssued_example =
    issue_leaf_certificate-IsIssued key_number memory 1 1 8 1 server_auth with_authority
      with_authority-IsSound 2 with_leaf issue_leaf_certificate-second (omega arith)

write_leaf_certificate-true_iff_example :
    (((p' : Process signer) × (write_leaf_certificate memory 2 1 1 with_leaf ≡ some (true, p'))) ↔ (
      (held : signer.Certificate × signer.KeyPair) × (dir : Str) × (name : Str) × CanWrite memory 2
        1 1 with_leaf held dir name))
    × ((p' : Process signer) (held : signer.Certificate × signer.KeyPair) (dir name : Str)
        → write_leaf_certificate memory 2 1 1 with_leaf ≡ some (true, p')
        → CanWrite memory 2 1 1 with_leaf held dir name
        → IsWritten with_leaf.disk p'.disk (cert_file dir name) held.0 (key_file dir name) held.1
          × (p' ≡ record with_leaf { disk = p'.disk }))
write_leaf_certificate-true_iff_example = write_leaf_certificate-true_iff memory 2 1 1 with_leaf

abbrev after_web : Disk
after_web = (write_leaf signer (text "out") (text "web") leaf disk).1

abbrev after_proxy : Disk
after_proxy = (write_leaf signer (text "out") (text "proxy") leaf after_web).1

write_leaf-web : write_leaf signer (text "out") (text "web") leaf disk ≡ (ok tt, after_web)
unfolding write_leaf text join then_write
write_leaf-web = refl

write_leaf-proxy :
    write_leaf signer (text "out") (text "proxy") leaf after_web ≡ (ok tt, after_proxy)
unfolding write_leaf text join then_write
write_leaf-proxy = refl

two_leaves_kept_example :
    HoldsLeaf signer after_proxy (text "out") (text "web") leaf
    × HoldsLeaf signer after_proxy (text "out") (text "proxy") leaf
unfolding text
two_leaves_kept_example =
    two_leaves_kept signer (text "out") (text "web") (text "proxy") leaf leaf disk after_web
      after_proxy disk-AreSeparate refl refl (prefixes_differ _ _ refl refl refl) write_leaf-web
      write_leaf-proxy
