-- ===== src/Tls/Files.antt =====
-- src/tls/ca.rs and src/tls/leaf.rs: what the two PEM files of a pair hold after a write.
use grpc_web_server.Base.{Str, text, ◌≡◌, ◌≢◌, inl, inr, some, ok, arith, Option-cases, ◌↔◌, none}
use grpc_web_server.Tls.Names.{cert_file, key_file, same_refl, same-false}
use grpc_web_server.Tls.{Rcgen, Disk, write_file, then_write, write_authority, write_leaf}

-- The files at two paths hold a pair, no other file has changed, and paths lead where they led.
abbrev pub HasPair : Disk → Disk → Str → Str → Str → Str → Type 0
HasPair before after cert_path cert key_path key =
    (after.contents (before.locate cert_path) ≡ some cert)
    × (after.contents (before.locate key_path) ≡ some key)
    × ((file : Str)
        → file ≢ before.locate cert_path
        → file ≢ before.locate key_path
        → after.contents file ≡ before.contents file)
    × (after.locate ≡ before.locate)

-- The second path leads to a file that holds the second text; so does the first with the first, if
-- it leads to another file; and no third file has changed.
abbrev pub IsWritten : Disk → Disk → Str → Str → Str → Str → Type 0
IsWritten before after cert_path cert key_path key =
    (before.locate cert_path ≢ before.locate key_path
      → after.contents (before.locate cert_path) ≡ some cert)
    × (after.contents (before.locate key_path) ≡ some key)
    × ((file : Str)
        → file ≢ before.locate cert_path
        → file ≢ before.locate key_path
        → after.contents file ≡ before.contents file)
    × (after.locate ≡ before.locate)

-- What a pair of writes that succeeds has left.
pair_IsWritten :
    (p x q y : Str) (d d' : Disk)
    → then_write (write_file p x d) (write_file q y) ≡ (ok tt, d')
    → IsWritten d d' p x q y
unfolding then_write write_file
pair_IsWritten p x q y d d' e =
    let p=p = same_refl (d.locate p) in
    let q=q = same_refl (d.locate q) in
    elim (Option-cases (d.faults p)) [
      | inl first ↦ elim (Option-cases (d.faults q)) [
        | inl second ↦ (
          λ p≢q.
              let p≠q = same-false (d.locate p) (d.locate q) p≢q in
              ground (arith, e, first, second, p≠q, p=p),
          ground (arith, e, first, second, q=q),
          λ file other other'.
              let l = same-false file (d.locate p) other in
              let r = same-false file (d.locate q) other' in ground (arith, e, first, second, l, r),
          ground (arith, e, first, second),
        )
        | inr (fault, second) ↦ ground (arith, e, first, second)
      ]
      | inr (fault, first) ↦ ground (arith, e, first)
    ]

-- A pair of writes that succeeds, at paths that lead to two files, has left both.
pub written_pair :
    (p x q y : Str) (d d' : Disk)
    → d.locate p ≢ d.locate q
    → then_write (write_file p x d) (write_file q y) ≡ (ok tt, d')
    → HasPair d d' p x q y
written_pair p x q y d d' p≢q e = let w = pair_IsWritten p x q y d d' e in (w.0 p≢q, w.1, w.2, w.3)

module _ (rcgen : Rcgen) where
  pub write_leaf-IsWritten :
      (dir prefix : Str) (leaf : rcgen.Certificate × rcgen.KeyPair) (d d' : Disk)
      → write_leaf rcgen dir prefix leaf d ≡ (ok tt, d')
      → IsWritten d d'
          (cert_file dir prefix)
          (rcgen.certificate_pem leaf.0)
          (key_file dir prefix)
          (rcgen.serialize_pem leaf.1)
  unfolding write_leaf
  write_leaf-IsWritten dir prefix leaf d d' e = pair_IsWritten _ _ _ _ d d' e

  pub write_leaf-HasPair :
      (dir prefix : Str) (leaf : rcgen.Certificate × rcgen.KeyPair) (d d' : Disk)
      → d.locate (cert_file dir prefix) ≢ d.locate (key_file dir prefix)
      → write_leaf rcgen dir prefix leaf d ≡ (ok tt, d')
      → HasPair d d'
          (cert_file dir prefix)
          (rcgen.certificate_pem leaf.0)
          (key_file dir prefix)
          (rcgen.serialize_pem leaf.1)
  unfolding write_leaf
  write_leaf-HasPair dir prefix leaf d d' apart e = written_pair _ _ _ _ d d' apart e

  pub write_authority-HasPair :
      (dir : Str) (ca : rcgen.CertifiedIssuer) (d d' : Disk)
      → d.locate (cert_file dir (text "ca")) ≢ d.locate (key_file dir (text "ca"))
      → write_authority rcgen dir ca d ≡ (ok tt, d')
      → HasPair d d'
          (cert_file dir (text "ca"))
          (rcgen.issuer_pem ca)
          (key_file dir (text "ca"))
          (rcgen.serialize_pem (rcgen.issuer_key ca))
  unfolding write_authority text
  write_authority-HasPair dir ca d d' apart e = written_pair _ _ _ _ d d' apart e

pair_ok_iff :
    (p x q y : Str) (d : Disk)
    → ((then_write (write_file p x d) (write_file q y)).0 ≡ ok tt)
      ↔ ((d.faults p ≡ none) × (d.faults q ≡ none))
unfolding then_write write_file
pair_ok_iff p x q y d = (
  λ e. elim (Option-cases (d.faults p)) [
    | inl first ↦ elim (Option-cases (d.faults q)) [
      | inl second ↦ (first, second)
      | inr (fault, second) ↦ ground (arith, e, first, second)
    ]
    | inr (fault, first) ↦ ground (arith, e, first)
  ],
  λ (first, second). ground (arith, first, second),
)

-- Both files of a prefix can be written.
abbrev pub IsWritable : Disk → Str → Str → Type 0
IsWritable d dir prefix =
    (d.faults (cert_file dir prefix) ≡ none) × (d.faults (key_file dir prefix) ≡ none)

module _ (rcgen : Rcgen) where
  pub write_leaf-ok_iff :
      (dir prefix : Str) (leaf : rcgen.Certificate × rcgen.KeyPair) (d : Disk)
      → ((write_leaf rcgen dir prefix leaf d).0 ≡ ok tt) ↔ IsWritable d dir prefix
  unfolding write_leaf
  write_leaf-ok_iff dir prefix leaf d = pair_ok_iff _ _ _ _ d

  pub write_authority-ok_iff :
      (dir : Str) (ca : rcgen.CertifiedIssuer) (d : Disk)
      → ((write_authority rcgen dir ca d).0 ≡ ok tt) ↔ IsWritable d dir (text "ca")
  unfolding write_authority text
  write_authority-ok_iff dir ca d = pair_ok_iff _ _ _ _ d
