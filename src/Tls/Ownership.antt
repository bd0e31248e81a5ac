-- ===== src/Tls/Ownership.antt =====
-- src/tls/ffi.rs: which objects the process holds, over any calls.
use grpc_web_server.Base.{
  ℕ, suc, ◌<◌, Str, ◌≡◌, subst, inl, inr, false, none, some, Option, List, Outcome, ok, err, panic,
  undefined, ◌==◌, arith, Bool-cases, ◌⊎◌,
}
use grpc_web_server.Utils.{Memory, required_c_string, collect_c_string_vector}
use grpc_web_server.Tls.{Rcgen, Disk, make, issue}
use grpc_web_server.Tls.Certificates.{IsLeafOf, issue-IsLeafOf}
use grpc_web_server.Tls.Exports.{
  CertificateUsage, Process, purpose, is_ok, allocate_authority, allocate_leaf,
  create_certificate_authority, write_certificate_authority, issue_leaf_certificate,
  write_leaf_certificate, destroy_certificate_authority, destroy_leaf_certificate,
}
use grpc_web_server.Tls.Pointers.{Ensures, after, Ensures-after, caught-keeps, as_ref-keeps}

-- A call of C, with the memory that it reads.
pub data Call : Type 0 where
  creates_authority : Memory → ℕ → Call
  issues_leaf : Memory → ℕ → ℕ → ℕ → ℕ → CertificateUsage → Call
  writes_authority : Memory → ℕ → ℕ → Call
  writes_leaf : Memory → ℕ → ℕ → ℕ → Call
  destroys_authority destroys_leaf : ℕ → Call

-- A certificate and its key that some authority has signed for a usage.
abbrev pub IsSigned : (rcgen : Rcgen) → rcgen.Certificate × rcgen.KeyPair → Type 0
IsSigned rcgen leaf =
    (ca : rcgen.CertifiedIssuer) × (name : Str) × (names : List Str) × (usage : CertificateUsage)
    × IsLeafOf rcgen ca name names (purpose rcgen usage) leaf.0 leaf.1

module _ {rcgen : Rcgen} where
  -- No object is at the null pointer or at an address that was not allocated, none is both an
  -- authority and a leaf, and every leaf has been signed.
  pub record IsSound (p : Process rcgen) : Type 0 where
    pub no_authority : (a : ℕ) → (a ≡ 0) ⊎ (p.allocations < a) → p.authorities a ≡ none
    pub no_leaf : (a : ℕ) → (a ≡ 0) ⊎ (p.allocations < a) → p.leaves a ≡ none
    pub apart : (a : ℕ) → (p.authorities a ≡ none) ⊎ (p.leaves a ≡ none)
    pub signed :
        (a : ℕ) (leaf : rcgen.Certificate × rcgen.KeyPair)
        → p.leaves a ≡ some leaf
        → IsSigned rcgen leaf

  allocate_authority-IsSound :
      (ca : rcgen.CertifiedIssuer) (p : Process rcgen)
      → IsSound p
      → Ensures IsSound (allocate_authority ca p)
  unfolding allocate_authority
  allocate_authority-IsSound ca p sound = record {
    no_authority = λ a out. let old = sound.no_authority a in ground (arith, old);
    no_leaf = λ a out. sound.no_leaf a (ground (arith, out));
    apart = λ a. let old = sound.apart a in let new = sound.no_leaf a in ground (arith, old, new);
    signed = sound.signed;
  }

  allocate_leaf-IsSound :
      (leaf : rcgen.Certificate × rcgen.KeyPair) (p : Process rcgen)
      → IsSigned rcgen leaf
      → IsSound p
      → Ensures IsSound (allocate_leaf leaf p)
  unfolding allocate_leaf
  allocate_leaf-IsSound leaf p by sound = record {
    no_authority = λ a out. sound.no_authority a (ground (arith, out));
    no_leaf = λ a out. let old = sound.no_leaf a in ground (arith, old);
    apart =
        λ a. let old = sound.apart a in let new = sound.no_authority a in ground (arith, old, new);
    signed = λ a other there. elim (Bool-cases (suc p.allocations == a)) [
      | inl here ↦
          let same : leaf ≡ other = ground (arith, here, there) in subst (IsSigned rcgen) same by
      | inr else ↦ sound.signed a other (ground (arith, else, there))
    ];
  }

  -- The invariant does not speak of the disk or of the number of keys.
  elsewhere-IsSound :
      (n : ℕ) (d : Disk) (p : Process rcgen)
      → IsSound p
      → IsSound (record p { generated = n; disk = d })
  elsewhere-IsSound n d p sound = record {
    no_authority = sound.no_authority;
    no_leaf = sound.no_leaf;
    apart = sound.apart;
    signed = sound.signed;
  }

  is_ok-IsSound :
      (r : Outcome Str (Unit {0}) × Disk) (p : Process rcgen)
      → IsSound p
      → Ensures IsSound (is_ok r p)
  unfolding is_ok
  is_ok-IsSound (ok done, d) p sound = elsewhere-IsSound p.generated d p sound
  is_ok-IsSound (err e, d) p sound = elsewhere-IsSound p.generated d p sound
  is_ok-IsSound (panic, d) p sound = elsewhere-IsSound p.generated d p sound
  is_ok-IsSound (undefined, d) p sound = tt

  module _ (keys : ℕ → Outcome Str rcgen.KeyPair) where
    -- The process after a call, or `none` where the call broke the contract of its function.
    unfoldable pub run_call : Call → Process rcgen → Option (Process rcgen)
    run_call (creates_authority mem name) p = after (create_certificate_authority keys mem name p)
    run_call (issues_leaf mem ca name names count usage) p =
        after (issue_leaf_certificate keys mem ca name names count usage p)
    run_call (writes_authority mem ca dir) p = after (write_certificate_authority mem ca dir p)
    run_call (writes_leaf mem leaf dir prefix) p =
        after (write_leaf_certificate mem leaf dir prefix p)
    run_call (destroys_authority ca) p = after (destroy_certificate_authority ca p)
    run_call (destroys_leaf leaf) p = after (destroy_leaf_certificate leaf p)

    pub run_call-IsSound :
        (c : Call) (p p' : Process rcgen) → IsSound p → run_call c p ≡ some p' → IsSound p'
    unfolding run_call create_certificate_authority write_certificate_authority
        issue_leaf_certificate write_leaf_certificate destroy_certificate_authority
        destroy_leaf_certificate
    run_call-IsSound (creates_authority mem name) p p' sound e =
        Ensures-after IsSound _
          (caught-keeps 0 IsSound (required_c_string mem name) p _ sound λ s read.
            caught-keeps 0 IsSound (make rcgen (keys p.generated) s) _ _
              (elsewhere-IsSound (suc p.generated) p.disk p sound)
              λ ca made.
                allocate_authority-IsSound ca _
                  (elsewhere-IsSound (suc p.generated) p.disk p sound))
          e
    run_call-IsSound (issues_leaf mem ca name names count usage) p p' sound e =
        Ensures-after IsSound _
          (as_ref-keeps 0 IsSound ca p.authorities p _ sound λ issuer there.
            caught-keeps 0 IsSound (required_c_string mem name) p _ sound λ s read.
              caught-keeps 0 IsSound (collect_c_string_vector mem names count) p _ sound λ ss read'.
                caught-keeps 0 IsSound
                  (issue rcgen (keys p.generated) issuer s ss (purpose rcgen usage)) _ _
                  (elsewhere-IsSound (suc p.generated) p.disk p sound)
                  λ leaf issued.
                    allocate_leaf-IsSound leaf _
                      (
                        issuer,
                        s,
                        ss,
                        usage,
                        (issue-IsLeafOf rcgen (keys p.generated) issuer s ss (purpose rcgen usage)
                            leaf.0 leaf.1 issued).1,
                      )
                      (elsewhere-IsSound (suc p.generated) p.disk p sound))
          e
    run_call-IsSound (writes_authority mem ca dir) p p' sound e =
        Ensures-after IsSound _
          (as_ref-keeps false IsSound ca p.authorities p _ sound λ held there.
            caught-keeps false IsSound (required_c_string mem dir) p _ sound
              λ s read. is_ok-IsSound _ p sound)
          e
    run_call-IsSound (writes_leaf mem leaf dir prefix) p p' sound e =
        Ensures-after IsSound _
          (as_ref-keeps false IsSound leaf p.leaves p _ sound λ held there.
            caught-keeps false IsSound (required_c_string mem dir) p _ sound λ s read.
              caught-keeps false IsSound (required_c_string mem prefix) p _ sound
                λ t read'. is_ok-IsSound _ p sound)
          e
    run_call-IsSound (destroys_authority ca) p p' sound e =
        Ensures-after IsSound _
          (as_ref-keeps false IsSound ca p.authorities p _ sound λ held there. record {
            no_authority = λ a out. let old = sound.no_authority a out in ground (arith, old);
            no_leaf = sound.no_leaf;
            apart = λ a. let old = sound.apart a in ground (arith, old);
            signed = sound.signed;
          })
          e
    run_call-IsSound (destroys_leaf leaf) p p' sound e =
        Ensures-after IsSound _
          (as_ref-keeps false IsSound leaf p.leaves p _ sound λ held there. record {
            no_authority = sound.no_authority;
            no_leaf = λ a out. let old = sound.no_leaf a out in ground (arith, old);
            apart = λ a. let old = sound.apart a in ground (arith, old);
            signed = λ a l is. elim (Bool-cases (leaf == a)) [
              | inl here ↦ ground (arith, here, is)
              | inr else ↦ sound.signed a l (ground (arith, else, is))
            ];
          })
          e
