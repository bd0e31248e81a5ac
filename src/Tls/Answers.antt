-- ===== src/Tls/Answers.antt =====
-- src/tls/ffi.rs: what a pointer or `true` from a call tells C.
use grpc_web_server.Base.{
  ℕ, suc, Str, ◌≡◌, ◌≢◌, refl, sym, ap, subst, ◌∙◌, ◌↔◌, inr, true, false, none, some, List,
  Outcome, ok, arith,
}
use grpc_web_server.Utils.{Memory, collect_c_string_vector}
use grpc_web_server.Utils.Reads.{
  IsCString, IsStringArray, required_c_string-ok_iff, collect_c_string_vector-ok_iff,
}
use grpc_web_server.Tls.{Rcgen, issue, write_leaf}
use grpc_web_server.Tls.Names.{cert_file, key_file}
use grpc_web_server.Tls.Files.{IsWritable, IsWritten, write_leaf-ok_iff, write_leaf-IsWritten}
use grpc_web_server.Tls.Certificates.{IsLeafOf, issue-IsLeafOf}
use grpc_web_server.Tls.Exports.{
  CertificateUsage, Process, is_ok, purpose, allocate_leaf, issue_leaf_certificate,
  write_leaf_certificate,
}
use grpc_web_server.Tls.Pointers.{
  caught-passes, as_ref-passes, required_c_string-passes, caught-ok, as_ref-some, is_ok-true,
  is_ok-of_ok, is_ok-rest, allocate_leaf-answer,
}
use grpc_web_server.Tls.Ownership.{IsSound}

module _ {rcgen : Rcgen} where
  -- What a leaf pointer that is not null stands for.
  pub record IsIssued (keys : ℕ → Outcome Str rcgen.KeyPair) (mem : Memory)
      (authority common_name subject_alt_names count : ℕ) (usage : CertificateUsage)
      (p : Process rcgen) (a : ℕ) (p' : Process rcgen) : Type 0 where
    pub ca : rcgen.CertifiedIssuer
    pub name : Str
    pub names : List Str
    pub leaf : rcgen.Certificate × rcgen.KeyPair
    pub signer : p.authorities authority ≡ some ca
    pub named : IsCString mem common_name name
    pub listed : IsStringArray mem subject_alt_names count names
    pub own_key : keys p.generated ≡ ok leaf.1
    pub next_key : p'.generated ≡ suc p.generated
    pub certified : IsLeafOf rcgen ca name names (purpose rcgen usage) leaf.0 leaf.1
    pub unused : p.leaves a ≡ none
    pub held : p'.leaves a ≡ some leaf
    pub others : (b : ℕ) → b ≢ a → p'.leaves b ≡ p.leaves b

  -- In a sound process a pointer to a leaf that is not null is to a new leaf, which the authority at
  -- the given pointer has signed, for a key of its own, with the names in memory.
  pub issue_leaf_certificate-IsIssued :
      (keys : ℕ → Outcome Str rcgen.KeyPair) (mem : Memory)
      (authority common_name subject_alt_names count : ℕ) (usage : CertificateUsage)
      (p : Process rcgen)
      → IsSound p
      → (a : ℕ) (p' : Process rcgen)
      → issue_leaf_certificate keys mem authority common_name subject_alt_names count usage p
        ≡ some (a, p')
      → a ≢ 0
      → IsIssued keys mem authority common_name subject_alt_names count usage p a p'
  unfolding issue_leaf_certificate allocate_leaf
  issue_leaf_certificate-IsIssued keys mem authority common_name subject_alt_names count usage p
        sound a p' e a≢0 =
      let (ca, there, e1, _) = as_ref-passes 0 authority p.authorities p _ e a≢0 in
      let (name, named, e2) = required_c_string-passes 0 mem common_name p _ e1 a≢0 in
      let (names, listed, e3) =
        caught-passes 0 (collect_c_string_vector mem subject_alt_names count) p _ e2 a≢0 in
      let q = record p { generated = suc p.generated } in
      let (leaf, issued, e4) =
        caught-passes 0 (issue rcgen (keys p.generated) ca name names (purpose rcgen usage)) q
          allocate_leaf e3 a≢0 in
      let (own, certified) =
        issue-IsLeafOf rcgen (keys p.generated) ca name names (purpose rcgen usage) leaf.0 leaf.1
          issued in
      let (new, now) = allocate_leaf-answer leaf q e4 in
      subst (λ r. IsIssued keys mem authority common_name subject_alt_names count usage p a r) now
        (record {
          ca = ca;
          name = name;
          names = names;
          leaf = leaf;
          signer = there;
          named = named;
          listed = (collect_c_string_vector-ok_iff mem subject_alt_names count names).0 listed;
          own_key = own;
          next_key = refl;
          certified = certified;
          unused = sound.no_leaf a (inr (omega (arith, new)));
          held = ground (arith, new);
          others = λ b b≢a. ground (arith, new, b≢a);
        })

  -- That the pointer is to a live leaf, memory holds a directory and a prefix, and both files can be
  -- written.
  pub record CanWrite (mem : Memory) (leaf directory prefix : ℕ) (p : Process rcgen)
      (held : rcgen.Certificate × rcgen.KeyPair) (dir name : Str) : Type 0 where
    pub live : leaf ≢ 0
    pub there : p.leaves leaf ≡ some held
    pub in_directory : IsCString mem directory dir
    pub named : IsCString mem prefix name
    pub writable : IsWritable p.disk dir name

  -- `write_leaf_certificate` answers true exactly if the pointer is to a live leaf, memory holds the
  -- directory and the prefix and both files can be written. Where it has answered true, the key file
  -- holds the key, the certificate file holds the certificate if it is another file, no third file has
  -- changed, and nor has anything else of the process.
  pub write_leaf_certificate-true_iff :
      (mem : Memory) (leaf directory prefix : ℕ) (p : Process rcgen)
      → (((p' : Process rcgen) × (write_leaf_certificate mem leaf directory prefix p
              ≡ some (true, p')))
          ↔ ((held : rcgen.Certificate × rcgen.KeyPair) × (dir : Str) × (name : Str) × CanWrite mem
                leaf directory prefix p held dir name))
        × ((p' : Process rcgen) (held : rcgen.Certificate × rcgen.KeyPair) (dir name : Str)
            → write_leaf_certificate mem leaf directory prefix p ≡ some (true, p')
            → CanWrite mem leaf directory prefix p held dir name
            → IsWritten p.disk p'.disk
                (cert_file dir name)
                (rcgen.certificate_pem held.0)
                (key_file dir name)
                (rcgen.serialize_pem held.1)
              × (p' ≡ record p { disk = p'.disk }))
  unfolding write_leaf_certificate
  write_leaf_certificate-true_iff mem leaf directory prefix p = (
    (
      λ (p', e).
          let (held, there, e1, live) = as_ref-passes false leaf p.leaves p _ e (λ f. cc (f)) in
          let (dir, d_read, e2) =
            required_c_string-passes false mem directory p _ e1 (λ f. cc (f)) in
          let (name, n_read, e3) = required_c_string-passes false mem prefix p _ e2 (λ f. cc (f)) in
          let done = is_ok-true (write_leaf rcgen dir name held p.disk) p e3 in
          (
            held,
            dir,
            name,
            record {
              live = live;
              there = there;
              in_directory = d_read;
              named = n_read;
              writable = (write_leaf-ok_iff rcgen dir name held p.disk).0 (ap (λ r. r.0) done);
            },
          ),
      λ (held, dir, name, can).
          let w = write_leaf rcgen dir name held p.disk in
          (
            record p { disk = w.1 },
            reached held dir name can
                ∙ is_ok-of_ok w p ((write_leaf-ok_iff rcgen dir name held p.disk).1 can.writable),
          ),
    ),
    λ p' held dir name e can.
        let w = write_leaf rcgen dir name held p.disk in
        let sent = sym (reached held dir name can) ∙ e in
        let done = is_ok-true w p sent in
        (write_leaf-IsWritten rcgen dir name held p.disk p'.disk done, is_ok-rest w p sent),
  )
    where
      reached :
          (held : rcgen.Certificate × rcgen.KeyPair) (dir name : Str)
          → CanWrite mem leaf directory prefix p held dir name
          → write_leaf_certificate mem leaf directory prefix p
            ≡ is_ok (write_leaf rcgen dir name held p.disk) p
      reached held dir name can =
          as_ref-some false leaf p.leaves p _ held can.live can.there
          ∙ caught-ok false p _ dir
              ((required_c_string-ok_iff mem directory dir).1 can.in_directory)
          ∙ caught-ok false p _ name ((required_c_string-ok_iff mem prefix name).1 can.named)
