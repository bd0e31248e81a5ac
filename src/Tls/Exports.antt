-- ===== src/Tls/Exports.antt =====
-- src/tls/ffi.rs: the functions that C calls for certificates, on the process as they see it.
--
-- The process is the authorities and the leaves that are allocated, each at its address, how many
-- allocations were made (addresses are not used twice), how many key pairs were generated, and the
-- disk. `keys` is what `KeyPair::generate` returns, call by call.
use grpc_web_server.Base.{
  ℕ, suc, Str, Bool, true, false, Option, none, some, Outcome, ok, err, panic, undefined, ◌==◌,
  if◌then◌else◌, update,
}
use grpc_web_server.Utils.{Memory, required_c_string, collect_c_string_vector}
use grpc_web_server.Tls.{Rcgen, Disk, make, issue, write_authority, write_leaf}

pub data CertificateUsage : Type 0 where
  server_auth client_auth : CertificateUsage

pub record Process (rcgen : Rcgen) : Type 0 where
  pub authorities : ℕ → Option rcgen.CertifiedIssuer
  pub leaves : ℕ → Option (rcgen.Certificate × rcgen.KeyPair)
  pub allocations : ℕ
  pub generated : ℕ
  pub disk : Disk

-- What a call returns to C, and the process after it; `none` where the call broke the contract of the
-- function, after which nothing is known of the process.
abbrev pub Answer : Rcgen → Type 0 → Type 0
Answer rcgen A = Option (A × Process rcgen)

-- `From<CertificateUsage> for ExtendedKeyUsagePurpose`
abbrev pub purpose : (rcgen : Rcgen) → CertificateUsage → rcgen.ExtendedKeyUsagePurpose
purpose rcgen server_auth = rcgen.server_auth
purpose rcgen client_auth = rcgen.client_auth

module _ {rcgen : Rcgen} where
  -- `match result { Ok(value) => .., Err(_) => return answer }` under `catch_unwind`.
  unfoldable pub caught :
      {E A B : Type 0}
      → B
      → Outcome E A
      → Process rcgen
      → (A → Process rcgen → Answer rcgen B)
      → Answer rcgen B
  caught answer (ok a) p rest = rest a p
  caught answer (err e) p rest = some (answer, p)
  caught answer panic p rest = some (answer, p)
  caught answer undefined p rest = none

  -- What a pointer that is not null refers to; a pointer to nothing breaks the contract.
  unfoldable pub referred :
      {A B : Type 0}
      → Option A
      → Process rcgen
      → (A → Process rcgen → Answer rcgen B)
      → Answer rcgen B
  referred none p rest = none
  referred (some a) p rest = rest a p

  -- `let Some(object) = pointer.as_ref() else { return answer }`
  unfoldable pub as_ref :
      {A B : Type 0}
      → B
      → ℕ
      → (ℕ → Option A)
      → Process rcgen
      → (A → Process rcgen → Answer rcgen B)
      → Answer rcgen B
  unfolding referred
  as_ref answer pointer objects p rest =
      if pointer == 0 then some (answer, p) else referred (objects pointer) p rest

  -- `Box::into_raw(Box::new(CertificateAuthorityHandle { authority }))`
  unfoldable pub allocate_authority : rcgen.CertifiedIssuer → Process rcgen → Answer rcgen ℕ
  allocate_authority authority p = some (
    suc p.allocations,
    record p {
      authorities = update p.authorities (suc p.allocations) (some authority);
      allocations = suc p.allocations;
    },
  )

  -- `Box::into_raw(Box::new(LeafCertificateHandle { leaf }))`
  unfoldable pub allocate_leaf : rcgen.Certificate × rcgen.KeyPair → Process rcgen → Answer rcgen ℕ
  allocate_leaf leaf p = some (
    suc p.allocations,
    record p {
      leaves = update p.leaves (suc p.allocations) (some leaf);
      allocations = suc p.allocations;
    },
  )

  -- `write(..).is_ok()` under `catch_unwind`, with the disk as the write has left it.
  unfoldable pub is_ok : Outcome Str (Unit {0}) × Disk → Process rcgen → Answer rcgen Bool
  is_ok (ok done, d) p = some (true, record p { disk = d })
  is_ok (err e, d) p = some (false, record p { disk = d })
  is_ok (panic, d) p = some (false, record p { disk = d })
  is_ok (undefined, d) p = none

  unfoldable pub write_certificate_authority : Memory → ℕ → ℕ → Process rcgen → Answer rcgen Bool
  unfolding as_ref caught is_ok
  write_certificate_authority mem authority directory p =
      as_ref false authority p.authorities p λ ca p.
        caught false (required_c_string mem directory) p
          λ dir p. is_ok (write_authority rcgen dir ca p.disk) p

  unfoldable pub write_leaf_certificate : Memory → ℕ → ℕ → ℕ → Process rcgen → Answer rcgen Bool
  unfolding as_ref caught is_ok
  write_leaf_certificate mem leaf directory prefix p = as_ref false leaf p.leaves p λ held p.
      caught false (required_c_string mem directory) p λ dir p.
        caught false (required_c_string mem prefix) p
          λ name p. is_ok (write_leaf rcgen dir name held p.disk) p

  -- `Box::from_raw` and the drop, unless the pointer is null; what is not allocated is not freed.
  unfoldable pub destroy_certificate_authority : ℕ → Process rcgen → Answer rcgen Bool
  unfolding as_ref
  destroy_certificate_authority authority p =
      as_ref false authority p.authorities p
        λ ca p. some (true, record p { authorities = update p.authorities authority none })

  unfoldable pub destroy_leaf_certificate : ℕ → Process rcgen → Answer rcgen Bool
  unfolding as_ref
  destroy_leaf_certificate leaf p =
      as_ref false leaf p.leaves p
        λ held p. some (true, record p { leaves = update p.leaves leaf none })

  module _ (keys : ℕ → Outcome Str rcgen.KeyPair) where
    unfoldable pub create_certificate_authority : Memory → ℕ → Process rcgen → Answer rcgen ℕ
    unfolding caught allocate_authority
    create_certificate_authority mem common_name p =
        caught 0 (required_c_string mem common_name) p λ name p.
          caught 0 (make rcgen (keys p.generated) name) (record p { generated = suc p.generated })
            allocate_authority

    unfoldable pub issue_leaf_certificate :
        Memory → ℕ → ℕ → ℕ → ℕ → CertificateUsage → Process rcgen → Answer rcgen ℕ
    unfolding as_ref caught allocate_leaf
    issue_leaf_certificate mem authority common_name subject_alt_names count usage p =
        as_ref 0 authority p.authorities p λ ca p.
          caught 0 (required_c_string mem common_name) p λ name p.
            caught 0 (collect_c_string_vector mem subject_alt_names count) p λ names p.
              caught 0 (issue rcgen (keys p.generated) ca name names (purpose rcgen usage))
                (record p { generated = suc p.generated }) allocate_leaf
