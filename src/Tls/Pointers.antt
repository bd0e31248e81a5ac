-- ===== src/Tls/Pointers.antt =====
-- src/tls/ffi.rs: what an answer that is not the failing one says of the call.
use grpc_web_server.Base.{
  ℕ, suc, update, Str, ◌≡◌, ◌≢◌, refl, sym, ap, subst, ◌∙◌, inl, inr, true, Option, none, some,
  Outcome, ok, err, panic, undefined, ◌==◌, arith, Bool-cases, Option-cases, if-ind,
}
use grpc_web_server.Utils.{Memory, required_c_string}
use grpc_web_server.Utils.Reads.{IsCString, required_c_string-ok_iff}
use grpc_web_server.Tls.{Rcgen, Disk}
use grpc_web_server.Tls.Exports.{Process, Answer, caught, referred, as_ref, is_ok, allocate_leaf}

-- What holds of the process after a call, if there is one: the call kept the contract.
abbrev pub Ensures :
    {rcgen : Rcgen} {B : Type 0} → (Process rcgen → Type 0) → Answer rcgen B → Type 0
Ensures P none = Unit
Ensures P (some (b, p)) = P p

-- The process after a call that kept the contract.
abbrev pub after : {rcgen : Rcgen} {B : Type 0} → Answer rcgen B → Option (Process rcgen)
after none = none
after (some (b, p)) = some p

pub Ensures-after :
    {rcgen : Rcgen} {B : Type 0} (P : Process rcgen → Type 0) (r : Answer rcgen B)
    {p' : Process rcgen}
    → Ensures P r
    → after r ≡ some p'
    → P p'
Ensures-after P none ensured e = cc (e)
Ensures-after P (some (b, p)) ensured e = subst P (cc (e)) ensured

answer_of :
    {A B : Type 0} {a b : A} {p q : B}
    → ◌≡◌ {A = Option (A × B)} (some (a, p)) (some (b, q))
    → a ≡ b
answer_of e = cc (e)

module _ {rcgen : Rcgen} {B : Type 0} (answer : B) where
  pub caught-passes :
      {E A : Type 0} (m : Outcome E A) (p : Process rcgen)
      (rest : A → Process rcgen → Answer rcgen B) {b : B} {p' : Process rcgen}
      → caught answer m p rest ≡ some (b, p')
      → b ≢ answer
      → (a : A) × (m ≡ ok a) × (rest a p ≡ some (b, p'))
  unfolding caught
  caught-passes (ok a) p rest e b≢ = (a, refl, e)
  caught-passes (err x) p rest e b≢ = absurd (b≢ (sym (answer_of e)))
  caught-passes panic p rest e b≢ = absurd (b≢ (sym (answer_of e)))
  caught-passes undefined p rest e b≢ = cc (e)

  pub as_ref-passes :
      {A : Type 0} (pointer : ℕ) (objects : ℕ → Option A) (p : Process rcgen)
      (rest : A → Process rcgen → Answer rcgen B) {b : B} {p' : Process rcgen}
      → as_ref answer pointer objects p rest ≡ some (b, p')
      → b ≢ answer
      → (a : A) × (objects pointer ≡ some a) × (rest a p ≡ some (b, p')) × (pointer ≢ 0)
  unfolding as_ref referred
  as_ref-passes pointer objects p rest e b≢ = elim (Bool-cases (pointer == 0)) [
    | inl null ↦
        let failed : as_ref answer pointer objects p rest ≡ some (answer, p) =
          ground (arith, null) in
        absurd (b≢ (sym (answer_of (sym failed ∙ e))))
    | inr live ↦ elim (Option-cases (objects pointer)) [
      | inl gone ↦
          let broken : as_ref answer pointer objects p rest ≡ none = ground (arith, live, gone) in
          cc (broken, e)
      | inr (a, there) ↦
          let on : as_ref answer pointer objects p rest ≡ rest a p = ground (arith, live, there) in
          (a, there, sym on ∙ e, λ null. ground (arith, live, null))
    ]
  ]

  pub as_ref-some :
      {A : Type 0} (pointer : ℕ) (objects : ℕ → Option A) (p : Process rcgen)
      (rest : A → Process rcgen → Answer rcgen B) (a : A)
      → pointer ≢ 0
      → objects pointer ≡ some a
      → as_ref answer pointer objects p rest ≡ rest a p
  unfolding as_ref referred
  as_ref-some pointer objects p rest a live there = ground (arith, live, there)

  pub caught-ok :
      {E A : Type 0} {m : Outcome E A} (p : Process rcgen)
      (rest : A → Process rcgen → Answer rcgen B) (a : A)
      → m ≡ ok a
      → caught answer m p rest ≡ rest a p
  unfolding caught
  caught-ok p rest a e = ap (λ m. caught answer m p rest) e

  pub required_c_string-passes :
      (mem : Memory) (ptr : ℕ) (p : Process rcgen) (rest : Str → Process rcgen → Answer rcgen B)
      {b : B} {p' : Process rcgen}
      → caught answer (required_c_string mem ptr) p rest ≡ some (b, p')
      → b ≢ answer
      → (s : Str) × IsCString mem ptr s × (rest s p ≡ some (b, p'))
  required_c_string-passes mem ptr p rest e b≢ =
      let (s, read, on) = caught-passes (required_c_string mem ptr) p rest e b≢ in
      (s, (required_c_string-ok_iff mem ptr s).0 read, on)

  -- What holds of the process before a call and after every way on holds after the call.
  pub caught-keeps :
      {E A : Type 0} (P : Process rcgen → Type 0) (m : Outcome E A) (p : Process rcgen)
      (rest : A → Process rcgen → Answer rcgen B)
      → P p
      → ((a : A) → m ≡ ok a → Ensures P (rest a p))
      → Ensures P (caught answer m p rest)
  unfolding caught
  caught-keeps P (ok a) p rest before after = after a refl
  caught-keeps P (err x) p rest before after = before
  caught-keeps P panic p rest before after = before
  caught-keeps P undefined p rest before after = tt

  referred-keeps :
      {A : Type 0} (P : Process rcgen → Type 0) (o : Option A) (p : Process rcgen)
      (rest : A → Process rcgen → Answer rcgen B)
      → ((a : A) → o ≡ some a → Ensures P (rest a p))
      → Ensures P (referred o p rest)
  unfolding referred
  referred-keeps P none p rest after = tt
  referred-keeps P (some a) p rest after = after a refl

  pub as_ref-keeps :
      {A : Type 0} (P : Process rcgen → Type 0) (pointer : ℕ) (objects : ℕ → Option A)
      (p : Process rcgen) (rest : A → Process rcgen → Answer rcgen B)
      → P p
      → ((a : A) → objects pointer ≡ some a → Ensures P (rest a p))
      → Ensures P (as_ref answer pointer objects p rest)
  unfolding as_ref
  as_ref-keeps P pointer objects p rest before after =
      if-ind (λ (r : Answer rcgen B). Ensures P r) (pointer == 0) (λ null. before)
        (λ live. referred-keeps P (objects pointer) p rest after)

-- `true` is the success of the write, and the disk is as the write has left it.
pub is_ok-true :
    {rcgen : Rcgen} (r : Outcome Str (Unit {0}) × Disk) (p : Process rcgen) {p' : Process rcgen}
    → is_ok r p ≡ some (true, p')
    → r ≡ (ok tt, p'.disk)
unfolding is_ok
is_ok-true (ok done, d) p e = cc (e)
is_ok-true (err x, d) p e = absurd (cc (answer_of e))
is_ok-true (panic, d) p e = absurd (cc (answer_of e))
is_ok-true (undefined, d) p e = cc (e)

pub is_ok-of_ok :
    {rcgen : Rcgen} (r : Outcome Str (Unit {0}) × Disk) (p : Process rcgen)
    → r.0 ≡ ok tt
    → is_ok r p ≡ some (true, record p { disk = r.1 })
unfolding is_ok
is_ok-of_ok (ok done, d) p e = refl
is_ok-of_ok (err x, d) p e = cc (e)
is_ok-of_ok (panic, d) p e = cc (e)
is_ok-of_ok (undefined, d) p e = cc (e)

pub is_ok-rest :
    {rcgen : Rcgen} (r : Outcome Str (Unit {0}) × Disk) (p : Process rcgen) {p' : Process rcgen}
    → is_ok r p ≡ some (true, p')
    → p' ≡ record p { disk = p'.disk }
unfolding is_ok
is_ok-rest (ok done, d) p e =
    let now : record p { disk = d } ≡ _ = cc (e) in
    subst (λ q. q ≡ record p { disk = q.disk }) now refl
is_ok-rest (err x, d) p e = absurd (cc (answer_of e))
is_ok-rest (panic, d) p e = absurd (cc (answer_of e))
is_ok-rest (undefined, d) p e = cc (e)

pub allocate_leaf-answer :
    {rcgen : Rcgen} (leaf : rcgen.Certificate × rcgen.KeyPair) (q : Process rcgen) {a : ℕ}
    {p' : Process rcgen}
    → allocate_leaf leaf q ≡ some (a, p')
    → (suc q.allocations ≡ a)
      × (record q {
        leaves = update q.leaves (suc q.allocations) (some leaf);
        allocations = suc q.allocations;
      }
          ≡ p')
unfolding allocate_leaf
allocate_leaf-answer leaf q e = (cc (e), cc (e))
