-- ===== src/Base/Results.antt =====
-- How a Rust call ends: it returns `Ok`, it returns `Err`, it panics, or its safety contract was
-- broken and the language says nothing about it.
use mathlib.Core.Path.{◌≡◌, refl, ap}
use mathlib.Core.Logic.{◌↔◌, ◌⊎◌, inl, inr, ◌≢◌}
use mathlib.Core.Option.{Option, none, some}

pub data Outcome {ℓ} (E : Type 0) (A : Type ℓ) : Type ℓ where
  ok : A → Outcome E A
  err : E → Outcome E A
  panic : Outcome E A
  undefined : Outcome E A

-- The operator `?`, with panics passed on.
infixl 5 ◌>>=◌ ◌>>◌
abbrev pub ◌>>=◌ {ℓ κ} :
    {E : Type 0} {A : Type ℓ} {B : Type κ} → Outcome E A → (A → Outcome E B) → Outcome E B
panic >>= rest = panic
undefined >>= rest = undefined
err e >>= rest = err e
ok x >>= rest = rest x

abbrev pub ◌>>◌ {ℓ} : {E : Type 0} {B : Type ℓ} → Outcome E (Unit {0}) → Outcome E B → Outcome E B
m >> k = m >>= λ _. k

-- `Result::map_err`
abbrev pub map_err {ℓ} : {E F : Type 0} {A : Type ℓ} → (E → F) → Outcome E A → Outcome F A
map_err f (ok a) = ok a
map_err f (err e) = err (f e)
map_err f panic = panic
map_err f undefined = undefined

-- `Option::ok_or`
abbrev pub ok_or {ℓ} : {E : Type 0} {A : Type ℓ} → Option A → E → Outcome E A
ok_or none e = err e
ok_or (some a) e = ok a

-- A `?` that has passed, taken apart into the call before it and what follows.
pub >>=-eq-ok {ℓ κ} :
    {E : Type 0} {A : Type ℓ} {B : Type κ} (call : Outcome E A) (rest : A → Outcome E B) {y : B}
    → (call >>= rest) ≡ ok y
    → (x : A) × (call ≡ ok x) × (rest x ≡ ok y)
>>=-eq-ok panic rest h = cc
>>=-eq-ok undefined rest h = cc
>>=-eq-ok (err e) rest h = cc
>>=-eq-ok (ok x) rest h = (x, refl, h)

pub ok_inj {ℓ} : {E : Type 0} {A : Type ℓ} {a b : A} → ◌≡◌ {A = Outcome E A} (ok a) (ok b) → a ≡ b
ok_inj h = cc

-- To split on how a call ended and keep the equation.
pub Outcome-cases {ℓ} :
    {E : Type 0} {A : Type ℓ} (m : Outcome E A) → ((a : A) × (m ≡ ok a)) ⊎ ((a : A) → m ≢ ok a)
Outcome-cases (ok a) = inl (a, refl)
Outcome-cases (err e) = inr (λ a h. cc)
Outcome-cases panic = inr (λ a h. cc)
Outcome-cases undefined = inr (λ a h. cc)

-- Only errors are mapped.
pub map_err-eq-ok {ℓ} :
    {E F : Type 0} {A : Type ℓ} (f : E → F) (m : Outcome E A) {a : A}
    → (map_err f m ≡ ok a) ↔ (m ≡ ok a)
map_err-eq-ok f (ok b) = (λ e. ap ok (ok_inj e), λ e. ap ok (ok_inj e))
map_err-eq-ok f (err e) = (λ h. cc (h), λ h. cc (h))
map_err-eq-ok f panic = (λ h. cc (h), λ h. cc (h))
map_err-eq-ok f undefined = (λ h. cc (h), λ h. cc (h))

-- A `?` passes on what the call before it returned.
pub >>=-passes {ℓ κ} :
    {E : Type 0} {A : Type ℓ} {B : Type κ} {call : Outcome E A} (rest : A → Outcome E B) {a : A}
    → call ≡ ok a
    → (call >>= rest) ≡ rest a
>>=-passes rest e = ap (λ m. m >>= rest) e
