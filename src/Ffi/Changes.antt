-- ===== src/Ffi/Changes.antt =====
-- src/server/ffi.rs: the calls that C can make, and what each leaves alone.
use grpc_web_server.Base.{
  ℕ, suc, false, ◌≡◌, ◌≢◌, refl, ◌∙◌, ◌⊎◌, inl, inr, Bool, Option, none, some, Outcome, ok, err,
  panic, undefined, ◌==◌, arith, update, if-ind, subst,
}
use grpc_web_server.External.{External}
use grpc_web_server.Config.{validate}
use grpc_web_server.Utils.{Memory, Problem}
use grpc_web_server.Ffi.{GrpcWebServerOptions, to_options}
use grpc_web_server.Ffi.Exports.{
  Process, Answer, answered, returns, joins, Progress, progress, succeeded, unfailing, call_at,
  created, init_tracing_once, allocate, finish_drop, create, on_handle, start, wait_begin, wait_end,
  is_running, stop, release, destroy,
}
use grpc_web_server.Handle
use grpc_web_server.Handle.{HandleError, GrpcWebServerHandle, Reply, new_handle}

-- A call of C, or the part of one that a process makes at once.
pub data Call : Type 0 where
  creates : Memory → GrpcWebServerOptions → Call
  starts : Bool → ℕ → Call
  waits returns_wait asks stops destroys releases : ℕ → Call

module _ {ext : External} where
  -- The process after a call that kept the contract.
  abbrev pub after : {B : Type 0} → Answer ext B → Option (Process ext)
  after none = none
  after (some (b, p)) = some p

  -- The process after a call, or `none` where the call broke the contract of its function.
  unfoldable pub perform : Call → Process ext → Option (Process ext)
  perform (creates mem o) p = after (create mem o p)
  perform (starts spawns a) p = after (start spawns a p)
  perform (waits a) p = after (wait_begin a p)
  perform (returns_wait a) p = after (wait_end a p)
  perform (asks a) p = after (is_running a p)
  perform (stops a) p = after (stop a p)
  perform (destroys a) p = after (destroy a p)
  perform (releases a) p = some (release a p)

  -- The handle that a call is about; for `create`, the one that it would make.
  abbrev pub target : Call → Process ext → ℕ
  target (creates mem o) p = suc p.allocations
  target (starts spawns a) p = a
  target (waits a) p = a
  target (returns_wait a) p = a
  target (asks a) p = a
  target (stops a) p = a
  target (destroys a) p = a
  target (releases a) p = a

  -- What a call on the handle at an address leaves alone.
  pub record Changes (a : ℕ) (p p' : Process ext) : Type 0 where
    pub tracing : p'.tracing ≡ p.tracing
    pub allocations : p'.allocations ≡ p.allocations
    pub others : (b : ℕ) → b ≢ a → p'.handles b ≡ p.handles b
    pub absent : p.handles a ≡ none → p'.handles a ≡ none

  Changes-refl : (a : ℕ) (p : Process ext) → Changes a p p
  Changes-refl a p = record {
    tracing = refl;
    allocations = refl;
    others = λ b b≢a. refl;
    absent = λ gone. gone;
  }

  -- What holds of the process after a call, if the call kept the contract.
  abbrev Ensures : {B : Type 0} → (Process ext → Type 0) → Answer ext B → Type 0
  Ensures P none = Unit
  Ensures P (some (b, p)) = P p

  Ensures-after :
      {B : Type 0} (P : Process ext → Type 0) (r : Answer ext B) {p' : Process ext}
      → Ensures P r
      → after r ≡ some p'
      → P p'
  Ensures-after P none ensured e = cc (e)
  Ensures-after P (some (b, p)) ensured e = subst P (cc (e)) ensured

  answered-Ensures :
      {B : Type 0} (P : Process ext → Type 0) (o : Option B) (p : Process ext)
      → P p
      → Ensures P (answered o p)
  answered-Ensures P none p holds = tt
  answered-Ensures P (some b) p holds = holds

  call_at-Changes :
      {A B : Type 0} (f : Outcome HandleError A → Option B)
      (call : GrpcWebServerHandle ext → Reply ext A) (a : ℕ) (p : Process ext)
      (o : Option (GrpcWebServerHandle ext))
      → p.handles a ≡ o
      → Ensures (Changes a p) (call_at f call a p o)
  unfolding call_at
  call_at-Changes f call a p none there = tt
  call_at-Changes f call a p (some h) there =
      answered-Ensures (Changes a p) (f (call h).0) _ (record {
        tracing = refl;
        allocations = refl;
        others = λ b b≢a. ground (arith, b≢a);
        absent = λ gone. cc (gone, there);
      })

  on_handle-Changes :
      {A B : Type 0} (answer : B) (f : Outcome HandleError A → Option B)
      (call : GrpcWebServerHandle ext → Reply ext A) (a : ℕ) (p : Process ext)
      → Ensures (Changes a p) (on_handle answer f call a p)
  unfolding on_handle
  on_handle-Changes {B = B} answer f call a p =
      if-ind (λ (r : Answer ext B). Ensures (Changes a p) r) (a == 0) (λ null. Changes-refl a p)
        (λ live. call_at-Changes f call a p (p.handles a) refl)

  release-Changes : (a : ℕ) (p : Process ext) → Changes a p (release a p)
  unfolding release
  release-Changes a p = record {
    tracing = refl;
    allocations = refl;
    others = λ b b≢a. ground (arith, b≢a);
    absent = λ gone. ground arith;
  }

  Changes-trans : (a : ℕ) (p q r : Process ext) → Changes a p q → Changes a q r → Changes a p r
  Changes-trans a p q r c d = record {
    tracing = d.tracing ∙ c.tracing;
    allocations = d.allocations ∙ c.allocations;
    others = λ b b≢a. d.others b b≢a ∙ c.others b b≢a;
    absent = λ gone. d.absent (c.absent gone);
  }

  finish_drop-Changes :
      (a : ℕ) (r : Answer ext Progress) (p : Process ext)
      → Ensures (Changes a p) r
      → Ensures (Changes a p) (finish_drop a r)
  unfolding finish_drop
  finish_drop-Changes a (some (returns done, q)) p c =
      Changes-trans a p q (release a q) c (release-Changes a q)
  finish_drop-Changes a (some (joins t, q)) p c = c
  finish_drop-Changes a none p c = tt

  destroy-Changes : (a : ℕ) (p : Process ext) → Ensures (Changes a p) (destroy a p)
  unfolding destroy
  destroy-Changes a p =
      if-ind (λ (r : Answer ext Progress). Ensures (Changes a p) r) (a == 0)
        (λ null. Changes-refl a p)
        (λ live.
          finish_drop-Changes a _ p
            (on_handle-Changes (returns false) progress grpc_web_server.Handle.shutdown_begin a p))

  -- Every call but `create` that keeps the contract changes only the handle that it is about, and
  -- brings none into being.
  pub call-cases :
      (c : Call) (p p' : Process ext)
      → perform c p ≡ some p'
      → ((mem : Memory) × (o : GrpcWebServerOptions) × (c ≡ creates mem o))
        ⊎ Changes (target c p) p p'
  unfolding perform start wait_begin wait_end is_running stop
  call-cases (creates mem o) p p' e = inl (mem, o, refl)
  call-cases (starts spawns a) p p' e = inr (
      Ensures-after (Changes a p) _
        (on_handle-Changes false succeeded (grpc_web_server.Handle.start spawns) a p) e)
  call-cases (waits a) p p' e = inr (
      Ensures-after (Changes a p) _
        (on_handle-Changes (returns false) progress grpc_web_server.Handle.wait_begin a p) e)
  call-cases (returns_wait a) p p' e = inr (
      Ensures-after (Changes a p) _
        (on_handle-Changes false succeeded grpc_web_server.Handle.wait_end a p) e)
  call-cases (asks a) p p' e = inr (
      Ensures-after (Changes a p) _
        (on_handle-Changes false unfailing (λ h. (ok (grpc_web_server.Handle.is_running h), h)) a p)
        e)
  call-cases (stops a) p p' e = inr (
      Ensures-after (Changes a p) _
        (on_handle-Changes false succeeded grpc_web_server.Handle.stop a p) e)
  call-cases (releases a) p p' e = inr (subst (Changes a p) (cc (e)) (release-Changes a p))
  call-cases (destroys a) p p' e = inr (Ensures-after (Changes a p) _ (destroy-Changes a p) e)

  -- How a call of `create` that keeps the contract ends, `p` being the process after tracing was set
  -- up.
  abbrev pub IsCreated :
      Outcome Problem (grpc_web_server.Config.GrpcWebServerOptions ext)
      → Process ext
      → ℕ
      → Process ext
      → Type 0
  IsCreated m p a p' =
      ((options : grpc_web_server.Config.GrpcWebServerOptions ext) × (m ≡ ok options)
        × (a ≡ suc p.allocations)
        × (p'.handles ≡ update p.handles (suc p.allocations) (some (new_handle options)))
        × (p'.allocations ≡ suc p.allocations)
        × (p'.tracing ≡ p.tracing))
      ⊎ (((options : grpc_web_server.Config.GrpcWebServerOptions ext) → m ≢ ok options)
          × (a ≡ 0)
          × (p' ≡ p))

  created-IsCreated :
      (m : Outcome Problem (grpc_web_server.Config.GrpcWebServerOptions ext)) (p : Process ext)
      (a : ℕ) (p' : Process ext)
      → created m p ≡ some (a, p')
      → IsCreated m p a p'
  unfolding created allocate
  created-IsCreated (ok options) p a p' e = inl (options, refl, cc (e), cc (e), cc (e), cc (e))
  created-IsCreated (err x) p a p' e = inr (λ o h. cc (h), cc (e), cc (e))
  created-IsCreated panic p a p' e = inr (λ o h. cc (h), cc (e), cc (e))
  created-IsCreated undefined p a p' e = cc (e)

  pub create-IsCreated :
      (mem : Memory) (o : GrpcWebServerOptions) (p : Process ext) (a : ℕ) (p' : Process ext)
      → create mem o p ≡ some (a, p')
      → IsCreated (to_options mem o) (init_tracing_once o.log_level p) a p'
  unfolding create
  create-IsCreated mem o p a p' e =
      created-IsCreated (to_options mem o) (init_tracing_once o.log_level p) a p' e

  pub created_of :
      (mem : Memory) (o : GrpcWebServerOptions) (p p' : Process ext)
      → perform (creates mem o) p ≡ some p'
      → (a : ℕ) × (create mem o p ≡ some (a, p'))
  unfolding perform
  created_of mem o p p' e = opened (create mem o p) e
    where
      opened : (r : Answer ext ℕ) → after r ≡ some p' → (a : ℕ) × (r ≡ some (a, p'))
      opened none e = cc (e)
      opened (some (a, q)) e = (a, cc (e))
