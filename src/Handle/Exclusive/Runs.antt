-- ===== src/Handle/Exclusive/Runs.antt =====
-- The invariant along the steps of a thread and along disciplined runs.
use grpc_web_server.Base.{
  ℕ, ◌≡◌, refl, inl, inr, Bool, true, false, some, Outcome, arith, Str, subst,
}
use grpc_web_server.External.{External}
use grpc_web_server.Config.{GrpcWebServerOptions}
use grpc_web_server.Server.{Web, new_server}
use grpc_web_server.Handle.{
  Signal, Phase, building, Task, GrpcWebServerHandle, ended_phase, new_handle,
}
use grpc_web_server.Handle.Threads.{Event, move, running_after, thread_step, thread_step_inv, moved}
use grpc_web_server.Handle.System.{Caller, World, Step, starts, stops, waits, joins, returns, runs}
use grpc_web_server.Handle.Exclusive.Defs.{
  IsLive, Inv, active_phase, IsExclusive, ExclusiveReach, begin, next,
}
use grpc_web_server.Handle.Exclusive.Ended.{quiet-Inv}
use grpc_web_server.Handle.Exclusive.Calls.{
  stops-Inv, joins-Inv, returns-Inv, waits-Inv, starts-Inv,
}

-- What an event can do to a thread.
pub move_facts {ℓ} :
    {A : Type ℓ} (made : Outcome Str A) (e : Event) (p : Phase) (s : Signal) (r : Bool) {q : Phase}
    → move made e p s ≡ some q
    → (ended_phase p ≡ false)
      × (active_phase q ≡ true → (active_phase p ≡ true) × (running_after e r ≡ r))
unfolding move
move_facts made e building s r h = ground arith
move_facts made e p s r h = ground arith

active-live : (p : Phase) → active_phase p ≡ true → ended_phase p ≡ false
active-live p h = ground arith

module _ {ext : External} (web : Web ext) (h : GrpcWebServerHandle ext) (c : ℕ → Caller)
    (inv : Inv h c) where
  open inv use {owned, heard, linked, marked, solo, held, idle}

  -- At most one thread of a handle is live.
  pub live_unique : (t u : ℕ) (k l : Task ext) → IsLive h t k → IsLive h u l → t ≡ u
  live_unique t u k l lt lu = elim (owned t k lt) [
    | inl mine ↦ elim (owned u l lu) [
      | inl yours ↦ ground arith
      | inr (j, busy) ↦ ground (arith, held j)
    ]
    | inr (i, busy) ↦ elim (owned u l lu) [
      | inl yours ↦ ground (arith, held i)
      | inr (j, busy') ↦ ground (arith, solo i j)
    ]
  ]

  moved-Inv :
      (e : Event) (t : ℕ) (k : Task ext) (q : Phase)
      → h.tasks t ≡ some k
      → move (new_server web k.server_options) e k.phase k.shutdown ≡ some q
      → Inv (moved e t k q h) c
  moved-Inv e t k q at goes = record {
    owned = λ u l live. ground (arith, owned u l, owned t k, facts.0);
    heard = λ u l live. ground (arith, heard u l, heard t k, facts.0);
    linked = λ u l live. ground (arith, linked u l, linked t k, facts.0);
    marked = λ u l here active.
        ground (
          arith,
          marked t k,
          marked u l,
          facts.0,
          facts.1,
          active-live l.phase,
          live_unique t u k l,
        );
    solo = solo;
    held = held;
    idle = λ out no_thread sound. ground (arith, idle out no_thread sound);
  }
    where
      facts :
          (ended_phase k.phase ≡ false)
          × (active_phase q ≡ true
              → (active_phase k.phase ≡ true) × (running_after e h.running ≡ h.running))
      facts = move_facts (new_server web k.server_options) e k.phase k.shutdown h.running goes

  runs-Inv :
      (e : Event) (t : ℕ) {h' : GrpcWebServerHandle ext}
      → thread_step web e t h ≡ some h'
      → Inv h' c
  runs-Inv e t s =
      let (k, q, at, goes, same) = thread_step_inv web e t h s in
      subst (λ (g : GrpcWebServerHandle ext). Inv g c) same (moved-Inv e t k q at goes)

-- Every disciplined step keeps the invariant.
pub Step-Inv :
    {ext : External} {web : Web ext} {w v : World ext} (s : Step web w v)
    → IsExclusive s
    → Inv w.handle w.callers
    → Inv v.handle v.callers
Step-Inv {w} (starts i spawns o) out inv = starts-Inv w.callers spawns w.handle out inv
Step-Inv {w} (stops i o) x inv = stops-Inv w.handle w.callers inv
Step-Inv {w} (waits i o) out inv = waits-Inv w.handle w.callers inv i out
Step-Inv {w} (joins i t here over) x inv = joins-Inv w.handle w.callers inv i t here over
Step-Inv {w} (returns i here) x inv = returns-Inv w.handle w.callers inv i here
Step-Inv {web} {w} (runs e t s) x inv = runs-Inv web w.handle w.callers inv e t s

-- So it holds in every world that a disciplined program reaches.
pub Reach-Inv :
    {ext : External} {web : Web ext} {o : GrpcWebServerOptions ext} {w : World ext}
    → ExclusiveReach web o w
    → Inv w.handle w.callers
unfolding new_handle
Reach-Inv begin = quiet-Inv _ _ (λ t k e. cc) (λ i. refl) (λ _. refl)
Reach-Inv (next r s x) = Step-Inv s x (Reach-Inv r)
