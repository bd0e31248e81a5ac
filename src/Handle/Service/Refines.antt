-- ===== src/Handle/Service/Refines.antt =====
-- src/server/handle.rs: runs of a disciplined program, beside runs of the service.
use grpc_web_server.Base.{
  ℕ, ◌≡◌, refl, sym, subst, ◌⊎◌, inl, inr, Bool, true, false, some, arith, Bool-cases, ◌==◌,
}
use grpc_web_server.External.{External}
use grpc_web_server.Config.{GrpcWebServerOptions}
use grpc_web_server.Server.{Web, new_server}
use grpc_web_server.Handle.{Phase, Task, GrpcWebServerHandle, ended_phase, new_handle, start}
use grpc_web_server.Handle.Threads.{Event, move, thread_step, thread_step_inv, moved}
use grpc_web_server.Handle.System.{Caller, World, Step, starts, stops, waits, joins, returns, runs}
use grpc_web_server.Handle.Exclusive.Defs.{
  AllOutside, AllEnded, Inv, IsLive, IsExclusive, ExclusiveReach, begin, next,
}
use grpc_web_server.Handle.Exclusive.Runs.{live_unique, move_facts, Reach-Inv}
use grpc_web_server.Handle.Service.{Status, off, on, stopping, Shows, Permits, Mirrors}
use grpc_web_server.Handle.Service.Calls.{
  StartedFrom, start-StartedFrom_off, start_live, stop-StoppedFrom, wait_begin-Shows, wait_end-off,
}

module _ {ext : External} (web : Web ext) (h : GrpcWebServerHandle ext) (c : ℕ → Caller)
    (inv : Inv h c) where
  thread_kept : AllOutside c → (t : ℕ) (k : Task ext) → IsLive h t k → h.state.thread ≡ some t
  thread_kept out t k live = elim (inv.owned t k live) [
    | inl mine ↦ mine
    | inr (i, busy) ↦ ground (arith, out i, busy)
  ]

  start-StartedFrom :
      (spawns : Bool) → AllOutside c → (a : Status) → Shows h a → StartedFrom a (start spawns h)
  start-StartedFrom spawns out off ended = start-StartedFrom_off spawns h ended
  start-StartedFrom spawns out on (t, k, live, how) =
      let (same, failed) = start_live spawns h t k (thread_kept out t k live) live in
      (
        on,
        subst (λ (g : GrpcWebServerHandle ext). Shows g on) (sym same) (t, k, live, how),
        inr (failed, refl),
      )
  start-StartedFrom spawns out stopping (t, k, live, how) =
      let (same, failed) = start_live spawns h t k (thread_kept out t k live) live in
      (
        stopping,
        subst (λ (g : GrpcWebServerHandle ext). Shows g stopping) (sym same) (t, k, live, how),
        inr (failed, refl),
      )

  -- A step of a thread leaves the service as it is, or ends it.
  moved-Shows :
      (e : Event) (t : ℕ) (k : Task ext) (q : Phase)
      → h.tasks t ≡ some k
      → move (new_server web k.server_options) e k.phase k.shutdown ≡ some q
      → (a : Status) → Shows h a
      → (b : Status) × Shows (moved e t k q h) b × ((a ≡ b) ⊎ (b ≡ off))
  moved-Shows e t k q at goes a shown = elim (Bool-cases (ended_phase q)) [
    | inl over ↦ (off, all_over over, inr refl)
    | inr goes_on ↦ (a, same_status goes_on a shown, inl refl)
  ]
    where
      running : ended_phase k.phase ≡ false
      running = (move_facts (new_server web k.server_options) e k.phase k.shutdown h.running goes).0

      all_over : ended_phase q ≡ true → AllEnded (moved e t k q h).tasks
      all_over over u l there = elim (Bool-cases (t == u)) [
        | inl here ↦ ground (arith, here, there, over)
        | inr away ↦
            let before : h.tasks u ≡ some l = ground (arith, away, there) in
            elim (Bool-cases (ended_phase l.phase)) [
              | inl done ↦ done
              | inr live ↦
                  let one = live_unique web h c inv t u k l (at, running) (before, live) in
                  ground (arith, one, away)
            ]
      ]

      same_status : ended_phase q ≡ false → (a : Status) → Shows h a → Shows (moved e t k q h) a
      same_status goes_on off ended = ground (arith, ended t k at, running)
      same_status goes_on on (u, l, live, how) = (
        t,
        record k { phase = q },
        (ground arith, goes_on),
        ground (arith, how, at, live.0, live_unique web h c inv t u k l (at, running) live),
      )
      same_status goes_on stopping (u, l, live, how) = (
        t,
        record k { phase = q },
        (ground arith, goes_on),
        ground (arith, how, at, live.0, live_unique web h c inv t u k l (at, running) live),
      )

  runs-Shows :
      (e : Event) (t : ℕ) {h' : GrpcWebServerHandle ext}
      → thread_step web e t h ≡ some h'
      → (a : Status) → Shows h a
      → (b : Status) × Shows h' b × ((a ≡ b) ⊎ (b ≡ off))
  runs-Shows e t s a shown =
      let (k, q, at, goes, same) = thread_step_inv web e t h s in
      subst (λ (g : GrpcWebServerHandle ext). (b : Status) × Shows g b × ((a ≡ b) ⊎ (b ≡ off))) same
        (moved-Shows e t k q at goes a shown)

-- The service can follow each disciplined step.
pub Step-Permits :
    {ext : External} {web : Web ext} {w v : World ext} (s : Step web w v)
    → IsExclusive s
    → Inv w.handle w.callers
    → (a : Status) → Shows w.handle a
    → (b : Status) × Shows v.handle b × Permits s a b
Step-Permits {web = web} {w} (starts i spawns o) out inv a shown =
    start-StartedFrom web w.handle w.callers inv spawns out a shown
Step-Permits {w} (stops i o) x inv a shown = stop-StoppedFrom w.handle w.callers inv a shown
Step-Permits {w} (waits i o) out inv a shown =
    (a, wait_begin-Shows w.handle w.callers inv out a shown, refl)
Step-Permits {w} (joins i t here over) x inv a shown = (a, shown, refl)
Step-Permits {w} (returns i here) x inv a shown =
    let (was, now) = wait_end-off w.handle w.callers inv i here a shown in (off, now, (was, refl))
Step-Permits {web = web} {w} (runs e t s) x inv a shown =
    runs-Shows web w.handle w.callers inv e t s a shown

-- Every run of a disciplined program is a run of the service that starts off and takes only permitted
-- steps, and the handle shows the service that it has reached.
pub Reach-Mirrors :
    {ext : External} {web : Web ext} {o : GrpcWebServerOptions ext} {w : World ext}
    (r : ExclusiveReach web o w)
    → (a : Status) × Mirrors r a × Shows w.handle a
unfolding new_handle
Reach-Mirrors begin = (off, refl, λ t k e. cc (e))
Reach-Mirrors (next r s x) =
    let (a, mirrored, shown) = Reach-Mirrors r in
    let (b, shown', permitted) = Step-Permits s x (Reach-Inv r) a shown in
    (b, (a, mirrored, permitted), shown')
