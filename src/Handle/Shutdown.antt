-- ===== src/Handle/Shutdown.antt =====
-- The steps that are left to a thread which has been asked to stop.
use grpc_web_server.Base.{
  ℕ, suc, ◌+◌, ◌≤◌, ◌<◌, Str, ◌≡◌, refl, ◌≢◌, inl, inr, true, false, none, some, Outcome, undefined,
  arith, Bool-cases, subst,
}
use grpc_web_server.External.{External}
use grpc_web_server.Server.{Web, new_server}
use grpc_web_server.Handle.{
  Signal, pending, requested, Phase, building, creating, serving, clearing, exiting, finished,
  panicked, Task, GrpcWebServerHandle, ended_phase, stop,
}
use grpc_web_server.Handle.Threads.{
  Event, runtime_built, server_made, sees_shutdown, flag_cleared, exits, move, thread_step,
  thread_step_inv,
}

-- How many steps a thread can still make.
abbrev pub rank : Phase → ℕ
rank building = 5
rank creating = 4
rank serving = 3
rank clearing = 2
rank exiting = 1
rank finished = 0
rank panicked = 0

module _ {ℓ} {A : Type ℓ} (made : Outcome Str A) where
  pub move-rank :
      (e : Event) (p : Phase) (s : Signal) {q : Phase} → move made e p s ≡ some q → rank q < rank p
  unfolding move
  move-rank e building s h = ground arith
  move-rank e p s h = ground arith

  -- A thread whose stop channel has resolved is never blocked before it has ended.
  move-progress :
      (p : Phase) (s : Signal)
      → made ≢ undefined
      → s ≢ pending
      → ended_phase p ≡ false
      → (e : Event) × (move made e p s ≢ none)
  unfolding move
  move-progress building s ran asked live = (runtime_built, λ h. cc)
  move-progress creating s ran asked live = (server_made, λ h. ground arith)
  move-progress serving s ran asked live = (sees_shutdown, λ h. ground arith)
  move-progress clearing s ran asked live = (flag_cleared, λ h. cc)
  move-progress exiting s ran asked live = (exits, λ h. cc)
  move-progress finished s ran asked live = cc
  move-progress panicked s ran asked live = cc

-- `n` steps of thread `t`, whatever happens to it.
pub data Run {ext : External} (web : Web ext) (t : ℕ) (h : GrpcWebServerHandle ext)
    : ℕ → GrpcWebServerHandle ext → Type 0 where
  rests : Run web t h 0 h
  steps :
      {n : ℕ} {g g' : GrpcWebServerHandle ext} (e : Event)
      → Run web t h n g
      → thread_step web e t g ≡ some g'
      → Run web t h (suc n) g'

module _ {ext : External} (web : Web ext) (t : ℕ) where
  -- What stays and what falls along a run: the options and the channel stay, the rank falls.
  abbrev Follows : ℕ → Task ext → GrpcWebServerHandle ext → Type 0
  Follows n k g =
      (l : Task ext) × (g.tasks t ≡ some l)
      × (l.server_options ≡ k.server_options)
      × (l.shutdown ≡ k.shutdown)
      × (n + rank l.phase ≤ rank k.phase)

  Run-Follows :
      {h g : GrpcWebServerHandle ext} {n : ℕ} (k : Task ext)
      → h.tasks t ≡ some k
      → Run web t h n g
      → Follows n k g
  Run-Follows k at rests = (k, at, refl, refl, omega arith)
  Run-Follows {n = suc n} k at (steps {g = f} e r s) =
      let (l, here, same, shut, bound) = Run-Follows k at r in
      let (m, q, here', goes, becomes) = thread_step_inv web e t f s in
      let fall = move-rank (new_server web m.server_options) e m.phase m.shutdown goes in
      let one : m ≡ l = cc in
      let level : rank m.phase ≡ rank l.phase = cc one in
      subst (λ g. Follows (suc n) k g) becomes
        (record m { phase = q }, ground arith, cc, cc, omega (arith, fall, bound, level))

  pub thread_step-progress :
      (g : GrpcWebServerHandle ext) (l : Task ext)
      → g.tasks t ≡ some l
      → new_server web l.server_options ≢ undefined
      → l.shutdown ≢ pending
      → ended_phase l.phase ≡ false
      → (e : Event) × (thread_step web e t g ≢ none)
  unfolding thread_step
  thread_step-progress g l at ran asked live =
      let (e, goes) =
        move-progress (new_server web l.server_options) l.phase l.shutdown ran asked live in
      (e, λ stuck. goes (ground arith))

  -- A thread that is stopped through its handle makes at most five more steps of its own, and where
  -- it can make no further step it has ended. (Making the server must not be undefined behaviour.)
  pub stopped_thread_ends :
      (h : GrpcWebServerHandle ext) (k : Task ext)
      → h.poisoned ≡ false
      → h.state.stop_tx ≡ some t
      → h.tasks t ≡ some k
      → new_server web k.server_options ≢ undefined
      → {g : GrpcWebServerHandle ext} {n : ℕ} → Run web t (stop h).1 n g
      → (n ≤ 5)
        × (((e : Event) → thread_step web e t g ≡ none)
            → (l : Task ext) × (g.tasks t ≡ some l) × (ended_phase l.phase ≡ true))
  unfolding stop
  stopped_thread_ends h k sound sender at ran {g} r =
      let asked = record k { shutdown = requested } in
      let (l, here, same, shut, bound) = Run-Follows asked (ground arith) r in
      (
        omega (arith, bound, rank-le asked.phase),
        λ stuck. elim (Bool-cases (ended_phase l.phase)) [
          | inl over ↦ (l, here, over)
          | inr live ↦
              let (e, goes) =
                thread_step-progress g l here (λ u. ran (rw same at u)) (λ p. cc (shut, p)) live in
              absurd (goes (stuck e))
        ],
      )
    where
      rank-le : (p : Phase) → rank p ≤ 5
      rank-le p = ground arith
