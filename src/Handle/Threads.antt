-- ===== src/Handle/Threads.antt =====
-- The closure that `start` gives to `thread::spawn`, one step at a time.
use grpc_web_server.Base.{
  ℕ, Str, ◌≡◌, Bool, false, Option, none, some, Outcome, ok, err, panic, undefined, update, arith,
  inl, inr, Option-cases,
}
use grpc_web_server.External.{External}
use grpc_web_server.Server.{Web, new_server}
use grpc_web_server.Handle.{
  Signal, requested, dropped, Phase, building, creating, serving, clearing, exiting, finished,
  panicked, Task, GrpcWebServerHandle,
}

-- What a thread does next. `server_returns` is the return of `block_on(server.start(shutdown))`
-- because the server exits or fails, `sees_shutdown` because the stop channel has resolved.
pub data Event : Type 0 where
  runtime_built runtime_failed server_made server_returns sees_shutdown : Event
  flag_cleared exits crashes : Event

-- `match GrpcWebServer::new(server_options)`
abbrev pub after_new {ℓ} : {A : Type ℓ} → Outcome Str A → Option Phase
after_new (ok server) = some serving
after_new (err e) = some clearing
after_new panic = some panicked
after_new undefined = none

-- The phase after an event, or `none` where the event cannot happen. `made` is the result of
-- `GrpcWebServer::new`. The await of the receiver ends on a message and on a lost sender alike.
unfoldable pub move {ℓ} : {A : Type ℓ} → Outcome Str A → Event → Phase → Signal → Option Phase
move made runtime_built building s = some creating
move made runtime_failed building s = some clearing
move made crashes building s = some panicked
move made server_made creating s = after_new made
move made server_returns serving s = some clearing
move made sees_shutdown serving requested = some clearing
move made sees_shutdown serving dropped = some clearing
move made crashes serving s = some panicked
move made flag_cleared clearing s = some exiting
move made exits exiting s = some finished
move made e p s = none

-- `running.store(false, Ordering::Release)`
abbrev pub running_after : Event → Bool → Bool
running_after flag_cleared running = false
running_after e running = running

-- The handle after an event that takes thread `t` to a phase.
abbrev pub moved :
    {ext : External}
    → Event
    → ℕ
    → Task ext
    → Phase
    → GrpcWebServerHandle ext
    → GrpcWebServerHandle ext
moved e t k p h = record h {
  running = running_after e h.running;
  tasks = update h.tasks t (some (record k { phase = p }));
}

module _ {ext : External} (web : Web ext) where
  -- One step of thread `t`.
  unfoldable pub thread_step :
      Event → ℕ → GrpcWebServerHandle ext → Option (GrpcWebServerHandle ext)
  thread_step e t h = elim (h.tasks t) [
    | none ↦ none
    | some k ↦ elim (move (new_server web k.server_options) e k.phase k.shutdown) [
      | none ↦ none
      | some p ↦ some (moved e t k p h)
    ]
  ]

  pub thread_step_inv :
      (e : Event) (t : ℕ) (h : GrpcWebServerHandle ext) {h' : GrpcWebServerHandle ext}
      → thread_step e t h ≡ some h'
      → (k : Task ext) × (p : Phase) × (h.tasks t ≡ some k)
        × (move (new_server web k.server_options) e k.phase k.shutdown ≡ some p)
        × (moved e t k p h ≡ h')
  unfolding thread_step
  thread_step_inv e t h s = elim (Option-cases (h.tasks t)) [
    | inl empty ↦ ground arith
    | inr (k, at) ↦
        elim (Option-cases (move (new_server web k.server_options) e k.phase k.shutdown)) [
          | inl stuck ↦ absurd (ground arith)
          | inr (p, goes) ↦ (k, p, at, goes, ground arith)
        ]
  ]
