-- ===== src/Handle/Waiting.antt =====
-- src/server/handle.rs: a `wait` for a thread that was asked to stop, while others go on.
use grpc_web_server.Base.{
  ℕ, ◌+◌, ◌≤◌, ◌<◌, Option, ◌≡◌, ◌≢◌, refl, subst, inl, inr, true, none, some, undefined, arith,
  Bool-cases, ◌==◌, if◌then◌else◌, if-ind, update,
}
use grpc_web_server.External.{External}
use grpc_web_server.Config.{GrpcWebServerOptions}
use grpc_web_server.Server.{Web, new_server}
use grpc_web_server.Handle.{
  pending, requested, Phase, Task, GrpcWebServerHandle, Reply, ended_phase, signal, stop,
}
use grpc_web_server.Handle.Threads.{Event, thread_step, thread_step_inv, moved}
use grpc_web_server.Handle.Shutdown.{rank, move-rank, thread_step-progress}
use grpc_web_server.Handle.System.{
  joining, relocking, World, Step, starts, stops, waits, joins, returns, runs,
}
use grpc_web_server.Handle.Exclusive.Defs.{Inv, IsExclusive, ExclusiveReach}
use grpc_web_server.Handle.Exclusive.Runs.{Step-Inv, Reach-Inv}

-- Whether a step is one of thread `t`.
abbrev pub steps_of : {ext : External} {web : Web ext} {w v : World ext} → ℕ → Step web w v → ℕ
steps_of t (runs e u s) = if u == t then 1 else 0
steps_of t (starts i spawns o) = 0
steps_of t (stops i o) = 0
steps_of t (waits i o) = 0
steps_of t (joins i u c e) = 0
steps_of t (returns i c) = 0

-- What a disciplined program and the threads do while caller `i` is in the join of thread `t`, with
-- the number of steps that thread `t` has made.
pub data Continues {ext : External} (web : Web ext) (i t : ℕ) (w : World ext)
    : ℕ → World ext → Type 0 where
  rests : Continues web i t w 0 w
  steps :
      {n : ℕ} {v v' : World ext}
      → Continues web i t w n v
      → (s : Step web v v') → IsExclusive s
      → v'.callers i ≡ joining t
      → Continues web i t w (n + steps_of t s) v'

-- The thread as it was, but perhaps further on; it has been told to stop.
abbrev pub IsFurther :
    {ext : External} → GrpcWebServerOptions ext → ℕ → ℕ → GrpcWebServerHandle ext → Type 0
IsFurther {ext} o t n h =
    (l : Task ext) × (h.tasks t ≡ some l)
    × (l.server_options ≡ o)
    × (l.shutdown ≢ pending)
    × (n + rank l.phase ≤ 5)

module _ {ext : External} (web : Web ext) (o : GrpcWebServerOptions ext) (i t : ℕ) where
  stop-IsFurther :
      (n : ℕ) (h : GrpcWebServerHandle ext) → IsFurther o t n h → IsFurther o t n (stop h).1
  unfolding stop
  stop-IsFurther n h (l, at, same, told, bound) =
      if-ind (λ (r : Reply ext (Unit {0})). IsFurther o t n r.1) h.poisoned
        (λ _. (l, at, same, told, bound)) (λ _. after h.state.stop_tx)
    where
      after :
          (tx : Option ℕ)
          → (l' : Task ext) × (signal tx requested h.tasks t ≡ some l')
            × (l'.server_options ≡ o)
            × (l'.shutdown ≢ pending)
            × (n + rank l'.phase ≤ 5)
      after none = (l, at, same, told, bound)
      after (some u) = elim (Bool-cases (u == t)) [
        | inl here ↦
            (record l { shutdown = requested }, ground (arith, here, at), same, λ e. cc (e), bound)
        | inr away ↦ (l, ground (arith, away, at), same, told, bound)
      ]

  moved-IsFurther :
      (n u : ℕ) (h : GrpcWebServerHandle ext) (e : Event) (m : Task ext) (q : Phase)
      → h.tasks u ≡ some m
      → rank q < rank m.phase
      → IsFurther o t n h
      → IsFurther o t (n + (if u == t then 1 else 0)) (moved e u m q h)
  moved-IsFurther n u h e m q at' fall (l, at, same, told, bound) = elim (Bool-cases (u == t)) [
    | inl mine ↦
        let here : u ≡ t = ground (arith, mine) in
        let one : m ≡ l = cc (at', at, here) in
        let level : rank m.phase ≡ rank l.phase = cc (one) in
        (
          record m { phase = q },
          ground (arith, here),
          cc (one, same),
          λ p. told (cc (one, p)),
          ground (arith, mine, fall, bound, level),
        )
    | inr other ↦ (l, ground (arith, other, at), same, told, ground (arith, other, bound))
  ]

  runs-IsFurther :
      (n : ℕ) (h : GrpcWebServerHandle ext) (e : Event) (u : ℕ) {h' : GrpcWebServerHandle ext}
      → thread_step web e u h ≡ some h'
      → IsFurther o t n h
      → IsFurther o t (n + (if u == t then 1 else 0)) h'
  runs-IsFurther n h e u s far =
      let (m, q, here, goes, becomes) = thread_step_inv web e u h s in
      let fall = move-rank (new_server web m.server_options) e m.phase m.shutdown goes in
      subst (λ g. IsFurther o t (n + (if u == t then 1 else 0)) g) becomes
        (moved-IsFurther n u h e m q here fall far)

  still : (n : ℕ) (h : GrpcWebServerHandle ext) → IsFurther o t n h → IsFurther o t (n + 0) h
  still n h (l, at, same, told, bound) = (l, at, same, told, omega (arith, bound))

  -- While caller `i` is in the join, a disciplined step leaves the thread told to stop, and takes it
  -- one phase on if it is a step of that thread.
  Step-IsFurther :
      (n : ℕ) {v v' : World ext} (s : Step web v v')
      → IsExclusive s
      → Inv v.handle v.callers
      → v.callers i ≡ joining t
      → IsFurther o t n v.handle
      → IsFurther o t (n + steps_of t s) v'.handle
  Step-IsFurther n (starts j spawns p) out inv inside far = ground (arith, out i, inside)
  Step-IsFurther n {v} (stops j p) x inv inside far =
      still n (stop v.handle).1 (stop-IsFurther n v.handle far)
  Step-IsFurther n (waits j p) out inv inside far = ground (arith, out i, inside)
  Step-IsFurther n {v} (joins j u c e) x inv inside far = still n v.handle far
  Step-IsFurther n {v} (returns j c) x inv inside far = ground (arith, inv.solo j i, c, inside)
  Step-IsFurther n {v} (runs e u s) x inv inside far = runs-IsFurther n v.handle e u s far

module _ {ext : External} {web : Web ext} {o : GrpcWebServerOptions ext} (i t : ℕ) {w : World ext}
    (r : ExclusiveReach web o w) where
  Continues-Inv :
      {n : ℕ} {v : World ext}
      → Continues web i t w n v
      → w.callers i ≡ joining t
      → Inv v.handle v.callers × (v.callers i ≡ joining t)
  Continues-Inv rests inside = (Reach-Inv r, inside)
  Continues-Inv (steps c s x inside') inside = (Step-Inv s x (Continues-Inv c inside).0, inside')

  Continues-IsFurther :
      {n : ℕ} {v : World ext} (o' : GrpcWebServerOptions ext)
      → Continues web i t w n v
      → w.callers i ≡ joining t
      → IsFurther o' t 0 w.handle
      → IsFurther o' t n v.handle
  Continues-IsFurther o' rests inside far = far
  Continues-IsFurther o' (steps {n} c s x inside') inside far =
      let (inv, before) = Continues-Inv c inside in
      Step-IsFurther web o' i t n s x inv before (Continues-IsFurther o' c inside far)

  -- A caller of a disciplined program is in the join of `wait` for a thread that was told to stop.
  -- Then, while the caller is there, the thread makes at most five steps, whatever the others do,
  -- and where it can make no further step, the join returns. (Making the server must not be undefined
  -- behaviour.)
  pub stopped_wait_ends :
      (k : Task ext)
      → w.callers i ≡ joining t
      → w.handle.tasks t ≡ some k
      → k.shutdown ≢ pending
      → new_server web k.server_options ≢ undefined
      → {n : ℕ} {v : World ext} → Continues web i t w n v
      → (n ≤ 5)
        × (((e : Event) → thread_step web e t v.handle ≡ none)
            → Step web v (record v { callers = update v.callers i relocking }))
  stopped_wait_ends k inside at told ran {v} c =
      let (l, here, same, told', bound) =
        Continues-IsFurther k.server_options c inside
          (k, at, refl, told, omega (arith, top k.phase)) in
      let over : ((e : Event) → thread_step web e t v.handle ≡ none) → ended_phase l.phase ≡ true =
        λ stuck. elim (Bool-cases (ended_phase l.phase)) [
          | inl done ↦ done
          | inr live ↦
              let (e, goes) =
                thread_step-progress web t v.handle l here (λ u. ran (rw same at u)) told' live in
              absurd (goes (stuck e))
        ] in
      (omega (arith, bound), λ stuck. joins i t (Continues-Inv c inside).1 (rw here (over stuck)))
    where
      top : (p : Phase) → rank p ≤ 5
      top p = ground arith
