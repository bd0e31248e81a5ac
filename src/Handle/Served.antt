-- ===== src/Handle/Served.antt =====
-- Which options a thread serves, for any interleaving.
use grpc_web_server.Base.{
  ℕ, ◌≡◌, refl, Bool, Option, none, some, Outcome, ok, arith, update, ◌==◌, if-ind, ap, ◌∙◌, subst,
  Str, Option-cases, inl, inr, is_some, ◌||◌,
}
use grpc_web_server.External.{External}
use grpc_web_server.Config.{GrpcWebServerOptions}
use grpc_web_server.Config.Validation.{IsValid}
use grpc_web_server.Server.{GrpcWebServer, Web, new_server}
use grpc_web_server.Server.Assembly.{new_server-IsAssembled}
use grpc_web_server.Handle.{
  requested, dropped, has_ended, cleanup_thread, Reply, Signal, Phase, building, serving, Task,
  GrpcWebServerHandle, mark, signal, cleanup_finished_locked, spawned, start_checked, start,
  wait_begin, wait_end, stop, new_handle,
}
use grpc_web_server.Handle.Threads.{Event, move, thread_step, thread_step_inv}
use grpc_web_server.Handle.System.{
  World, Step, starts, stops, waits, joins, returns, runs, Reach, begin, next,
}

-- Only making the server brings a thread to serve.
move-serving {ℓ} :
    {A : Type ℓ} (made : Outcome Str A) (e : Event) (p : Phase) (x : Signal)
    → move made e p x ≡ some serving
    → (server : A) × (made ≡ ok server)
unfolding move
move-serving made e building x h = ground arith
move-serving made e p x h = ground arith

module _ {ext : External} (web : Web ext) (o : GrpcWebServerOptions ext) where
  -- A thread was spawned with the handle's options, and serves only if the server could be made.
  abbrev IsGenuine : Option (Task ext) → Type 0
  IsGenuine none = Unit
  IsGenuine (some k) =
      (k.server_options ≡ o)
      × (k.phase ≡ serving → (server : GrpcWebServer ext web) × (new_server web o ≡ ok server))

  abbrev AllGenuine : (ℕ → Option (Task ext)) → Type 0
  AllGenuine tasks = (t : ℕ) → IsGenuine (tasks t)

  record Inv (h : GrpcWebServerHandle ext) : Type 0 where
    options : h.options ≡ o
    genuine : AllGenuine h.tasks

  update-AllGenuine :
      (tasks : ℕ → Option (Task ext)) (u : ℕ) (x : Option (Task ext))
      → AllGenuine tasks
      → IsGenuine x
      → AllGenuine (update tasks u x)
  update-AllGenuine tasks u x all new t = if-ind IsGenuine (u == t) (λ _. new) (λ _. all t)

  mark-IsGenuine : (s : Signal) (x : Option (Task ext)) → IsGenuine x → IsGenuine (mark s x)
  mark-IsGenuine s none g = tt
  mark-IsGenuine s (some k) g = g

  signal-AllGenuine :
      (tx : Option ℕ) (s : Signal) (tasks : ℕ → Option (Task ext))
      → AllGenuine tasks
      → AllGenuine (signal tx s tasks)
  signal-AllGenuine none s tasks all t = all t
  signal-AllGenuine (some u) s tasks all t =
      update-AllGenuine tasks u (mark s (tasks u)) all (mark-IsGenuine s (tasks u) (all u)) t

  module _ (h : GrpcWebServerHandle ext) (inv : Inv h) where
    dropping : AllGenuine (signal h.state.stop_tx dropped h.tasks)
    dropping = signal-AllGenuine h.state.stop_tx dropped h.tasks inv.genuine

    cleanup_thread-Inv : (x : Option ℕ) → Inv (cleanup_thread x h)
    unfolding cleanup_thread
    cleanup_thread-Inv none = inv
    cleanup_thread-Inv (some t) =
        if-ind Inv (has_ended (h.tasks t))
          (λ _. record { options = inv.options; genuine = dropping }) (λ _. inv)

    start_checked-Inv : (spawns : Bool) → Inv (start_checked spawns h).1
    unfolding start_checked spawned
    start_checked-Inv spawns =
        if-ind (λ (r : Reply ext (Unit {0})). Inv r.1) (is_some h.state.thread || h.running)
          (λ _. inv)
          (λ _.
            if-ind (λ (r : Reply ext (Unit {0})). Inv r.1) spawns
              (λ _. record {
                options = inv.options;
                genuine = update-AllGenuine _ h.next _ dropping (inv.options, λ e. cc);
              })
              (λ _. record { options = inv.options; genuine = inv.genuine }))

    wait_begin-Inv : Inv (wait_begin h).1
    unfolding wait_begin
    wait_begin-Inv =
        if-ind (λ (r : Reply ext (Option ℕ)). Inv r.1) h.poisoned (λ _. inv)
          (λ _. elim (Option-cases h.state.thread) [
            | inl e ↦ simp e (record { options = inv.options; genuine = dropping })
            | inr (t, e) ↦ simp e (record { options = inv.options; genuine = inv.genuine })
          ])

    wait_end-Inv : Inv (wait_end h).1
    unfolding wait_end
    wait_end-Inv =
        if-ind (λ (r : Reply ext (Unit {0})). Inv r.1) h.poisoned (λ _. inv)
          (λ _. record { options = inv.options; genuine = dropping })

    stop-Inv : Inv (stop h).1
    unfolding stop
    stop-Inv =
        if-ind (λ (r : Reply ext (Unit {0})). Inv r.1) h.poisoned (λ _. inv)
          (λ _. record {
            options = inv.options;
            genuine = signal-AllGenuine h.state.stop_tx requested h.tasks inv.genuine;
          })

    thread_step-Inv :
        (e : Event) (t : ℕ) {h' : GrpcWebServerHandle ext}
        → thread_step web e t h ≡ some h'
        → Inv h'
    thread_step-Inv e t s =
        let (k, q, at, goes, same) = thread_step_inv web e t h s in
        let old : IsGenuine (some k) = subst IsGenuine at (inv.genuine t) in
        subst (λ (g : GrpcWebServerHandle ext). Inv g) same
          (record {
            options = inv.options;
            genuine = update-AllGenuine h.tasks t (some (record k { phase = q })) inv.genuine (
              old.0,
              λ serves.
                  let made =
                    move-serving (new_server web k.server_options) e k.phase k.shutdown
                      (goes ∙ ap some serves) in
                  (made.0, subst (λ p. new_server web p ≡ ok made.0) old.0 made.1),
            );
          })

  start-Inv : (spawns : Bool) (h : GrpcWebServerHandle ext) → Inv h → Inv (start spawns h).1
  unfolding start cleanup_finished_locked
  start-Inv spawns h inv =
      if-ind (λ (r : Reply ext (Unit {0})). Inv r.1) h.poisoned (λ _. inv)
        (λ _. start_checked-Inv _ (cleanup_thread-Inv h inv h.state.thread) spawns)

  Step-Genuine : {w v : World ext} → Step web w v → Inv w.handle → Inv v.handle
  Step-Genuine {w} (starts i spawns out) inv = start-Inv spawns w.handle inv
  Step-Genuine {w} (stops i out) inv = stop-Inv w.handle inv
  Step-Genuine {w} (waits i out) inv = wait_begin-Inv w.handle inv
  Step-Genuine {w} (joins i t here over) inv = inv
  Step-Genuine {w} (returns i here) inv = wait_end-Inv w.handle inv
  Step-Genuine {w} (runs e t s) inv = thread_step-Inv w.handle inv e t s

  Reach-Genuine : {w : World ext} → Reach web o w → Inv w.handle
  unfolding new_handle
  Reach-Genuine begin = record { options = refl; genuine = λ t. tt }
  Reach-Genuine (next r s) = Step-Genuine s (Reach-Genuine r)

-- In every world that any program reaches, disciplined or not, a thread that serves was given the
-- options of the handle, and they are valid; `start` itself does not validate them.
pub serving-IsValid :
    {ext : External} {web : Web ext} {o : GrpcWebServerOptions ext} {w : World ext}
    → Reach web o w
    → (t : ℕ) (k : Task ext) → w.handle.tasks t ≡ some k
    → k.phase ≡ serving
    → (k.server_options ≡ o) × IsValid o
serving-IsValid {web} {o} r t k at serves =
    let known : IsGenuine web o (some k) =
      subst (IsGenuine web o) at ((Reach-Genuine web o r).genuine t) in
    let (server, made) = known.1 serves in (known.0, (new_server-IsAssembled web o made).0)
