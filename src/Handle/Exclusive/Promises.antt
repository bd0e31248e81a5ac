-- ===== src/Handle/Exclusive/Promises.antt =====
-- What a handle promises to a disciplined program.
use grpc_web_server.Base.{
  ℕ, ◌≡◌, refl, ◌↔◌, ◌⊎◌, inl, inr, Bool, true, false, none, some, ok, arith, Option-cases, if-ind,
}
use grpc_web_server.External.{External}
use grpc_web_server.Config.{GrpcWebServerOptions}
use grpc_web_server.Server.{Web}
use grpc_web_server.Handle.{
  pending, requested, dropped, Task, GrpcWebServerHandle, idle_state, Reply,
  cleanup_finished_locked, start_checked, start, wait_end, is_running, shutdown_begin, signal,
}
use grpc_web_server.Handle.System.{relocking, World}
use grpc_web_server.Handle.Exclusive.Defs.{
  AllOutside, AllEnded, ExclusiveReach, Inv, IsLive, active_phase,
}
use grpc_web_server.Handle.Exclusive.Ended.{signal-AllEnded, signal_lem}
use grpc_web_server.Handle.Exclusive.Calls.{
  ended_of_kept, relocking-AllEnded, settled, Running, cleanup-cases,
}
use grpc_web_server.Handle.Exclusive.Runs.{live_unique, Reach-Inv}

-- With a sound lock, `start` cleans up and goes on to its check.
start_sound :
    {ext : External} (spawns : Bool) (h : GrpcWebServerHandle ext)
    → h.poisoned ≡ false
    → start spawns h ≡ start_checked spawns (cleanup_finished_locked h)
unfolding start
start_sound spawns h sound = ground arith

-- A handle with no thread and a cleared flag is the one that `start` can start.
start_checked-ok_iff :
    {ext : External} (h : GrpcWebServerHandle ext)
    → ((start_checked true h).0 ≡ ok tt) ↔ ((h.state.thread ≡ none) × (h.running ≡ false))
unfolding start_checked
start_checked-ok_iff h = (λ e. ground arith, λ (e, f). ground arith)

module _ {ext : External} {web : Web ext} {o : GrpcWebServerOptions ext} {w : World ext}
    (r : ExclusiveReach web o w) where
  -- In every world that a disciplined program reaches, at most one thread of the handle is live.
  pub one_live_thread :
      (t u : ℕ) (k l : Task ext) → IsLive w.handle t k → IsLive w.handle u l → t ≡ u
  one_live_thread t u k l = live_unique web w.handle w.callers (Reach-Inv r) t u k l

  -- In such a world no server is shut down by accident: as long as a thread is live, a stop was
  -- requested, or the handle still holds the sender of its stop channel. The sender is never lost.
  pub stopped_on_request :
      (t : ℕ) (k : Task ext)
      → IsLive w.handle t k
      → (k.shutdown ≡ requested) ⊎ ((k.shutdown ≡ pending) × (w.handle.state.stop_tx ≡ some t))
  stopped_on_request t k live = ground (arith, inv.heard t k live, inv.linked t k live)
    where
      inv : Inv w.handle w.callers
      inv = Reach-Inv r

  -- In such a world `is_running` is true as long as some thread has not cleared the flag.
  pub is_running-active :
      (t : ℕ) (k : Task ext)
      → w.handle.tasks t ≡ some k
      → active_phase k.phase ≡ true
      → is_running w.handle ≡ true
  unfolding is_running
  is_running-active t k at active = (Reach-Inv r).marked t k at active

  -- When `wait` returns in such a world, every thread has ended, and unless the lock is poisoned it
  -- has returned `Ok`, `is_running` is false and neither a join handle nor a sender is left.
  pub wait_end_settles :
      (i : ℕ)
      → w.callers i ≡ relocking
      → let (result, h) = wait_end w.handle in
        AllEnded h.tasks
        × (w.handle.poisoned ≡ false
            → (result ≡ ok tt) × (is_running h ≡ false) × (h.state ≡ idle_state))
  unfolding wait_end is_running
  wait_end_settles i here = (
    if-ind (λ (a : Reply ext (Unit {0})). AllEnded a.1.tasks) w.handle.poisoned (λ _. ended)
        (λ _. signal-AllEnded w.handle.state.stop_tx dropped w.handle.tasks ended),
    λ sound. (ground arith, ground arith, ground (arith, no_thread)),
  )
    where
      inv : Inv w.handle w.callers
      inv = Reach-Inv r

      ended : AllEnded w.handle.tasks
      ended = relocking-AllEnded w.handle w.callers inv i here

      no_thread : w.handle.state.thread ≡ none
      no_thread = inv.held i (λ e. cc (here, e))

  -- While no caller is inside `wait` and the lock is not poisoned, `start` succeeds exactly if every
  -- thread has ended, provided that the system can make a thread.
  pub start-ok_iff :
      AllOutside w.callers
      → w.handle.poisoned ≡ false
      → ((start true w.handle).0 ≡ ok tt) ↔ AllEnded w.handle.tasks
  start-ok_iff out sound = rw (start_sound true w.handle sound) (free→ended, ended→free)
    where
      inv : Inv w.handle w.callers
      inv = Reach-Inv r

      free→ended :
          (start_checked true (cleanup_finished_locked w.handle)).0 ≡ ok tt
          → AllEnded w.handle.tasks
      free→ended started = elim (cleanup-cases w.handle) [
        | inl (same, _) ↦
            let free = (start_checked-ok_iff w.handle).0 (rw same at started) in
            ended_of_kept w.handle w.callers inv out (λ t e. ground (arith, free))
        | inr (_, kept) ↦ ended_of_kept w.handle w.callers inv out kept
      ]

      no_thread : AllEnded w.handle.tasks → Running w.handle → w.handle.state.thread ≡ none
      no_thread ended live = elim (Option-cases w.handle.state.thread) [
        | inl e ↦ e
        | inr (t, e) ↦ elim (Option-cases (w.handle.tasks t)) [
          | inl empty ↦ ground (arith, live t e)
          | inr (k, at) ↦ ground (arith, live t e, ended t k at)
        ]
      ]

      ended→free :
          AllEnded w.handle.tasks
          → (start_checked true (cleanup_finished_locked w.handle)).0 ≡ ok tt
      ended→free ended = elim (cleanup-cases w.handle) [
        | inl (same, live) ↦
            let none_kept : w.handle.state.thread ≡ none = no_thread ended live in
            rw same ((start_checked-ok_iff w.handle).1 (none_kept, inv.idle out none_kept sound))
        | inr (same, _) ↦ rw same ((start_checked-ok_iff (settled w.handle)).1 (refl, refl))
      ]

  -- Dropping the handle with no call in progress and a sound lock leaves no server behind: a thread
  -- that is live after the critical section of the drop is the one that the drop goes on to join,
  -- and it has been asked to stop.
  pub shutdown_begin_joins :
      AllOutside w.callers
      → w.handle.poisoned ≡ false
      → (t : ℕ) (k : Task ext) → IsLive (shutdown_begin w.handle).1 t k
      → ((shutdown_begin w.handle).0 ≡ ok (some t)) × (k.shutdown ≡ requested)
  unfolding shutdown_begin
  shutdown_begin_joins out sound t k live =
      let marked : signal w.handle.state.stop_tx requested w.handle.tasks t ≡ some k =
        ground (arith, live.0) in
      let (old, at, same, how) =
        signal_lem w.handle.state.stop_tx requested w.handle.tasks t k marked in
      let was : IsLive w.handle t old = (at, ground arith) in
      let now = stopped_on_request t old was in
      (
        elim ((Reach-Inv r).owned t old was) [
          | inl mine ↦ ground arith
          | inr (i, busy) ↦ ground (arith, out i)
        ],
        ground arith,
      )
