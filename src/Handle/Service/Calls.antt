-- ===== src/Handle/Service/Calls.antt =====
-- What `start`, `stop` and `wait` do to the service.
use grpc_web_server.Base.{
  ℕ, ◌≡◌, ◌≢◌, refl, sym, subst, ◌⊎◌, inl, inr, Bool, Option, none, some, ok, arith, Option-cases,
  Bool-cases, if-ind, is_some, ◌||◌, ◌==◌,
}
use grpc_web_server.External.{External}
use grpc_web_server.Handle.{
  building, GrpcWebServerState, idle_state, pending, requested, dropped, Task, GrpcWebServerHandle,
  Reply, signal, spawned, cleanup_finished_locked, start_checked, start, stop, wait_begin, wait_end,
}
use grpc_web_server.Handle.System.{Caller, relocking}
use grpc_web_server.Handle.Exclusive.Defs.{AllOutside, AllEnded, Inv, IsLive}
use grpc_web_server.Handle.Exclusive.Ended.{signal-AllEnded}
use grpc_web_server.Handle.Exclusive.Calls.{ended_of_kept, relocking-AllEnded, cleanup-cases}
use grpc_web_server.Handle.Service.{Status, off, on, stopping, asked, Shows}

module _ {ext : External} where
  -- A start of a service that is off.
  abbrev pub StartedFrom : Status → Reply ext (Unit {0}) → Type 0
  StartedFrom a r =
      (b : Status) × Shows r.1 b
      × (((r.0 ≡ ok tt) × (a ≡ off) × (b ≡ on)) ⊎ ((r.0 ≢ ok tt) × (a ≡ b)))

  cleanup-AllEnded :
      (h : GrpcWebServerHandle ext) → AllEnded h.tasks → AllEnded (cleanup_finished_locked h).tasks
  cleanup-AllEnded h ended = elim (cleanup-cases h) [
    | inl (same, live) ↦ rw same ended
    | inr (same, kept) ↦ rw same (signal-AllEnded h.state.stop_tx dropped h.tasks ended)
  ]

  abbrev newborn : GrpcWebServerHandle ext → Task ext
  newborn h = record { phase = building; shutdown = pending; server_options = h.options }

  start_checked-StartedFrom :
      (spawns : Bool) (h : GrpcWebServerHandle ext)
      → AllEnded h.tasks
      → StartedFrom off (start_checked spawns h)
  unfolding start_checked spawned
  start_checked-StartedFrom spawns h ended =
      if-ind (StartedFrom off) (is_some h.state.thread || h.running)
        (λ _. (off, ended, inr (λ e. cc (e), refl)))
        (λ _.
          if-ind (StartedFrom off) spawns
            (λ _. (on, (h.next, newborn h, (ground arith, refl), refl), inl (refl, refl, refl)))
            (λ _. (off, ended, inr (λ e. cc (e), refl))))

  pub start-StartedFrom_off :
      (spawns : Bool) (h : GrpcWebServerHandle ext)
      → AllEnded h.tasks
      → StartedFrom off (start spawns h)
  unfolding start
  start-StartedFrom_off spawns h ended =
      if-ind (StartedFrom off) h.poisoned (λ _. (off, ended, inr (λ e. cc (e), refl)))
        (λ _.
          start_checked-StartedFrom spawns (cleanup_finished_locked h) (cleanup-AllEnded h ended))

  -- A start while the thread of the join handle is live fails and changes nothing.
  pub start_live :
      (spawns : Bool) (h : GrpcWebServerHandle ext) (t : ℕ) (k : Task ext)
      → h.state.thread ≡ some t
      → IsLive h t k
      → ((start spawns h).1 ≡ h) × ((start spawns h).0 ≢ ok tt)
  unfolding start start_checked
  start_live spawns h t k mine live = elim (cleanup-cases h) [
    | inl (same, _) ↦
        if-ind (λ (r : Reply ext (Unit {0})). (r.1 ≡ h) × (r.0 ≢ ok tt)) h.poisoned
          (λ _. (refl, λ e. cc (e))) (λ _. rw same (ground (arith, mine), ground (arith, mine)))
    | inr (_, kept) ↦ ground (arith, kept t mine, live)
  ]

  -- `stop` asks the service to stop, and `Err` means that nothing has changed.
  abbrev pub StoppedFrom : Status → Reply ext (Unit {0}) → Type 0
  StoppedFrom a r =
      (b : Status) × Shows r.1 b × (((r.0 ≡ ok tt) × (asked a ≡ b)) ⊎ ((r.0 ≢ ok tt) × (a ≡ b)))

  signal-requested :
      (h : GrpcWebServerHandle ext) (a : Status)
      → ((t : ℕ) (k : Task ext) → IsLive h t k → k.shutdown ≡ pending → h.state.stop_tx ≡ some t)
      → Shows h a
      → Shows
          (record h {
            state = record { thread = h.state.thread; stop_tx = none };
            tasks = signal h.state.stop_tx requested h.tasks;
          })
          (asked a)
  signal-requested h off linked shown = signal-AllEnded h.state.stop_tx requested h.tasks shown
  signal-requested h on linked (t, k, live, waiting) = (
    t,
    record k { shutdown = requested },
    (ground (arith, linked t k live waiting, live), live.1),
    refl,
  )
  signal-requested h stopping linked (t, k, live, told) =
      (t, k, (marked_again h.state.stop_tx, live.1), told)
    where
      marked_again : (tx : Option ℕ) → signal tx requested h.tasks t ≡ some k
      marked_again none = live.0
      marked_again (some u) = elim (Bool-cases (u == t)) [
        | inl here ↦ ground (arith, here, live, told)
        | inr away ↦ ground (arith, away, live)
      ]

  pub stop-StoppedFrom :
      (h : GrpcWebServerHandle ext) (c : ℕ → Caller)
      → Inv h c
      → (a : Status) → Shows h a
      → StoppedFrom a (stop h)
  unfolding stop
  stop-StoppedFrom h c inv a shown =
      if-ind (StoppedFrom a) h.poisoned (λ _. (a, shown, inr (λ e. cc (e), refl)))
        (λ _. (asked a, signal-requested h a inv.linked shown, inl (refl, refl)))

  pub AllEnded-off :
      (h : GrpcWebServerHandle ext) (a : Status) → AllEnded h.tasks → Shows h a → a ≡ off
  AllEnded-off h off ended shown = refl
  AllEnded-off h on ended (t, k, live, how) = ground (arith, ended t k live.0, live)
  AllEnded-off h stopping ended (t, k, live, how) = ground (arith, ended t k live.0, live)

  -- The service does not depend on join handles and senders.
  Shows-elsewhere :
      (h : GrpcWebServerHandle ext) (s : GrpcWebServerState) (a : Status)
      → Shows h a
      → Shows (record h { state = s }) a
  Shows-elsewhere h s off shown = shown
  Shows-elsewhere h s on shown = shown
  Shows-elsewhere h s stopping shown = shown

  -- `wait` leaves the service as it is.
  pub wait_begin-Shows :
      (h : GrpcWebServerHandle ext) (c : ℕ → Caller)
      → Inv h c
      → AllOutside c
      → (a : Status) → Shows h a
      → Shows (wait_begin h).1 a
  unfolding wait_begin
  wait_begin-Shows h c inv out a shown =
      if-ind (λ (r : Reply ext (Option ℕ)). Shows r.1 a) h.poisoned (λ _. shown)
        (λ _. elim (Option-cases h.state.thread) [
          | inl e ↦ simp e (
              let ended = ended_of_kept h c inv out (λ t et. ground (arith, e, et)) in
              subst
                (Shows
                  (record h { state = idle_state; tasks = signal h.state.stop_tx dropped h.tasks }))
                (sym (AllEnded-off h a ended shown))
                (signal-AllEnded h.state.stop_tx dropped h.tasks ended))
          | inr (t, e) ↦
              simp e
                (Shows-elsewhere h (record { thread = none; stop_tx = h.state.stop_tx }) a shown)
        ])

  -- Where `wait` returns, the service is off, and stays so.
  pub wait_end-off :
      (h : GrpcWebServerHandle ext) (c : ℕ → Caller)
      → Inv h c
      → (i : ℕ) → c i ≡ relocking
      → (a : Status) → Shows h a
      → (a ≡ off) × Shows (wait_end h).1 off
  unfolding wait_end
  wait_end-off h c inv i here a shown =
      let ended = relocking-AllEnded h c inv i here in
      (
        AllEnded-off h a ended shown,
        if-ind (λ (r : Reply ext (Unit {0})). Shows r.1 off) h.poisoned (λ _. ended)
            (λ _. signal-AllEnded h.state.stop_tx dropped h.tasks ended),
      )
