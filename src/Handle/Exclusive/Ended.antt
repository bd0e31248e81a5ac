-- ===== src/Handle/Exclusive/Ended.antt =====
-- Signals to stop channels, and handles whose threads have all ended.
use grpc_web_server.Base.{
  ℕ, ◌≡◌, refl, ◌≢◌, ◌⊎◌, inl, inr, true, false, Option, none, some, arith, Option-cases,
  Bool-cases, ◌==◌,
}
use grpc_web_server.External.{External}
use grpc_web_server.Handle.{
  Signal, dropped, Phase, Task, GrpcWebServerHandle, ended_phase, signal, spawned,
}
use grpc_web_server.Handle.System.{Caller, outside}
use grpc_web_server.Handle.Exclusive.Defs.{AllOutside, Inv, AllEnded, active_phase}

pub ended-active : (p : Phase) → ended_phase p ≡ true → active_phase p ≡ false
ended-active p h = ground arith

module _ {ext : External} where
  pub signal-AllEnded :
      (tx : Option ℕ) (s : Signal) (tasks : ℕ → Option (Task ext))
      → AllEnded tasks
      → AllEnded (signal tx s tasks)
  signal-AllEnded none s tasks h t k e = h t k e
  signal-AllEnded (some u) s tasks h t k e = elim (Option-cases (tasks u)) [
    | inl empty ↦ ground (arith, h t k)
    | inr (old, here) ↦ ground (arith, h t k, h u old here)
  ]

  -- What a signal does to a thread: it marks the one that the sender belongs to.
  pub signal_lem :
      (tx : Option ℕ) (s : Signal) (tasks : ℕ → Option (Task ext)) (t : ℕ) (k : Task ext)
      → signal tx s tasks t ≡ some k
      → (old : Task ext) × (tasks t ≡ some old)
        × (old.phase ≡ k.phase)
        × (((tx ≡ some t) × (k.shutdown ≡ s)) ⊎ ((tx ≢ some t) × (k.shutdown ≡ old.shutdown)))
  signal_lem none s tasks t k e = (k, e, refl, inr (λ h. cc, refl))
  signal_lem (some u) s tasks t k e = elim (Bool-cases (u == t)) [
    | inl here ↦ elim (Option-cases (tasks u)) [
      | inl empty ↦ ground arith
      | inr (old, at) ↦ (old, ground arith, ground arith, inl (ground arith, ground arith))
    ]
    | inr away ↦ (k, ground arith, refl, inr (λ h. ground arith, refl))
  ]

  pub ended-Inv :
      (h : GrpcWebServerHandle ext) (c : ℕ → Caller)
      → AllEnded h.tasks
      → ((i j : ℕ) → c i ≢ outside → c j ≢ outside → i ≡ j)
      → ((i : ℕ) → c i ≢ outside → h.state.thread ≡ none)
      → (AllOutside c → h.state.thread ≡ none → h.poisoned ≡ false → h.running ≡ false)
      → Inv h c
  ended-Inv h c ended solo held idle = record {
    owned = λ t k live. ground (arith, ended t k live.0);
    heard = λ t k live. ground (arith, ended t k live.0);
    linked = λ t k live. ground (arith, ended t k live.0);
    marked = λ t k here active. ground (arith, ended t k here, ended-active k.phase);
    solo = solo;
    held = held;
    idle = idle;
  }

  -- With every thread ended and every caller outside, nothing else is asked of the handle.
  pub quiet-Inv :
      (h : GrpcWebServerHandle ext) (c : ℕ → Caller)
      → AllEnded h.tasks
      → AllOutside c
      → (h.poisoned ≡ false → h.running ≡ false)
      → Inv h c
  quiet-Inv h c ended out idle =
      ended-Inv h c ended (λ i j busy. absurd (busy (out i))) (λ i busy. absurd (busy (out i)))
        (λ _ _. idle)

  pub spawned-Inv :
      (h : GrpcWebServerHandle ext) (c : ℕ → Caller)
      → AllEnded h.tasks
      → AllOutside c
      → Inv (spawned h) c
  unfolding spawned
  spawned-Inv h c ended out = record {
    owned = λ t k live. ground (arith, others t k);
    heard = λ t k live. ground (arith, others t k);
    linked = λ t k live. ground (arith, others t k);
    marked = λ t k here active. refl;
    solo = λ i j busy. absurd (busy (out i));
    held = λ i busy. absurd (busy (out i));
    idle = λ _ no_thread. cc;
  }
    where
      others : AllEnded (signal h.state.stop_tx dropped h.tasks)
      others = signal-AllEnded h.state.stop_tx dropped h.tasks ended
