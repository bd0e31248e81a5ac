-- ===== src/Handle/Exclusive/Calls.antt =====
-- The invariant at the calls of a disciplined program.
use grpc_web_server.Base.{
  ℕ, ◌≡◌, refl, ◌≢◌, ◌⊎◌, inl, inr, Bool, true, false, Option, none, some, update, arith,
  Option-cases, Bool-cases, is_some, if-ind, ◌||◌,
}
use grpc_web_server.External.{External}
use grpc_web_server.Handle.{
  requested, dropped, Task, GrpcWebServerHandle, ended_phase, has_ended, signal, idle_state, Reply,
  cleanup_thread, cleanup_finished_locked, start_checked, start, wait_begin, wait_end, stop,
}
use grpc_web_server.Handle.System.{Caller, outside, joining, relocking, after_begin}
use grpc_web_server.Handle.Exclusive.Defs.{AllOutside, Inv, AllEnded}
use grpc_web_server.Handle.Exclusive.Ended.{
  signal-AllEnded, signal_lem, ended-Inv, quiet-Inv, spawned-Inv,
}

module _ {ext : External} (h : GrpcWebServerHandle ext) (c : ℕ → Caller) (inv : Inv h c) where
  open inv use {owned, heard, linked, marked, solo, held, idle}

  -- With no caller inside `wait`, a live thread is the one whose join handle is kept.
  pub ended_of_kept :
      AllOutside c
      → ((t : ℕ) → h.state.thread ≡ some t → has_ended (h.tasks t) ≡ true)
      → AllEnded h.tasks
  ended_of_kept out kept t k here = elim (Bool-cases (ended_phase k.phase)) [
    | inl yes_ended ↦ yes_ended
    | inr live ↦ elim (owned t k (here, live)) [
      | inl mine ↦ ground (arith, kept t mine)
      | inr (i, busy) ↦ ground (arith, out i)
    ]
  ]

  pub stops-Inv : Inv (stop h).1 c
  unfolding stop
  stops-Inv =
      if-ind (λ (r : Reply ext (Unit {0})). Inv r.1 c) h.poisoned (λ _. inv)
        (λ _. record {
          owned = λ t k live.
              let (old, at, same, _) = before t k live.0 in owned t old (at, ground arith);
          heard = λ t k live.
              let (old, at, same, how) = before t k live.0 in
              let calm = heard t old (at, ground arith) in
              elim how [ inl hit ↦ λ e. ground arith | inr miss ↦ λ e. calm (ground arith) ];
          linked = λ t k live p.
              let (old, at, same, how) = before t k live.0 in
              let kept = linked t old (at, ground arith) in
              elim how [
                | inl hit ↦ ground arith
                | inr miss ↦ absurd (miss.0 (kept (ground arith)))
              ];
          marked = λ t k here active.
              let (old, at, same, _) = before t k here in marked t old at (ground arith);
          solo = solo;
          held = held;
          idle = idle;
        })
    where
      before :
          (t : ℕ) (k : Task ext)
          → signal h.state.stop_tx requested h.tasks t ≡ some k
          → (old : Task ext) × (h.tasks t ≡ some old)
            × (old.phase ≡ k.phase)
            × (((h.state.stop_tx ≡ some t) × (k.shutdown ≡ requested))
                ⊎ ((h.state.stop_tx ≢ some t) × (k.shutdown ≡ old.shutdown)))
      before t k e = signal_lem h.state.stop_tx requested h.tasks t k e

  pub joins-Inv :
      (i t : ℕ) → c i ≡ joining t → has_ended (h.tasks t) ≡ true → Inv h (update c i relocking)
  joins-Inv i t here done = record {
    owned = λ u k live. elim (owned u k live) [
      | inl mine ↦ inl mine
      | inr (j, busy) ↦ inr (j, ground arith)
    ];
    heard = heard;
    linked = linked;
    marked = marked;
    solo = λ a b p q. joins_solo a b p q;
    held = λ a p. held a (joins_busy a p);
    idle = λ out. ground (arith, out i);
  }
    where
      joins_busy : (a : ℕ) → update c i relocking a ≢ outside → c a ≢ outside
      joins_busy a p e = ground (arith, p)

      joins_solo :
          (a b : ℕ) → update c i relocking a ≢ outside → update c i relocking b ≢ outside → a ≡ b
      joins_solo a b p q = solo a b (joins_busy a p) (joins_busy b q)

  -- A caller that has left the join was the only one inside, and every thread has ended.
  pub relocking-AllEnded : (i : ℕ) → c i ≡ relocking → AllEnded h.tasks
  relocking-AllEnded i here t k at = elim (Bool-cases (ended_phase k.phase)) [
    | inl over ↦ over
    | inr live ↦ elim (owned t k (at, live)) [
      | inl mine ↦ ground (arith, held i)
      | inr (j, busy) ↦ ground (arith, solo i j)
    ]
  ]

  pub returns-Inv : (i : ℕ) → c i ≡ relocking → Inv (wait_end h).1 (update c i outside)
  unfolding wait_end
  returns-Inv i here =
      let ended = relocking-AllEnded i here in
      if-ind (λ (r : Reply ext (Unit {0})). Inv r.1 (update c i outside)) h.poisoned
        (λ dead. quiet-Inv h _ ended alone (λ sound. cc (dead, sound)))
        (λ _.
          quiet-Inv _ _ (signal-AllEnded h.state.stop_tx dropped h.tasks ended) alone (λ _. refl))
    where
      alone : AllOutside (update c i outside)
      alone j = ground (arith, solo i j)

  pub waits-Inv :
      (i : ℕ) → AllOutside c → Inv (wait_begin h).1 (update c i (after_begin (wait_begin h).0))
  unfolding wait_begin
  waits-Inv i out =
      if-ind (λ (r : Reply ext (Option ℕ)). Inv r.1 (update c i (after_begin r.0))) h.poisoned
        (λ _. record {
          owned = λ t k live. elim (owned t k live) [
            | inl mine ↦ inl mine
            | inr (j, busy) ↦ ground (arith, out j)
          ];
          heard = heard;
          linked = linked;
          marked = marked;
          solo = lone i outside;
          held = λ j p. ground (arith, out j, p);
          idle = λ _. idle out;
        })
        (λ _. elim (Option-cases h.state.thread) [
          | inl e ↦ simp e (
              ended-Inv _ _
                (signal-AllEnded h.state.stop_tx dropped h.tasks
                  (ended_of_kept out (λ t et. ground arith)))
                (lone i relocking) (λ j p. refl) (λ quiet. ground (arith, quiet i)))
          | inr (t, e) ↦ simp e (record {
            owned = λ u k live. elim (owned u k live) [
              | inl mine ↦ inr (i, ground arith)
              | inr (j, busy) ↦ ground (arith, out j)
            ];
            heard = heard;
            linked = linked;
            marked = marked;
            solo = lone i (joining t);
            held = λ j p. refl;
            idle = λ quiet. ground (arith, quiet i);
          })
        ])
    where
      lone :
          (i : ℕ) (x : Caller) (a b : ℕ)
          → update c i x a ≢ outside
          → update c i x b ≢ outside
          → a ≡ b
      lone i x a b p q = ground (arith, out a, out b, p, q)

-- The handle after `cleanup_finished_locked` has joined a thread.
abbrev pub settled : {ext : External} → GrpcWebServerHandle ext → GrpcWebServerHandle ext
settled h = record h {
  state = idle_state;
  running = false;
  tasks = signal h.state.stop_tx dropped h.tasks;
}

abbrev pub Kept : {ext : External} → GrpcWebServerHandle ext → Type 0
Kept h = (t : ℕ) → h.state.thread ≡ some t → has_ended (h.tasks t) ≡ true

abbrev pub Running : {ext : External} → GrpcWebServerHandle ext → Type 0
Running h = (t : ℕ) → h.state.thread ≡ some t → has_ended (h.tasks t) ≡ false

cleanup_thread-cases :
    {ext : External} (h : GrpcWebServerHandle ext) (o : Option ℕ)
    → h.state.thread ≡ o
    → ((cleanup_thread o h ≡ h) × Running h) ⊎ ((cleanup_thread o h ≡ settled h) × Kept h)
unfolding cleanup_thread
cleanup_thread-cases h none e = inl (refl, λ u eu. ground arith)
cleanup_thread-cases h (some t) e = elim (Bool-cases (has_ended (h.tasks t))) [
  | inl done ↦ inr (rw done, λ u eu. ground arith)
  | inr live ↦ inl (rw live, λ u eu. ground arith)
]

pub cleanup-cases :
    {ext : External} (h : GrpcWebServerHandle ext)
    → ((cleanup_finished_locked h ≡ h) × Running h)
      ⊎ ((cleanup_finished_locked h ≡ settled h) × Kept h)
unfolding cleanup_finished_locked
cleanup-cases h = cleanup_thread-cases h h.state.thread refl

module _ {ext : External} (c : ℕ → Caller) where
  -- What `start` does to a handle that has been cleaned up.
  start_checked-Inv :
      (spawns : Bool) (h : GrpcWebServerHandle ext)
      → AllOutside c
      → Inv h c
      → Inv (start_checked spawns h).1 c
  unfolding start_checked
  start_checked-Inv spawns h out inv =
      if-ind (λ (r : Reply ext (Unit {0})). Inv r.1 c) (is_some h.state.thread || h.running)
        (λ _. inv)
        (λ free.
          let ended = ended_of_kept h c inv out (λ t et. ground arith) in
          if-ind (λ (r : Reply ext (Unit {0})). Inv r.1 c) spawns (λ _. spawned-Inv h c ended out)
            (λ _. quiet-Inv _ c ended out (λ sound. cc sound)))

  pub starts-Inv :
      (spawns : Bool) (h : GrpcWebServerHandle ext)
      → AllOutside c
      → Inv h c
      → Inv (start spawns h).1 c
  unfolding start
  starts-Inv spawns h out inv =
      if-ind (λ (r : Reply ext (Unit {0})). Inv r.1 c) h.poisoned (λ _. inv)
        (λ _. start_checked-Inv spawns (cleanup_finished_locked h) out cleaned)
    where
      cleaned : Inv (cleanup_finished_locked h) c
      cleaned = elim (cleanup-cases h) [
        | inl (same, _) ↦ rw same inv
        | inr (same, kept) ↦ rw same (
            quiet-Inv (settled h) c
              (signal-AllEnded h.state.stop_tx dropped h.tasks (ended_of_kept h c inv out kept)) out
              (λ _. refl))
      ]
