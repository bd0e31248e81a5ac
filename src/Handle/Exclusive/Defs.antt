-- ===== src/Handle/Exclusive/Defs.antt =====
-- The discipline, and what it keeps true of a handle, its callers and its threads.
use grpc_web_server.Base.{ℕ, ◌≡◌, ◌≢◌, ◌⊎◌, Bool, true, false, Option, none, some}
use grpc_web_server.External.{External}
use grpc_web_server.Config.{GrpcWebServerOptions}
use grpc_web_server.Server.{Web}
use grpc_web_server.Handle.{
  pending, dropped, Phase, building, creating, serving, clearing, Task, GrpcWebServerHandle,
  ended_phase,
}
use grpc_web_server.Handle.System.{
  Caller, outside, joining, World, created, Step, starts, stops, waits, joins, returns, runs,
}

abbrev pub AllOutside : (ℕ → Caller) → Type 0
AllOutside callers = (i : ℕ) → callers i ≡ outside

abbrev pub IsExclusive : {ext : External} {web : Web ext} {w v : World ext} → Step web w v → Type 0
IsExclusive {w} (starts i spawns o) = AllOutside w.callers
IsExclusive {w} (waits i o) = AllOutside w.callers
IsExclusive (stops i o) = Unit
IsExclusive (joins i t c e) = Unit
IsExclusive (returns i c) = Unit
IsExclusive (runs e t s) = Unit

-- The worlds that a disciplined program reaches.
pub data ExclusiveReach {ext : External} (web : Web ext) (o : GrpcWebServerOptions ext)
    : World ext → Type 0 where
  begin : ExclusiveReach web o (created o)
  next :
      {w v : World ext}
      → ExclusiveReach web o w
      → (s : Step web w v) → IsExclusive s
      → ExclusiveReach web o v

-- The thread has yet to store `false` to the flag.
abbrev pub active_phase : Phase → Bool
active_phase building = true
active_phase creating = true
active_phase serving = true
active_phase clearing = true
active_phase _ = false

-- Who will join thread `t`: the handle keeps its join handle, or a caller is in the join.
abbrev pub Owner : {ext : External} → GrpcWebServerHandle ext → (ℕ → Caller) → ℕ → Type 0
Owner h callers t = (h.state.thread ≡ some t) ⊎ ((i : ℕ) × (callers i ≡ joining t))

abbrev pub IsLive : {ext : External} → GrpcWebServerHandle ext → ℕ → Task ext → Type 0
IsLive h t k = (h.tasks t ≡ some k) × (ended_phase k.phase ≡ false)

pub record Inv {ext : External} (h : GrpcWebServerHandle ext) (callers : ℕ → Caller) : Type 0 where
  pub owned : (t : ℕ) (k : Task ext) → IsLive h t k → Owner h callers t
  pub heard : (t : ℕ) (k : Task ext) → IsLive h t k → k.shutdown ≢ dropped
  pub linked :
      (t : ℕ) (k : Task ext) → IsLive h t k → k.shutdown ≡ pending → h.state.stop_tx ≡ some t
  pub marked :
      (t : ℕ) (k : Task ext) → h.tasks t ≡ some k → active_phase k.phase ≡ true → h.running ≡ true
  pub solo : (i j : ℕ) → callers i ≢ outside → callers j ≢ outside → i ≡ j
  pub held : (i : ℕ) → callers i ≢ outside → h.state.thread ≡ none
  pub idle : AllOutside callers → h.state.thread ≡ none → h.poisoned ≡ false → h.running ≡ false

-- Every thread that was ever spawned has ended.
abbrev pub AllEnded : {ext : External} → (ℕ → Option (Task ext)) → Type 0
AllEnded {ext} tasks = (t : ℕ) (k : Task ext) → tasks t ≡ some k → ended_phase k.phase ≡ true
