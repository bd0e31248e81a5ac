-- ===== src/Handle.antt =====
-- src/server/handle.rs: the lifecycle of one server handle and of the threads that it spawns.
--
-- A handle's shared state is one record: the fields behind the mutex, whether the mutex is poisoned,
-- the atomic flag, and every thread spawned so far with the receiver of its stop channel. A critical
-- section is one function. A thread and its channel go by one number, so a join handle and a sender
-- are numbers; dropping a sender that was not used closes the channel.
pub mod Threads
pub mod Calls
pub mod System
pub mod Exclusive
pub mod Service
pub mod Shutdown
pub mod Waiting
pub mod Races
pub mod Served
use grpc_web_server.Base.{
  ℕ, suc, Str, text, Bool, true, false, ◌||◌, Option, none, some, Outcome, ok, err, panic,
  undefined, if◌then◌else◌, is_some, is_none, update,
}
use grpc_web_server.External.{External}
use grpc_web_server.Config.{GrpcWebServerOptions}
use grpc_web_server.Server.{Web, new_server}

pub data HandleError : Type 0 where
  state_poisoned already_running : HandleError

-- `impl Display for HandleError`
pub display : HandleError → Str
display state_poisoned = text "server state lock poisoned"
display already_running = text "server is already running"

-- What the receiver of a stop channel sees: nothing yet, a message, or that the sender is gone.
pub data Signal : Type 0 where
  pending requested dropped : Signal

-- Where the closure given to `thread::spawn` stands: before the runtime, before the server, in
-- `block_on`, before the store to the flag, after it; or the thread has ended, by a return or by a
-- panic.
pub data Phase : Type 0 where
  building creating serving clearing exiting finished panicked : Phase

pub record Task (ext : External) : Type 0 where
  pub phase : Phase
  pub shutdown : Signal
  pub server_options : GrpcWebServerOptions ext

pub record GrpcWebServerState : Type 0 where
  pub thread : Option ℕ
  pub stop_tx : Option ℕ

pub record GrpcWebServerHandle (ext : External) : Type 0 where
  pub options : GrpcWebServerOptions ext
  pub state : GrpcWebServerState
  pub poisoned : Bool
  pub running : Bool
  pub next : ℕ
  pub tasks : ℕ → Option (Task ext)

-- The result of a call on a handle, and the handle after it.
abbrev pub Reply : External → Type 0 → Type 0
Reply ext A = Outcome HandleError A × GrpcWebServerHandle ext

abbrev pub idle_state : GrpcWebServerState
idle_state = record { thread = none; stop_tx = none }

-- `thread::JoinHandle::is_finished`
abbrev pub ended_phase : Phase → Bool
ended_phase finished = true
ended_phase panicked = true
ended_phase _ = false

abbrev pub mark : {ext : External} → Signal → Option (Task ext) → Option (Task ext)
mark s none = none
mark s (some k) = some (record k { shutdown = s })

-- `oneshot::Sender::send`, or the drop of an unused sender, as its receiver sees it.
abbrev pub signal :
    {ext : External} → Option ℕ → Signal → (ℕ → Option (Task ext)) → ℕ → Option (Task ext)
signal none s tasks = tasks
signal (some t) s tasks = update tasks t (mark s (tasks t))

-- `Option::is_none_or(is_finished)` of a thread that is joined.
abbrev pub has_ended : {ext : External} → Option (Task ext) → Bool
has_ended none = true
has_ended (some k) = ended_phase k.phase

module _ {ext : External} where
  -- `GrpcWebServerHandle::new`
  unfoldable pub new_handle : GrpcWebServerOptions ext → GrpcWebServerHandle ext
  new_handle o = record {
    options = o;
    state = idle_state;
    poisoned = false;
    running = false;
    next = 0;
    tasks = λ t. none;
  }

  -- `cleanup_finished_locked` for the join handle that `take` has removed.
  cleanup_thread : Option ℕ → GrpcWebServerHandle ext → GrpcWebServerHandle ext
  cleanup_thread none h = h
  cleanup_thread (some t) h =
      if has_ended (h.tasks t)
      then record h {
        state = idle_state;
        running = false;
        tasks = signal h.state.stop_tx dropped h.tasks;
      }
      else h

  -- `cleanup_finished_locked`
  pub cleanup_finished_locked : GrpcWebServerHandle ext → GrpcWebServerHandle ext
  unfolding cleanup_thread
  cleanup_finished_locked h = cleanup_thread h.state.thread h

  -- The end of `start`, after `thread::spawn` has returned.
  pub spawned : GrpcWebServerHandle ext → GrpcWebServerHandle ext
  spawned h = record h {
    state = record { thread = some h.next; stop_tx = some h.next };
    running = true;
    next = suc h.next;
    tasks =
        update (signal h.state.stop_tx dropped h.tasks) h.next
          (some (record { phase = building; shutdown = pending; server_options = h.options }));
  }

  -- `start` from the check on; the flag says whether the system can make a thread. If it cannot,
  -- `thread::spawn` panics while the lock is held, after the flag has been set.
  pub start_checked : Bool → GrpcWebServerHandle ext → Reply ext (Unit {0})
  unfolding spawned
  start_checked spawns h =
      if is_some h.state.thread || h.running
      then (err already_running, h)
      else if spawns
      then (ok tt, spawned h)
      else (panic, record h { running = true; poisoned = true })

  -- `GrpcWebServerHandle::start`
  unfoldable pub start : Bool → GrpcWebServerHandle ext → Reply ext (Unit {0})
  unfolding start_checked cleanup_finished_locked
  start spawns h =
      if h.poisoned
      then (err state_poisoned, h)
      else start_checked spawns (cleanup_finished_locked h)

  -- The first critical section of `wait`: the thread to join, if any.
  unfoldable pub wait_begin : GrpcWebServerHandle ext → Reply ext (Option ℕ)
  wait_begin h = if h.poisoned then (err state_poisoned, h) else (
    ok h.state.thread,
    elim h.state.thread [
      | none ↦ record h { state = idle_state; tasks = signal h.state.stop_tx dropped h.tasks }
      | some t ↦ record h { state = record { thread = none; stop_tx = h.state.stop_tx } }
    ],
  )

  -- The second critical section of `wait`, after the join.
  unfoldable pub wait_end : GrpcWebServerHandle ext → Reply ext (Unit {0})
  wait_end h = if h.poisoned then (err state_poisoned, h) else (
    ok tt,
    record h {
      state = record { thread = h.state.thread; stop_tx = none };
      running = false;
      tasks = signal h.state.stop_tx dropped h.tasks;
    },
  )

  -- `is_running`
  unfoldable pub is_running : GrpcWebServerHandle ext → Bool
  is_running h = h.running

  -- `stop`
  unfoldable pub stop : GrpcWebServerHandle ext → Reply ext (Unit {0})
  stop h = if h.poisoned then (err state_poisoned, h) else (
    ok tt,
    record h {
      state = record { thread = h.state.thread; stop_tx = none };
      tasks = signal h.state.stop_tx requested h.tasks;
    },
  )

  -- The critical section of `shutdown_and_join`: the thread to join, if any.
  unfoldable pub shutdown_begin : GrpcWebServerHandle ext → Reply ext (Option ℕ)
  shutdown_begin h = if h.poisoned then (err state_poisoned, h) else (
    ok h.state.thread,
    record h { state = idle_state; tasks = signal h.state.stop_tx requested h.tasks },
  )

  -- What follows the join in `shutdown_and_join`.
  pub shutdown_end : GrpcWebServerHandle ext → GrpcWebServerHandle ext
  shutdown_end h = record h { running = false }
