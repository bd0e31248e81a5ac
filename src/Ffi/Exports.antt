-- ===== src/Ffi/Exports.antt =====
-- src/server/ffi.rs: the functions that C calls, on the process as they see it.
--
-- The process is the filter that tracing was set up with, the handles that are allocated, each at
-- its address, and how many allocations were made; addresses are not used twice. `wait` and `destroy`
-- block while they join a thread, so each is two functions, before and after the join.
use grpc_web_server.Base.{
  ℕ, suc, Str, text, Bool, true, false, ◌++◌, Option, none, some, Outcome, ok, err, panic,
  undefined, ◌==◌, if◌then◌else◌, update,
}
use grpc_web_server.External.{External}
use grpc_web_server.Utils.{Memory, Problem}
use grpc_web_server.Ffi.{LogLevel, as_str, GrpcWebServerOptions, to_options}
use grpc_web_server.Handle
use grpc_web_server.Handle.{HandleError, GrpcWebServerHandle, Reply, new_handle}

pub record Process (ext : External) : Type 0 where
  pub tracing : Option Str
  pub handles : ℕ → Option (GrpcWebServerHandle ext)
  pub allocations : ℕ

-- The filter after a call of `init_tracing_once`: its closure runs on the first call only.
abbrev pub first_filter : Option Str → LogLevel → Str
first_filter none level = text "grpc_web_server=" ++ (as_str level ++ text ",tower_http=info")
first_filter (some filter) level = filter

unfoldable pub init_tracing_once : {ext : External} → LogLevel → Process ext → Process ext
init_tracing_once level p = record p { tracing = some (first_filter p.tracing level) }

-- What a call returns to C, and the process after it; `none` where the call broke the contract of the
-- function, after which nothing is known of the process.
abbrev pub Answer : External → Type 0 → Type 0
Answer ext A = Option (A × Process ext)

-- The `bool` that C gets: a panic is caught, and an error is logged.
abbrev pub succeeded {ℓ} : {A : Type ℓ} → Outcome HandleError A → Option Bool
succeeded (ok a) = some true
succeeded (err e) = some false
succeeded panic = some false
succeeded undefined = none

-- The answer of a call that cannot fail.
abbrev pub unfailing : Outcome HandleError Bool → Option Bool
unfailing (ok b) = some b
unfailing (err e) = none
unfailing panic = none
unfailing undefined = none

-- What a first critical section leaves: the call returns, or it goes on to join a thread.
pub data Progress : Type 0 where
  returns : Bool → Progress
  joins : ℕ → Progress

abbrev pub progress : Outcome HandleError (Option ℕ) → Option Progress
progress (ok none) = some (returns true)
progress (ok (some t)) = some (joins t)
progress (err e) = some (returns false)
progress panic = some (returns false)
progress undefined = none

module _ {ext : External} where
  -- `Box::into_raw(Box::new(handle))`
  unfoldable pub allocate : GrpcWebServerHandle ext → Process ext → ℕ × Process ext
  allocate h p =
      let address = suc p.allocations in
      (address, record p { handles = update p.handles address (some h); allocations = address })

  -- `create` after tracing, by what the conversion of the options has returned.
  unfoldable pub created :
      Outcome Problem (grpc_web_server.Config.GrpcWebServerOptions ext) → Process ext → Answer ext ℕ
  unfolding allocate
  created (ok options) p = some (allocate (new_handle options) p)
  created (err e) p = some (0, p)
  created panic p = some (0, p)
  created undefined p = none

  -- `create`
  unfoldable pub create : Memory → GrpcWebServerOptions → Process ext → Answer ext ℕ
  unfolding init_tracing_once created
  create mem o p = created (to_options mem o) (init_tracing_once o.log_level p)

  abbrev pub answered : {B : Type 0} → Option B → Process ext → Answer ext B
  answered none p = none
  answered (some b) p = some (b, p)

  -- A call on the handle at an address; a pointer to none breaks the contract.
  unfoldable pub call_at :
      {A B : Type 0}
      → (Outcome HandleError A → Option B)
      → (GrpcWebServerHandle ext → Reply ext A)
      → ℕ
      → Process ext
      → Option (GrpcWebServerHandle ext)
      → Answer ext B
  call_at f call address p none = none
  call_at f call address p (some h) =
      let (result, h') = call h in
      answered (f result) (record p { handles = update p.handles address (some h') })

  -- A call on what a pointer refers to: `as_ref`, with an answer for the null pointer.
  unfoldable pub on_handle :
      {A B : Type 0}
      → B
      → (Outcome HandleError A → Option B)
      → (GrpcWebServerHandle ext → Reply ext A)
      → ℕ
      → Process ext
      → Answer ext B
  unfolding call_at
  on_handle answer f call address p =
      if address == 0 then some (answer, p) else call_at f call address p (p.handles address)

  -- `start`; the flag says whether the system can make a thread.
  unfoldable pub start : Bool → ℕ → Process ext → Answer ext Bool
  unfolding on_handle
  start spawns = on_handle false succeeded (grpc_web_server.Handle.start spawns)

  -- `wait` up to the join.
  unfoldable pub wait_begin : ℕ → Process ext → Answer ext Progress
  unfolding on_handle
  wait_begin = on_handle (returns false) progress grpc_web_server.Handle.wait_begin

  -- `wait` after the join.
  unfoldable pub wait_end : ℕ → Process ext → Answer ext Bool
  unfolding on_handle
  wait_end = on_handle false succeeded grpc_web_server.Handle.wait_end

  -- `is_running`
  unfoldable pub is_running : ℕ → Process ext → Answer ext Bool
  unfolding on_handle
  is_running = on_handle false unfailing (λ h. (ok (grpc_web_server.Handle.is_running h), h))

  -- `stop`
  unfoldable pub stop : ℕ → Process ext → Answer ext Bool
  unfolding on_handle
  stop = on_handle false succeeded grpc_web_server.Handle.stop

  -- The end of `destroy`: the memory of the handle is released.
  unfoldable pub release : ℕ → Process ext → Process ext
  release address p = record p { handles = update p.handles address none }

  -- `drop` ignores the error of `shutdown_and_join`, and the call returns unless it has to join.
  unfoldable pub finish_drop : ℕ → Answer ext Progress → Answer ext Progress
  unfolding release
  finish_drop address (some (returns done, p)) = some (returns true, release address p)
  finish_drop address (some (joins t, p)) = some (joins t, p)
  finish_drop address none = none

  -- `destroy` up to the join, if there is one.
  unfoldable pub destroy : ℕ → Process ext → Answer ext Progress
  unfolding on_handle finish_drop
  destroy address p =
      if address == 0
      then some (returns false, p)
      else finish_drop address
          (on_handle (returns false) progress grpc_web_server.Handle.shutdown_begin address p)
