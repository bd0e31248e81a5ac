-- ===== src/Handle/System.antt =====
-- Callers of one handle and the threads that it has spawned, interleaved in any order.
--
-- A critical section is one step, since the mutex keeps the others out and its owner reads the flag
-- once; `wait` is two sections with the join between them.
use grpc_web_server.Base.{ℕ, ◌≡◌, Bool, true, Option, none, some, Outcome, ok, update}
use grpc_web_server.External.{External}
use grpc_web_server.Config.{GrpcWebServerOptions}
use grpc_web_server.Server.{Web}
use grpc_web_server.Handle.{
  HandleError, GrpcWebServerHandle, has_ended, new_handle, start, wait_begin, wait_end, stop,
}
use grpc_web_server.Handle.Threads.{Event, thread_step}

-- Where a caller stands: in no call, in the join of `wait`, or before its second section.
pub data Caller : Type 0 where
  outside : Caller
  joining : ℕ → Caller
  relocking : Caller

pub record World (ext : External) : Type 0 where
  pub handle : GrpcWebServerHandle ext
  pub callers : ℕ → Caller

-- Where `wait` goes after its first section.
abbrev pub after_begin : Outcome HandleError (Option ℕ) → Caller
after_begin (ok (some t)) = joining t
after_begin (ok none) = relocking
after_begin _ = outside

-- A world in which nobody has called anything yet.
abbrev pub created : {ext : External} → GrpcWebServerOptions ext → World ext
created o = record { handle = new_handle o; callers = λ i. outside }

module _ {ext : External} (web : Web ext) where
  pub data Step (w : World ext) : World ext → Type 0 where
    starts :
        (i : ℕ) (spawns : Bool)
        → w.callers i ≡ outside
        → Step w (record w { handle = (start spawns w.handle).1 })
    stops : (i : ℕ) → w.callers i ≡ outside → Step w (record w { handle = (stop w.handle).1 })
    waits :
        (i : ℕ)
        → w.callers i ≡ outside
        → Step w (record w {
          handle = (wait_begin w.handle).1;
          callers = update w.callers i (after_begin (wait_begin w.handle).0);
        })
    joins :
        (i t : ℕ)
        → w.callers i ≡ joining t
        → has_ended (w.handle.tasks t) ≡ true
        → Step w (record w { callers = update w.callers i relocking })
    returns :
        (i : ℕ)
        → w.callers i ≡ relocking
        → Step w (record w { handle = (wait_end w.handle).1; callers = update w.callers i outside })
    runs :
        (e : Event) (t : ℕ) {h : GrpcWebServerHandle ext}
        → thread_step web e t w.handle ≡ some h
        → Step w (record w { handle = h })

  pub data Reach (o : GrpcWebServerOptions ext) : World ext → Type 0 where
    begin : Reach o (created o)
    next : {w v : World ext} → Reach o w → Step w v → Reach o v
