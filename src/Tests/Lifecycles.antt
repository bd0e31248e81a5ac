-- ===== src/Tests/Lifecycles.antt =====
-- Lifecycles of a handle, step by step.
use grpc_web_server.Base.{
  ℕ, text, ◌≡◌, refl, ◌≢◌, ◌↔◌, true, false, none, some, ok, panic, undefined, [], inl, ◌⊎◌, ◌≤◌,
  update,
}
use grpc_web_server.Config.{validate}
use grpc_web_server.Proxy.{new_proxy}
use grpc_web_server.Server.{new_server}
use grpc_web_server.Handle.{
  GrpcWebServerHandle, Task, new_handle, start, stop, wait_begin, wait_end, is_running, serving,
  pending, requested, dropped, creating, panicked, ended_phase, idle_state, shutdown_begin,
}
use grpc_web_server.Handle.Threads.{
  Event, runtime_built, server_made, server_returns, sees_shutdown, flag_cleared, exits, move,
  thread_step,
}
use grpc_web_server.Handle.System.{
  outside, joining, relocking, World, Step, starts, stops, waits, joins, runs,
}
use grpc_web_server.Handle.Exclusive.Defs.{ExclusiveReach, begin, next}
use grpc_web_server.Config.Validation.{IsValid, validate_iff}
use grpc_web_server.Handle.Exclusive.Defs.{AllEnded, Inv}
use grpc_web_server.Handle.Exclusive.Promises.{
  one_live_thread, stopped_on_request, is_running-active, wait_end_settles, start-ok_iff,
  shutdown_begin_joins,
}
use grpc_web_server.Handle.Exclusive.Runs.{Step-Inv, Reach-Inv}
use grpc_web_server.Handle.Shutdown.{rests, steps, stopped_thread_ends}
use grpc_web_server.Handle.Served.{serving-IsValid}
use grpc_web_server.Handle.Calls.{IsFrozen, failed_spawn, wildcard_thread_panic}
use grpc_web_server.Handle.Races.{IsServing, second_wait_stops, late_wait_stops}
use grpc_web_server.Handle.System.{Reach}
use grpc_web_server.Tests.Fixtures.{crates, web, web_panics, plain, credentialed}

-- What the runs below compute with.
unfoldable pub lifecycle : Unit {0}
unfolding start stop wait_begin wait_end shutdown_begin is_running new_handle thread_step move
    new_server new_proxy validate text
lifecycle = tt

-- One step of thread 0 or 1, which must be possible where the step is used.
unfoldable pub after : Event → ℕ → GrpcWebServerHandle crates → GrpcWebServerHandle crates
unfolding lifecycle
after e t h = elim (thread_step web e t h) [ none ↦ h | some h' ↦ h' ]

abbrev at_outside : GrpcWebServerHandle crates → World crates
at_outside h = record { handle = h; callers = λ i. outside }

abbrev started : GrpcWebServerHandle crates
started = (start true (new_handle plain)).1

abbrev built : GrpcWebServerHandle crates
built = after runtime_built 0 started

abbrev pub served : GrpcWebServerHandle crates
served = after server_made 0 built

abbrev busy : Task crates
busy = record { phase = serving; shutdown = pending; server_options = plain }

served_task : served.tasks 0 ≡ some busy
unfolding lifecycle after
served_task = refl

reach_served : ExclusiveReach web plain (at_outside served)
unfolding lifecycle after
reach_served =
    next (next (next begin (starts 0 true refl) (λ i. refl)) (runs runtime_built 0 refl) tt)
      (runs server_made 0 refl) tt

-- The same handle with caller 0 in the join of `wait`.
abbrev pub waiting : World crates
waiting = record { handle = (wait_begin served).1; callers = update (λ i. outside) 0 (joining 0) }

pub reach_waiting : ExclusiveReach web plain waiting
unfolding lifecycle after
reach_waiting = next reach_served (waits 0 refl) (λ i. refl)

-- ... and after the server has exited by itself and caller 0 has joined its thread.
abbrev pub ended : GrpcWebServerHandle crates
ended = after exits 0 (after flag_cleared 0 (after server_returns 0 (wait_begin served).1))

abbrev pub joined : World crates
joined = record {
  handle = ended;
  callers = update (update (λ i. outside) 0 (joining 0)) 0 relocking;
}

pub reach_joined : ExclusiveReach web plain joined
unfolding lifecycle after
reach_joined =
    next
      (next
        (next (next reach_waiting (runs server_returns 0 refl) tt) (runs flag_cleared 0 refl) tt)
        (runs exits 0 refl) tt)
      (joins 0 0 refl refl) tt

one_live_thread_example : ◌≡◌ {A = ℕ} 0 0
unfolding lifecycle after
one_live_thread_example = one_live_thread reach_served 0 0 busy busy (refl, refl) (refl, refl)

stopped_on_request_example :
    (busy.shutdown ≡ requested)
    ⊎ ((busy.shutdown ≡ pending) × (waiting.handle.state.stop_tx ≡ some 0))
unfolding lifecycle after
stopped_on_request_example = stopped_on_request reach_waiting 0 busy (refl, refl)

is_running-active_example : is_running waiting.handle ≡ true
unfolding lifecycle after
is_running-active_example = is_running-active reach_waiting 0 busy refl refl

wait_end_settles_example :
    AllEnded (wait_end joined.handle).1.tasks
    × (joined.handle.poisoned ≡ false
        → ((wait_end joined.handle).0 ≡ ok tt)
          × (is_running (wait_end joined.handle).1 ≡ false)
          × ((wait_end joined.handle).1.state ≡ idle_state))
wait_end_settles_example = wait_end_settles reach_joined 0 refl

start-ok_iff_example : ((start true served).0 ≡ ok tt) ↔ AllEnded served.tasks
unfolding lifecycle after
start-ok_iff_example = start-ok_iff reach_served (λ i. refl) refl

abbrev asked : Task crates
asked = record { phase = serving; shutdown = requested; server_options = plain }

shutdown_begin_joins_example :
    ((shutdown_begin served).0 ≡ ok (some 0)) × (asked.shutdown ≡ requested)
unfolding lifecycle after
shutdown_begin_joins_example =
    shutdown_begin_joins reach_served (λ i. refl) refl 0 asked (refl, refl)

Step-Inv_example : Inv (stop served).1 (λ i. outside)
Step-Inv_example =
    Step-Inv {web = web} {w = at_outside served} (stops 0 refl) tt (Reach-Inv reach_served)

pub plain_made : new_server web plain ≢ undefined
unfolding lifecycle
plain_made e = cc

stopped_thread_ends_example :
    (1 ≤ 5)
    × (((e : Event) → thread_step web e 0 (after sees_shutdown 0 (stop served).1) ≡ none)
        → (l : Task crates) × ((after sees_shutdown 0 (stop served).1).tasks 0 ≡ some l)
          × (ended_phase l.phase ≡ true))
unfolding lifecycle after
stopped_thread_ends_example =
    stopped_thread_ends web 0 served busy refl refl refl plain_made (steps sees_shutdown rests refl)

served_anyway : Reach web plain (at_outside served)
unfolding lifecycle after
served_anyway =
    Reach.next
      (Reach.next (Reach.next Reach.begin (starts 0 true refl)) (runs runtime_built 0 refl))
      (runs server_made 0 refl)

serving-IsValid_example : (busy.server_options ≡ plain) × IsValid plain
unfolding lifecycle after
serving-IsValid_example = serving-IsValid served_anyway 0 busy refl refl

waiting_serves : IsServing waiting 0 busy
unfolding lifecycle after
waiting_serves = record { here = refl; serves = refl; unasked = refl; linked = refl; sound = refl }

second_wait_stops_example :
    (u v : World crates) × Step web waiting u
    × Step web u v
    × (v.callers 0 ≡ joining 0)
    × (v.callers 1 ≡ outside)
    × (is_running v.handle ≡ false)
    × (v.handle.tasks 0 ≡ some (record busy { shutdown = dropped }))
    × ((start true v.handle).0 ≡ ok tt)
unfolding lifecycle after
second_wait_stops_example = second_wait_stops web waiting 0 busy waiting_serves refl 0 1 refl refl

-- Caller 0 has joined thread 0, and caller 1 has started thread 1, which serves.
abbrev restarted : World crates
restarted = record {
  handle = after server_made 1 (after runtime_built 1 (start true ended).1);
  callers = joined.callers;
}

restarted_serves : IsServing restarted 1 busy
unfolding lifecycle after
restarted_serves = record {
  here = refl;
  serves = refl;
  unasked = refl;
  linked = refl;
  sound = refl;
}

late_wait_stops_example :
    (v : World crates) × Step web restarted v
    × (is_running v.handle ≡ false)
    × (v.handle.state.thread ≡ some 1)
    × (v.handle.tasks 1 ≡ some (record busy { shutdown = dropped }))
unfolding lifecycle after
late_wait_stops_example = late_wait_stops web restarted 1 busy restarted_serves refl 0 refl

failed_spawn_example :
    let (result, h) = start false (new_handle plain) in
    (result ≡ panic) × (h.tasks ≡ (new_handle plain).tasks) × (is_running h ≡ true) × IsFrozen h
unfolding new_handle
failed_spawn_example = failed_spawn (new_handle plain) refl refl refl

abbrev about_to_make : GrpcWebServerHandle crates
about_to_make = after runtime_built 0 (start true (new_handle credentialed)).1

credentialed-IsValid : IsValid credentialed
unfolding lifecycle
credentialed-IsValid = (validate_iff credentialed).0 refl

wildcard_thread_panic_example :
    (h : GrpcWebServerHandle crates) × (thread_step web server_made 0 about_to_make ≡ some h)
    × (h.tasks 0
        ≡ some (record { phase = panicked; shutdown = pending; server_options = credentialed }))
    × (is_running h ≡ is_running about_to_make)
unfolding lifecycle after
wildcard_thread_panic_example =
    wildcard_thread_panic web web_panics credentialed
      (record { client = []; authority = text "127.0.0.1:50051"; use_tls = false })
      credentialed-IsValid refl (inl refl) refl about_to_make 0
      (record { phase = creating; shutdown = pending; server_options = credentialed }) refl refl
      refl
