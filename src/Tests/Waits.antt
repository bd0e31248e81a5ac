-- ===== src/Tests/Waits.antt =====
-- A wait that is ended by a stop.
use grpc_web_server.Base.{◌≡◌, refl, none, ◌≤◌, update}
use grpc_web_server.Handle.{Task, stop, serving, requested}
use grpc_web_server.Handle.Threads.{Event, sees_shutdown, thread_step}
use grpc_web_server.Handle.System.{relocking, World, Step, stops, runs}
use grpc_web_server.Handle.Exclusive.Defs.{ExclusiveReach, next}
use grpc_web_server.Handle.Service.{Status, Mirrors, Shows}
use grpc_web_server.Handle.Service.Refines.{Reach-Mirrors}
use grpc_web_server.Handle.Waiting.{rests, steps, stopped_wait_ends}
use grpc_web_server.Tests.Fixtures.{crates, web, plain}
use grpc_web_server.Tests.Lifecycles.{
  lifecycle, after, waiting, reach_waiting, joined, reach_joined, plain_made,
}

-- Caller 0 is in the join, and caller 1 has called `stop`.
abbrev stopped : World crates
stopped = record waiting { handle = (stop waiting.handle).1 }

reach_stopped : ExclusiveReach web plain stopped
unfolding lifecycle after
reach_stopped = next reach_waiting (stops 1 refl) tt

abbrev leaving : World crates
leaving = record stopped { handle = after sees_shutdown 0 stopped.handle }

asked_task : Task crates
unfolding lifecycle after
asked_task = record { phase = serving; shutdown = requested; server_options = plain }

Reach-Mirrors_example : (a : Status) × Mirrors reach_joined a × Shows joined.handle a
Reach-Mirrors_example = Reach-Mirrors reach_joined

stopped_wait_ends_example :
    (1 ≤ 5)
    × (((e : Event) → thread_step web e 0 leaving.handle ≡ none)
        → Step web leaving (record leaving { callers = update leaving.callers 0 relocking }))
unfolding lifecycle after asked_task
stopped_wait_ends_example =
    stopped_wait_ends 0 0 reach_stopped asked_task refl refl (λ e. cc (e)) plain_made
      (steps rests (runs sees_shutdown 0 refl) tt refl)
