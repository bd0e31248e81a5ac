-- ===== src/Handle/Races.antt =====
-- What calls that overlap a `wait` do to a running server.
use grpc_web_server.Base.{ℕ, ◌≡◌, true, false, none, some, ok, arith}
use grpc_web_server.External.{External}
use grpc_web_server.Server.{Web}
use grpc_web_server.Handle.{
  pending, dropped, serving, Task, start_checked, cleanup_finished_locked, start, wait_begin,
  wait_end, is_running,
}
use grpc_web_server.Handle.System.{outside, joining, relocking, World, Step, waits, returns}

-- A server thread that serves and has not been asked to stop.
pub record IsServing {ext : External} (w : World ext) (t : ℕ) (k : Task ext) : Type 0 where
  pub here : w.handle.tasks t ≡ some k
  pub serves : k.phase ≡ serving
  pub unasked : k.shutdown ≡ pending
  pub linked : w.handle.state.stop_tx ≡ some t
  pub sound : w.handle.poisoned ≡ false

module _ {ext : External} (web : Web ext) (w : World ext) (t : ℕ) (k : Task ext)
    (s : IsServing w t k) where
  -- While one caller is in the join of `wait` for a serving thread, a second `wait` returns at once:
  -- nobody asked the server to stop, but its stop channel is closed, `is_running` is false while the
  -- server still serves, and a further `start` spawns a second thread beside it.
  pub second_wait_stops :
      w.handle.state.thread ≡ none
      → (i j : ℕ) → w.callers i ≡ joining t
      → w.callers j ≡ outside
      → (u v : World ext) × Step web w u
        × Step web u v
        × (v.callers i ≡ joining t)
        × (v.callers j ≡ outside)
        × (is_running v.handle ≡ false)
        × (v.handle.tasks t ≡ some (record k { shutdown = dropped }))
        × ((start true v.handle).0 ≡ ok tt)
  unfolding wait_begin wait_end is_running start start_checked cleanup_finished_locked
  second_wait_stops taken i j busy free = (
    _,
    _,
    waits j free,
    returns j (ground (arith, s.sound)),
    ground (arith, s.sound),
    ground (arith, s.sound),
    ground (arith, s.sound),
    ground (arith, s.sound, s.linked, s.here),
    ground (arith, s.sound),
  )

  -- A `wait` that has joined its thread, and returns after another caller has started the handle
  -- again, closes the stop channel of the new server and clears the flag while that server serves.
  pub late_wait_stops :
      w.handle.state.thread ≡ some t
      → (i : ℕ) → w.callers i ≡ relocking
      → (v : World ext) × Step web w v
        × (is_running v.handle ≡ false)
        × (v.handle.state.thread ≡ some t)
        × (v.handle.tasks t ≡ some (record k { shutdown = dropped }))
  unfolding wait_end is_running
  late_wait_stops kept i here = (
    _,
    returns i here,
    ground (arith, s.sound),
    ground (arith, s.sound),
    ground (arith, s.sound, s.linked, s.here),
  )
