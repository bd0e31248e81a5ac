-- ===== src/Handle/Service.antt =====
-- src/server/handle.rs, seen from outside: the service that a handle stands for.
--
-- The abstract service is off, on, or on its way down. It says nothing of locks, join handles,
-- channels or flags.
pub mod Calls
pub mod Refines
use grpc_web_server.Base.{ℕ, ◌≡◌, ◌≢◌, ◌⊎◌, ok}
use grpc_web_server.External.{External}
use grpc_web_server.Config.{GrpcWebServerOptions}
use grpc_web_server.Server.{Web}
use grpc_web_server.Handle.{pending, requested, Task, GrpcWebServerHandle, start, stop}
use grpc_web_server.Handle.System.{World, Step, starts, stops, waits, joins, returns, runs}
use grpc_web_server.Handle.Exclusive.Defs.{IsLive, AllEnded, ExclusiveReach, begin, next}

pub data Status : Type 0 where
  off on stopping : Status

-- What `stop` makes of the service.
abbrev pub asked : Status → Status
asked off = off
asked on = stopping
asked stopping = stopping

-- The service that a handle shows: every thread has ended, or one is live and has not been asked to
-- stop, or one is live and has been asked.
abbrev pub Shows : {ext : External} → GrpcWebServerHandle ext → Status → Type 0
Shows h off = AllEnded h.tasks
Shows {ext} h on = (t : ℕ) × (k : Task ext) × IsLive h t k × (k.shutdown ≡ pending)
Shows {ext} h stopping = (t : ℕ) × (k : Task ext) × IsLive h t k × (k.shutdown ≡ requested)

-- What each step may do to the service: only a `start` that returns `Ok` turns it on, and only from
-- off; only a `stop` that returns `Ok` asks it to stop; `wait` does nothing to it and returns only
-- when it is off; a step of a thread leaves it as it is or ends it.
abbrev pub Permits :
    {ext : External} {web : Web ext} {w v : World ext} → Step web w v → Status → Status → Type 0
Permits {w} (starts i spawns o) a b =
    (((start spawns w.handle).0 ≡ ok tt) × (a ≡ off) × (b ≡ on))
    ⊎ (((start spawns w.handle).0 ≢ ok tt) × (a ≡ b))
Permits {w} (stops i o) a b =
    (((stop w.handle).0 ≡ ok tt) × (asked a ≡ b)) ⊎ (((stop w.handle).0 ≢ ok tt) × (a ≡ b))
Permits (waits i o) a b = a ≡ b
Permits (joins i t c e) a b = a ≡ b
Permits (returns i c) a b = (a ≡ off) × (b ≡ off)
Permits (runs e t s) a b = (a ≡ b) ⊎ (b ≡ off)

-- The service goes along with a run: it starts off, and each step is permitted.
abbrev pub Mirrors :
    {ext : External} {web : Web ext} {o : GrpcWebServerOptions ext} {w : World ext}
    → ExclusiveReach web o w
    → Status
    → Type 0
Mirrors begin b = b ≡ off
Mirrors (next r s x) b = (a : Status) × Mirrors r a × Permits s a b
