-- ===== src/Handle/Calls.antt =====
-- Poisoned locks, failed spawns and panics of the server thread.
use grpc_web_server.Base.{
  ℕ, ◌≡◌, refl, ◌⊎◌, Bool, true, false, none, some, ok, err, panic, arith, update,
}
use grpc_web_server.External.{External}
use grpc_web_server.Config.{GrpcWebServerOptions}
use grpc_web_server.Config.Validation.{IsValid}
use grpc_web_server.Proxy.{GrpcWebProxy, new_proxy}
use grpc_web_server.Server.{CorsSettings, Web}
use grpc_web_server.Server.Assembly.{HasWildcard, new_server_wildcard_panic}
use grpc_web_server.Handle.{
  state_poisoned, creating, panicked, Task, GrpcWebServerHandle, cleanup_finished_locked,
  new_handle, start_checked, start, wait_begin, wait_end, stop, shutdown_begin, is_running,
}
use grpc_web_server.Handle.Threads.{server_made, move, thread_step}

module _ {ext : External} (h : GrpcWebServerHandle ext) where
  -- Every call reports the poisoned lock, and none changes the handle.
  abbrev pub IsFrozen : Type 0
  IsFrozen =
      ((spawns : Bool) → start spawns h ≡ (err state_poisoned, h))
      × (wait_begin h ≡ (err state_poisoned, h))
      × (wait_end h ≡ (err state_poisoned, h))
      × (stop h ≡ (err state_poisoned, h))
      × (shutdown_begin h ≡ (err state_poisoned, h))

  -- A handle whose lock is poisoned is frozen.
  pub poisoned-IsFrozen : h.poisoned ≡ true → IsFrozen
  unfolding start wait_begin wait_end stop shutdown_begin
  poisoned-IsFrozen dead =
      (λ spawns. ground arith, ground arith, ground arith, ground arith, ground arith)

-- Where the system cannot make a thread, `start` of an idle handle panics with the lock held: from
-- then on `is_running` is true although no server was started, and every call fails.
pub failed_spawn :
    {ext : External} (h : GrpcWebServerHandle ext)
    → h.poisoned ≡ false
    → h.state.thread ≡ none
    → h.running ≡ false
    → let (result, h') = start false h in
      (result ≡ panic) × (h'.tasks ≡ h.tasks) × (is_running h' ≡ true) × IsFrozen h'
unfolding start start_checked cleanup_finished_locked is_running
failed_spawn h sound empty off =
    (ground arith, ground arith, ground arith, poisoned-IsFrozen (start false h).1 (ground arith))

-- Suppose that, as tower-http documents, adding a CORS layer panics where credentials are combined
-- with a wildcard. Then for options that pass validation, send credentials and allow any method or
-- header, the server thread panics while it makes its server, once the proxy can be built; the
-- thread is gone, and `is_running` keeps the value it had.
pub wildcard_thread_panic :
    {ext : External} (web : Web ext)
    → ((router : web.Router) (s : CorsSettings ext)
        → s.credentials ≡ true
        → HasWildcard s
        → web.layer_cors router s ≡ panic)
    → (o : GrpcWebServerOptions ext) (proxy : GrpcWebProxy ext) → IsValid o
    → o.cors_policy.allow_credentials ≡ true
    → (o.cors_policy.allow_any_method ≡ true) ⊎ (o.cors_policy.allow_any_header ≡ true)
    → new_proxy ext o.grpc_address o.grpc_ca_cert o.grpc_proxy_cert o.grpc_proxy_key ≡ ok proxy
    → (h : GrpcWebServerHandle ext) (t : ℕ) (k : Task ext) → h.tasks t ≡ some k
    → k.phase ≡ creating
    → k.server_options ≡ o
    → (h' : GrpcWebServerHandle ext) × (thread_step web server_made t h ≡ some h')
      × (h'.tasks t ≡ some (record k { phase = panicked }))
      × (is_running h' ≡ is_running h)
unfolding thread_step move is_running
wildcard_thread_panic web panics o proxy valid sends open_choice built h t k at makes same =
    let made = new_server_wildcard_panic web panics o proxy valid sends open_choice built in
    (
      record h { tasks = update h.tasks t (some (record k { phase = panicked })) },
      ground (arith, at, makes, same, made),
      ground arith,
      refl,
    )

-- A new handle starts its first server, whatever its options.
pub first_start :
    {ext : External} (o : GrpcWebServerOptions ext)
    → let (result, h) = start true (new_handle o) in (result ≡ ok tt) × (is_running h ≡ true)
unfolding start start_checked cleanup_finished_locked is_running new_handle
first_start o = (refl, refl)
