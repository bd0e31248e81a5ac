-- ===== src/Ffi/Ownership.antt =====
-- src/server/ffi.rs: which handles a process owns, and tracing.
use grpc_web_server.Base.{
  ℕ, suc, ◌<◌, Str, ◌≡◌, ◌≢◌, refl, sym, ap, subst, ◌∙◌, inl, inr, Bool, true, false, none, some,
  Option, Option-cases, text, update, ok, err, ◌==◌, arith, Bool-cases, ==_iff, List, [], ◌∷◌,
}
use grpc_web_server.External.{External}
use grpc_web_server.Config.Validation.{IsValid}
use grpc_web_server.Server.{Web, new_server}
use grpc_web_server.Server.Assembly.{new_server_invalid}
use grpc_web_server.Utils.{Memory}
use grpc_web_server.Ffi.{
  LogLevel, error, warn, info, debug, trace, as_str, GrpcWebServerOptions, to_options,
}
use grpc_web_server.Ffi.Conversion.{IsConverted, to_options-ok_iff}
use grpc_web_server.Ffi.Exports.{
  Process, allocate, created, on_handle, call_at, init_tracing_once, first_filter, returns, create,
  start, wait_begin, wait_end, stop, destroy, is_running,
}
use grpc_web_server.Ffi.Changes.{
  Call, perform, target, Changes, call-cases, create-IsCreated, created_of,
}
use grpc_web_server.Handle
use grpc_web_server.Handle.Calls.{first_start}
use grpc_web_server.Handle.{GrpcWebServerHandle, new_handle}

-- The filter for a log level.
abbrev pub level_filter : LogLevel → Str
level_filter error = text "grpc_web_server=error,tower_http=info"
level_filter warn = text "grpc_web_server=warn,tower_http=info"
level_filter info = text "grpc_web_server=info,tower_http=info"
level_filter debug = text "grpc_web_server=debug,tower_http=info"
level_filter trace = text "grpc_web_server=trace,tower_http=info"

first_filter-level : (level : LogLevel) → first_filter none level ≡ level_filter level
unfolding as_str text
first_filter-level error = refl
first_filter-level warn = refl
first_filter-level info = refl
first_filter-level debug = refl
first_filter-level trace = refl

module _ {ext : External} where
  -- No handle is at the null pointer, and none where nothing was allocated.
  pub record IsSound (p : Process ext) : Type 0 where
    pub null : p.handles 0 ≡ none
    pub fresh : (a : ℕ) → p.allocations < a → p.handles a ≡ none

  create-IsSound :
      (mem : Memory) (o : GrpcWebServerOptions) (p : Process ext) (a : ℕ) (p' : Process ext)
      → create mem o p ≡ some (a, p')
      → IsSound p
      → IsSound p'
  unfolding init_tracing_once
  create-IsSound mem o p a p' e sound = elim (create-IsCreated mem o p a p' e) [
    | inl (options, converted, made, handles, counted, traced) ↦ record {
      null = ap (λ f. f 0) handles ∙ ground (arith, sound.null);
      fresh = λ b beyond.
          let old = sound.fresh b (omega (arith, beyond, counted)) in
          ap (λ f. f b) handles ∙ ground (arith, beyond, counted, old);
    }
    | inr (failed, result, same) ↦
        subst IsSound (sym same) (record { null = sound.null; fresh = sound.fresh })
  ]

  changed-IsSound : (a : ℕ) (p p' : Process ext) → Changes a p p' → IsSound p → IsSound p'
  changed-IsSound a p p' c sound = record {
    null = elim (Bool-cases (a == 0)) [
      | inl here ↦
          let a≡0 = (==_iff a 0).0 here in
          subst (λ b. p'.handles b ≡ none) a≡0
            (c.absent (subst (λ b. p.handles b ≡ none) (sym a≡0) sound.null))
      | inr there ↦ c.others 0 (λ e. ground (arith, there, e)) ∙ sound.null
    ];
    fresh = λ b beyond.
        let old = sound.fresh b (omega (arith, beyond, c.allocations)) in
        elim (Bool-cases (a == b)) [
          | inl here ↦
              let a≡b = (==_iff a b).0 here in
              subst (λ d. p'.handles d ≡ none) a≡b
                (c.absent (subst (λ d. p.handles d ≡ none) (sym a≡b) old))
          | inr there ↦ c.others b (λ e. ground (arith, there, e)) ∙ old
        ];
  }

  -- As long as C keeps the contracts, whatever it calls, no handle is ever at the null pointer or at
  -- an address that was not allocated.
  perform-IsSound : (c : Call) (p p' : Process ext) → IsSound p → perform c p ≡ some p' → IsSound p'
  perform-IsSound c p p' sound e = elim (call-cases c p p' e) [
    | inl (mem, o, is_create) ↦
        let (a, made) = created_of mem o p p' (ap (λ d. perform d p) (sym is_create) ∙ e) in
        create-IsSound mem o p a p' made sound
    | inr changes ↦ changed-IsSound (target c p) p p' changes sound
  ]

  create-tracing :
      (mem : Memory) (o : GrpcWebServerOptions) (p : Process ext) (a : ℕ) (p' : Process ext)
      → create mem o p ≡ some (a, p')
      → p'.tracing ≡ some (first_filter p.tracing o.log_level)
  unfolding init_tracing_once
  create-tracing mem o p a p' e = elim (create-IsCreated mem o p a p' e) [
    | inl (options, converted, made, handles, counted, traced) ↦ traced
    | inr (failed, result, same) ↦ ap (λ (q : Process ext). q.tracing) same
  ]

  -- A call leaves every handle alone but the one that it is about; `create` leaves all alone.
  perform-frame :
      (c : Call) (p p' : Process ext) (b : ℕ)
      → perform c p ≡ some p'
      → b ≢ target c p
      → p'.handles b ≡ p.handles b
  unfolding init_tracing_once
  perform-frame c p p' b e other = elim (call-cases c p p' e) [
    | inl (mem, o, is_create) ↦
        let (a, made) = created_of mem o p p' (ap (λ d. perform d p) (sym is_create) ∙ e) in
        let apart : b ≢ suc p.allocations = subst (λ d. b ≢ target d p) is_create other in
        elim (create-IsCreated mem o p a p' made) [
          | inl (options, converted, at, handles, counted, traced) ↦
              ap (λ f. f b) handles ∙ ground (arith, apart)
          | inr (failed, result, same) ↦ ap (λ (q : Process ext). q.handles b) same
        ]
    | inr changes ↦ changes.others b other
  ]

  -- In a sound process, a pointer that `create` returns and that is not null is at a handle of its
  -- own: no handle was there, the new one is idle and has the options that memory describes.
  pub create-IsOwner :
      (mem : Memory) (o : GrpcWebServerOptions) (p : Process ext)
      → IsSound p
      → (a : ℕ) (p' : Process ext) → create mem o p ≡ some (a, p')
      → a ≢ 0
      → (options : grpc_web_server.Config.GrpcWebServerOptions ext) × IsConverted mem o options
        × (p.handles a ≡ none)
        × (p'.handles a ≡ some (new_handle options))
  unfolding init_tracing_once
  create-IsOwner mem o p sound a p' returned a≢0 = elim (create-IsCreated mem o p a p' returned) [
    | inl (options, converted, a≡, handles, counted, traced) ↦ (
      options,
      (to_options-ok_iff mem o options).0 converted,
      sound.fresh a (omega (arith, a≡)),
      ap (λ f. f a) handles ∙ ground (arith, a≡),
    )
    | inr (failed, null, same) ↦ absurd (a≢0 null)
  ]

  -- Calls in order, each of which keeps the contract.
  unfoldable pub runs : List Call → Process ext → Option (Process ext)
  runs [] p = some p
  runs (c ∷ cs) p = elim (perform c p) [ none ↦ none | some p' ↦ runs cs p' ]

  perform-tracing :
      (c : Call) (p p' : Process ext) (filter : Str)
      → perform c p ≡ some p'
      → p.tracing ≡ some filter
      → p'.tracing ≡ some filter
  perform-tracing c p p' filter e set = elim (call-cases c p p' e) [
    | inl (mem, o, is_create) ↦
        let (a, made) = created_of mem o p p' (ap (λ d. perform d p) (sym is_create) ∙ e) in
        create-tracing mem o p a p' made ∙ ap (λ t. some (first_filter t o.log_level)) set
    | inr changes ↦ changes.tracing ∙ set
  ]

  runs-tracing :
      (cs : List Call) (p p' : Process ext) (filter : Str)
      → runs cs p ≡ some p'
      → p.tracing ≡ some filter
      → p'.tracing ≡ some filter
  unfolding runs
  runs-tracing [] p p' filter e set =
      let same : p ≡ p' = cc (e) in subst (λ (q : Process ext). q.tracing ≡ some filter) same set
  runs-tracing (c ∷ cs) p p' filter e set = elim (Option-cases (perform c p)) [
    | inl broken ↦ ground (arith, e, broken)
    | inr (q, done) ↦
        runs-tracing cs q p' filter (ground (arith, e, done))
          (perform-tracing c p q filter done set)
  ]

  -- The log level of the first call of `create` decides, even if that call returns null: whatever is
  -- called later, tracing keeps the filter with the word for that level for this library, and "info"
  -- for tower_http.
  pub tracing_first :
      (mem : Memory) (o : GrpcWebServerOptions) (p : Process ext) (a : ℕ) (p1 : Process ext)
      (later : List Call) (p2 : Process ext)
      → p.tracing ≡ none
      → create mem o p ≡ some (a, p1)
      → runs later p1 ≡ some p2
      → p2.tracing ≡ some (level_filter o.log_level)
  tracing_first mem o p a p1 later p2 unset made ran = runs-tracing later p1 p2 _ ran (
      create-tracing mem o p a p1 made
      ∙ ap (λ t. some (first_filter t o.log_level)) unset
      ∙ ap some (first_filter-level o.log_level))

  start-handle :
      (a : ℕ) (p : Process ext) (h : GrpcWebServerHandle ext)
      → a ≢ 0
      → p.handles a ≡ some h
      → (grpc_web_server.Handle.start true h).0 ≡ ok tt
      → (p' : Process ext) × (start true a p ≡ some (true, p'))
        × (p'.handles a ≡ some (grpc_web_server.Handle.start true h).1)
  unfolding start on_handle call_at
  start-handle a p h a≢0 there begun = (
    record p { handles = update p.handles a (some (grpc_web_server.Handle.start true h).1) },
    ground (arith, a≢0, there, begun),
    ground arith,
  )

  is_running-handle :
      (a : ℕ) (p : Process ext) (h : GrpcWebServerHandle ext)
      → a ≢ 0
      → p.handles a ≡ some h
      → grpc_web_server.Handle.is_running h ≡ true
      → (p' : Process ext) × (is_running a p ≡ some (true, p'))
  unfolding is_running on_handle call_at
  is_running-handle a p h a≢0 there flagged =
      (record p { handles = update p.handles a (some h) }, ground (arith, a≢0, there, flagged))

  -- Options that convert but that validation rejects are not noticed by `create`: it returns a handle,
  -- `start` on it answers true and `is_running` answers true, although no server can be made of them.
  pub create_unvalidated :
      (web : Web ext) (mem : Memory) (o : GrpcWebServerOptions) (p : Process ext)
      (options : grpc_web_server.Config.GrpcWebServerOptions ext)
      → to_options mem o ≡ ok options
      → ¬ IsValid options
      → let a = suc p.allocations in
        (made : Process ext) × (started : Process ext) × (asked : Process ext) × (create mem o p
          ≡ some (a, made))
        × (start true a made ≡ some (true, started))
        × (is_running a started ≡ some (true, asked))
        × (e : Str) × (new_server web options ≡ err e)
  unfolding create created allocate
  create_unvalidated web mem o p options converted invalid =
      let a = suc p.allocations in
      let a≢0 : a ≢ 0 = omega arith in
      let (made, returned, there) = new_at (init_tracing_once o.log_level p) in
      let (begun, flagged) = first_start options in
      let (started, answered, kept) = start-handle a made (new_handle options) a≢0 there begun in
      let (asked, told) = is_running-handle a started _ a≢0 kept flagged in
      let (e, refused) = new_server_invalid web options invalid in
      (
        made,
        started,
        asked,
        ap (λ m. created m (init_tracing_once o.log_level p)) converted ∙ returned,
        answered,
        told,
        e,
        refused,
      )
    where
      new_at :
          (q : Process ext)
          → (made : Process ext) × (created (ok options) q ≡ some (suc q.allocations, made))
            × (made.handles (suc q.allocations) ≡ some (new_handle options))
      new_at q = ((allocate (new_handle options) q).1, refl, ground arith)

  -- On the null pointer every function answers false, or null, and nothing changes.
  null_pointer :
      (p : Process ext)
      → ((spawns : Bool) → start spawns 0 p ≡ some (false, p))
        × (wait_begin 0 p ≡ some (returns false, p))
        × (wait_end 0 p ≡ some (false, p))
        × (is_running 0 p ≡ some (false, p))
        × (stop 0 p ≡ some (false, p))
        × (destroy 0 p ≡ some (returns false, p))
  unfolding start wait_begin wait_end is_running stop destroy
  null_pointer p = (λ spawns. refl, refl, refl, refl, refl, refl)
