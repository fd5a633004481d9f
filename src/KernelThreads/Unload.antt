-- ===== src/KernelThreads/Unload.antt =====
-- When the unload of Signal/signal2.c and Kthread/thread2.c is safe.
use linux_kernel_development.Prelude.{
  Bool, true, false, not, ◌&&◌, ◌≡◌, ◌≢◌, refl, sym, ◌∙◌, arith, ◌⊎◌, inl, inr,
}
use linux_kernel_development.KernelThreads.{
  ThreadPlace, testing, sleeping, woken, out, cleared, gone, UnloadPlace, loaded, tested, stopping,
  unloaded, stopped_gone, Shared, Module, HandlerStep, leaves, stays, wakes, breaks, repeats,
  clears, exits_cleared, exits, UnloadStep, finds, finds_none, stops, stops_gone, waited, handler,
  exit, killed, ModuleReach, start, later,
}

abbrev in_loop : ThreadPlace → Bool
in_loop testing = true
in_loop sleeping = true
in_loop woken = true
in_loop _ = false

abbrev is_gone : ThreadPlace → Bool
is_gone gone = true
is_gone _ = false

-- What holds while no signal has come: the thread stays in its loop, with its pointer, until the unload
-- has told it to stop, and the unload ends behind the thread.
abbrev orderly : UnloadPlace → ThreadPlace → Bool → Bool → Bool
orderly loaded p task stop = in_loop p && (task && not stop)
orderly tested p task stop = in_loop p && (task && not stop)
orderly stopping p task stop = stop
orderly unloaded p task stop = is_gone p
orderly stopped_gone p task stop = false

abbrev IsOrderly : Shared → Type 0
IsOrderly s = orderly s.unload s.thread s.task s.should_stop ≡ true

HandlerStep-IsOrderly :
    {m : Module} {s t : Shared}
    → HandlerStep m s t
    → s.signal_pending ≡ false
    → IsOrderly s
    → (t.signal_pending ≡ false) × IsOrderly t
HandlerStep-IsOrderly (leaves here e) quiet ok = ground arith
HandlerStep-IsOrderly (stays here e) quiet ok = ground arith
HandlerStep-IsOrderly (wakes here) quiet ok = ground arith
HandlerStep-IsOrderly (breaks here e) quiet ok = ground arith
HandlerStep-IsOrderly (repeats here e) quiet ok = ground arith
HandlerStep-IsOrderly (clears m here) quiet ok = ground arith
HandlerStep-IsOrderly (exits_cleared here) quiet ok = ground arith
HandlerStep-IsOrderly (exits m here) quiet ok = ground arith

UnloadStep-IsOrderly : {s t : Shared} → UnloadStep s t → IsOrderly s → IsOrderly t
UnloadStep-IsOrderly (finds here e) ok = ground arith
UnloadStep-IsOrderly (finds_none here e) ok = ground arith
UnloadStep-IsOrderly (stops here alive) ok = ground arith
UnloadStep-IsOrderly (stops_gone here dead) ok = ground arith
UnloadStep-IsOrderly (waited here dead) ok = ground arith

UnloadStep-quiet : {s t : Shared} → UnloadStep s t → t.signal_pending ≡ s.signal_pending
UnloadStep-quiet (finds here e) = refl
UnloadStep-quiet _ = refl

HandlerStep-quiet :
    {m : Module} {s t : Shared} → HandlerStep m s t → t.signal_pending ≡ s.signal_pending
HandlerStep-quiet (leaves here e) = refl
HandlerStep-quiet _ = refl

ModuleReach-IsOrderly :
    {m : Module} {s : Shared} → ModuleReach m s → s.signal_pending ≡ false → IsOrderly s
ModuleReach-IsOrderly start quiet = refl
ModuleReach-IsOrderly (later r (handler st)) quiet =
    let before = HandlerStep-quiet st in
    let calm = sym before ∙ quiet in
    (HandlerStep-IsOrderly st calm (ModuleReach-IsOrderly r calm)).1
ModuleReach-IsOrderly (later r (exit st)) quiet =
    UnloadStep-IsOrderly st (ModuleReach-IsOrderly r (sym (UnloadStep-quiet st) ∙ quiet))
ModuleReach-IsOrderly (later r killed) quiet = cc quiet

-- How the unload stands to the thread, if it is safe.
abbrev pub SafeUnload : Shared → Type 0
SafeUnload s = (s.unload ≢ stopped_gone) × ((s.unload ≢ unloaded) ⊎ (s.thread ≡ gone))

-- As long as no signal has been sent to the thread, and however the thread and the unload are
-- interleaved, neither module stops a thread that has gone, and neither is unloaded while its thread
-- has not gone.
pub quiet-SafeUnload :
    {m : Module} {s : Shared} → ModuleReach m s → s.signal_pending ≡ false → SafeUnload s
quiet-SafeUnload {s} r quiet =
    safe s.unload s.thread s.task s.should_stop (ModuleReach-IsOrderly r quiet)
  where
    safe :
        (u : UnloadPlace) (p : ThreadPlace) (task stop : Bool)
        → orderly u p task stop ≡ true
        → (u ≢ stopped_gone) × ((u ≢ unloaded) ⊎ (p ≡ gone))
    safe loaded p task stop ok = (λ e. cc e, inl (λ e. cc e))
    safe tested p task stop ok = (λ e. cc e, inl (λ e. cc e))
    safe stopping p task stop ok = (λ e. cc e, inl (λ e. cc e))
    safe unloaded gone task stop ok = (λ e. cc e, inr refl)
    safe unloaded testing task stop ok = cc ok
    safe unloaded sleeping task stop ok = cc ok
    safe unloaded woken task stop ok = cc ok
    safe unloaded out task stop ok = cc ok
    safe unloaded cleared task stop ok = cc ok
    safe stopped_gone p task stop ok = cc ok
