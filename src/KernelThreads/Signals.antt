-- ===== src/KernelThreads/Signals.antt =====
-- What a signal to the thread of Signal/signal2.c or Kthread/thread2.c does to the unload.
use linux_kernel_development.Prelude.{Bool, true, false, not, ◌≡◌, refl, arith}
use linux_kernel_development.KernelThreads.{
  ThreadPlace, out, cleared, gone, UnloadPlace, tested, unloaded, loaded, stopped_gone, Shared,
  started, Module, signal2, thread2, HandlerStep, leaves, stays, wakes, breaks, repeats, clears,
  exits_cleared, exits, UnloadStep, finds, finds_none, stops, stops_gone, waited, handler, exit,
  killed, ModuleReach, start, later,
}

-- What the pointer is while the thread stands at a place; thread2.c never comes to `cleared`.
abbrev consistent : Module → ThreadPlace → Bool → Bool
consistent signal2 cleared task = not task
consistent signal2 gone task = not task
consistent thread2 cleared task = false
consistent _ _ task = task

abbrev IsConsistent : Module → Shared → Type 0
IsConsistent m s = consistent m s.thread s.task ≡ true

HandlerStep-IsConsistent :
    (m : Module) {s t : Shared} → HandlerStep m s t → IsConsistent m s → IsConsistent m t
HandlerStep-IsConsistent signal2 (leaves here e) ok = ground arith
HandlerStep-IsConsistent thread2 (leaves here e) ok = ground arith
HandlerStep-IsConsistent signal2 (stays here e) ok = ground arith
HandlerStep-IsConsistent thread2 (stays here e) ok = ground arith
HandlerStep-IsConsistent signal2 (wakes here) ok = ground arith
HandlerStep-IsConsistent thread2 (wakes here) ok = ground arith
HandlerStep-IsConsistent signal2 (breaks here e) ok = ground arith
HandlerStep-IsConsistent thread2 (breaks here e) ok = ground arith
HandlerStep-IsConsistent signal2 (repeats here e) ok = ground arith
HandlerStep-IsConsistent thread2 (repeats here e) ok = ground arith
HandlerStep-IsConsistent signal2 (clears w here) ok = ground arith
HandlerStep-IsConsistent thread2 (clears w here) ok = ground arith
HandlerStep-IsConsistent signal2 (exits_cleared here) ok = ground arith
HandlerStep-IsConsistent thread2 (exits_cleared here) ok = ground arith
HandlerStep-IsConsistent signal2 (exits w here) ok = ground arith
HandlerStep-IsConsistent thread2 (exits w here) ok = ground arith

UnloadStep-IsConsistent :
    (m : Module) {s t : Shared} → UnloadStep s t → IsConsistent m s → IsConsistent m t
UnloadStep-IsConsistent m (finds here e) ok = ok
UnloadStep-IsConsistent m (finds_none here e) ok = ok
UnloadStep-IsConsistent m (stops here alive) ok = ok
UnloadStep-IsConsistent m (stops_gone here dead) ok = ok
UnloadStep-IsConsistent m (waited here dead) ok = ok

ModuleReach-IsConsistent : (m : Module) {s : Shared} → ModuleReach m s → IsConsistent m s
ModuleReach-IsConsistent signal2 start = refl
ModuleReach-IsConsistent thread2 start = refl
ModuleReach-IsConsistent m (later r (handler st)) =
    HandlerStep-IsConsistent m st (ModuleReach-IsConsistent m r)
ModuleReach-IsConsistent m (later r (exit st)) =
    UnloadStep-IsConsistent m st (ModuleReach-IsConsistent m r)
ModuleReach-IsConsistent m (later r killed) = ModuleReach-IsConsistent m r

-- What the unload comes to next if its thread has gone before.
abbrev pub after_gone : Module → UnloadPlace
after_gone signal2 = unloaded
after_gone thread2 = tested

-- If a thread has gone by the time the unload begins, the unload of signal2.c finds no pointer and is
-- done, and that of thread2.c finds the pointer of the thread that has gone, to stop it.
late_unload :
    (m : Module) {s t : Shared}
    → ModuleReach m s
    → s.thread ≡ gone
    → s.unload ≡ loaded
    → UnloadStep s t
    → (t.unload ≡ after_gone m) × (t.thread ≡ gone)
late_unload signal2 r dead here (finds now e) = ground (arith, ModuleReach-IsConsistent signal2 r)
late_unload thread2 r dead here (finds now e) = ground (arith, ModuleReach-IsConsistent thread2 r)
late_unload signal2 r dead here (finds_none now e) =
    ground (arith, ModuleReach-IsConsistent signal2 r)
late_unload thread2 r dead here (finds_none now e) =
    ground (arith, ModuleReach-IsConsistent thread2 r)
late_unload signal2 r dead here (stops now alive) =
    ground (arith, ModuleReach-IsConsistent signal2 r)
late_unload thread2 r dead here (stops now alive) =
    ground (arith, ModuleReach-IsConsistent thread2 r)
late_unload signal2 r dead here (stops_gone now d) =
    ground (arith, ModuleReach-IsConsistent signal2 r)
late_unload thread2 r dead here (stops_gone now d) =
    ground (arith, ModuleReach-IsConsistent thread2 r)
late_unload signal2 r dead here (waited now d) = ground (arith, ModuleReach-IsConsistent signal2 r)
late_unload thread2 r dead here (waited now d) = ground (arith, ModuleReach-IsConsistent thread2 r)

-- The thread has met a signal.
pub behind_loop :
    (m : Module) → ModuleReach m (record started { thread = out; signal_pending = true })
behind_loop m =
    later (later (later (later start killed) (handler (stays refl refl))) (handler (wakes refl)))
      (handler (breaks refl refl))

-- A state in which the unload stops a thread that has gone can be reached in both modules, after a
-- signal: in signal2.c by way of an unload that tests the pointer before the thread clears it.
pub signal_breaks : (m : Module) → (s : Shared) × ModuleReach m s × (s.unload ≡ stopped_gone)
signal_breaks signal2 = (
  _,
  later
      (later
        (later (later (behind_loop signal2) (exit (finds refl refl))) (handler (clears refl refl)))
        (handler (exits_cleared refl)))
      (exit (stops_gone refl refl)),
  refl,
)
signal_breaks thread2 = (
  _,
  later (later (later (behind_loop thread2) (handler (exits refl refl))) (exit (finds refl refl)))
      (exit (stops_gone refl refl)),
  refl,
)
