-- ===== src/KernelThreads.antt =====
-- Signal/signal2.c and Kthread/thread2.c: a kernel thread that ends when it is stopped or a signal is
-- pending, its pointer at file scope, and the unload, which stops the thread that the pointer names.
-- Both modules have two such threads, which do not share anything, so that one is modelled.
use linux_kernel_development.Prelude.{ℕ, Bool, true, false, if◌then◌else◌, ◌≡◌, ◌≢◌}
pub mod Setup
pub mod Unload
pub mod Signals
mod Tests

-- Where the thread stands: before the test of `kthread_should_stop`, asleep, before the test for a
-- signal, behind the loop, with its pointer cleared, and gone.
pub data ThreadPlace : Type 0 where
  testing sleeping woken out cleared gone : ThreadPlace

-- Where the unload stands: not begun, behind the test of the pointer, in `kthread_stop`, behind it, and
-- behind a call of `kthread_stop` for a thread that has gone.
pub data UnloadPlace : Type 0 where
  loaded tested stopping unloaded stopped_gone : UnloadPlace

-- `task` tells whether the pointer is not NULL.
pub record Shared : Type 0 where
  pub thread : ThreadPlace
  pub unload : UnloadPlace
  pub task : Bool
  pub should_stop : Bool
  pub signal_pending : Bool

-- The module after an init that has created and woken its thread.
abbrev pub started : Shared
started = record {
  thread = testing;
  unload = loaded;
  task = true;
  should_stop = false;
  signal_pending = false;
}

-- `do_exit` does not return. signal2.c clears the pointer before it, thread2.c has the assignment
-- behind it.
pub data Module : Type 0 where
  signal2 thread2 : Module

-- A step of `worker_task_handler_fn` or `default_task_handler_fn`.
pub data HandlerStep (m : Module) (s : Shared) : Shared → Type 0 where
  leaves : s.thread ≡ testing → s.should_stop ≡ true → HandlerStep m s (record s { thread = out })
  stays :
      s.thread ≡ testing → s.should_stop ≡ false → HandlerStep m s (record s { thread = sleeping })
  wakes : s.thread ≡ sleeping → HandlerStep m s (record s { thread = woken })
  breaks : s.thread ≡ woken → s.signal_pending ≡ true → HandlerStep m s (record s { thread = out })
  repeats :
      s.thread ≡ woken → s.signal_pending ≡ false → HandlerStep m s (record s { thread = testing })
  clears :
      m ≡ signal2 → s.thread ≡ out → HandlerStep m s (record s { thread = cleared; task = false })
  exits_cleared : s.thread ≡ cleared → HandlerStep m s (record s { thread = gone })
  exits : m ≡ thread2 → s.thread ≡ out → HandlerStep m s (record s { thread = gone })

-- A step of `kernel_thread_exit`.
pub data UnloadStep (s : Shared) : Shared → Type 0 where
  finds : s.unload ≡ loaded → s.task ≡ true → UnloadStep s (record s { unload = tested })
  finds_none : s.unload ≡ loaded → s.task ≡ false → UnloadStep s (record s { unload = unloaded })
  stops :
      s.unload ≡ tested
      → s.thread ≢ gone
      → UnloadStep s (record s { unload = stopping; should_stop = true })
  stops_gone :
      s.unload ≡ tested → s.thread ≡ gone → UnloadStep s (record s { unload = stopped_gone })
  waited : s.unload ≡ stopping → s.thread ≡ gone → UnloadStep s (record s { unload = unloaded })

-- The thread, the unload, and whoever sends it a signal, in any order.
pub data ModuleStep (m : Module) (s : Shared) : Shared → Type 0 where
  handler : {t : Shared} → HandlerStep m s t → ModuleStep m s t
  exit : {t : Shared} → UnloadStep s t → ModuleStep m s t
  killed : ModuleStep m s (record s { signal_pending = true })

pub data ModuleReach (m : Module) : Shared → Type 0 where
  start : ModuleReach m started
  later : {s t : Shared} → ModuleReach m s → ModuleStep m s t → ModuleReach m t
