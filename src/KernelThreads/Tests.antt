-- ===== src/KernelThreads/Tests.antt =====
-- The theorems on the threads of Signal/signal2.c and Kthread/thread2.c at concrete runs.
use linux_kernel_development.Prelude.{true, false, none, ◌≡◌, refl, pos}
use linux_kernel_development.KernelThreads.{
  gone, stopped_gone, unloaded, Shared, started, signal2, thread2, leaves, clears, exits_cleared,
  exits, finds, stops, waited, handler, exit, ModuleReach, start, later,
}
use linux_kernel_development.KernelThreads.Unload.{SafeUnload, quiet-SafeUnload}
use linux_kernel_development.KernelThreads.Signals.{behind_loop, signal_breaks}
use linux_kernel_development.KernelThreads.Setup.{init_thread, cleanup_thread}

abbrev all_done : Shared
all_done = record {
  thread = gone;
  unload = unloaded;
  task = false;
  should_stop = true;
  signal_pending = false;
}

all_done-reached : ModuleReach signal2 all_done
all_done-reached =
    later
      (later
        (later
          (later (later (later start (exit (finds refl refl))) (exit (stops refl (λ e. cc e))))
            (handler (leaves refl refl)))
          (handler (clears refl refl)))
        (handler (exits_cleared refl)))
      (exit (waited refl refl))

quiet-SafeUnload_example : SafeUnload all_done
quiet-SafeUnload_example = quiet-SafeUnload all_done-reached refl

-- A signal has ended the thread of thread2.c before the unload.
abbrev killed_early : Shared
killed_early = record started { thread = gone; signal_pending = true }

killed_early-reached : ModuleReach thread2 killed_early
killed_early-reached = later (behind_loop thread2) (handler (exits refl refl))

signal_breaks_example : (s : Shared) × ModuleReach signal2 s × (s.unload ≡ stopped_gone)
signal_breaks_example = signal_breaks signal2

-- thread1.c loads without its second thread, and its unload stops NULL.
half_created : (init_thread true false ≡ (false, pos 0)) × (cleanup_thread true false ≡ none)
unfolding init_thread cleanup_thread
half_created = (refl, refl)
