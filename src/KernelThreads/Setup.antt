-- ===== src/KernelThreads/Setup.antt =====
-- The init functions of Signal/signal2.c and Kthread/thread2.c, and the init and exit functions of
-- Kthread/thread1.c. A creation answers with a thread or, as the code expects, with NULL.
use linux_kernel_development.Prelude.{Bool, ◌&&◌, if◌then◌else◌, Option, none, some, ℤ, pos}
use linux_kernel_development.KernelThreads.{Shared, started}

-- Both threads are woken, whether they were created or not: `none` stands for a wake-up of NULL. Each
-- thread that is created is left as `started`.
unfoldable pub kernel_thread_init : Bool → Bool → Option (Shared × Shared × ℤ)
kernel_thread_init worker_ok default_ok =
    if worker_ok && default_ok then some (started, started, pos 0) else none

-- thread1.c: whether the threads have been woken, and the value returned.
unfoldable pub init_thread : Bool → Bool → Bool × ℤ
init_thread thread1_ok thread2_ok = (thread1_ok && thread2_ok, pos 0)

-- Both pointers are stopped: `none` stands for a stop of NULL.
unfoldable pub cleanup_thread : Bool → Bool → Option (Unit {0})
cleanup_thread thread1_ok thread2_ok = if thread1_ok && thread2_ok then some tt else none
