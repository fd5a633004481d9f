-- ===== src/LockDrivers/Drivers/Semaphore.antt =====
-- Semaphore/sem1.c: what the driver does besides its threads.
use linux_kernel_development.Prelude.{ℕ, ℤ, pos}
use linux_kernel_development.Kernel.Ledger.{Events}
use linux_kernel_development.Kernel.CharSetup.{Loaded}
use linux_kernel_development.LockDrivers.Setup.{Answers, init_with_threads, exit_with_threads}

unfoldable pub test_open : ℤ
test_open = pos 0

unfoldable pub test_release : ℤ
test_release = pos 0

-- Of `len` bytes, none is read.
unfoldable pub test_read : ℕ → ℤ
test_read len = pos 0

-- All bytes count as written.
unfoldable pub test_write : ℕ → ℤ
test_write len = pos len

unfoldable pub test_driver_init : Answers → Loaded
unfolding init_with_threads
test_driver_init a = init_with_threads a

unfoldable pub test_driver_exit : Events
test_driver_exit = exit_with_threads
