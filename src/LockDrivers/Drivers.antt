-- ===== src/LockDrivers/Drivers.antt =====
-- The file operations, the setup and the teardown of each driver with two threads, and the drivers as
-- one family.
pub mod Mutex
pub mod Semaphore
pub mod Spinlock
pub mod RwSpinlock
pub mod SeqLock
pub mod Atomic
use linux_kernel_development.Kernel.CharSetup.{Loaded}
use linux_kernel_development.LockDrivers.Setup.{Answers}
use linux_kernel_development.Kernel.Ledger.{Events}

pub data Driver : Type 0 where
  mutex semaphore spinlock rw_spinlock seqlock atomic : Driver

unfoldable pub driver_init : Driver → Answers → Loaded
unfolding Mutex.test_driver_init Semaphore.test_driver_init Spinlock.test_driver_init
    RwSpinlock.test_driver_init SeqLock.test_driver_init Atomic.test_driver_init
driver_init mutex = Mutex.test_driver_init
driver_init semaphore = Semaphore.test_driver_init
driver_init spinlock = Spinlock.test_driver_init
driver_init rw_spinlock = RwSpinlock.test_driver_init
driver_init seqlock = SeqLock.test_driver_init
driver_init atomic = Atomic.test_driver_init

unfoldable pub driver_exit : Driver → Events
unfolding Mutex.test_driver_exit Semaphore.test_driver_exit Spinlock.test_driver_exit
    RwSpinlock.test_driver_exit SeqLock.test_driver_exit Atomic.test_driver_exit
driver_exit mutex = Mutex.test_driver_exit
driver_exit semaphore = Semaphore.test_driver_exit
driver_exit spinlock = Spinlock.test_driver_exit
driver_exit rw_spinlock = RwSpinlock.test_driver_exit
driver_exit seqlock = SeqLock.test_driver_exit
driver_exit atomic = Atomic.test_driver_exit
