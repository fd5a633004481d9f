-- ===== src/LockDrivers.antt =====
-- The drivers under Mutex, Semaphore, Spinlock, SeqLock and Atomic: each registers a character device
-- and runs two kernel threads. Their setup and teardown are the same but for calls that take no
-- resource, such as `mutex_init`; the children hold each driver's functions, and the threads.
pub mod Setup
pub mod Drivers
pub mod Cleanup
pub mod Guarded
pub mod Exclusion
pub mod Counting
pub mod Readers
mod Tests
