-- ===== src/LockDrivers/Readers.antt =====
-- The threads of SeqLock/seqlock1.c and Spinlock/spin2.c, where one thread writes and one reads.
pub mod Seq
pub mod Consistent
pub mod Rw
pub mod Separate
mod Tests
