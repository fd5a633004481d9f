-- ===== src/BlockDevice.antt =====
-- BlockDriver/blk1.c: a block device in memory, with simulated media changes.
pub mod Transfer
pub mod Media
pub mod Setup
pub mod Bounds
pub mod Requests
pub mod RoundTrip
pub mod Changes
pub mod Cleanup
mod Tests
use linux_kernel_development.Prelude.{ℕ, ◌^◌, Bool, List}

-- `struct blk1_dev`, but for the lock and the handles that the kernel gives out. `users` and
-- `media_change` are `short`s: `users` is kept as a bit pattern. The timer is the flag whether it is
-- pending.
pub record Blk1Dev : Type 0 where
  pub size : ℕ
  pub content : List ℕ
  pub users : ℕ
  pub media_change : Bool
  pub timer_pending : Bool

abbrev pub kernel_sector_size : ℕ
kernel_sector_size = 512

-- The modulus of `unsigned long`.
abbrev pub long_mod : ℕ
long_mod = 2 ^ 64

-- The modulus of the bit patterns of a `short`.
abbrev pub short_mod : ℕ
short_mod = 2 ^ 16
