-- ===== src/BulkLoopback.antt =====
-- USB/usbdrv4.c: a loop-back bulk device, read and written in whole messages through two buffers.
pub mod Read
pub mod Write
pub mod Probe
pub mod Binding
pub mod Sharing
mod Tests
pub mod Shift
pub mod Stream
use linux_kernel_development.Prelude.{ℕ, Bool, List, length, ◌≡◌, ◌≤◌, ℤ, neg_errno, drop, ◌++◌}

-- `struct test_usb1_device`. `in_ep`, `out_ep` and `ucd` only name the device. `locked` is the mutex.
-- The sizes are `int`s that come from a 16-bit field.
pub record TestUsb1Device : Type 0 where
  pub in_buf_size : ℕ
  pub out_buf_size : ℕ
  pub in_buf : List ℕ
  pub out_buf : List ℕ
  pub in_buf_left_over : ℕ
  pub locked : Bool

abbrev pub etimedout : ℤ
etimedout = neg_errno 110

-- Bytes copied over the start of a buffer.
abbrev pub overwrite : List ℕ → List ℕ → List ℕ
overwrite bytes buf = bytes ++ drop (length bytes) buf

-- The buffers have their sizes, and what is left over is in the buffer.
pub record IsValid (dev : TestUsb1Device) : Type 0 where
  pub in_size : length dev.in_buf ≡ dev.in_buf_size
  pub out_size : length dev.out_buf ≡ dev.out_buf_size
  pub left_over_in : dev.in_buf_left_over ≤ dev.in_buf_size
