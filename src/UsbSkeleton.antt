-- ===== src/UsbSkeleton.antt =====
-- USB/usbdrv3.c: the USB skeleton driver. This file holds the state of a device, the completion of
-- its read URB and the start of a transfer; the children hold the file operations and the driver's
-- callbacks. A handler takes the state to the next one; what the kernel answers to its calls is an
-- argument. `err_lock` guards single assignments, which are single steps here, and has no field.
pub mod Read
pub mod Write
pub mod Lifecycle
pub mod Rule
pub mod Bounds
pub mod Delivery
pub mod Answers
pub mod Errors
pub mod Flight
pub mod References
pub mod Freeing
mod Tests
use linux_kernel_development.Prelude.{
  ℕ, ◌+◌, ◌-◌, ◌≤◌, ◌^◌, ◌≡◌, min, Bool, true, false, List, length, ℤ, pos, is_neg, eq_ℤ, enomem,
  eio, ◌==◌, if◌then◌else◌, ◌&&◌,
}

-- `struct usb_skel`, but for the handles that the kernel gives out. The mutex is the flag whether it
-- is held, and `submitted` counts the anchored URBs. `urb_length` is the transfer length that
-- `bulk_in_urb` was last filled with. `buffers` and `urbs` are no fields of the struct: they count the
-- write buffers and the references to write URBs that the driver has and has not given back.
pub record UsbSkel : Type 0 where
  pub limit_sem : ℕ
  pub submitted : ℕ
  pub buffers : ℕ
  pub urbs : ℕ
  pub urb_length : ℕ
  pub bulk_in_buffer : List ℕ
  pub bulk_in_size : ℕ
  pub bulk_in_filled : ℕ
  pub bulk_in_copied : ℕ
  pub errors : ℤ
  pub ongoing_read : Bool
  pub kref : ℕ
  pub io_mutex : Bool
  pub disconnected : Bool

abbrev pub writes_in_flight : ℕ
writes_in_flight = 8

-- `PAGE_SIZE - 512`, for pages of 4096 bytes.
abbrev pub max_transfer : ℕ
max_transfer = 3584

-- The modulus of `size_t`.
abbrev pub size_mod : ℕ
size_mod = 2 ^ 64

-- How the USB core completes a transfer: the status, the number of bytes for a transfer of a given
-- length, and what the transfer makes of the buffer.
pub record Completion : Type 0 where
  pub status : ℤ
  pub actual_length : ℕ → ℕ
  pub fill : List ℕ → List ℕ

-- The core's promises: no more bytes than asked for, and a buffer of the same size.
pub record IsLawful (c : Completion) : Type 0 where
  pub actual_length_le : (n : ℕ) → c.actual_length n ≤ n
  pub length_fill : (buf : List ℕ) → length (c.fill buf) ≡ length buf

-- `skel_read_bulk_callback`, with the transfer that it follows.
unfoldable pub skel_read_bulk_callback : UsbSkel → Completion → UsbSkel
skel_read_bulk_callback dev c =
    if eq_ℤ c.status (pos 0)
    then record dev {
      bulk_in_buffer = c.fill dev.bulk_in_buffer;
      bulk_in_filled = c.actual_length dev.urb_length;
      ongoing_read = false;
    }
    else record dev {
      bulk_in_buffer = c.fill dev.bulk_in_buffer;
      errors = c.status;
      ongoing_read = false;
    }

-- `skel_do_read_io`: the new state and the value returned. `submitted_rv` is what `usb_submit_urb`
-- returns.
unfoldable pub skel_do_read_io : UsbSkel → ℕ → ℤ → UsbSkel × ℤ
skel_do_read_io dev count submit_rv =
    let started = record dev {
      urb_length = min dev.bulk_in_size count;
      ongoing_read = true;
      bulk_in_filled = 0;
      bulk_in_copied = 0;
    } in
    if is_neg submit_rv
    then (record started { ongoing_read = false }, if eq_ℤ submit_rv enomem then submit_rv else eio)
    else (started, submit_rv)
