-- ===== src/UsbSkeleton/Bounds.antt =====
-- The counters of USB/usbdrv3.c stay inside the read buffer.
use linux_kernel_development.Prelude.{
  ℕ, ◌+◌, ◌-◌, ◌≤◌, ◌<◌, ◌≡◌, min, Bool, true, false, List, length, ℤ, arith, ◌^◌,
}
use linux_kernel_development.UsbSkeleton.{
  UsbSkel, Completion, IsLawful, skel_read_bulk_callback, skel_do_read_io,
}
use linux_kernel_development.UsbSkeleton.Read.{
  ReadCall, Round, unlock_exit, available_of, deliver, skel_read,
}
use linux_kernel_development.UsbSkeleton.Rule.{AllLawful, left, IsKept, skel_read_keeps}

-- The buffer has the size of an endpoint's packet, which is less than 2^16; what has been copied was
-- received, and what was received fits; a transfer under way starts from an empty buffer.
pub record IsValid (dev : UsbSkel) : Type 0 where
  pub buffer_length : length dev.bulk_in_buffer ≡ dev.bulk_in_size
  pub packet : dev.bulk_in_size < 2 ^ 16
  pub requested : dev.urb_length ≤ dev.bulk_in_size
  pub received : dev.bulk_in_filled ≤ dev.bulk_in_size
  pub handed_over : dev.bulk_in_copied ≤ dev.bulk_in_filled
  pub fresh_start : dev.ongoing_read ≡ true → (dev.bulk_in_filled ≡ 0) × (dev.bulk_in_copied ≡ 0)

-- The buffer holds whatever a copy to the user reads from.
pub copy_in_bounds :
    (dev : UsbSkel) (count : ℕ)
    → IsValid dev
    → (available_of dev ≡ dev.bulk_in_filled - dev.bulk_in_copied)
      × (dev.bulk_in_copied + min (available_of dev) count ≤ length dev.bulk_in_buffer)
copy_in_bounds dev count v = omega arith

pub callback-IsValid :
    (dev : UsbSkel) (c : Completion)
    → IsValid dev
    → dev.ongoing_read ≡ true
    → IsLawful c
    → IsValid (skel_read_bulk_callback dev c)
unfolding skel_read_bulk_callback
callback-IsValid dev c v on l =
    ground
      (arith, v.fresh_start on, l.length_fill dev.bulk_in_buffer, l.actual_length_le dev.urb_length)

pub skel_do_read_io-IsValid :
    (dev : UsbSkel) (count : ℕ) (rv : ℤ) → IsValid dev → IsValid (skel_do_read_io dev count rv).0
unfolding skel_do_read_io
skel_do_read_io-IsValid dev count rv v = ground arith

-- The mutex is not in the invariant.
pub relock : (dev : UsbSkel) (held : Bool) → IsValid dev → IsValid (record dev { io_mutex = held })
relock dev held v = ground arith

deliver-IsValid :
    (call : ReadCall) (r : Round) (dev : UsbSkel)
    → IsValid dev
    → dev.ongoing_read ≡ false
    → IsValid (left (deliver call r dev))
unfolding deliver unlock_exit skel_do_read_io
deliver-IsValid call r dev v off = ground arith

pub IsValid-IsKept : IsKept IsValid
IsValid-IsKept = record {
  callback = callback-IsValid;
  start = skel_do_read_io-IsValid;
  delivery = deliver-IsValid;
  clear = λ dev v. ground arith;
  lock = relock;
}

-- `skel_read` keeps the counters and the buffer valid, however long it takes, whether it returns data
-- or an error or still waits, if the USB core keeps its promises.
pub skel_read-IsValid :
    (call : ReadCall) (rs : List Round) (dev : UsbSkel)
    → AllLawful rs
    → IsValid dev
    → IsValid (left (skel_read call rs dev))
skel_read-IsValid = skel_read_keeps IsValid IsValid-IsKept
