-- ===== src/UsbSkeleton/Write.antt =====
-- `skel_write` of USB/usbdrv3.c and the completion of its URBs; `skel_draw_down` and its callers.
use linux_kernel_development.Prelude.{
  ℕ, ◌+◌, ◌-◌, min, Bool, true, false, not, Option, List, [], ◌∷◌, ℤ, pos, is_neg, eq_ℤ, epipe, eio,
  eagain, enodev, enomem, efault, erestartsys, ◌==◌, if◌then◌else◌,
}
use linux_kernel_development.UsbSkeleton.{UsbSkel, Completion, max_transfer}
use linux_kernel_development.UsbSkeleton.Read.{settle}

-- The arguments of the call, and what the kernel answers: whether `down_interruptible` or
-- `down_trylock` gets the semaphore, whether the URB and the buffer are allocated, whether
-- `copy_from_user` fails, and the value of `usb_submit_urb`.
pub record WriteCall : Type 0 where
  pub count : ℕ
  pub nonblock : Bool
  pub gets_sem : Bool
  pub urb_allocated : Bool
  pub buffer_allocated : Bool
  pub copy_fails : Bool
  pub submit_rv : ℤ

-- The label `error:`, with `urb` and `buf` not NULL as the flags say. Freeing a NULL buffer does
-- nothing.
unfoldable pub error_exit : UsbSkel → Bool → Bool → ℤ → UsbSkel × ℤ
error_exit dev urb buf rv = (
  record dev {
    buffers = if urb then (if buf then dev.buffers - 1 else dev.buffers) else dev.buffers;
    urbs = if urb then dev.urbs - 1 else dev.urbs;
    limit_sem = dev.limit_sem + 1;
  },
  rv,
)

-- From `mutex_lock(&dev->io_mutex)` on.
unfoldable pub submit_write : WriteCall → UsbSkel → UsbSkel × ℤ
unfolding error_exit
submit_write call dev =
    let anchored = record dev { submitted = dev.submitted + 1 } in
    if dev.disconnected
    then error_exit dev true true enodev
    else (if eq_ℤ call.submit_rv (pos 0)
        then (record anchored { urbs = dev.urbs - 1 }, pos (min call.count max_transfer))
        else error_exit (record anchored { submitted = anchored.submitted - 1 }) true true
            call.submit_rv)

-- From the allocation of the URB on, with the semaphore taken.
unfoldable pub prepare_write : WriteCall → UsbSkel → UsbSkel × ℤ
unfolding error_exit submit_write
prepare_write call dev =
    let with_urb = record dev { urbs = dev.urbs + 1 } in
    let with_buffer = record with_urb { buffers = dev.buffers + 1 } in
    if not call.urb_allocated
    then error_exit dev false false enomem
    else (if not call.buffer_allocated
        then error_exit with_urb true false enomem
        else (if call.copy_fails
            then error_exit with_buffer true true efault
            else submit_write call with_buffer))

unfoldable pub skel_write : WriteCall → UsbSkel → UsbSkel × ℤ
unfolding error_exit prepare_write
skel_write call dev =
    let down = record dev { limit_sem = dev.limit_sem - 1 } in
    if call.count == 0
    then (dev, pos 0)
    else (if not call.gets_sem
        then (dev, if call.nonblock then eagain else erestartsys)
        else (if is_neg dev.errors
            then error_exit (record down { errors = pos 0 }) false false
                (if eq_ℤ dev.errors epipe then dev.errors else eio)
            else prepare_write call down))

-- `skel_write_bulk_callback`, called with the status of a URB that the core has taken off the anchor.
unfoldable pub skel_write_bulk_callback : UsbSkel → ℤ → UsbSkel
skel_write_bulk_callback dev status = record dev {
  errors = if eq_ℤ status (pos 0) then dev.errors else status;
  buffers = dev.buffers - 1;
  limit_sem = dev.limit_sem + 1;
}

-- The core completes an anchored URB.
unfoldable pub complete_write : UsbSkel → ℤ → UsbSkel
unfolding skel_write_bulk_callback
complete_write dev status =
    skel_write_bulk_callback (record dev { submitted = dev.submitted - 1 }) status

unfoldable pub complete_writes : UsbSkel → List ℤ → UsbSkel
complete_writes dev [] = dev
complete_writes dev (s ∷ ss) = complete_writes (complete_write dev s) ss

-- What completes while `usb_wait_anchor_empty_timeout`, `usb_kill_anchored_urbs` and `usb_kill_urb`
-- run: the statuses of the write URBs, in order, and the read URB, if one is under way.
pub record Drained : Type 0 where
  pub writes : List ℤ
  pub read : Option Completion

unfoldable pub skel_draw_down : UsbSkel → Drained → UsbSkel
unfolding complete_writes settle
skel_draw_down dev e = settle (complete_writes dev e.writes) e.read

-- `skel_flush`: the new state and the value returned.
unfoldable pub skel_flush : UsbSkel → Drained → UsbSkel × ℤ
unfolding skel_draw_down
skel_flush dev e =
    let quiet = skel_draw_down (record dev { io_mutex = true }) e in
    (
      record quiet { errors = pos 0; io_mutex = false },
      if eq_ℤ quiet.errors (pos 0) then pos 0 else (if eq_ℤ quiet.errors epipe then epipe else eio),
    )

-- `skel_suspend` returns 0 as well where there is no device.
unfoldable pub skel_suspend : UsbSkel → Drained → UsbSkel × ℤ
unfolding skel_draw_down
skel_suspend dev e = (skel_draw_down dev e, pos 0)

unfoldable pub skel_resume : UsbSkel → UsbSkel × ℤ
skel_resume dev = (dev, pos 0)

-- `skel_pre_reset` leaves the mutex locked.
unfoldable pub skel_pre_reset : UsbSkel → Drained → UsbSkel × ℤ
unfolding skel_draw_down
skel_pre_reset dev e = (skel_draw_down (record dev { io_mutex = true }) e, pos 0)

unfoldable pub skel_post_reset : UsbSkel → UsbSkel × ℤ
skel_post_reset dev = (record dev { errors = epipe; io_mutex = false }, pos 0)
