-- ===== src/UsbSkeleton/Read.antt =====
-- `skel_read` of USB/usbdrv3.c.
use linux_kernel_development.Prelude.{
  ℕ, ◌+◌, ◌-◌, ◌%◌, min, Bool, true, false, Option, none, some, List, [], ◌∷◌, take, drop, ℤ, pos,
  is_neg, eq_ℤ, epipe, eio, eagain, enodev, efault, erestartsys, ◌==◌, ltb, if◌then◌else◌,
}
use linux_kernel_development.UsbSkeleton.{
  UsbSkel, Completion, size_mod, skel_read_bulk_callback, skel_do_read_io,
}

-- The arguments of the call, `file->f_flags & O_NONBLOCK`, and the value that
-- `mutex_lock_interruptible` returns.
pub record ReadCall : Type 0 where
  pub count : ℕ
  pub nonblock : Bool
  pub lock_rv : ℤ

-- What happens round one pass from `retry:` on. The read URB may complete before the pass looks at
-- `ongoing_read`; a wait ends with its completion, or (`none`) with a signal. Then the values of
-- `usb_submit_urb` and of `copy_to_user` in this pass.
pub record Round : Type 0 where
  pub before : Option Completion
  pub during : Option Completion
  pub submit_rv : ℤ
  pub copy_fails : Bool

-- `blocked`: more rounds are needed. `finished` has the value returned, and the bytes that have
-- reached the user's buffer if `copy_to_user` succeeded.
pub data Reply : Type 0 where
  blocked : UsbSkel → Reply
  finished : UsbSkel → ℤ → List ℕ → Reply

-- The label `exit:`.
unfoldable pub unlock_exit : UsbSkel → ℤ → List ℕ → Reply
unlock_exit dev rv out = finished (record dev { io_mutex = false }) rv out

-- Only a URB under way completes.
unfoldable pub settle : UsbSkel → Option Completion → UsbSkel
settle dev none = dev
settle dev (some c) = if dev.ongoing_read then skel_read_bulk_callback dev c else dev

-- `size_t available = dev->bulk_in_filled - dev->bulk_in_copied`
abbrev pub available_of : UsbSkel → ℕ
available_of dev = (dev.bulk_in_filled + size_mod - dev.bulk_in_copied) % size_mod

-- The copy of a chunk to the user, and the transfer started for what is still wanted.
unfoldable pub deliver : ReadCall → Round → UsbSkel → Reply
unfolding unlock_exit
deliver call r dev =
    let chunk = min (available_of dev) call.count in
    let moved = record dev { bulk_in_copied = (dev.bulk_in_copied + chunk) % size_mod } in
    let rv = if r.copy_fails then efault else pos chunk in
    let out =
      if r.copy_fails then [] else take chunk (drop dev.bulk_in_copied dev.bulk_in_buffer) in
    if ltb (available_of dev) call.count
    then unlock_exit (skel_do_read_io moved (call.count - chunk) r.submit_rv).0 rv out
    else unlock_exit moved rv out

-- A transfer is started; `again` is the jump to `retry:`.
unfoldable pub start_io : ReadCall → Round → (UsbSkel → Reply) → UsbSkel → Reply
unfolding unlock_exit
start_io call r again dev =
    let (dev', rv) = skel_do_read_io dev call.count r.submit_rv in
    if is_neg rv then unlock_exit dev' rv [] else again dev'

-- From the report of errors on.
unfoldable pub serve : ReadCall → Round → (UsbSkel → Reply) → UsbSkel → Reply
unfolding unlock_exit
serve call r again dev =
    if is_neg dev.errors
    then unlock_exit (record dev { errors = pos 0 })
        (if eq_ℤ dev.errors epipe then dev.errors else eio) []
    else (if dev.bulk_in_filled == 0
        then start_io call r again dev
        else (if available_of dev == 0 then start_io call r again dev else deliver call r dev))

-- The end of `wait_event_interruptible`, which a completion of the URB or a signal brings about.
unfoldable pub wake_up : ReadCall → Round → (UsbSkel → Reply) → UsbSkel → Option Completion → Reply
wake_up call r again dev none = unlock_exit dev erestartsys []
wake_up call r again dev (some c) = serve call r again (skel_read_bulk_callback dev c)

-- One pass from `retry:` on.
unfoldable pub attempt : ReadCall → Round → (UsbSkel → Reply) → UsbSkel → Reply
attempt call r again dev =
    let seen = settle dev r.before in
    if seen.ongoing_read
    then (if call.nonblock then unlock_exit seen eagain [] else wake_up call r again seen r.during)
    else serve call r again seen

unfoldable pub retry : ReadCall → List Round → UsbSkel → Reply
retry call [] dev = blocked dev
retry call (r ∷ rs) dev = attempt call r (retry call rs) dev

unfoldable pub skel_read : ReadCall → List Round → UsbSkel → Reply
unfolding unlock_exit
skel_read call rs dev =
    if call.count == 0
    then finished dev (pos 0) []
    else (if is_neg call.lock_rv
        then finished dev call.lock_rv []
        else (let locked = record dev { io_mutex = true } in
            if dev.disconnected then unlock_exit locked enodev [] else retry call rs locked))
