-- ===== src/UsbSkeleton/Tests.antt =====
-- Runs of USB/usbdrv3.c, and the theorems about it at concrete devices.
use linux_kernel_development.Prelude.{
  List, ℤ, ℕ, ◌-◌, ◌≤◌, ◌≡◌, ◌++◌, ◌↔◌, refl, true, false, none, some, [], ◌∷◌, pos, arith,
}
use linux_kernel_development.Kernel.Ledger.{Settled, memory, outstanding}
use linux_kernel_development.UsbSkeleton.{
  UsbSkel, Completion, IsLawful, skel_read_bulk_callback, skel_do_read_io, writes_in_flight,
}
use linux_kernel_development.UsbSkeleton.Read.{
  ReadCall, Round, finished, skel_read, retry, attempt, settle, wake_up, serve, start_io, deliver,
  unlock_exit,
}
use linux_kernel_development.UsbSkeleton.Rule.{left}
use linux_kernel_development.UsbSkeleton.Bounds.{IsValid, skel_read-IsValid}
use linux_kernel_development.UsbSkeleton.Delivery.{
  pending, IsReady, skel_read_delivers, skel_read_leaves_rest,
}
use linux_kernel_development.UsbSkeleton.Answers.{Answers, skel_read-Answers}
use linux_kernel_development.UsbSkeleton.Errors.{Unlocks, skel_read-Unlocks}
use linux_kernel_development.UsbSkeleton.Write.{
  Drained, WriteCall, skel_write, prepare_write, submit_write,
}
use linux_kernel_development.UsbSkeleton.Flight.{
  IsBalanced, Reach, here, next, writes, writes_bounded,
}
use linux_kernel_development.UsbSkeleton.Lifecycle.{
  ProbeAnswers, fresh, skel_probe, probe_buffer, probe_with_buffer, skel_open, skel_release,
  skel_disconnect, probe_error,
}
use linux_kernel_development.UsbSkeleton.References.{
  Life, Lives, probed, later, opened, closed, unplugged, while_referenced, skel_probe-Settled,
}
use linux_kernel_development.UsbSkeleton.Freeing.{skel_freed_iff}

abbrev device : UsbSkel
device = fresh 4 (0 ∷ 0 ∷ 0 ∷ 0 ∷ [])

-- Three bytes received, one of them handed over.
abbrev loaded : UsbSkel
loaded = record device {
  bulk_in_buffer = 10 ∷ 11 ∷ 12 ∷ 13 ∷ [];
  bulk_in_filled = 3;
  bulk_in_copied = 1;
}

-- A completion with as many bytes as were asked for, and no change of the buffer.
abbrev full_packet : Completion
full_packet = record { status = pos 0; actual_length = λ n. n; fill = λ buf. buf }

full_packet-IsLawful : IsLawful full_packet
full_packet-IsLawful = record { actual_length_le = λ n. omega arith; length_fill = λ buf. refl }

abbrev two_bytes : ReadCall
two_bytes = record { count = 2; nonblock = false; lock_rv = pos 0 }

abbrev quiet : Round
quiet = record { before = none; during = none; submit_rv = pos 0; copy_fails = false }

abbrev packet_arrives : Round
packet_arrives = record quiet { during = some full_packet }

-- The first pass starts a transfer, the second waits for it and copies.
skel_read_run :
    skel_read two_bytes (quiet ∷ packet_arrives ∷ []) device
    ≡ finished
        (record device { urb_length = 2; bulk_in_filled = 2; bulk_in_copied = 2 })
        (pos 2)
        (0 ∷ 0 ∷ [])
unfolding skel_read retry attempt settle wake_up serve start_io deliver unlock_exit skel_do_read_io
    skel_read_bulk_callback
skel_read_run = refl

device-IsValid : IsValid device
device-IsValid = record {
  buffer_length = refl;
  packet = omega arith;
  requested = omega arith;
  received = omega arith;
  handed_over = omega arith;
  fresh_start = λ on. cc;
}

loaded-IsValid : IsValid loaded
loaded-IsValid = record {
  buffer_length = refl;
  packet = omega arith;
  requested = omega arith;
  received = omega arith;
  handed_over = omega arith;
  fresh_start = λ on. cc;
}

skel_read-IsValid_example :
    IsValid (left (skel_read two_bytes (quiet ∷ packet_arrives ∷ []) device))
skel_read-IsValid_example =
    skel_read-IsValid two_bytes (quiet ∷ packet_arrives ∷ []) device
      (tt, tt, (tt, full_packet-IsLawful, tt)) device-IsValid

skel_read-Answers_example :
    Answers two_bytes (skel_read two_bytes (quiet ∷ packet_arrives ∷ []) device)
skel_read-Answers_example =
    skel_read-Answers two_bytes (quiet ∷ packet_arrives ∷ []) device
      (tt, tt, (tt, full_packet-IsLawful, tt)) device-IsValid

skel_read-Unlocks_example : Unlocks (skel_read two_bytes (quiet ∷ packet_arrives ∷ []) device)
skel_read-Unlocks_example = skel_read-Unlocks two_bytes (quiet ∷ packet_arrives ∷ []) device refl

two_bytes-IsReady : IsReady two_bytes loaded
two_bytes-IsReady = record {
  wanted = omega arith;
  locked = refl;
  connected = refl;
  idle = refl;
  no_error = refl;
}

skel_read_delivers_example :
    (dev' : UsbSkel) × (skel_read two_bytes (quiet ∷ []) loaded
      ≡ finished dev' (pos 2) (11 ∷ 12 ∷ []))
    × (pending dev' ≡ [])
skel_read_delivers_example =
    skel_read_delivers two_bytes quiet [] loaded loaded-IsValid two_bytes-IsReady (λ e. cc e) refl

skel_read_leaves_rest_example :
    (dev' : UsbSkel) × (rv : ℤ) × (out : List ℕ) × (skel_read two_bytes (quiet ∷ []) loaded
      ≡ finished dev' rv out)
    × (pending dev' ≡ [])
    × (dev'.ongoing_read ≡ false)
skel_read_leaves_rest_example =
    skel_read_leaves_rest two_bytes quiet [] loaded loaded-IsValid two_bytes-IsReady (omega arith)

abbrev big_write : WriteCall
big_write = record {
  count = 5000;
  nonblock = true;
  gets_sem = true;
  urb_allocated = true;
  buffer_allocated = true;
  copy_fails = false;
  submit_rv = pos 0;
}

device-IsBalanced : IsBalanced device
device-IsBalanced = omega arith

abbrev written : UsbSkel
written = record device { limit_sem = 7; submitted = 1; buffers = 1 }

one_write : Reach device written
unfolding skel_write prepare_write submit_write
one_write = next here (writes big_write (λ _. omega arith))

writes_bounded_example :
    (written.submitted ≤ writes_in_flight)
    × (written.limit_sem ≡ writes_in_flight - written.submitted)
    × (written.buffers ≡ written.submitted)
writes_bounded_example = writes_bounded {d = device} {e = written} device-IsBalanced one_write

abbrev answers : ProbeAnswers
answers = record {
  allocated = true;
  endpoints_rv = pos 0;
  maxp = 4;
  buffer = some (0 ∷ 0 ∷ 0 ∷ 0 ∷ []);
  urb_allocated = true;
  register_rv = pos 0;
}

skel_probe-Settled_example :
    ((skel_probe (record answers { urb_allocated = false })).dev ≡ none)
    × Settled (skel_probe (record answers { urb_allocated = false })).log
unfolding skel_probe probe_buffer probe_with_buffer probe_error
skel_probe-Settled_example =
    skel_probe-Settled (record answers { urb_allocated = false }) (λ e. cc e)

attached : (skel_probe answers).dev ≡ some device
unfolding skel_probe probe_buffer probe_with_buffer
attached = refl

abbrev at_rest : Drained
at_rest = record { writes = []; read = none }

abbrev bound_life : Life
bound_life = record { dev = device; opens = 0; bound = true; log = (skel_probe answers).log }

abbrev open_life : Life
open_life = record bound_life { dev = (skel_open device true true (pos 0)).0; opens = 1 }

abbrev unplugged_life : Life
unplugged_life = record open_life {
  dev = (skel_disconnect open_life.dev at_rest).0;
  bound = false;
  log = open_life.log ++ (skel_disconnect open_life.dev at_rest).1;
}

abbrev closed_life : Life
closed_life = record unplugged_life {
  dev = (skel_release unplugged_life.dev).0;
  opens = 0;
  log = unplugged_life.log ++ (skel_release unplugged_life.dev).1;
}

whole_life : Lives answers closed_life
whole_life =
    later {l = unplugged_life}
      (later {l = open_life} (later {l = bound_life} (probed attached) (opened refl))
        (unplugged at_rest refl))
      (closed refl)

skel_freed_iff_example :
    (Settled closed_life.log ↔ (◌≡◌ {A = ℕ} 0 0 × (false ≡ false)))
    × (outstanding memory 0 closed_life.log ≡ some (while_referenced closed_life.dev.kref))
    × (closed_life.dev.kref ≡ 0)
skel_freed_iff_example = skel_freed_iff {a = answers} {l = closed_life} whole_life
