-- ===== src/UartDriver/Tests.antt =====
-- The theorems on UartDriver/test_serial.c at concrete inputs, and runs of its definitions.
use linux_kernel_development.Prelude.{◌≡◌, refl, true, false, [], ◌∷◌, pos, negsuc, enomem, arith}
use linux_kernel_development.Kernel.Ledger.{Settled, leaves, nothing, outstanding_of_leaves}
use linux_kernel_development.UartDriver.{UartPort}
use linux_kernel_development.UartDriver.Transmit.{tx_loop, test_tx_chars}
use linux_kernel_development.UartDriver.Timer.{
  unallocated, idle, test_startup, test_shutdown, test_timer, test_init,
}
use linux_kernel_development.UartDriver.Queue.{IsValid, Serves, test_tx_chars-Serves}

-- Three characters queued at the start of the ring, and a hardware buffer of four.
abbrev three_queued : UartPort
three_queued = record {
  x_char = 0;
  fifosize = 4;
  icount_tx = 9;
  buf = 97 ∷ (98 ∷ (99 ∷ []));
  head = 3;
  tail = 0;
  tx_stopped = false;
}

three_queued-IsValid : IsValid three_queued
three_queued-IsValid = record { head_in = omega arith; tail_in = omega arith }

test_tx_chars-Serves_example : Serves three_queued (test_tx_chars three_queued)
test_tx_chars-Serves_example = test_tx_chars-Serves three_queued three_queued-IsValid (omega arith)

two_sent : (test_tx_chars three_queued).wrote ≡ 97 ∷ 98 ∷ []
unfolding test_tx_chars tx_loop
two_sent = refl

writers_woken : (test_tx_chars three_queued).woken ≡ true
unfolding test_tx_chars tx_loop
writers_woken = refl

no_timer_memory : test_startup false unallocated ≡ (unallocated, enomem)
unfolding test_startup
no_timer_memory = refl

stopped : test_shutdown (test_startup true unallocated).0 ≡ idle
unfolding test_startup test_shutdown
stopped = refl

-- Without a tty the timer does not add itself again.
no_tty : (test_timer false three_queued).timer ≡ idle
unfolding test_timer
no_tty = refl

-- A port that cannot be added takes the driver's registration back.
port_refused-Settled : Settled (test_init (pos 0) (negsuc 11)).0
unfolding test_init leaves
port_refused-Settled = outstanding_of_leaves nothing (test_init (pos 0) (negsuc 11)).0 refl
