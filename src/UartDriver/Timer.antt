-- ===== src/UartDriver/Timer.antt =====
-- The timer and the setup of UartDriver/test_serial.c.
use linux_kernel_development.Prelude.{
  ℕ, Bool, true, false, not, Option, none, some, [], ◌∷◌, if◌then◌else◌, ℤ, pos, eq_ℤ, enomem,
}
use linux_kernel_development.Kernel.Ledger.{taken, given, Events, uart_driver}
use linux_kernel_development.UartDriver.{UartPort}
use linux_kernel_development.UartDriver.Transmit.{Transmitted, test_tx_chars, nothing_sent}

-- `timer`: not allocated, or allocated and pending or not.
pub data TimerList : Type 0 where
  unallocated idle pending : TimerList

abbrev pub is_allocated : TimerList → Bool
is_allocated unallocated = false
is_allocated t = true

-- `kmalloc_ok` is whether there is memory for the timer.
unfoldable pub test_startup : Bool → TimerList → TimerList × ℤ
test_startup kmalloc_ok t =
    if not (is_allocated t)
    then (if not kmalloc_ok then (unallocated, enomem) else (pending, pos 0))
    else (pending, pos 0)

-- `del_timer`
unfoldable pub test_shutdown : TimerList → TimerList
test_shutdown unallocated = unallocated
test_shutdown t = idle

-- A run of the timer: the timer, the character received by the tty if it has one, and what is sent.
-- `has_tty` is whether none of the pointers on the way to the tty is NULL.
pub record Ticked : Type 0 where
  pub timer : TimerList
  pub received : Option ℕ
  pub sent : Transmitted

unfoldable pub test_timer : Bool → UartPort → Ticked
unfolding test_tx_chars
test_timer has_tty p =
    if not has_tty
    then record { timer = idle; received = none; sent = nothing_sent p }
    else record { timer = pending; received = some 116; sent = test_tx_chars p }

-- `register` and `add_port` are what the two calls of the kernel return.
unfoldable pub test_init : ℤ → ℤ → Events × ℤ
test_init register add_port =
    if not (eq_ℤ register (pos 0))
    then ([], register)
    else (if not (eq_ℤ add_port (pos 0))
        then (taken uart_driver ∷ given uart_driver ∷ [], add_port)
        else (taken uart_driver ∷ [], add_port))
