-- ===== src/UartDriver/Transmit.antt =====
-- `test_tx_chars` of UartDriver/test_serial.c.
use linux_kernel_development.Prelude.{
  ℕ, zero, suc, ◌+◌, ◌-◌, ◌/◌, ◌%◌, ◌==◌, ltb, Bool, false, not, ◌||◌, List, [], ◌∷◌, get_or,
  if◌then◌else◌,
}
use linux_kernel_development.UartDriver.{UartPort, uart_xmit_size, wakeup_chars, u32_mod}

-- The kernel's `uart_circ_empty` and `uart_circ_chars_pending`.
abbrev pub uart_circ_empty : UartPort → Bool
uart_circ_empty p = p.head == p.tail

abbrev pub uart_circ_chars_pending : UartPort → ℕ
uart_circ_chars_pending p = (p.head + (uart_xmit_size - p.tail)) % uart_xmit_size

-- A character leaves the ring. The size of the ring is a power of two, so the mask is a remainder.
abbrev pub advance : UartPort → UartPort
advance p = record p {
  tail = (p.tail + 1) % uart_xmit_size;
  icount_tx = (p.icount_tx + 1) % u32_mod;
}

-- The loop, which runs once for a count of 0 or 1: the characters written, and the port.
unfoldable pub tx_loop : ℕ → UartPort → List ℕ × UartPort
tx_loop zero p = (get_or p.buf p.tail 0 ∷ [], advance p)
tx_loop (suc count) p =
    let rest = tx_loop count (advance p) in
    if uart_circ_empty (advance p) || count == 0
    then (get_or p.buf p.tail 0 ∷ [], advance p)
    else (get_or p.buf p.tail 0 ∷ rest.0, rest.1)

-- What `test_tx_chars` writes, the port that it leaves, and whether it wakes the writers. `test_stop_tx`
-- does nothing.
pub record Transmitted : Type 0 where
  pub port : UartPort
  pub wrote : List ℕ
  pub woken : Bool

abbrev pub nothing_sent : UartPort → Transmitted
nothing_sent p = record { port = p; wrote = []; woken = false }

abbrev pub from_ring : List ℕ × UartPort → Transmitted
from_ring (wrote, p) = record {
  port = p;
  wrote = wrote;
  woken = ltb (uart_circ_chars_pending p) wakeup_chars;
}

unfoldable pub test_tx_chars : UartPort → Transmitted
test_tx_chars p =
    if not (p.x_char == 0)
    then record {
      port = record p { icount_tx = (p.icount_tx + 1) % u32_mod; x_char = 0 };
      wrote = p.x_char ∷ [];
      woken = false;
    }
    else (if uart_circ_empty p || p.tx_stopped
        then nothing_sent p
        else from_ring (tx_loop (p.fifosize / 2) p))
