-- ===== src/UartDriver.antt =====
-- UartDriver/test_serial.c: a serial port whose timer sends what the line discipline has queued.
pub mod Transmit
pub mod Timer
pub mod Queue
mod Tests
use linux_kernel_development.Prelude.{ℕ, Bool, List}

-- What the driver uses of `struct uart_port` and of its transmit ring. `icount_tx` is a 32-bit count.
pub record UartPort : Type 0 where
  pub x_char : ℕ
  pub fifosize : ℕ
  pub icount_tx : ℕ
  pub buf : List ℕ
  pub head : ℕ
  pub tail : ℕ
  pub tx_stopped : Bool

-- `UART_XMIT_SIZE` is the kernel's `PAGE_SIZE`, and `WAKEUP_CHARS` its constant.
abbrev pub uart_xmit_size : ℕ
uart_xmit_size = 4096

abbrev pub wakeup_chars : ℕ
wakeup_chars = 256

abbrev pub u32_mod : ℕ
u32_mod = 4294967296
