-- ===== src/BulkLoopback/Read.antt =====
-- `test_usb1_read` of USB/usbdrv4.c.
use linux_kernel_development.Prelude.{
  ℕ, zero, suc, ◌+◌, ◌-◌, ◌==◌, ltb, leb, Bool, not, List, [], get_or, set, take, length,
  if◌then◌else◌, ℤ, pos, is_neg, eq_ℤ, efault,
}
use linux_kernel_development.BulkLoopback.{TestUsb1Device, etimedout, overwrite}

-- What `usb_bulk_msg` answers to a read: its result, and the bytes that it has put into the buffer,
-- which it counts in `read_size`.
pub record BulkIn : Type 0 where
  pub retval : ℤ
  pub bytes : List ℕ

-- The bytes at hand, or the error that the read returns.
pub data Fetched : Type 0 where
  got : ℕ → Fetched
  refused : ℤ → Fetched

-- What is left over comes first; else the device is asked. A timeout counts as no bytes.
unfoldable pub fetch : TestUsb1Device → BulkIn → TestUsb1Device × Fetched
fetch dev a =
    let filled = record dev { in_buf = overwrite a.bytes dev.in_buf } in
    if not (dev.in_buf_left_over == 0)
    then (record dev { in_buf_left_over = 0 }, got dev.in_buf_left_over)
    else (if not (is_neg a.retval)
        then (filled, got (length a.bytes))
        else (if eq_ℤ a.retval etimedout then (filled, got 0) else (filled, refused a.retval)))

-- The loop that moves the rest of the bytes to the front, from its index `j + cnt` on, for the given
-- rounds.
unfoldable pub move_down : ℕ → ℕ → ℕ → List ℕ → List ℕ
move_down zero cnt j buf = buf
move_down (suc rounds) cnt j buf = move_down rounds cnt (j + 1) (set buf j (get_or buf (j + cnt) 0))

-- What a read returns, and the bytes that have reached the user.
pub record Returned : Type 0 where
  pub rv : ℤ
  pub handed : List ℕ

-- The copy to the user, then the loop. `copied` is whether `copy_to_user` succeeds.
unfoldable pub hand_over : TestUsb1Device → ℕ → ℕ → Bool → TestUsb1Device × Returned
hand_over dev read_size cnt copied =
    let read_cnt = if leb read_size cnt then read_size else cnt in
    if not copied
    then (record dev { in_buf_left_over = read_size }, record { rv = efault; handed = [] })
    else (
      record dev {
        in_buf = move_down (read_size - cnt) cnt 0 dev.in_buf;
        in_buf_left_over = if ltb cnt read_size then read_size - cnt else 0;
      },
      record { rv = pos read_cnt; handed = take read_cnt dev.in_buf },
    )

-- `fetched` is what `fetch` has found.
abbrev pub after_fetch : TestUsb1Device × Fetched → ℕ → Bool → TestUsb1Device × Returned
after_fetch (dev, got read_size) cnt copied = hand_over dev read_size cnt copied
after_fetch (dev, refused retval) cnt copied = (dev, record { rv = retval; handed = [] })

unfoldable pub test_usb1_read : TestUsb1Device → ℕ → BulkIn → Bool → TestUsb1Device × Returned
test_usb1_read dev cnt a copied = after_fetch (fetch dev a) cnt copied
