-- ===== src/BulkLoopback/Sharing.antt =====
-- `test_usb1_open` and `test_usb1_close` of USB/usbdrv4.c, and what they and the disconnect do to one
-- another. The USB core keeps `test_usb1_open` and `usb_deregister_dev` apart.
use linux_kernel_development.Prelude.{
  ℕ, ◌+◌, ◌-◌, ◌≡◌, ◌≢◌, Bool, true, false, not, if◌then◌else◌, ℤ, pos, enodev, ebusy, arith,
}
use linux_kernel_development.BulkLoopback.{TestUsb1Device}

-- A device and its surroundings: `bound` is whether the interface is found and has the device as its
-- data, `leaving` whether a disconnect has started and waits for the mutex, `freed` whether it has
-- given the memory back, and `files` how many files have the device open.
pub record Binding : Type 0 where
  pub dev : TestUsb1Device
  pub bound : Bool
  pub leaving : Bool
  pub freed : Bool
  pub files : ℕ

unfoldable pub test_usb1_open : Binding → Binding × ℤ
test_usb1_open s =
    let opened = record (s.dev) { locked = true; in_buf_left_over = 0 } in
    if not s.bound
    then (s, enodev)
    else (if s.dev.locked
        then (s, ebusy)
        else (record s { dev = opened; files = s.files + 1 }, pos 0))

unfoldable pub test_usb1_close : Binding → Binding × ℤ
test_usb1_close s =
    (record s { dev = record (s.dev) { locked = false }; files = s.files - 1 }, pos 0)

-- The disconnect up to its `mutex_lock`, and the rest of it.
unfoldable pub disconnect_starts : Binding → Binding
disconnect_starts s = record s { bound = false; leaving = true }

unfoldable pub disconnect_frees : Binding → Binding
disconnect_frees s = record s { leaving = false; freed = true }

-- A file is closed only if it is open, a device is disconnected only once, and the rest of the
-- disconnect waits for the mutex.
pub data Step (s : Binding) : Binding → Type 0 where
  opens : Step s (test_usb1_open s).0
  closes : s.files ≢ 0 → Step s (test_usb1_close s).0
  starts : s.bound ≡ true → Step s (disconnect_starts s)
  ends : s.leaving ≡ true → s.dev.locked ≡ false → Step s (disconnect_frees s)

pub data Reach (s : Binding) : Binding → Type 0 where
  here : Reach s s
  then_step : {t u : Binding} → Reach s t → Step t u → Reach s u

-- The mutex is locked exactly while one file is open, and what is freed is neither bound nor open.
pub record Exclusive (s : Binding) : Type 0 where
  pub one_file : s.files ≡ (if s.dev.locked then 1 else 0)
  pub gone : s.freed ≡ true → (s.bound ≡ false) × (s.files ≡ 0)
  pub bound_only : s.leaving ≡ true → s.bound ≡ false

Step-Exclusive : {s t : Binding} → Step s t → Exclusive s → Exclusive t
unfolding test_usb1_open test_usb1_close disconnect_starts disconnect_frees
Step-Exclusive {s} opens e = ground arith
Step-Exclusive {s} (closes h) e = ground arith
Step-Exclusive {s} (starts h) e = ground arith
Step-Exclusive {s} (ends h k) e = ground arith

-- Whatever opens, closes and disconnection follow one another on a device that nobody has open, at
-- most one file has it open at a time, and it is never freed while a file has it open, nor opened once
-- it is freed.
pub Reach-Exclusive : {s t : Binding} → Reach s t → Exclusive s → Exclusive t
Reach-Exclusive here e = e
Reach-Exclusive (then_step r st) e = Step-Exclusive st (Reach-Exclusive r e)
