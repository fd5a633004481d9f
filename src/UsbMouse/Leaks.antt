-- ===== src/UsbMouse/Leaks.antt =====
-- What the probe and the disconnect of USB/usbdrv1.c leave taken.
use linux_kernel_development.Prelude.{
  none, some, ◌++◌, pos, ◌&&◌, ◌==◌, Bool, true, false, is_neg, ◌≡◌, arith,
}
use linux_kernel_development.Kernel.Ledger.{
  input_device, minor_number, char_number, input_device, read_urb, coherent_buffer, memory,
  outstanding, Settled, leaves, nothing, outstanding_of_leaves,
}
use linux_kernel_development.UsbMouse.Probe.{dev_disconnect, Answers, dev_probe}

early_failure-leaves :
    (a : Answers) (registered : Bool)
    → is_neg a.register_chrdev ≡ false
    → is_neg (dev_probe a registered).rv ≡ true
    → leaves nothing (dev_probe a registered).log ≡ true
unfolding dev_probe leaves
early_failure-leaves a registered granted failed = ground arith

-- A probe that fails before it asks for the character device has given back, once, all that it took.
early_failure-Settled :
    (a : Answers) (registered : Bool)
    → is_neg a.register_chrdev ≡ false
    → is_neg (dev_probe a registered).rv ≡ true
    → Settled (dev_probe a registered).log
early_failure-Settled a registered granted failed =
    outstanding_of_leaves nothing (dev_probe a registered).log
      (early_failure-leaves a registered granted failed)

-- A probe that has registered its input device never gives back the mouse, its data, its URB or the
-- input device: not when it then fails for the character device, and not when the mouse is
-- disconnected, which gives back a minor number that was never taken.
mouse_leaks :
    (a : Answers) (registered : Bool)
    → (a.endpoints == 1) && (a.is_int_in && (a.mouse_ok && (a.input_ok && (a.data_ok && a.urb_ok))))
      ≡ true
    → a.register_input ≡ pos 0
    → let p = dev_probe a registered in
      let whole = p.log ++ (dev_disconnect p.registered).0 in
      (p.rv ≡ a.register_chrdev)
      × (outstanding memory 0 p.log ≡ some 1)
      × (outstanding coherent_buffer 0 p.log ≡ some 1)
      × (outstanding read_urb 0 p.log ≡ some 1)
      × (outstanding memory 0 whole ≡ some 1)
      × (outstanding coherent_buffer 0 whole ≡ some 1)
      × (outstanding read_urb 0 whole ≡ some 1)
      × (outstanding input_device 0 whole ≡ some 1)
      × (outstanding char_number 0 whole ≡ some 0)
      × (outstanding minor_number 0 whole ≡ none)
unfolding dev_probe dev_disconnect outstanding
mouse_leaks a registered ok done = ground arith
