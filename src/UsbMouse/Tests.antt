-- ===== src/UsbMouse/Tests.antt =====
-- The theorems on USB/usbdrv1.c at concrete inputs, and runs of its definitions.
use linux_kernel_development.Prelude.{
  ℕ, ◌≡◌, refl, true, false, List, [], ◌∷◌, pos, negsuc, ℤ, enoent, eio,
}
use linux_kernel_development.UsbMouse.Probe.{Answers}
use linux_kernel_development.UsbMouse.Reports.{
  Mouse, usb_mouse_irq, usb_mouse_open, usb_mouse_close, completions,
}

abbrev granted : Answers
granted = record {
  endpoints = 1;
  is_int_in = true;
  mouse_ok = true;
  input_ok = true;
  data_ok = true;
  urb_ok = true;
  register_input = pos 0;
  register_chrdev = pos 0;
}

abbrev number_taken : Answers
number_taken = record granted { register_chrdev = negsuc 15 }

abbrev mouse : Mouse
mouse = record {
  has_mouse = true;
  has_usbdev = true;
  has_irq = true;
  in_flight = false;
  current_data = 0;
  synced = 0;
}

-- A report, a failed transfer, and an unlink.
abbrev life : List (ℤ × List ℕ × ℤ)
life = (pos 0, 3 ∷ [], pos 0) ∷ (eio, 3 ∷ [], pos 0) ∷ (enoent, [], pos 0) ∷ []

one_report : (completions (usb_mouse_open mouse (pos 0)).0 life).synced ≡ 1
unfolding usb_mouse_open usb_mouse_irq
one_report = refl

-- An open whose submission fails returns 0 all the same.
dead_mouse : (usb_mouse_open mouse (negsuc 4)).1 ≡ pos 0
unfolding usb_mouse_open
dead_mouse = refl

closed : (usb_mouse_close (usb_mouse_open mouse (pos 0)).0).in_flight ≡ false
unfolding usb_mouse_open usb_mouse_close
closed = refl
