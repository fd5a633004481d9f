-- ===== src/UsbMouse/Probe.antt =====
-- `dev_probe`, `dev_disconnect`, `usb_init` and `usb_exit` of USB/usbdrv1.c, as the events of a ledger.
use linux_kernel_development.Prelude.{
  ℕ, ◌==◌, Bool, true, false, not, ◌&&◌, [], ◌∷◌, ◌++◌, if◌then◌else◌, ℤ, pos, is_neg, eq_ℤ, enomem,
  enodev,
}
use linux_kernel_development.Kernel.Ledger.{
  taken, given, Events, memory, input_device, coherent_buffer, read_urb, char_number, minor_number,
  usb_driver,
}

-- The interface, and what the kernel answers: whether it has memory for the mouse, the input device,
-- the data and the URB, what `input_register_device` returns, and `register_chrdev`.
pub record Answers : Type 0 where
  pub endpoints : ℕ
  pub is_int_in : Bool
  pub mouse_ok : Bool
  pub input_ok : Bool
  pub data_ok : Bool
  pub urb_ok : Bool
  pub register_input : ℤ
  pub register_chrdev : ℤ

-- What the probe returns, its events, and the flag `registered`, which stays as it was if the probe does
-- not come to `register_chrdev`.
pub record Probed : Type 0 where
  pub rv : ℤ
  pub log : Events
  pub registered : Bool

-- What was got is freed; `input_free_device` and `kfree` take NULL.
abbrev pub fail1 : Answers → Events
fail1 a =
    (if a.input_ok then given input_device ∷ [] else [])
    ++ (if a.mouse_ok then given memory ∷ [] else [])

abbrev pub fail2 : Answers → Events
fail2 a = given coherent_buffer ∷ fail1 a

abbrev pub fail3 : Answers → Events
fail3 a = given read_urb ∷ fail2 a

-- The mouse and the input device are asked for both, before either is looked at.
unfoldable pub dev_probe : Answers → Bool → Probed
dev_probe a registered =
    let both =
      (if a.mouse_ok then taken memory ∷ [] else [])
      ++ (if a.input_ok then taken input_device ∷ [] else []) in
    let with_data = both ++ (taken coherent_buffer ∷ []) in
    let with_urb = with_data ++ (taken read_urb ∷ []) in
    if not (a.endpoints == 1)
    then record { rv = enodev; log = []; registered = registered }
    else (if not a.is_int_in
        then record { rv = enodev; log = []; registered = registered }
        else (if not (a.mouse_ok && a.input_ok)
            then record { rv = enomem; log = both ++ fail1 a; registered = registered }
            else (if not a.data_ok
                then record { rv = enomem; log = both ++ fail1 a; registered = registered }
                else (if not a.urb_ok
                    then record { rv = enomem; log = with_data ++ fail2 a; registered = registered }
                    else (if not (eq_ℤ a.register_input (pos 0))
                        then record {
                          rv = a.register_input;
                          log = with_urb ++ fail3 a;
                          registered = registered;
                        }
                        else (if is_neg a.register_chrdev
                            then record {
                              rv = a.register_chrdev;
                              log = with_urb;
                              registered = false;
                            }
                            else record {
                              rv = a.register_chrdev;
                              log = with_urb ++ (taken char_number ∷ []);
                              registered = true;
                            }))))))

-- `usb_deregister_dev` gives back a minor number that the probe has not asked for. The flag is cleared.
unfoldable pub dev_disconnect : Bool → Events × Bool
dev_disconnect registered =
    (given minor_number ∷ (if registered then given char_number ∷ [] else []), false)

unfoldable pub usb_init : ℤ → Events × ℤ
usb_init register = (if eq_ℤ register (pos 0) then taken usb_driver ∷ [] else [], register)

unfoldable pub usb_exit : Events
usb_exit = given usb_driver ∷ []
