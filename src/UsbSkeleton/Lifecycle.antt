-- ===== src/UsbSkeleton/Lifecycle.antt =====
-- `skel_probe`, `skel_open`, `skel_release`, `skel_disconnect` and `skel_delete` of USB/usbdrv3.c, with
-- the resources that they take and give back. `kref_put` deletes when the count falls to 0.
use linux_kernel_development.Prelude.{
  ℕ, ◌+◌, ◌-◌, Bool, true, false, not, Option, none, some, List, [], ◌∷◌, ◌++◌, ℤ, pos, eq_ℤ,
  enomem, enodev, ◌==◌, if◌then◌else◌,
}
use linux_kernel_development.Kernel.Ledger.{
  taken, given, Events, memory, usb_device_ref, interface_ref, read_buffer, read_urb,
  interface_data, minor_number,
}
use linux_kernel_development.UsbSkeleton.{UsbSkel, writes_in_flight}
use linux_kernel_development.UsbSkeleton.Write.{Drained, skel_draw_down}

-- `skel_delete`, of a device whose read URB and read buffer are not NULL as the flags say.
unfoldable pub skel_delete : Bool → Bool → Events
skel_delete urb buffer =
    (if urb then given read_urb ∷ [] else [])
    ++ given interface_ref ∷ given usb_device_ref ∷ (if buffer then given read_buffer ∷ [] else [])
    ++ given memory ∷ []

-- What the kernel answers to `skel_probe`: its allocations, `usb_find_common_endpoints`,
-- `usb_endpoint_maxp` with the memory of that size, `usb_register_dev`.
pub record ProbeAnswers : Type 0 where
  pub allocated : Bool
  pub endpoints_rv : ℤ
  pub maxp : ℕ
  pub buffer : Option (List ℕ)
  pub urb_allocated : Bool
  pub register_rv : ℤ

-- The outcome of `skel_probe`: the device, if it stays, the events, and the value returned.
pub record Probed : Type 0 where
  pub dev : Option UsbSkel
  pub log : Events
  pub rv : ℤ

-- The label `error:` of `skel_probe`. The count is 1 there, so `kref_put` deletes.
unfoldable pub probe_error : Events → Bool → Bool → ℤ → Probed
probe_error log urb buffer rv = record { dev = none; log = log ++ skel_delete urb buffer; rv = rv }

-- The device as it is registered.
abbrev pub fresh : ℕ → List ℕ → UsbSkel
fresh maxp buf = record {
  limit_sem = writes_in_flight;
  submitted = 0;
  buffers = 0;
  urbs = 0;
  urb_length = 0;
  bulk_in_buffer = buf;
  bulk_in_size = maxp;
  bulk_in_filled = 0;
  bulk_in_copied = 0;
  errors = pos 0;
  ongoing_read = false;
  kref = 1;
  io_mutex = false;
  disconnected = false;
}

-- From the allocation of the URB on.
unfoldable pub probe_with_buffer : ProbeAnswers → Events → List ℕ → Probed
probe_with_buffer a log buf =
    let with_urb = log ++ taken read_urb ∷ [] in
    if not a.urb_allocated
    then probe_error log false true enomem
    else (if eq_ℤ a.register_rv (pos 0)
        then record {
          dev = some (fresh a.maxp buf);
          log = with_urb ++ taken interface_data ∷ taken minor_number ∷ [];
          rv = pos 0;
        }
        else probe_error (with_urb ++ taken interface_data ∷ given interface_data ∷ []) true true
            a.register_rv)

-- From the allocation of the buffer on.
unfoldable pub probe_buffer : ProbeAnswers → Events → Option (List ℕ) → Probed
probe_buffer a log none = probe_error log false false enomem
probe_buffer a log (some buf) = probe_with_buffer a (log ++ taken read_buffer ∷ []) buf

unfoldable pub skel_probe : ProbeAnswers → Probed
skel_probe a =
    let log = taken memory ∷ taken usb_device_ref ∷ taken interface_ref ∷ [] in
    if not a.allocated
    then record { dev = none; log = []; rv = enomem }
    else (if eq_ℤ a.endpoints_rv (pos 0)
        then probe_buffer a log a.buffer
        else probe_error log false false a.endpoints_rv)

-- `skel_open`: whether `usb_find_interface` finds the interface and whether it has a device, and the
-- value of `usb_autopm_get_interface`.
unfoldable pub skel_open : UsbSkel → Bool → Bool → ℤ → UsbSkel × ℤ
skel_open dev found has_data autopm_rv =
    if not found
    then (dev, enodev)
    else (if not has_data
        then (dev, enodev)
        else (if eq_ℤ autopm_rv (pos 0)
            then (record dev { kref = dev.kref + 1 }, pos 0)
            else (dev, autopm_rv)))

-- `kref_put(&dev->kref, skel_delete)` on a registered device.
unfoldable pub put_device : UsbSkel → UsbSkel × Events
put_device dev =
    (record dev { kref = dev.kref - 1 }, if dev.kref - 1 == 0 then skel_delete true true else [])

-- `skel_release` of a file that has a device.
unfoldable pub skel_release : UsbSkel → UsbSkel × Events
skel_release dev = put_device dev

-- `skel_disconnect`; the URBs complete while they are killed.
unfoldable pub skel_disconnect : UsbSkel → Drained → UsbSkel × Events
skel_disconnect dev e =
    let (gone, log) = put_device (skel_draw_down (record dev { disconnected = true }) e) in
    (gone, given interface_data ∷ given minor_number ∷ log)
